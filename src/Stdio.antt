-- ===== src/Stdio.antt =====
-- lib/stdio.c: the conversion of numbers and the formats.
pub mod Digits
pub mod Pieces
pub mod Conversions
pub mod Rendered
pub mod Print
use Prim.Native.Nat.{bit_and}
use leeos.Base.{
  ℕ, zero, suc, ◌+◌, ◌-◌, ◌/◌, ◌%◌, ◌^◌, Bool, true, false, ◌==◌, if◌then◌else◌, ltb, u8, sub32,
  List, [], ◌∷◌, Run, ok, stuck, ◌>>=◌, ◌>>◌,
}
use leeos.Base.Memory.{update}
use leeos.Strings.{strlen, strcpy}

-- The character of a digit.
unfoldable pub digit_char : ℕ → ℕ
digit_char remainder =
    if ltb remainder 10 then u8 (remainder + b'0') else u8 (remainder - 10 + b'A')

-- The memory and the place behind what is written. The fuel bounds the depth of the recursion.
unfoldable pub itoa : ℕ → ℕ → ℕ → ℕ → (ℕ → ℕ) → Run ((ℕ → ℕ) × ℕ)
itoa zero number str base m = stuck
itoa (suc fuel) number str base m =
    let higher = itoa fuel (number / base) str base m in
    do
      r ← (if number / base == 0 then ok (m, str) else higher)
      ok (update r.0 r.1 (digit_char (number % base)), suc r.1)

-- The arguments are the words of the caller's stack, in order; `va_arg` takes the next one. A
-- format that asks for more than there are is not modelled: it reads 0.
abbrev pub va_arg : List ℕ → ℕ
va_arg [] = 0
va_arg (a ∷ ap) = a

abbrev pub va_rest : List ℕ → List ℕ
va_rest [] = []
va_rest (a ∷ ap) = ap

unfoldable pub is_negative : ℕ → Bool
is_negative number = ltb number 0

-- `case 'd'`.
unfoldable pub put_decimal : ℕ → ℕ → ℕ → (ℕ → ℕ) → Run ((ℕ → ℕ) × ℕ)
unfolding is_negative
put_decimal fuel number str m =
    if is_negative number
    then itoa fuel (sub32 0 number) (suc str) 10 (update m str b'-')
    else itoa fuel number str 10 m

-- `case 's'`.
unfoldable pub put_string : ℕ → ℕ → ℕ → (ℕ → ℕ) → Run ((ℕ → ℕ) × ℕ)
put_string fuel str_copy str m = do
  m1 ← strcpy fuel str str_copy m
  len ← strlen fuel m1 str_copy
  ok (m1, str + len)

-- One conversion: the memory, the place in `str`, the place in `format` and the other arguments.
-- A character that is no conversion is left for the next round of the loop.
abbrev pub Cursor : Type 0
Cursor = (ℕ → ℕ) × ℕ × ℕ × List ℕ

abbrev pub advance : ℕ → List ℕ → (ℕ → ℕ) × ℕ → Run Cursor
advance format ap r = ok (r.0, r.1, suc format, va_rest ap)

unfoldable pub convert : ℕ → ℕ → ℕ → List ℕ → (ℕ → ℕ) → Run Cursor
convert fuel str format ap m =
    if m format == b'x'
    then itoa fuel (va_arg ap) str 16 m >>= advance format ap
    else if m format == b's'
    then put_string fuel (va_arg ap) str m >>= advance format ap
    else if m format == b'c'
    then advance format ap (update m str (u8 (va_arg ap)), suc str)
    else if m format == b'd'
    then put_decimal fuel (va_arg ap) str m >>= advance format ap
    else ok (m, str, format, ap)

-- The loop; what it leaves is the memory.
unfoldable pub format_loop : ℕ → ℕ → ℕ → List ℕ → (ℕ → ℕ) → Run (ℕ → ℕ)
format_loop zero str format ap m = stuck
format_loop (suc fuel) str format ap m =
    let copied = format_loop fuel (suc str) (suc format) ap (update m str (m format)) in
    let converted : Run (ℕ → ℕ) = (do
      c ← convert fuel str (suc format) ap m
      format_loop fuel c.1 c.2 c.3 c.0) in
    if m format == 0 then ok m else if m format == b'%' then converted else copied

-- The text has no terminator of its own: `strlen` counts to the next zero byte of the memory.
unfoldable pub vsprintf : ℕ → ℕ → ℕ → List ℕ → (ℕ → ℕ) → Run ((ℕ → ℕ) × ℕ)
vsprintf fuel str format ap m = do
  m1 ← format_loop fuel str format ap m
  len ← strlen fuel m1 str
  ok (m1, len)

unfoldable pub sprintf : ℕ → ℕ → ℕ → List ℕ → (ℕ → ℕ) → Run ((ℕ → ℕ) × ℕ)
unfolding vsprintf
sprintf fuel buf format ap m = vsprintf fuel buf format ap m
