-- ===== src/Strings.antt =====
-- lib/string.c: the routines on bytes of memory, which is a function of the address.
-- A loop that runs to a terminator takes fuel: the number of bytes that it may look at.
pub mod Copies
pub mod Text
pub mod Searches
use leeos.Base.{
  ℕ, zero, suc, ◌+◌, ◌-◌, ◌^◌, Bool, true, false, not, ◌&&◌, ◌==◌, if◌then◌else◌, Option, none,
  some, ltb, Run, ok, stuck, ◌>>=◌, ◌>>◌, assert, sub32,
}
use leeos.Base.Memory.{update}

-- The `int` that a `char` with this byte is promoted to, as a word and as a number with an offset.
abbrev pub char_int : ℕ → ℕ
char_int b = if ltb b 128 then b else b + 2 ^ 32 - 256

abbrev pub char_order : ℕ → ℕ
char_order b = if ltb b 128 then b + 128 else b - 128

abbrev pub minus_one : ℕ
minus_one = 2 ^ 32 - 1

abbrev pub not_null : ℕ → Bool
not_null p = not (p == 0)

-- One round per byte, the index ascending.
unfoldable pub memset_loop : ℕ → ℕ → ℕ → (ℕ → ℕ) → ℕ → ℕ
memset_loop dst value zero m = m
memset_loop dst value (suc num) m = memset_loop (suc dst) value num (update m dst value)

unfoldable pub memset : ℕ → ℕ → ℕ → (ℕ → ℕ) → Run (ℕ → ℕ)
memset dst value num m = do assert (not_null dst); ok (memset_loop dst value num m)

unfoldable pub memcpy_loop : ℕ → ℕ → ℕ → (ℕ → ℕ) → ℕ → ℕ
memcpy_loop dst src zero m = m
memcpy_loop dst src (suc size) m = memcpy_loop (suc dst) (suc src) size (update m dst (m src))

unfoldable pub memcpy : ℕ → ℕ → ℕ → (ℕ → ℕ) → Run (ℕ → ℕ)
memcpy dst src size m = do assert (not_null dst && not_null src); ok (memcpy_loop dst src size m)

unfoldable pub memcmp_loop : (ℕ → ℕ) → ℕ → ℕ → ℕ → ℕ
memcmp_loop m a b zero = 0
memcmp_loop m a b (suc size) =
    let rest = memcmp_loop m (suc a) (suc b) size in
    if not (m a == m b) then (if ltb (m b) (m a) then 1 else minus_one) else rest

unfoldable pub memcmp : (ℕ → ℕ) → ℕ → ℕ → ℕ → Run ℕ
memcmp m a b size = do assert (not_null a && not_null b); ok (memcmp_loop m a b size)

unfoldable pub strcpy_loop : ℕ → ℕ → ℕ → (ℕ → ℕ) → Run (ℕ → ℕ)
strcpy_loop zero dst src m = stuck
strcpy_loop (suc fuel) dst src m =
    let rest = strcpy_loop fuel (suc dst) (suc src) (update m dst (m src)) in
    if m src == 0 then ok (update m dst 0) else rest

unfoldable pub strcpy : ℕ → ℕ → ℕ → (ℕ → ℕ) → Run (ℕ → ℕ)
strcpy fuel dst src m = do assert (not_null dst && not_null src); strcpy_loop fuel dst src m

unfoldable pub strlen_loop : ℕ → (ℕ → ℕ) → ℕ → ℕ → Run ℕ
strlen_loop zero m str len = stuck
strlen_loop (suc fuel) m str len =
    let rest = strlen_loop fuel m (suc str) (suc len) in if m str == 0 then ok len else rest

unfoldable pub strlen : ℕ → (ℕ → ℕ) → ℕ → Run ℕ
strlen fuel m str = do assert (not_null str); strlen_loop fuel m str 0

-- `*a < *b ? -1 : *a > *b`, on signed characters.
abbrev pub char_compare : ℕ → ℕ → ℕ
char_compare x y =
    if ltb (char_order x) (char_order y)
    then minus_one
    else if ltb (char_order y) (char_order x)
    then 1
    else 0

unfoldable pub strcmp_loop : ℕ → (ℕ → ℕ) → ℕ → ℕ → Run ℕ
strcmp_loop zero m a b = stuck
strcmp_loop (suc fuel) m a b =
    let rest = strcmp_loop fuel m (suc a) (suc b) in
    if not (m a == 0) && m a == m b then rest else ok (char_compare (m a) (m b))

unfoldable pub strcmp : ℕ → (ℕ → ℕ) → ℕ → ℕ → Run ℕ
strcmp fuel m a b = do assert (not_null a && not_null b); strcmp_loop fuel m a b

-- A null pointer is 0.
unfoldable pub strchr_loop : ℕ → (ℕ → ℕ) → ℕ → ℕ → Run ℕ
strchr_loop zero m str ch = stuck
strchr_loop (suc fuel) m str ch =
    let rest = strchr_loop fuel m (suc str) ch in
    if m str == 0 then ok 0 else if char_int (m str) == ch then ok str else rest

unfoldable pub strchr : ℕ → (ℕ → ℕ) → ℕ → ℕ → Run ℕ
strchr fuel m str ch = do assert (not_null str); strchr_loop fuel m str ch

-- `res` has no value before the first match. The loop ends at the digit zero.
unfoldable pub strrchr_loop : ℕ → (ℕ → ℕ) → ℕ → ℕ → Option ℕ → Run (Option ℕ)
strrchr_loop zero m str ch res = stuck
strrchr_loop (suc fuel) m str ch res =
    let rest =
      strrchr_loop fuel m (suc str) ch (if char_int (m str) == ch then some str else res) in
    if m str == b'0' then ok res else rest

unfoldable pub strrchr : ℕ → (ℕ → ℕ) → ℕ → ℕ → Run (Option ℕ)
strrchr fuel m str ch = do assert (not_null str); strrchr_loop fuel m str ch none

-- The first loop of strcat: to the terminator of `dst`.
unfoldable pub end_of_string : ℕ → (ℕ → ℕ) → ℕ → Run ℕ
end_of_string zero m dst = stuck
end_of_string (suc fuel) m dst =
    let rest = end_of_string fuel m (suc dst) in if m dst == 0 then ok dst else rest

unfoldable pub strcat : ℕ → ℕ → ℕ → (ℕ → ℕ) → Run (ℕ → ℕ)
strcat fuel dst src m = do
  assert (not_null dst && not_null src)
  end ← end_of_string fuel m dst
  strcpy_loop fuel end src m

unfoldable pub strchrs_loop : ℕ → (ℕ → ℕ) → ℕ → ℕ → ℕ → Run ℕ
strchrs_loop zero m dst ch counter = stuck
strchrs_loop (suc fuel) m dst ch counter =
    let rest = strchrs_loop fuel m (suc dst) ch (if m dst == ch then suc counter else counter) in
    if m dst == 0 then ok counter else rest

unfoldable pub strchrs : ℕ → (ℕ → ℕ) → ℕ → ℕ → Run ℕ
strchrs fuel m dst ch = strchrs_loop fuel m dst ch 0
