-- ===== src/Stdio/Digits.antt =====
-- itoa of lib/stdio.c writes the digits of the number, and %d has no negative numbers.
use mathlib.Core.Path.{subst}
use leeos.Base.{
  ℕ, zero, suc, ◌+◌, ◌-◌, ◌*◌, ◌/◌, ◌%◌, ◌^◌, ◌≤◌, ◌<◌, ◌≡◌, ◌⊎◌, inl, inr, refl, ap, ap₂, ◌∙◌, sym,
  ok, Bool-cases, ◌==◌, ==_iff, if◌then◌else◌, ltb, arith, Returns, Returns-bind,
}
use leeos.Base.Memory.{update, update_self, update_ne}
use leeos.Strings.Copies.{Outside}
use leeos.Stdio.{itoa, digit_char, put_decimal, is_negative}

-- The bases that the formats use.
abbrev pub IsBase : ℕ → Type 0
IsBase base = (base ≡ 10) ⊎ (base ≡ 16)

-- What a reader of a number makes of a character and of `n` of them.
unfoldable pub digit_value : ℕ → ℕ
digit_value c = if ltb c 58 then c - 48 else c - 55

unfoldable pub read_number : (ℕ → ℕ) → ℕ → ℕ → ℕ → ℕ
read_number m base p zero = 0
read_number m base p (suc n) = read_number m base p n * base + digit_value (m (p + n))

digit_value-digit_char : (d : ℕ) → d < 16 → digit_value (digit_char d) ≡ d
unfolding digit_value digit_char
digit_value-digit_char d h = ground arith

record Division (base number f : ℕ) : Type 0 where
  parts : number / base * base + number % base ≡ number
  small : number % base < 16
  fewer : number / base < f

division : (base number f : ℕ) → IsBase base → number < 2 * f → Division base number f
division base number f (inl e) h =
    subst (λ b. Division b number f) (sym e)
      (record { parts = omega arith; small = omega arith; fewer = omega arith })
division base number f (inr e) h =
    subst (λ b. Division b number f) (sym e)
      (record { parts = omega arith; small = omega arith; fewer = omega arith })

pub read_number_frame :
    (m m' : ℕ → ℕ) (base p n : ℕ)
    → ((a : ℕ) → p ≤ a → a < p + n → m' a ≡ m a)
    → read_number m' base p n ≡ read_number m base p n
unfolding read_number
read_number_frame m m' base p zero same = refl
read_number_frame m m' base p (suc n) same =
    ap₂ (λ v c. v * base + digit_value c)
      (read_number_frame m m' base p n (λ a lo hi. same a lo (omega arith)))
      (same (p + n) (omega arith) (omega arith))

-- What itoa leaves: some characters, at least one, that read as the number, and all else as it was.
pub record Written (m : ℕ → ℕ) (str base number : ℕ) (r : (ℕ → ℕ) × ℕ) : Type 0 where
  pub count : ℕ
  pub some : 0 < count
  pub end : r.1 ≡ str + count
  pub value : read_number r.0 base str count ≡ number
  pub frame : (a : ℕ) → Outside str count a → r.0 a ≡ m a

-- The last digit, behind those of the quotient.
last_digit :
    (m : ℕ → ℕ) (str base number n : ℕ) (m' : ℕ → ℕ)
    → number / base * base + number % base ≡ number
    → number % base < 16
    → read_number m' base str n ≡ number / base
    → ((a : ℕ) → Outside str n a → m' a ≡ m a)
    → Written m str base number (update m' (str + n) (digit_char (number % base)), suc (str + n))
unfolding read_number
last_digit m str base number n m' parts small value frame = record {
  count = suc n;
  some = omega arith;
  end = omega arith;
  value =
      ap₂ (λ v c. v * base + digit_value c)
        (read_number_frame m' (update m' (str + n) (digit_char (number % base))) base str n
            (λ a lo hi. update_ne m' (str + n) a (digit_char (number % base)) (omega arith))
          ∙ value)
        (update_self m' (str + n) (digit_char (number % base)))
      ∙ ap (λ d. number / base * base + d) (digit_value-digit_char (number % base) small)
      ∙ parts;
  frame = λ a o.
      update_ne m' (str + n) a (digit_char (number % base)) (omega (arith, o))
      ∙ frame a (omega (arith, o));
}

last_digit_at :
    (m : ℕ → ℕ) (str base number n p : ℕ) (m' : ℕ → ℕ)
    → Division base number (suc number)
    → read_number m' base str n ≡ number / base
    → ((a : ℕ) → Outside str n a → m' a ≡ m a)
    → p ≡ str + n
    → Written m str base number (update m' p (digit_char (number % base)), suc p)
last_digit_at m str base number n p m' d value frame e =
    subst (λ q. Written m str base number (update m' q (digit_char (number % base)), suc q)) (sym e)
      (last_digit m str base number n m' d.parts d.small value frame)

only_digit :
    (m : ℕ → ℕ) (str base number : ℕ)
    → IsBase base
    → number / base ≡ 0
    → Written m str base number (update m str (digit_char (number % base)), suc str)
unfolding read_number
only_digit m str base number b e =
    last_digit_at m str base number 0 str m (division base number (suc number) b (omega arith))
      (sym e) (λ a o. refl) (omega arith)

-- itoa, in base 10 or 16 and with fuel for as many binary digits as the number has, returns,
-- having written at least one character; the characters read as the number, and nothing else
-- changes.
pub itoa-Written :
    (fuel number str base : ℕ) (m : ℕ → ℕ)
    → IsBase base
    → number < 2 ^ suc fuel
    → Returns (itoa (suc fuel) number str base m) (Written m str base number)
unfolding itoa
itoa-Written zero number str base m b h =
    let d = division base number 1 b (omega arith) in
    elim (Bool-cases (number / base == 0)) [
      | inl e ↦ rw e (only_digit m str base number b ((==_iff (number / base) 0).0 e))
      | inr e ↦ absurd (ground (arith, d.fewer))
    ]
itoa-Written (suc f) number str base m b h = elim (Bool-cases (number / base == 0)) [
  | inl e ↦ rw e (only_digit m str base number b ((==_iff (number / base) 0).0 e))
  | inr e ↦ rw e (
      Returns-bind (itoa (suc f) (number / base) str base m)
        (λ r. ok (update r.0 r.1 (digit_char (number % base)), suc r.1))
        (Written m str base (number / base)) (Written m str base number)
        (itoa-Written f (number / base) str base m b
          (division base number (2 ^ suc f) b (omega arith)).fewer)
        (λ r w.
          last_digit_at m str base number w.count r.1 r.0
            (division base number (suc number) b (omega arith)) w.value w.frame w.end))
]

-- %d writes every word as itoa does in base 10, without a sign, also one that is a negative
-- int.
pub put_decimal_unsigned :
    (fuel number str : ℕ) (m : ℕ → ℕ) → put_decimal fuel number str m ≡ itoa fuel number str 10 m
unfolding put_decimal is_negative
put_decimal_unsigned fuel number str m = ground arith
