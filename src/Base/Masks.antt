-- ===== src/Base/Masks.antt =====
-- `&` and `|` with the masks of whole fields, as arithmetic on words of every width.
use Prim.Native.Nat.{
  ℕ, zero, suc, ◌+◌, ◌-◌, ◌*◌, ◌/◌, ◌%◌, ◌^◌, ◌≤◌, ◌<◌, min, max, digits, bit_and, bit_or,
  bit_and-bitwise, bit_or-bitwise,
}
use mathlib.Core.Path.{◌≡◌, refl, ap, ap₂, ◌∙◌}
use native.Mathlib.Nat.{pow-suc, div-add-mod, mod-lt}
use native.Mathlib.Omega.{arith}

-- The operations recurse on the digits of the first operand, with fuel; any fuel is enough that is
-- not below that operand.
module _ (rest : ℕ → ℕ) (op : ℕ → ℕ → ℕ) where
  digits_enough :
      (x y : ℕ) (fuel : ℕ)
      → x ≤ fuel
      → (more : ℕ) → x ≤ more
      → digits rest op fuel x y ≡ digits rest op more x y
  digits_enough zero y zero h zero h' = refl
  digits_enough zero y zero h (suc more) h' = refl
  digits_enough zero y (suc fuel) h zero h' = refl
  digits_enough zero y (suc fuel) h (suc more) h' = refl
  digits_enough (suc x) y zero h more h' = absurd (omega arith)
  digits_enough (suc x) y (suc fuel) h zero h' = absurd (omega arith)
  digits_enough (suc x) y (suc fuel) h (suc more) h' =
      ap (λ higher. higher * 2 + op (suc x % 2) (y % 2))
        (digits_enough (suc x / 2) (y / 2) fuel (omega arith) more (omega arith))

-- One digit at a time.
pub and_digit : (x y : ℕ) → bit_and x y ≡ bit_and (x / 2) (y / 2) * 2 + min (x % 2) (y % 2)
and_digit zero y = simp bit_and-bitwise (omega arith)
and_digit (suc x) y = simp bit_and-bitwise (
    ap (λ higher. higher * 2 + min (suc x % 2) (y % 2))
      (digits_enough (λ b. 0) min (suc x / 2) (y / 2) x (omega arith) (suc x / 2) (omega arith)))

pub or_digit : (x y : ℕ) → bit_or x y ≡ bit_or (x / 2) (y / 2) * 2 + max (x % 2) (y % 2)
or_digit zero y = simp bit_or-bitwise (omega arith)
or_digit (suc x) y = simp bit_or-bitwise (
    ap (λ higher. higher * 2 + max (suc x % 2) (y % 2))
      (digits_enough (λ b. b) max (suc x / 2) (y / 2) x (omega arith) (suc x / 2) (omega arith)))

and_nothing : (bound x : ℕ) → x ≤ bound → bit_and x 0 ≡ 0
and_nothing bound zero h = refl
and_nothing zero (suc x) h = absurd (omega arith)
and_nothing (suc bound) (suc x) h =
    omega (arith, and_digit (suc x) 0, and_nothing bound (suc x / 2) (omega arith))

or_nothing : (bound x : ℕ) → x ≤ bound → bit_or x 0 ≡ x
or_nothing bound zero h = refl
or_nothing zero (suc x) h = absurd (omega arith)
or_nothing (suc bound) (suc x) h =
    omega (arith, or_digit (suc x) 0, or_nothing bound (suc x / 2) (omega arith))

double : (q k : ℕ) → q * 2 ^ suc k ≡ q * 2 ^ k * 2
double q k = omega (arith, ap (λ (p : ℕ). q * p) (pow-suc 2 k))

-- The field of the lowest `k` digits.
pub and_low : (k q r : ℕ) → r < 2 ^ k → bit_and (q * 2 ^ k + r) (2 ^ k - 1) ≡ r
and_low zero q r h = and_nothing (q * 1 + r) (q * 1 + r) (omega arith) ∙ omega arith
and_low (suc k) q r h = ground (
  arith,
  and_digit (q * 2 ^ suc k + r) (2 ^ suc k - 1),
  double q k,
  pow-suc 2 k,
  and_low k q (r / 2) (omega arith),
)

-- The digits above them.
pub and_high : (k q r m : ℕ) → r < 2 ^ k → bit_and (q * 2 ^ k + r) (m * 2 ^ k) ≡ bit_and q m * 2 ^ k
and_high zero q r m h =
    ap₂ bit_and (let e : q * 1 + r ≡ q = omega arith in e) (let e : m * 1 ≡ m = omega arith in e)
    ∙ omega arith
and_high (suc k) q r m h = ground (
  arith,
  and_digit (q * 2 ^ suc k + r) (m * 2 ^ suc k),
  double q k,
  double m k,
  double (bit_and q m) k,
  and_high k q (r / 2) m (omega arith),
)

-- Low digits added to a field above them.
pub or_low :
    (k q r s : ℕ) → r < 2 ^ k → s < 2 ^ k → bit_or (q * 2 ^ k + r) s ≡ q * 2 ^ k + bit_or r s
or_low zero q r s h h' =
    ap₂ bit_or (let e : q * 1 + r ≡ q = omega arith in e) (let e : s ≡ 0 = omega arith in e)
    ∙ or_nothing q q (omega arith)
    ∙ omega
        (arith, ap₂ bit_or (let e : r ≡ 0 = omega arith in e) (let e : s ≡ 0 = omega arith in e))
or_low (suc k) q r s h h' = ground (
  arith,
  or_digit (q * 2 ^ suc k + r) s,
  or_digit r s,
  double q k,
  or_low k q (r / 2) (s / 2) (omega arith) (omega arith),
)

-- A field of digits that is the whole number.
pub and_mask : (k x : ℕ) → x < 2 ^ k → bit_and x (2 ^ k - 1) ≡ x
and_mask k x h =
    ap (λ (y : ℕ). bit_and y (2 ^ k - 1)) (let e : x ≡ 0 * 2 ^ k + x = omega arith in e)
    ∙ and_low k 0 x h

pow-pos : (k : ℕ) → 0 < 2 ^ k
pow-pos zero = omega arith
pow-pos (suc k) = omega (arith, pow-suc 2 k, pow-pos k)

parts : (k x : ℕ) → x ≡ x / 2 ^ k * 2 ^ k + x % 2 ^ k
parts k x = omega (arith, div-add-mod x (2 ^ k))

-- A field of `w` digits above `k` others.
pub and_field : (k w x : ℕ) → bit_and x ((2 ^ w - 1) * 2 ^ k) ≡ x / 2 ^ k % 2 ^ w * 2 ^ k
and_field k w x =
    let q = x / 2 ^ k in
    ap (λ (y : ℕ). bit_and y ((2 ^ w - 1) * 2 ^ k)) (parts k x)
    ∙ and_high k q (x % 2 ^ k) (2 ^ w - 1) (mod-lt x (pow-pos k))
    ∙ ap (λ (y : ℕ). bit_and y (2 ^ w - 1) * 2 ^ k) (parts w q)
    ∙ ap (λ (y : ℕ). y * 2 ^ k) (and_low w (q / 2 ^ w) (q % 2 ^ w) (mod-lt q (pow-pos w)))

pub nothing_or : (s : ℕ) → bit_or 0 s ≡ s
nothing_or s = simp bit_or-bitwise refl
