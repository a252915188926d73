-- ===== src/Stdio/Conversions.antt =====
-- One conversion of vsprintf of lib/stdio.c.
use leeos.Base.{
  ℕ, zero, suc, ◌+◌, ◌^◌, ◌≤◌, ◌<◌, ◌≡◌, inl, inr, refl, ap, ◌∙◌, List, [], ◌∷◌, length, u8, ==_iff,
  ◌==◌, Bool-cases, arith, Returns, Returns-bind, Returns-mono,
}
use leeos.Base.Memory.{update, update_self, update_ne}
use leeos.Strings.{strcpy}
use leeos.Strings.Text.{IsString, IsString-frame, Copied, strcpy_copies, strlen_lem}
use leeos.Stdio.{Cursor, convert, put_string, itoa}
use leeos.Stdio.Digits.{Written, IsBase, itoa-Written, put_decimal_unsigned}
use leeos.Stdio.Pieces.{
  Piece, as_hex, as_decimal, as_char, as_string, Shows, IsGood, HasBytes-string,
}

-- The memory behind one piece: its text, with the bytes before it as they were, and behind it no
-- byte that was zero is another.
pub record Stepped (m : ℕ → ℕ) (str : ℕ) (x : Piece) (m' : ℕ → ℕ) (str' : ℕ) : Type 0 where
  pub shows : Shows m' str x str'
  pub forward : str ≤ str'
  pub before : (a : ℕ) → a < str → m' a ≡ m a
  pub zeros : (a : ℕ) → str' ≤ a → m a ≡ 0 → m' a ≡ 0

-- One conversion takes its argument and its character of the format.
abbrev pub Converted : (m : ℕ → ℕ) (str format : ℕ) (x : Piece) (rest : List ℕ) → Cursor → Type 0
Converted m str format x rest c = Stepped m str x c.0 c.1 × (c.2 ≡ suc format) × (c.3 ≡ rest)

pub Stepped-byte :
    (m : ℕ → ℕ) (str : ℕ) (x : Piece) (v : ℕ)
    → Shows (update m str v) str x (suc str)
    → Stepped m str x (update m str v) (suc str)
Stepped-byte m str x v s = record {
  shows = s;
  forward = omega arith;
  before = λ a lt. update_ne m str a v (omega arith);
  zeros = λ a le z. update_ne m str a v (omega arith) ∙ z;
}

Stepped-Written :
    (m : ℕ → ℕ) (str base n : ℕ) (x : Piece) (r : (ℕ → ℕ) × ℕ)
    → (w : Written m str base n r) → Shows r.0 str x r.1
    → Stepped m str x r.0 r.1
Stepped-Written m str base n x r w s = record {
  shows = s;
  forward = omega (arith, w.end);
  before = λ a lt. w.frame a (inl (omega arith));
  zeros = λ a le z. w.frame a (inr (omega (arith, w.end))) ∙ z;
}

string_end :
    (m : ℕ → ℕ) (p : ℕ) (xs : List ℕ) (a : ℕ) → IsString m p xs → a ≡ p + length xs → m a ≡ 0
string_end m p [] a s e = ap m (omega (arith, e)) ∙ s
string_end m p (x ∷ xs) a s e = string_end m (suc p) xs a s.2 (omega (arith, e))

put_string-Stepped :
    (fuel a str low : ℕ) (xs : List ℕ) (m : ℕ → ℕ)
    → IsGood m low (as_string a xs)
    → low ≤ str
    → length xs < fuel
    → Returns (put_string fuel a str m) (λ r. Stepped m str (as_string a xs) r.0 r.1)
unfolding put_string
put_string-Stepped fuel a str low xs m (ne, s, under) le fits =
    Returns-bind (strcpy fuel str a m) _ (Copied m str xs) _
      (strcpy_copies fuel str a m xs (omega arith) ne s fits (inr (omega arith)))
      (λ m1 c.
        let there : IsString m1 a xs =
          IsString-frame m m1 a xs (λ b lo hi. c.frame b (inl (omega arith))) s in
        rw (strlen_lem fuel m1 a xs ne there fits) (record {
          shows = (refl, HasBytes-string m1 m1 str xs c.copy (λ b lt. refl));
          forward = omega arith;
          before = λ b lt. c.frame b (inl (omega arith));
          zeros = λ b lo z. elim (Bool-cases (b == str + length xs)) [
            | inl e ↦ string_end m1 str xs b c.copy ((==_iff b (str + length xs)).0 e)
            | inr e ↦ c.frame b (inr (ground (arith, e))) ∙ z
          ];
        }))

itoa-Stepped :
    (fuel base n str : ℕ) (x : Piece) (m : ℕ → ℕ)
    → IsBase base
    → 0 < fuel
    → n < 2 ^ fuel
    → ((r : (ℕ → ℕ) × ℕ) → Written m str base n r → Shows r.0 str x r.1)
    → Returns (itoa fuel n str base m) (λ r. Stepped m str x r.0 r.1)
itoa-Stepped zero base n str x m b pos fits shows = absurd (omega arith)
itoa-Stepped (suc fuel) base n str x m b pos fits shows =
    Returns-mono (itoa (suc fuel) n str base m) _ _ (itoa-Written fuel n str base m b fits)
      (λ r w. Stepped-Written m str base n x r w (shows r w))

module _ (fuel str format low : ℕ) (rest : List ℕ) (m : ℕ → ℕ) (le : low ≤ str) where
  pub convert_hex :
      (n : ℕ)
      → m format ≡ b'x'
      → (0 < fuel) × (n < 2 ^ fuel)
      → Returns (convert fuel str format (n ∷ rest) m) (Converted m str format (as_hex n) rest)
  unfolding convert
  convert_hex n at (pos, fits) = rw at (
      Returns-bind (itoa fuel n str 16 m) _ _ _
        (itoa-Stepped fuel 16 n str (as_hex n) m (inr refl) pos fits
          (λ r w. (w.count, w.some, w.end, w.value)))
        (λ r s. (s, refl, refl)))

  pub convert_decimal :
      (n : ℕ)
      → m format ≡ b'd'
      → (0 < fuel) × (n < 2 ^ fuel)
      → Returns (convert fuel str format (n ∷ rest) m) (Converted m str format (as_decimal n) rest)
  unfolding convert
  convert_decimal n at (pos, fits) =
      rw (at, put_decimal_unsigned fuel n str m)
        (Returns-bind (itoa fuel n str 10 m) _ _ _
          (itoa-Stepped fuel 10 n str (as_decimal n) m (inl refl) pos fits
            (λ r w. (w.count, w.some, w.end, w.value)))
          (λ r s. (s, refl, refl)))

  pub convert_char :
      (n : ℕ)
      → m format ≡ b'c'
      → Returns (convert fuel str format (n ∷ rest) m) (Converted m str format (as_char n) rest)
  unfolding convert
  convert_char n at =
      rw at (Stepped-byte m str (as_char n) (u8 n) (refl, update_self m str (u8 n)), refl, refl)

  pub convert_string :
      (a : ℕ) (xs : List ℕ)
      → m format ≡ b's'
      → IsGood m low (as_string a xs)
      → length xs < fuel
      → Returns
          (convert fuel str format (a ∷ rest) m)
          (Converted m str format (as_string a xs) rest)
  unfolding convert
  convert_string a xs at good fits = rw at (
      Returns-bind (put_string fuel a str m) _ _ _
        (put_string-Stepped fuel a str low xs m good le fits) (λ r s. (s, refl, refl)))
