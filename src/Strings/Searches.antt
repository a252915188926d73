-- ===== src/Strings/Searches.antt =====
-- The comparison and the searches of lib/string.c.
use leeos.Base.{
  ℕ, zero, suc, ◌+◌, ◌<◌, ◌≡◌, ◌≢◌, refl, ap, ◌∙◌, List, [], ◌∷◌, length, ok, ◌==◌, ==_of_ne,
  ==_iff, if◌then◌else◌, arith, Option, none, some, Bool-cases, inl, inr,
}
use leeos.Base.Distinct.{All}
use leeos.Strings.{
  strcmp, strcmp_loop, char_compare, char_int, strrchr, strrchr_loop, strchrs, strchrs_loop,
}
use leeos.Strings.Text.{IsString}

-- The lexicographic order of two strings of signed characters.
unfoldable pub lex_compare : List ℕ → List ℕ → ℕ
lex_compare [] [] = 0
lex_compare [] (y ∷ ys) = char_compare 0 y
lex_compare (x ∷ xs) [] = char_compare x 0
lex_compare (x ∷ xs) (y ∷ ys) = if x == y then lex_compare xs ys else char_compare x y

strcmp_loop_lem :
    (fuel : ℕ) (m : ℕ → ℕ) (a b : ℕ) (xs ys : List ℕ)
    → IsString m a xs
    → IsString m b ys
    → length xs < fuel
    → strcmp_loop fuel m a b ≡ ok (lex_compare xs ys)
unfolding strcmp_loop lex_compare
strcmp_loop_lem zero m a b xs ys s t h = absurd (omega arith)
strcmp_loop_lem (suc fuel) m a b [] [] s t h = rw (s, t) refl
strcmp_loop_lem (suc fuel) m a b [] (y ∷ ys) s t h = rw (s, t.0) refl
strcmp_loop_lem (suc fuel) m a b (x ∷ xs) [] s t h = rw (s.0, t, ==_of_ne x 0 s.1) refl
strcmp_loop_lem (suc fuel) m a b (x ∷ xs) (y ∷ ys) s t h = elim (Bool-cases (x == y)) [
  | inl e ↦
      rw (s.0, t.0, ==_of_ne x 0 s.1, e)
        (strcmp_loop_lem fuel m (suc a) (suc b) xs ys s.2 t.2 (omega arith))
  | inr e ↦ rw (s.0, t.0, ==_of_ne x 0 s.1, e) refl
]

-- strcmp returns how the two strings compare in the lexicographic order of signed characters,
-- where neither address is null and the fuel covers the first string.
pub strcmp_lem :
    (fuel : ℕ) (m : ℕ → ℕ) (a b : ℕ) (xs ys : List ℕ)
    → a ≢ 0
    → b ≢ 0
    → IsString m a xs
    → IsString m b ys
    → length xs < fuel
    → strcmp fuel m a b ≡ ok (lex_compare xs ys)
unfolding strcmp
strcmp_lem fuel m a b xs ys na nb s t h =
    rw (==_of_ne a 0 na, ==_of_ne b 0 nb) (strcmp_loop_lem fuel m a b xs ys s t h)

-- On bytes, only equal strings compare as equal.
lex_compare-zero :
    (xs ys : List ℕ)
    → All (λ x. x < 256) xs
    → All (λ y. y < 256) ys
    → All (λ x. x ≢ 0) xs
    → All (λ y. y ≢ 0) ys
    → lex_compare xs ys ≡ 0
    → xs ≡ ys
unfolding lex_compare
lex_compare-zero [] [] hx hy nx ny e = refl
lex_compare-zero [] (y ∷ ys) hx hy nx ny e = absurd (ground arith)
lex_compare-zero (x ∷ xs) [] hx hy nx ny e = absurd (ground arith)
lex_compare-zero (x ∷ xs) (y ∷ ys) hx hy nx ny e = elim (Bool-cases (x == y)) [
  | inl same ↦
      rw ((==_iff x y).0 same)
        (ap (λ zs. y ∷ zs) (lex_compare-zero xs ys hx.1 hy.1 nx.1 ny.1 (rw same at e)))
  | inr other ↦ absurd (let e' : char_compare x y ≡ 0 = rw other at e in ground arith)
]

-- The bytes at `p` are these, none of them the digit zero, and then comes that digit.
abbrev pub EndsAtDigit : (ℕ → ℕ) → ℕ → List ℕ → Type 0
EndsAtDigit m p [] = m p ≡ b'0'
EndsAtDigit m p (x ∷ xs) = (m p ≡ x) × (x ≢ b'0') × EndsAtDigit m (suc p) xs

-- The last place of the character in the list, from `p` on.
unfoldable pub last_match : List ℕ → ℕ → ℕ → Option ℕ → Option ℕ
last_match [] p ch res = res
last_match (x ∷ xs) p ch res = last_match xs (suc p) ch (if char_int x == ch then some p else res)

strrchr_loop_lem :
    (fuel : ℕ) (m : ℕ → ℕ) (str ch : ℕ) (res : Option ℕ) (xs : List ℕ)
    → EndsAtDigit m str xs
    → length xs < fuel
    → strrchr_loop fuel m str ch res ≡ ok (last_match xs str ch res)
unfolding strrchr_loop last_match
strrchr_loop_lem zero m str ch res xs s h = absurd (omega arith)
strrchr_loop_lem (suc fuel) m str ch res [] s h = rw s refl
strrchr_loop_lem (suc fuel) m str ch res (x ∷ xs) s h =
    rw (s.0, ==_of_ne x b'0' s.1)
      (strrchr_loop_lem fuel m (suc str) ch (if char_int x == ch then some str else res) xs s.2
        (omega arith))

-- strrchr takes the digit zero for the end of the string, and no other byte: it returns the
-- last match before the first such digit, whatever comes behind it, and looks behind a
-- terminator that stands before the digit.
pub strrchr_digit_end :
    (fuel : ℕ) (m : ℕ → ℕ) (str ch : ℕ) (xs : List ℕ)
    → str ≢ 0
    → EndsAtDigit m str xs
    → length xs < fuel
    → strrchr fuel m str ch ≡ ok (last_match xs str ch none)
unfolding strrchr
strrchr_digit_end fuel m str ch xs ne s h =
    rw (==_of_ne str 0 ne) (strrchr_loop_lem fuel m str ch none xs s h)

-- How often a byte occurs.
unfoldable pub count : ℕ → List ℕ → ℕ
count ch [] = 0
count ch (x ∷ xs) = if x == ch then suc (count ch xs) else count ch xs

strchrs_loop_lem :
    (fuel : ℕ) (m : ℕ → ℕ) (dst ch counter : ℕ) (xs : List ℕ)
    → IsString m dst xs
    → length xs < fuel
    → strchrs_loop fuel m dst ch counter ≡ ok (counter + count ch xs)
unfolding strchrs_loop count
strchrs_loop_lem zero m dst ch counter xs s h = absurd (omega arith)
strchrs_loop_lem (suc fuel) m dst ch counter [] s h = rw s (ap ok (omega arith))
strchrs_loop_lem (suc fuel) m dst ch counter (x ∷ xs) s h =
    rw (s.0, ==_of_ne x 0 s.1)
      (strchrs_loop_lem fuel m (suc dst) ch (if x == ch then suc counter else counter) xs s.2
          (omega arith)
        ∙ ap ok (ground arith))

-- strchrs returns how often the character occurs in the string, given fuel for the string.
pub strchrs_counts :
    (fuel : ℕ) (m : ℕ → ℕ) (dst ch : ℕ) (xs : List ℕ)
    → IsString m dst xs
    → length xs < fuel
    → strchrs fuel m dst ch ≡ ok (count ch xs)
unfolding strchrs
strchrs_counts fuel m dst ch xs s h = strchrs_loop_lem fuel m dst ch 0 xs s h ∙ ap ok (omega arith)
