-- ===== src/Stdio/Pieces.antt =====
-- What a format of lib/stdio.c stands for: its pieces, with the arguments that they take.
use leeos.Base.{ℕ, zero, suc, ◌+◌, ◌^◌, ◌<◌, ◌≡◌, ◌≢◌, ◌∙◌, List, [], ◌∷◌, length, u8, arith}
use leeos.Strings.Text.{IsString, IsString-frame}
use leeos.Stdio.Digits.{read_number, read_number_frame}

-- A character, `%x` and `%d` with a number, `%c` with a word, `%s` with the address of a string
-- and the string.
pub data Piece : Type 0 where
  plain as_hex as_decimal as_char : ℕ → Piece
  as_string : ℕ → List ℕ → Piece

abbrev pub spelled : List Piece → List ℕ
spelled [] = []
spelled (plain x ∷ ps) = x ∷ spelled ps
spelled (as_hex n ∷ ps) = b'%' ∷ b'x' ∷ spelled ps
spelled (as_decimal n ∷ ps) = b'%' ∷ b'd' ∷ spelled ps
spelled (as_char n ∷ ps) = b'%' ∷ b'c' ∷ spelled ps
spelled (as_string a xs ∷ ps) = b'%' ∷ b's' ∷ spelled ps

abbrev pub arguments : List Piece → List ℕ
arguments [] = []
arguments (plain x ∷ ps) = arguments ps
arguments (as_hex n ∷ ps) = n ∷ arguments ps
arguments (as_decimal n ∷ ps) = n ∷ arguments ps
arguments (as_char n ∷ ps) = n ∷ arguments ps
arguments (as_string a xs ∷ ps) = a ∷ arguments ps

abbrev pub HasBytes : (ℕ → ℕ) → ℕ → List ℕ → Type 0
HasBytes m p [] = Unit
HasBytes m p (x ∷ xs) = (m p ≡ x) × HasBytes m (suc p) xs

-- In the memory the piece's text stands from `p` on and ends before `e`.
abbrev pub Shows : (ℕ → ℕ) → ℕ → Piece → ℕ → Type 0
Shows m p (plain x) e = (e ≡ suc p) × (m p ≡ x)
Shows m p (as_hex n) e = (k : ℕ) × (0 < k) × (e ≡ p + k) × (read_number m 16 p k ≡ n)
Shows m p (as_decimal n) e = (k : ℕ) × (0 < k) × (e ≡ p + k) × (read_number m 10 p k ≡ n)
Shows m p (as_char n) e = (e ≡ suc p) × (m p ≡ u8 n)
Shows m p (as_string a xs) e = (e ≡ p + length xs) × HasBytes m p xs

-- The pieces' texts stand one behind the other.
abbrev pub ShowsAll : (ℕ → ℕ) → ℕ → List Piece → ℕ → Type 0
ShowsAll m p [] e = e ≡ p
ShowsAll m p (x ∷ ps) e = (mid : ℕ) × Shows m p x mid × ShowsAll m mid ps e

-- What the caller has to see to: a plain character is no `%`, and a string stands in the memory
-- below `low`.
abbrev pub IsGood : (ℕ → ℕ) → ℕ → Piece → Type 0
IsGood m low (plain x) = x ≢ b'%'
IsGood m low (as_hex n) = Unit
IsGood m low (as_decimal n) = Unit
IsGood m low (as_char n) = Unit
IsGood m low (as_string a xs) = (a ≢ 0) × IsString m a xs × (a + length xs < low)

abbrev pub AllGood : (ℕ → ℕ) → ℕ → List Piece → Type 0
AllGood m low [] = Unit
AllGood m low (x ∷ ps) = IsGood m low x × AllGood m low ps

-- How much fuel the conversion of a piece takes.
abbrev pub FitsPiece : ℕ → Piece → Type 0
FitsPiece fuel (plain x) = Unit
FitsPiece fuel (as_hex n) = (0 < fuel) × (n < 2 ^ fuel)
FitsPiece fuel (as_decimal n) = (0 < fuel) × (n < 2 ^ fuel)
FitsPiece fuel (as_char n) = Unit
FitsPiece fuel (as_string a xs) = length xs < fuel

abbrev pub Fits : ℕ → List Piece → Type 0
Fits zero ps = ⊥
Fits (suc fuel) [] = Unit
Fits (suc fuel) (x ∷ ps) = FitsPiece fuel x × Fits fuel ps

pub HasBytes-string :
    (m m' : ℕ → ℕ) (p : ℕ) (xs : List ℕ)
    → IsString m p xs
    → ((a : ℕ) → a < p + length xs → m' a ≡ m a)
    → HasBytes m' p xs
HasBytes-string m m' p [] s same = tt
HasBytes-string m m' p (x ∷ xs) s same =
    (same p (omega arith) ∙ s.0, HasBytes-string m m' (suc p) xs s.2 (λ a lt. same a (omega arith)))

HasBytes-frame :
    (m m' : ℕ → ℕ) (p : ℕ) (xs : List ℕ)
    → ((a : ℕ) → a < p + length xs → m' a ≡ m a)
    → HasBytes m p xs
    → HasBytes m' p xs
HasBytes-frame m m' p [] same s = tt
HasBytes-frame m m' p (x ∷ xs) same s =
    (same p (omega arith) ∙ s.0, HasBytes-frame m m' (suc p) xs (λ a lt. same a (omega arith)) s.1)

-- A text depends on its own bytes only.
pub Shows-frame :
    (m m' : ℕ → ℕ) (p e : ℕ) (x : Piece)
    → ((a : ℕ) → a < e → m' a ≡ m a)
    → Shows m p x e
    → Shows m' p x e
Shows-frame m m' p e (plain x) same s = (s.0, same p (omega (arith, s.0)) ∙ s.1)
Shows-frame m m' p e (as_hex n) same (k, pos, end, value) =
    (k, pos, end, read_number_frame m m' 16 p k (λ a lo hi. same a (omega (arith, end))) ∙ value)
Shows-frame m m' p e (as_decimal n) same (k, pos, end, value) =
    (k, pos, end, read_number_frame m m' 10 p k (λ a lo hi. same a (omega (arith, end))) ∙ value)
Shows-frame m m' p e (as_char n) same s = (s.0, same p (omega (arith, s.0)) ∙ s.1)
Shows-frame m m' p e (as_string a xs) same s =
    (s.0, HasBytes-frame m m' p xs (λ b lt. same b (omega (arith, s.0))) s.1)

pub IsGood-frame :
    (m m' : ℕ → ℕ) (low : ℕ) (x : Piece)
    → ((a : ℕ) → a < low → m' a ≡ m a)
    → IsGood m low x
    → IsGood m' low x
IsGood-frame m m' low (plain x) same g = g
IsGood-frame m m' low (as_hex n) same g = tt
IsGood-frame m m' low (as_decimal n) same g = tt
IsGood-frame m m' low (as_char n) same g = tt
IsGood-frame m m' low (as_string a xs) same g =
    (g.0, IsString-frame m m' a xs (λ b lo hi. same b (omega (arith, g.2))) g.1, g.2)

pub AllGood-frame :
    (m m' : ℕ → ℕ) (low : ℕ) (ps : List Piece)
    → ((a : ℕ) → a < low → m' a ≡ m a)
    → AllGood m low ps
    → AllGood m' low ps
AllGood-frame m m' low [] same g = tt
AllGood-frame m m' low (x ∷ ps) same g =
    (IsGood-frame m m' low x same g.0, AllGood-frame m m' low ps same g.1)
