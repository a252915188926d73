-- ===== src/Files/Path.antt =====
-- The parts of a path: path_parse of fs/fs.c.
use mathlib.Core.Path.{subst}
use leeos.Base.{
  ℕ, zero, suc, ◌+◌, ◌≤◌, ◌<◌, ◌≡◌, ◌≢◌, ◌⊎◌, inl, inr, refl, ap, ap₂, ◌∙◌, ◌==◌, ==_of_ne, true,
  if◌then◌else◌, List, [], ◌∷◌, length, arith, Returns, Returns-mono, Returns-bind, ok, ◌>>=◌,
}
use leeos.Base.Memory.{update, update_self, update_ne}
use leeos.Strings.Copies.{Outside}
use leeos.Files.{skip_slashes, copy_name, path_parse, parse_name, name_fits, max_file_name_len}

-- The bytes of one name, and behind them a slash or the end of the path.
abbrev pub NameAt : (ℕ → ℕ) → ℕ → List ℕ → Type 0
NameAt m p [] = (m p ≡ b'/') ⊎ (m p ≡ 0)
NameAt m p (x ∷ xs) = (m p ≡ x) × (x ≢ b'/') × (x ≢ 0) × NameAt m (suc p) xs

-- The bytes are those of the list, with nothing behind them.
abbrev pub BytesAt : (ℕ → ℕ) → ℕ → List ℕ → Type 0
BytesAt m p [] = Unit
BytesAt m p (x ∷ xs) = (m p ≡ x) × BytesAt m (suc p) xs

-- Slashes from `p` on, and then a byte that is none.
abbrev pub SlashesAt : (ℕ → ℕ) → ℕ → ℕ → Type 0
SlashesAt m p zero = m p ≢ b'/'
SlashesAt m p (suc n) = (m p ≡ b'/') × SlashesAt m (suc p) n

pub NameAt-frame :
    (m m' : ℕ → ℕ) (p : ℕ) (xs : List ℕ)
    → ((a : ℕ) → p ≤ a → a ≤ p + length xs → m' a ≡ m a)
    → NameAt m p xs
    → NameAt m' p xs
NameAt-frame m m' p [] same (inl e) = inl (same p (omega arith) (omega arith) ∙ e)
NameAt-frame m m' p [] same (inr e) = inr (same p (omega arith) (omega arith) ∙ e)
NameAt-frame m m' p (x ∷ xs) same s = (
  same p (omega arith) (omega arith) ∙ s.0,
  s.1,
  s.2,
  NameAt-frame m m' (suc p) xs (λ a lo hi. same a (omega arith) (omega arith)) s.3,
)

skip_slashes_lem :
    (fuel : ℕ) (m : ℕ → ℕ) (p n : ℕ)
    → SlashesAt m (suc p) n
    → n < fuel
    → skip_slashes fuel m p ≡ ok (p + suc n)
unfolding skip_slashes
skip_slashes_lem zero m p n s h = absurd (omega arith)
skip_slashes_lem (suc fuel) m p zero s h = rw (==_of_ne (m (suc p)) b'/' s) (ap ok (omega arith))
skip_slashes_lem (suc fuel) m p (suc n) s h =
    rw (s.0) (skip_slashes_lem fuel m (suc p) n s.1 (omega arith) ∙ ap ok (omega arith))

pub record Parsed (m : ℕ → ℕ) (end store : ℕ) (xs : List ℕ) (r : ℕ × (ℕ → ℕ)) : Type 0 where
  pub place : r.0 ≡ end
  pub name : BytesAt r.1 store xs
  pub frame : (a : ℕ) → Outside store (length xs) a → r.1 a ≡ m a

Parsed-cons :
    (m : ℕ → ℕ) (end store x : ℕ) (xs : List ℕ) (r : ℕ × (ℕ → ℕ))
    → Parsed (update m store x) end (suc store) xs r
    → Parsed m end store (x ∷ xs) r
Parsed-cons m end store x xs r c = record {
  place = c.place;
  name = (c.frame store (inl (omega arith)) ∙ update_self m store x, c.name);
  frame = λ a o. c.frame a (omega (arith, o)) ∙ update_ne m store a x (omega (arith, o));
}

copy_name-Parsed :
    (fuel p store : ℕ) (m : ℕ → ℕ) (xs : List ℕ)
    → NameAt m p xs
    → length xs < fuel
    → (store + length xs ≤ p) ⊎ (p + length xs < store)
    → Returns (copy_name fuel p store m) (Parsed m (p + length xs) store xs)
unfolding copy_name
copy_name-Parsed zero p store m xs s h o = absurd (omega arith)
copy_name-Parsed (suc fuel) p store m [] (inl e) h o =
    rw e (record { place = omega arith; name = tt; frame = λ a out. refl })
copy_name-Parsed (suc fuel) p store m [] (inr e) h o =
    rw e (record { place = omega arith; name = tt; frame = λ a out. refl })
copy_name-Parsed (suc fuel) p store m (x ∷ xs) s h o =
    rw (s.0, ==_of_ne x b'/' s.1, ==_of_ne x 0 s.2)
      (Returns-mono (copy_name fuel (suc p) (suc store) (update m store x))
        (Parsed (update m store x) (suc p + length xs) (suc store) xs)
        (Parsed m (p + suc (length xs)) store (x ∷ xs))
        (copy_name-Parsed fuel (suc p) (suc store) (update m store x) xs
          (NameAt-frame m (update m store x) (suc p) xs
            (λ a lo hi. update_ne m store a x (omega (arith, o))) s.3)
          (omega arith) (omega (arith, o)))
        (λ r c.
          subst (λ e. Parsed m e store (x ∷ xs) r) (omega arith)
            (Parsed-cons m (suc p + length xs) store x xs r c)))

-- The part of path_parse behind the slashes.
rest_of_path :
    (fuel q q' store : ℕ) (m : ℕ → ℕ) (xs : List ℕ)
    → q' ≡ q
    → NameAt m q' xs
    → length xs < fuel
    → (store + length xs ≤ q) ⊎ (q + length xs < store)
    → Returns
        (copy_name fuel q store m >>= λ r. ok ((if r.1 r.0 == 0 then 0 else r.0), r.1))
        (Parsed m (if m (q' + length xs) == 0 then 0 else q' + length xs) store xs)
rest_of_path fuel q q' store m xs same s h o =
    Returns-bind (copy_name fuel q store m) (λ r. ok ((if r.1 r.0 == 0 then 0 else r.0), r.1))
      (Parsed m (q + length xs) store xs)
      (Parsed m (if m (q' + length xs) == 0 then 0 else q' + length xs) store xs)
      (copy_name-Parsed fuel q store m xs (subst (λ a. NameAt m a xs) same s) h o)
      (λ r c.
        let at : r.0 ≡ q' + length xs = omega (arith, c.place) in
        let byte : r.1 r.0 ≡ m (q' + length xs) =
          c.frame r.0 (omega (arith, c.place, o)) ∙ ap m at in
        record {
          place = ap₂ (λ b e. if b == 0 then 0 else e) byte at;
          name = c.name;
          frame = c.frame;
        })

-- path_parse, at some slashes and then a name, copies the bytes of the name to name_store,
-- without a terminator, changes nothing else, and returns the place behind the name, or 0 if
-- the path ends there; the path and the copy may not overlap, and the fuel covers the slashes
-- and the name.
pub path_parse-Parsed :
    (fuel p n name_store : ℕ) (m : ℕ → ℕ) (xs : List ℕ)
    → SlashesAt m p n
    → NameAt m (p + n) xs
    → n + length xs < fuel
    → (name_store + length xs ≤ p) ⊎ (p + n + length xs < name_store)
    → Returns
        (path_parse fuel p name_store m)
        (Parsed m (if m (p + n + length xs) == 0 then 0 else p + n + length xs) name_store xs)
unfolding path_parse
path_parse-Parsed fuel p zero name_store m xs sl s h o =
    rw (==_of_ne (m p) b'/' sl)
      (rest_of_path fuel p (p + 0) name_store m xs (omega arith) s (omega arith) (omega (arith, o)))
path_parse-Parsed fuel p (suc n) name_store m xs sl s h o =
    rw (sl.0, skip_slashes_lem fuel m p n sl.1 (omega arith))
      (rest_of_path fuel (p + suc n) (p + suc n) name_store m xs refl s (omega arith)
        (omega (arith, o)))

name_fits_lem :
    (left p : ℕ) (m : ℕ → ℕ) (xs : List ℕ)
    → NameAt m p xs
    → length xs ≤ left
    → name_fits left p m ≡ true
unfolding name_fits
name_fits_lem zero p m [] (inl e) h = rw e refl
name_fits_lem zero p m [] (inr e) h = rw e refl
name_fits_lem zero p m (x ∷ xs) s h = absurd (omega arith)
name_fits_lem (suc left) p m [] (inl e) h = rw e refl
name_fits_lem (suc left) p m [] (inr e) h = rw e refl
name_fits_lem (suc left) p m (x ∷ xs) s h =
    rw (s.0, ==_of_ne x b'/' s.1, ==_of_ne x 0 s.2)
      (name_fits_lem left (suc p) m xs s.3 (omega arith))

-- With a name that fits in the array, path_deepth_cnt's call is path_parse.
pub parse_name_lem :
    (fuel p n name_store : ℕ) (m : ℕ → ℕ) (xs : List ℕ)
    → SlashesAt m p n
    → NameAt m (p + n) xs
    → n + length xs < fuel
    → length xs ≤ max_file_name_len
    → parse_name fuel p name_store m ≡ path_parse fuel p name_store m
unfolding parse_name
parse_name_lem fuel p zero name_store m xs sl s h fit =
    rw
      (
        ==_of_ne (m p) b'/' sl,
        name_fits_lem 16 p m xs (subst (λ a. NameAt m a xs) (omega arith) s) fit,
      )
      refl
parse_name_lem fuel p (suc n) name_store m xs sl s h fit =
    rw
      (
        sl.0,
        skip_slashes_lem fuel m p n sl.1 (omega arith),
        name_fits_lem 16 (p + suc n) m xs s fit,
      )
      refl
