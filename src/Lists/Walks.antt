-- ===== src/Lists/Walks.antt =====
-- The loops of list.c over a list's elements: elem_find, list_len and list_traveral.
use leeos.Base.{
  ℕ, zero, suc, ◌+◌, ◌<◌, ◌≡◌, List, [], ◌∷◌, ◌++◌, arith, if◌then◌else◌, Bool, ap, ◌∙◌, length, ok,
  u32, ◌^◌,
}
use leeos.Base.Distinct.{Distinct, Out-append}
use leeos.Lists.{
  Links, head_of, tail_of, elem_find, find_loop, list_len, len_loop, list_traveral, traversal_loop,
}
use leeos.Lists.Refine.{IsList, contains, list_empty-nil, list_empty-cons}
use leeos.Lists.Chain.{Chain}

-- The first element that passes a test, or 0.
unfoldable pub find : (ℕ → Bool) → List ℕ → ℕ
find func [] = 0
find func (x ∷ xs) = if func x then x else find func xs

-- The walks, from an element on.
module _ (k : Links) (stop : ℕ) where
  pub find_loop_lem :
      (obj : ℕ) (fuel a : ℕ) (xs : List ℕ)
      → Chain k a xs stop
      → Distinct (xs ++ (stop ∷ []))
      → length xs < fuel
      → find_loop fuel stop obj (k.next a) k ≡ ok (contains obj xs)
  unfolding find_loop contains
  find_loop_lem obj zero a xs c d h = absurd (omega arith)
  find_loop_lem obj (suc fuel) a [] c d h = ground (arith, c.0)
  find_loop_lem obj (suc fuel) a (x ∷ xs) c d h = ground (
    arith,
    c.0,
    (Out-append x xs (stop ∷ []) d.0).1.0,
    find_loop_lem obj fuel x xs c.2 d.1 (omega arith),
  )

  pub len_loop_lem :
      (fuel a len : ℕ) (xs : List ℕ)
      → Chain k a xs stop
      → Distinct (xs ++ (stop ∷ []))
      → length xs < fuel
      → len + length xs < 2 ^ 32
      → len_loop fuel stop (k.next a) len k ≡ ok (len + length xs)
  unfolding len_loop
  len_loop_lem zero a len xs c d h s = absurd (omega arith)
  len_loop_lem (suc fuel) a len [] c d h s = ground (arith, c.0)
  len_loop_lem (suc fuel) a len (x ∷ xs) c d h s =
      let wrap : u32 (len + 1) ≡ len + 1 = omega arith in
      ground (
        arith,
        c.0,
        wrap,
        (Out-append x xs (stop ∷ []) d.0).1.0,
        len_loop_lem fuel x (u32 (len + 1)) xs c.2 d.1 (omega arith),
      )

  pub traversal_loop_lem :
      (func : ℕ → Bool) (fuel a : ℕ) (xs : List ℕ)
      → Chain k a xs stop
      → Distinct (xs ++ (stop ∷ []))
      → length xs < fuel
      → traversal_loop fuel stop func (k.next a) k ≡ ok (find func xs)
  unfolding traversal_loop find
  traversal_loop_lem func zero a xs c d h = absurd (omega arith)
  traversal_loop_lem func (suc fuel) a [] c d h = ground (arith, c.0)
  traversal_loop_lem func (suc fuel) a (x ∷ xs) c d h = ground (
    arith,
    c.0,
    (Out-append x xs (stop ∷ []) d.0).1.0,
    traversal_loop_lem func fuel x xs c.2 d.1 (omega arith),
  )

module _ (fuel : ℕ) (k : Links) (plist : ℕ) (xs : List ℕ) (l : IsList k plist xs) where
  -- With fuel for more rounds than the list has elements, elem_find returns whether the
  -- element is in the list.
  pub elem_find_lem :
      (obj : ℕ) → length xs < fuel → elem_find fuel plist obj k ≡ ok (contains obj xs)
  unfolding elem_find
  elem_find_lem obj h =
      find_loop_lem k (tail_of plist) obj fuel (head_of plist) xs l.chain l.distinct.1 h

  -- With fuel for more rounds than the list has elements, and fewer of these than a word
  -- counts, list_len returns their number.
  pub list_len_lem : length xs < fuel → length xs < 2 ^ 32 → list_len fuel plist k ≡ ok (length xs)
  unfolding list_len
  list_len_lem h s =
      len_loop_lem k (tail_of plist) fuel (head_of plist) 0 xs l.chain l.distinct.1 h (omega arith)
      ∙ ap ok (omega arith)

-- With fuel for more rounds than the list has elements, list_traveral returns the first element
-- that the callback accepts, or 0 if it accepts none.
pub list_traveral_lem :
    (fuel : ℕ) (k : Links) (plist : ℕ) (func : ℕ → Bool) (xs : List ℕ)
    → IsList k plist xs
    → length xs < fuel
    → list_traveral fuel plist func k ≡ ok (find func xs)
unfolding list_traveral find
list_traveral_lem fuel k plist func [] l h = rw (list_empty-nil k plist l)
list_traveral_lem fuel k plist func (x ∷ xs) l h =
    rw (list_empty-cons k plist x xs l) (
      traversal_loop_lem k (tail_of plist) func fuel (head_of plist) (x ∷ xs) l.chain l.distinct.1
        h)
