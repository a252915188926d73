-- ===== src/Lists/Deque.antt =====
-- A list of list.c refines a sequence with distinct elements under any series of operations.
use leeos.Base.{
  ℕ, ◌≡◌, List, [], ◌∷◌, ◌++◌, arith, ◌==◌, if◌then◌else◌, true, false, Option, none, some, inl,
  inr, Bool-cases, Option-cases, ap,
}
use leeos.Base.Distinct.{Out}
use leeos.Lists.{Links, list_push, list_append, list_remove, list_pop}
use leeos.Lists.Refine.{
  IsList, contains, list_push-IsList, list_append-IsList, list_remove-IsList, list_pop-IsList,
}
use leeos.Lists.Frame.{nodes}

-- A call on one list.
pub data Op : Type 0 where
  push : ℕ → Op
  append : ℕ → Op
  remove : ℕ → Op
  pop : Op

pub apply : ℕ → Op → Links → Links
apply plist (push e) k = list_push plist e k
apply plist (append e) k = list_append plist e k
apply plist (remove e) k = list_remove e k
apply plist pop k = (list_pop plist k).1

pub run : ℕ → List Op → Links → Links
run plist [] k = k
run plist (op ∷ ops) k = run plist ops (apply plist op k)

-- The sequence without its first `e`.
unfoldable pub erase : ℕ → List ℕ → List ℕ
erase e [] = []
erase e (x ∷ xs) = if x == e then xs else x ∷ erase e xs

-- What a call does to the sequence: `none` for a second insertion, for the removal of an element
-- that is not there, and for `list_pop` of the empty list.
unfoldable pub step : ℕ → Op → List ℕ → Option (List ℕ)
unfolding contains erase
step plist (push e) xs = if contains e (nodes plist xs) then none else some (e ∷ xs)
step plist (append e) xs = if contains e (nodes plist xs) then none else some (xs ++ (e ∷ []))
step plist (remove e) xs = if contains e xs then some (erase e xs) else none
step plist pop [] = none
step plist pop (x ∷ xs) = some xs

unfoldable pub steps : ℕ → List Op → List ℕ → Option (List ℕ)
unfolding step
steps plist [] xs = some xs
steps plist (op ∷ ops) xs = elim (step plist op xs) [ none ↦ none | some ys ↦ steps plist ops ys ]

not-contains-Out : (e : ℕ) (xs : List ℕ) → contains e xs ≡ false → Out e xs
unfolding contains
not-contains-Out e [] h = tt
not-contains-Out e (x ∷ xs) h = (ground arith, not-contains-Out e xs (ground arith))

-- An element that is there splits the sequence.
record Split (e : ℕ) (xs : List ℕ) : Type 0 where
  front : List ℕ
  back : List ℕ
  whole : xs ≡ front ++ (e ∷ back)
  erased : erase e xs ≡ front ++ back

contains-Split : (e : ℕ) (xs : List ℕ) → contains e xs ≡ true → Split e xs
unfolding contains erase
contains-Split e [] h = absurd (cc)
contains-Split e (x ∷ xs) h = elim (Bool-cases (x == e)) [
  | inl here ↦ record { front = []; back = xs; whole = ground arith; erased = rw here }
  | inr later ↦
      let s = contains-Split e xs (ground arith) in
      record {
        front = x ∷ s.front;
        back = s.back;
        whole = ap (λ t. x ∷ t) s.whole;
        erased = rw later (ap (λ t. x ∷ t) s.erased);
      }
]

module _ (plist : ℕ) where
  -- One call: where the sequence admits it, the list holds the new sequence.
  apply-IsList :
      (op : Op) (k : Links) (xs ys : List ℕ)
      → IsList k plist xs
      → step plist op xs ≡ some ys
      → IsList (apply plist op k) plist ys
  unfolding step apply
  apply-IsList (push e) k xs ys l h = elim (Bool-cases (contains e (nodes plist xs))) [
    | inl old ↦ absurd (ground arith)
    | inr new ↦
        let r : (e ∷ xs) ≡ ys = ground arith in
        rw (← r) (list_push-IsList k plist xs e l (not-contains-Out e (nodes plist xs) new))
  ]
  apply-IsList (append e) k xs ys l h = elim (Bool-cases (contains e (nodes plist xs))) [
    | inl old ↦ absurd (ground arith)
    | inr new ↦
        let r : xs ++ (e ∷ []) ≡ ys = ground arith in
        rw (← r) (list_append-IsList k plist xs e l (not-contains-Out e (nodes plist xs) new))
  ]
  apply-IsList (remove e) k xs ys l h = elim (Bool-cases (contains e xs)) [
    | inl there ↦
        let s = contains-Split e xs there in
        let r : s.front ++ s.back ≡ ys = ground (arith, s.erased) in
        rw (← r) (list_remove-IsList k plist s.front e s.back (rw s.whole at l))
    | inr gone ↦ absurd (ground arith)
  ]
  apply-IsList pop k [] ys l h = absurd (cc)
  apply-IsList pop k (x ∷ xs) ys l h =
      let r : xs ≡ ys = ground arith in rw (← r) (list_pop-IsList k plist x xs l).1

  -- A list that holds a sequence of distinct elements holds, after any series of list_push,
  -- list_append, list_remove and list_pop that the sequence admits (no second insertion, no
  -- removal of what is not there, no pop of the empty list), the sequence that these calls
  -- make of it.
  pub run-IsList :
      (ops : List Op) (k : Links) (xs ys : List ℕ)
      → IsList k plist xs
      → steps plist ops xs ≡ some ys
      → IsList (run plist ops k) plist ys
  unfolding steps run
  run-IsList [] k xs ys l h = let r : xs ≡ ys = ground arith in rw (← r) l
  run-IsList (op ∷ ops) k xs ys l h = elim (Option-cases (step plist op xs)) [
    | inl e ↦ absurd (ground arith)
    | inr (zs, e) ↦
        run-IsList ops (apply plist op k) zs ys (apply-IsList op k xs zs l e) (ground arith)
  ]
