-- ===== src/Lists/Frame.antt =====
-- An operation on one list leaves the lists alone that share no element with it.
use mathlib.Core.List.{append_assoc}
use mathlib.Core.Path.{subst}
use leeos.Base.{ℕ, sym, List, [], ◌∷◌, ◌++◌}
use leeos.Base.Distinct.{All, Out, Distinct, Out-append, update-All, update_twice-All}
use leeos.Lists.{Links, head_of, tail_of, list_push, list_append, list_remove, list_pop}
use leeos.Lists.Chain.{
  last, first, linked, joined, Chain-frame, prev-Chain, next-Chain, Chain-mid, ne-last, ne-first,
  last-ne_mid,
}
use leeos.Lists.Refine.{IsList, list_insert_before_lem, list_remove_lem, first-prev}

-- The list at `plist` with its two ends.
abbrev pub nodes : ℕ → List ℕ → List ℕ
nodes plist xs = head_of plist ∷ (xs ++ (tail_of plist ∷ []))

-- No element of `zs` is in `xs`.
abbrev pub Apart : List ℕ → List ℕ → Type 0
Apart zs xs = All (λ z. Out z xs) zs

last-Out : (a : ℕ) (xs ys zs : List ℕ) → Apart zs (a ∷ (xs ++ ys)) → Out (last a xs) zs
last-Out a xs ys [] o = tt
last-Out a xs ys (z ∷ zs) o =
    (λ e. ne-last z a xs (o.0.0, (Out-append z xs ys o.0.1).0) (sym e), last-Out a xs ys zs o.1)

first-Out : (ys : List ℕ) (b : ℕ) (zs : List ℕ) → Apart zs (ys ++ (b ∷ [])) → Out (first ys b) zs
first-Out ys b [] o = tt
first-Out ys b (z ∷ zs) o = (λ e. ne-first z ys b o.0 (sym e), first-Out ys b zs o.1)

Apart-append : (zs xs ys : List ℕ) → Apart zs (xs ++ ys) → Apart zs ys
Apart-append [] xs ys o = tt
Apart-append (z ∷ zs) xs ys o = ((Out-append z xs ys o.0).1, Apart-append zs xs ys o.1)

Apart-head : (x : ℕ) (xs zs : List ℕ) → Apart zs (x ∷ xs) → Out x zs
Apart-head x xs [] o = tt
Apart-head x xs (z ∷ zs) o = (λ e. o.0.0 (sym e), Apart-head x xs zs o.1)

Apart-tail : (x : ℕ) (xs zs : List ℕ) → Apart zs (x ∷ xs) → Apart zs xs
Apart-tail x xs [] o = tt
Apart-tail x xs (z ∷ zs) o = (o.0.1, Apart-tail x xs zs o.1)

pub Apart-sym : (xs zs : List ℕ) → Apart zs xs → Apart xs zs
Apart-sym [] zs o = tt
Apart-sym (x ∷ xs) zs o = (Apart-head x xs zs o, Apart-sym xs zs (Apart-tail x xs zs o))

module _ (k : Links) (other : ℕ) (zs : List ℕ) (l : IsList k other zs) where
  split_head : (p : ℕ) → Out p (nodes other zs) → Out p (head_of other ∷ zs)
  split_head p o = (o.0, (Out-append p zs (tail_of other ∷ []) o.1).0)

  linked-frame :
      (p e n : ℕ)
      → Out p (nodes other zs)
      → Out e (nodes other zs)
      → Out n (nodes other zs)
      → IsList (linked k p e n) other zs
  linked-frame p e n op oe on = record {
    chain =
        Chain-frame k (linked k p e n) (head_of other) zs (tail_of other) l.chain
          (update_twice-All k.next p e e n (head_of other ∷ zs) (split_head p op) (split_head e oe))
          (update_twice-All k.prev e n p e (zs ++ (tail_of other ∷ [])) oe.1 on.1);
    distinct = l.distinct;
  }

  joined-frame :
      (p n : ℕ) → Out p (nodes other zs) → Out n (nodes other zs) → IsList (joined k p n) other zs
  joined-frame p n op on = record {
    chain =
        Chain-frame k (joined k p n) (head_of other) zs (tail_of other) l.chain
          (update-All k.next p n (head_of other ∷ zs) (split_head p op))
          (update-All k.prev n p (zs ++ (tail_of other ∷ [])) on.1);
    distinct = l.distinct;
  }

  module _ (plist : ℕ) (xs : List ℕ) (apart : Apart (nodes other zs) (nodes plist xs)) where
    pub list_append-frame :
        (elem : ℕ)
        → IsList k plist xs
        → Out elem (nodes other zs)
        → IsList (list_append plist elem k) other zs
    unfolding list_append
    list_append-frame elem m oe =
        rw
          (list_insert_before_lem k (last (head_of plist) xs) (tail_of plist) elem
            (prev-Chain k (head_of plist) xs (tail_of plist) m.chain))
          (linked-frame (last (head_of plist) xs) elem (tail_of plist)
            (last-Out (head_of plist) xs (tail_of plist ∷ []) (nodes other zs) apart) oe
            (first-Out [] (tail_of plist) (nodes other zs)
              (Apart-append (nodes other zs) (head_of plist ∷ xs) (tail_of plist ∷ []) apart)))

    pub list_push-frame :
        (elem : ℕ)
        → IsList k plist xs
        → Out elem (nodes other zs)
        → IsList (list_push plist elem k) other zs
    unfolding list_push
    list_push-frame elem m oe =
        rw
          (
            list_insert_before_lem k (head_of plist) (k.next (head_of plist)) elem
                (first-prev k plist xs m),
            next-Chain k (head_of plist) xs (tail_of plist) m.chain,
          )
          (linked-frame (head_of plist) elem (first xs (tail_of plist))
            (last-Out (head_of plist) [] (xs ++ (tail_of plist ∷ [])) (nodes other zs) apart) oe
            (first-Out xs (tail_of plist) (nodes other zs) (
              Apart-append (nodes other zs) (head_of plist ∷ []) (xs ++ (tail_of plist ∷ []))
                apart)))

  pub list_remove-frame :
      (plist : ℕ) (xs : List ℕ) (elem : ℕ) (ys : List ℕ)
      → IsList k plist (xs ++ (elem ∷ ys))
      → Apart (nodes other zs) (nodes plist (xs ++ (elem ∷ ys)))
      → IsList (list_remove elem k) other zs
  list_remove-frame plist xs elem ys m apart =
      let d : Distinct ((head_of plist ∷ xs) ++ (elem ∷ (ys ++ (tail_of plist ∷ [])))) =
        rw append_assoc at m.distinct in
      let o : Apart (nodes other zs)
          ((head_of plist ∷ xs) ++ (elem ∷ (ys ++ (tail_of plist ∷ [])))) =
        subst (λ w. Apart (nodes other zs) (head_of plist ∷ w))
          (append_assoc xs (elem ∷ ys) (tail_of plist ∷ [])) apart in
      let mid = Chain-mid k (head_of plist) xs elem ys (tail_of plist) m.chain in
      rw
        (list_remove_lem k elem (last (head_of plist) xs) (first ys (tail_of plist)) mid.0 mid.1
          (last-ne_mid (head_of plist) xs elem (ys ++ (tail_of plist ∷ [])) d))
        (joined-frame (last (head_of plist) xs) (first ys (tail_of plist))
          (last-Out (head_of plist) xs _ (nodes other zs) o)
          (first-Out ys (tail_of plist) (nodes other zs) (
            Apart-append (nodes other zs) (elem ∷ []) (ys ++ (tail_of plist ∷ []))
              (Apart-append (nodes other zs) (head_of plist ∷ xs) _ o))))

  pub list_pop-frame :
      (plist x : ℕ) (xs : List ℕ)
      → IsList k plist (x ∷ xs)
      → Apart (nodes other zs) (nodes plist (x ∷ xs))
      → IsList (list_pop plist k).1 other zs
  unfolding list_pop
  list_pop-frame plist x xs m apart = rw m.chain.0 (list_remove-frame plist [] x xs m apart)
