-- ===== src/Lists/Refine.antt =====
-- The operations of list.c act on the list's elements as on a sequence.
use mathlib.Core.List.{append_assoc}
use leeos.Base.{
  ℕ, ◌≡◌, ◌≢◌, List, [], ◌∷◌, ◌++◌, arith, ◌==◌, if◌then◌else◌, Bool, true, false, sym, ◌∙◌,
  ==_of_ne,
}
use leeos.Base.Distinct.{Out, Distinct, Out-append, Distinct-insert, Distinct-drop}
use leeos.Interrupt.{IntrStatus, intr_restored}
use leeos.Lists.{
  Links, head_of, tail_of, list_init, list_insert_before, list_push, list_append, list_remove,
  list_pop, list_empty,
}
use leeos.Lists.Chain.{
  Chain, last, first, linked, joined, Chain-linked_end, Chain-linked_front, last-ne_mid,
  Chain-joined, prev-Chain, next-Chain, Chain-mid,
}

-- The list at `plist` holds the elements `xs`, in order, all distinct.
pub record IsList (k : Links) (plist : ℕ) (xs : List ℕ) : Type 0 where
  pub chain : Chain k (head_of plist) xs (tail_of plist)
  pub distinct : Distinct (head_of plist ∷ (xs ++ (tail_of plist ∷ [])))

-- The writes of an insertion and of a removal, with the interrupt flag as it was.
pub list_insert_before_lem :
    (k : Links) (p before elem : ℕ)
    → k.prev before ≡ p
    → list_insert_before before elem k ≡ linked k p elem before
unfolding list_insert_before
list_insert_before_lem k p before elem e = rw (← e, (intr_restored k.intr).0)

pub list_remove_lem :
    (k : Links) (elem p n : ℕ)
    → k.prev elem ≡ p
    → k.next elem ≡ n
    → p ≢ elem
    → list_remove elem k ≡ joined k p n
unfolding list_remove
list_remove_lem k elem p n ep en ne =
    rw (← ep, ← en, (intr_restored k.intr).0, ==_of_ne (k.prev elem) elem (λ q. ne (sym ep ∙ q)))

Chain-intr :
    (k : Links) (s : IntrStatus) (a : ℕ) (xs : List ℕ) (b : ℕ)
    → Chain k a xs b
    → Chain (record k { intr = s }) a xs b
Chain-intr k s a [] b c = c
Chain-intr k s a (x ∷ xs) b c = (c.0, c.1, Chain-intr k s x xs b c.2)

-- What a list holds does not depend on the interrupt flag.
pub IsList-intr :
    (k : Links) (s : IntrStatus) (plist : ℕ) (xs : List ℕ)
    → IsList k plist xs
    → IsList (record k { intr = s }) plist xs
IsList-intr k s plist xs l = record {
  chain = Chain-intr k s (head_of plist) xs (tail_of plist) l.chain;
  distinct = l.distinct;
}

-- The operations leave the interrupt flag as it was.
pub intr-list_insert_before :
    (before elem : ℕ) (k : Links) → (list_insert_before before elem k).intr ≡ k.intr
unfolding list_insert_before
intr-list_insert_before before elem k = (intr_restored k.intr).0

pub intr-list_append : (plist elem : ℕ) (k : Links) → (list_append plist elem k).intr ≡ k.intr
unfolding list_append
intr-list_append plist elem k = intr-list_insert_before (tail_of plist) elem k

pub intr-list_push : (plist elem : ℕ) (k : Links) → (list_push plist elem k).intr ≡ k.intr
unfolding list_push
intr-list_push plist elem k = intr-list_insert_before (k.next (head_of plist)) elem k

pub intr-list_pop : (plist : ℕ) (k : Links) → (list_pop plist k).1.intr ≡ k.intr
unfolding list_pop list_remove
intr-list_pop plist k = (intr_restored k.intr).0

-- Whether a sequence has the element.
unfoldable pub contains : ℕ → List ℕ → Bool
contains obj [] = false
contains obj (x ∷ xs) = if x == obj then true else contains obj xs

module _ (k : Links) (plist : ℕ) where
  -- `list_init` makes the list empty.
  pub list_init-IsList : IsList (list_init plist k) plist []
  unfolding list_init
  list_init-IsList = record { chain = ground arith; distinct = ground arith }

  pub list_append-IsList :
      (xs : List ℕ) (elem : ℕ)
      → IsList k plist xs
      → Out elem (head_of plist ∷ (xs ++ (tail_of plist ∷ [])))
      → IsList (list_append plist elem k) plist (xs ++ (elem ∷ []))
  unfolding list_append
  list_append-IsList xs elem l o =
      rw
        (list_insert_before_lem k (last (head_of plist) xs) (tail_of plist) elem
          (prev-Chain k (head_of plist) xs (tail_of plist) l.chain))
        (record {
          chain = Chain-linked_end k elem (tail_of plist) (head_of plist) xs l.chain l.distinct o;
          distinct =
              rw append_assoc
                (Distinct-insert elem (head_of plist ∷ xs) (tail_of plist ∷ []) o l.distinct);
        })

  pub first-prev :
      (xs : List ℕ) → IsList k plist xs → k.prev (k.next (head_of plist)) ≡ head_of plist
  first-prev [] l = rw l.chain.0 l.chain.1
  first-prev (x ∷ xs) l = rw l.chain.0 l.chain.1

  pub list_push-IsList :
      (xs : List ℕ) (elem : ℕ)
      → IsList k plist xs
      → Out elem (head_of plist ∷ (xs ++ (tail_of plist ∷ [])))
      → IsList (list_push plist elem k) plist (elem ∷ xs)
  unfolding list_push
  list_push-IsList xs elem l o =
      rw
        (
          list_insert_before_lem k (head_of plist) (k.next (head_of plist)) elem (first-prev xs l),
          next-Chain k (head_of plist) xs (tail_of plist) l.chain,
        )
        (record {
          chain = Chain-linked_front k elem (tail_of plist) (head_of plist) xs l.chain l.distinct o;
          distinct =
              Distinct-insert elem (head_of plist ∷ []) (xs ++ (tail_of plist ∷ [])) o l.distinct;
        })

  -- The element's neighbours are found by its own links, wherever in the list it stands.
  pub list_remove-IsList :
      (xs : List ℕ) (elem : ℕ) (ys : List ℕ)
      → IsList k plist (xs ++ (elem ∷ ys))
      → IsList (list_remove elem k) plist (xs ++ ys)
  list_remove-IsList xs elem ys l =
      let mid = Chain-mid k (head_of plist) xs elem ys (tail_of plist) l.chain in
      let d : Distinct ((head_of plist ∷ xs) ++ (elem ∷ (ys ++ (tail_of plist ∷ [])))) =
        rw append_assoc at l.distinct in
      rw
        (list_remove_lem k elem (last (head_of plist) xs) (first ys (tail_of plist)) mid.0 mid.1
          (last-ne_mid (head_of plist) xs elem (ys ++ (tail_of plist ∷ [])) d))
        (record {
          chain = Chain-joined k elem (tail_of plist) (head_of plist) xs ys l.chain l.distinct;
          distinct = rw append_assoc (Distinct-drop elem (head_of plist ∷ xs) _ d);
        })

  pub list_pop-IsList :
      (x : ℕ) (xs : List ℕ)
      → IsList k plist (x ∷ xs)
      → ((list_pop plist k).0 ≡ x) × IsList (list_pop plist k).1 plist xs
  unfolding list_pop
  list_pop-IsList x xs l = (l.chain.0, rw l.chain.0 (list_remove-IsList [] x xs l))

  pub list_empty-nil : IsList k plist [] → list_empty plist k ≡ true
  unfolding list_empty
  list_empty-nil l = ground (arith, l.chain.0)

  pub list_empty-cons : (x : ℕ) (xs : List ℕ) → IsList k plist (x ∷ xs) → list_empty plist k ≡ false
  unfolding list_empty
  list_empty-cons x xs l =
      ground (arith, l.chain.0, (Out-append x xs (tail_of plist ∷ []) l.distinct.1.0).1.0)
