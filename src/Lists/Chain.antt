-- ===== src/Lists/Chain.antt =====
-- The elements of a list as a chain from its head to its tail, and what a write does to it.
use leeos.Base.{ℕ, ◌≡◌, ◌≢◌, List, [], ◌∷◌, ◌++◌, arith, ◌∙◌}
use leeos.Base.Memory.{update}
use leeos.Base.Distinct.{All, Out, Distinct, Out-append, append-Out, update-All, update_twice-All}
use leeos.Lists.{Links}

-- From `a` the `next` fields lead through `xs` to `b`, and the `prev` fields back.
abbrev pub Chain : Links → ℕ → List ℕ → ℕ → Type 0
Chain k a [] b = (k.next a ≡ b) × (k.prev b ≡ a)
Chain k a (x ∷ xs) b = (k.next a ≡ x) × (k.prev x ≡ a) × Chain k x xs b

abbrev pub last : ℕ → List ℕ → ℕ
last a [] = a
last a (x ∷ xs) = last x xs

abbrev pub first : List ℕ → ℕ → ℕ
first [] b = b
first (x ∷ xs) b = x

pub ne-last : (z a : ℕ) (xs : List ℕ) → Out z (a ∷ xs) → z ≢ last a xs
ne-last z a [] o = o.0
ne-last z a (x ∷ xs) o = ne-last z x xs o.1

pub ne-first : (z : ℕ) (ys : List ℕ) (b : ℕ) → Out z (ys ++ (b ∷ [])) → z ≢ first ys b
ne-first z [] b o = o.0
ne-first z (y ∷ ys) b o = o.0

pub last-ne_mid :
    (a : ℕ) (xs : List ℕ) (e : ℕ) (zs : List ℕ) → Distinct (a ∷ (xs ++ (e ∷ zs))) → last a xs ≢ e
last-ne_mid a [] e zs d = d.0.0
last-ne_mid a (x ∷ xs) e zs d = last-ne_mid x xs e zs d.1

module _ (k : Links) where
  pub prev-Chain : (a : ℕ) (xs : List ℕ) (b : ℕ) → Chain k a xs b → k.prev b ≡ last a xs
  prev-Chain a [] b c = c.1
  prev-Chain a (x ∷ xs) b c = prev-Chain x xs b c.2

  pub next-Chain : (a : ℕ) (xs : List ℕ) (b : ℕ) → Chain k a xs b → k.next a ≡ first xs b
  next-Chain a [] b c = c.0
  next-Chain a (x ∷ xs) b c = c.0

  -- A chain survives writes elsewhere.
  pub Chain-frame :
      (g : Links) (a : ℕ) (xs : List ℕ) (b : ℕ)
      → Chain k a xs b
      → All (λ z. g.next z ≡ k.next z) (a ∷ xs)
      → All (λ z. g.prev z ≡ k.prev z) (xs ++ (b ∷ []))
      → Chain g a xs b
  Chain-frame g a [] b c n p = (n.0 ∙ c.0, p.0 ∙ c.1)
  Chain-frame g a (x ∷ xs) b c n p = (n.0 ∙ c.0, p.0 ∙ c.1, Chain-frame g x xs b c.2 n.1 p.1)

  -- An element's links within a chain.
  pub Chain-mid :
      (a : ℕ) (xs : List ℕ) (e : ℕ) (ys : List ℕ) (b : ℕ)
      → Chain k a (xs ++ (e ∷ ys)) b
      → (k.prev e ≡ last a xs) × (k.next e ≡ first ys b)
  Chain-mid a [] e ys b c = (c.1, next-Chain e ys b c.2)
  Chain-mid a (x ∷ xs) e ys b c = Chain-mid x xs e ys b c.2

-- `e` put between `p` and `n`; `p` and `n` joined.
abbrev pub linked : Links → (p e n : ℕ) → Links
linked k p e n = record k {
  prev = update (update k.prev e p) n e;
  next = update (update k.next p e) e n;
}

abbrev pub joined : Links → (p n : ℕ) → Links
joined k p n = record k { prev = update k.prev n p; next = update k.next p n }

module _ (k : Links) (e b : ℕ) where
  pub Chain-linked_end :
      (a : ℕ) (xs : List ℕ)
      → Chain k a xs b
      → Distinct (a ∷ (xs ++ (b ∷ [])))
      → Out e (a ∷ (xs ++ (b ∷ [])))
      → Chain (linked k (last a xs) e b) a (xs ++ (e ∷ [])) b
  Chain-linked_end a [] c d o = (ground arith, ground arith, (ground arith, ground arith))
  Chain-linked_end a (x ∷ xs) c d o =
      let in_front = ne-last a x xs (Out-append a (x ∷ xs) (b ∷ []) d.0).0 in
      let behind = Out-append x xs (b ∷ []) d.1.0 in
      (
        ground (arith, c.0, in_front, o.0),
        ground (arith, c.1, o.1.0, behind.1.0),
        Chain-linked_end x xs c.2 d.1 o.1,
      )

  -- An element taken out.
  pub Chain-joined :
      (a : ℕ) (xs ys : List ℕ)
      → Chain k a (xs ++ (e ∷ ys)) b
      → Distinct (a ∷ ((xs ++ (e ∷ ys)) ++ (b ∷ [])))
      → Chain (joined k (last a xs) (first ys b)) a (xs ++ ys) b
  Chain-joined a [] [] c d = (ground arith, ground arith)
  Chain-joined a [] (y ∷ ys) c d = (
    ground arith,
    ground arith,
    Chain-frame k (joined k a y) y ys b c.2.2
        (update-All k.next a y (y ∷ ys) (d.0.1.0, (Out-append a ys (b ∷ []) d.0.1.1).0))
        (update-All k.prev y a (ys ++ (b ∷ [])) d.1.1.0),
  )
  Chain-joined a (x ∷ xs) ys c d =
      let o = Out-append a (x ∷ (xs ++ (e ∷ ys))) (b ∷ []) d.0 in
      let p = Out-append x (xs ++ (e ∷ ys)) (b ∷ []) d.1.0 in
      let q = Out-append x xs (e ∷ ys) p.0 in
      (
        ground (arith, c.0, ne-last a x xs (Out-append a (x ∷ xs) (e ∷ ys) o.0).0),
        ground (arith, c.1, ne-first x ys b (append-Out x ys (b ∷ []) q.1.1 p.1)),
        Chain-joined x xs ys c.2 d.1,
      )

  -- An element put in front.
  pub Chain-linked_front :
      (a : ℕ) (xs : List ℕ)
      → Chain k a xs b
      → Distinct (a ∷ (xs ++ (b ∷ [])))
      → Out e (a ∷ (xs ++ (b ∷ [])))
      → Chain (linked k a e (first xs b)) a (e ∷ xs) b
  Chain-linked_front a [] c d o = (ground arith, ground arith, (ground arith, ground arith))
  Chain-linked_front a (x ∷ xs) c d o =
      let oa = Out-append e xs (b ∷ []) o.1.1 in
      (
        ground (arith, o.0),
        ground (arith, o.1.0),
        (
          ground arith,
          ground arith,
          Chain-frame k (linked k a e x) x xs b c.2
              (update_twice-All k.next a e e x (x ∷ xs) (Out-append a (x ∷ xs) (b ∷ []) d.0).0
                (o.1.0, oa.0))
              (update_twice-All k.prev e x a e (xs ++ (b ∷ [])) o.1.1 d.1.0),
        ),
      )
