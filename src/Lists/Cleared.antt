-- ===== src/Lists/Cleared.antt =====
-- memset to zero on memory in which the list elements of lib/kernel/list.h lie.
use leeos.Base.{
  ℕ, ◌+◌, ◌≤◌, ◌<◌, ◌≡◌, ◌⊎◌, Bool, ◌&&◌, ltb, leb, if◌then◌else◌, List, [], ◌∷◌, ◌++◌, arith,
}
use leeos.Base.Distinct.{All, Out}
use leeos.Lists.{Links, head_of, tail_of}
use leeos.Lists.Chain.{Chain-frame}
use leeos.Lists.Refine.{IsList}
use leeos.Lists.Frame.{nodes}

module _ (start size : ℕ) where
  abbrev pub is_within : ℕ → Bool
  is_within a = leb start a && ltb a (start + size)

  -- The `next` of an element stands 4 bytes behind its `prev`.
  abbrev pub clear_links : Links → Links
  clear_links l = record l {
    prev = λ a. if is_within a then 0 else l.prev a;
    next = λ a. if is_within (a + 4) then 0 else l.next a;
  }

  -- No element of the list reaches into the memory.
  abbrev pub Beyond : List ℕ → Type 0
  Beyond zs = All (λ z. (z + 8 ≤ start) ⊎ (start + size ≤ z)) zs

  pub Beyond-Out : (t : ℕ) (zs : List ℕ) → start ≤ t → t < start + size → Beyond zs → Out t zs
  Beyond-Out t [] lo hi b = tt
  Beyond-Out t (z ∷ zs) lo hi b = (omega (arith, b.0), Beyond-Out t zs lo hi b.1)

  Beyond-next :
      (l : Links) (zs ys : List ℕ)
      → Beyond (zs ++ ys)
      → All (λ z. (clear_links l).next z ≡ l.next z) zs
  Beyond-next l [] ys b = tt
  Beyond-next l (z ∷ zs) ys b = (ground (arith, b.0), Beyond-next l zs ys b.1)

  Beyond-prev :
      (l : Links) (zs : List ℕ) → Beyond zs → All (λ z. (clear_links l).prev z ≡ l.prev z) zs
  Beyond-prev l [] b = tt
  Beyond-prev l (z ∷ zs) b = (ground (arith, b.0), Beyond-prev l zs b.1)

  -- Clearing keeps the lists that lie outside.
  pub clear_links-IsList :
      (l : Links) (plist : ℕ) (xs : List ℕ)
      → Beyond (nodes plist xs)
      → IsList l plist xs
      → IsList (clear_links l) plist xs
  clear_links-IsList l plist xs b i = record {
    chain =
        Chain-frame l (clear_links l) (head_of plist) xs (tail_of plist) i.chain
          (Beyond-next l (head_of plist ∷ xs) (tail_of plist ∷ []) b)
          (Beyond-prev l (xs ++ (tail_of plist ∷ [])) b.1);
    distinct = i.distinct;
  }
