-- ===== src/Thread/Queue.antt =====
-- Queues of threads: lists of the tags in their pcbs.
use leeos.Base.{
  ℕ, suc, ◌+◌, ◌^◌, ◌<◌, ◌≡◌, ◌≢◌, refl, List, [], ◌∷◌, ◌++◌, map, arith, ap, length, false,
}
use leeos.Base.Distinct.{Distinct, Out, append-Out}
use leeos.Lists.Refine.{contains}
use leeos.Kernel.{general_tag, pcb_of_tag}

abbrev pub tags : List ℕ → List ℕ
tags ps = map general_tag ps

-- A pcb whose tag is an address, and is not an end of the list at `plist`.
pub record IsPcb (plist p : ℕ) : Type 0 where
  pub address : general_tag p < 2 ^ 32
  pub ne_head : general_tag p ≢ plist
  pub ne_tail : general_tag p ≢ plist + 8

pub pcb_of_tag_lem : (plist p : ℕ) → IsPcb plist p → pcb_of_tag (general_tag p) ≡ p
pcb_of_tag_lem plist p h = omega arith

pub Out-tags : (p : ℕ) (ps : List ℕ) → Out p ps → Out (general_tag p) (tags ps)
Out-tags p [] o = tt
Out-tags p (q ∷ ps) o = (omega (arith, o.0), Out-tags p ps o.1)

pub Out-nodes :
    (plist p : ℕ) (ps : List ℕ)
    → IsPcb plist p
    → Out p ps
    → Out (general_tag p) (plist ∷ (tags ps ++ ((plist + 8) ∷ [])))
Out-nodes plist p ps h o =
    (h.ne_head, append-Out (general_tag p) (tags ps) _ (Out-tags p ps o) (h.ne_tail, tt))

pub Out-contains : (x : ℕ) (xs : List ℕ) → Out x xs → contains x xs ≡ false
unfolding contains
Out-contains x [] o = refl
Out-contains x (y ∷ xs) o = ground (arith, Out-contains x xs o.1)

pub length-tags : (ps : List ℕ) → length (tags ps) ≡ length ps
length-tags [] = refl
length-tags (p ∷ ps) = ap suc (length-tags ps)

pub tags-append : (ps qs : List ℕ) → tags (ps ++ qs) ≡ tags ps ++ tags qs
tags-append [] qs = refl
tags-append (p ∷ ps) qs = ap (λ t. general_tag p ∷ t) (tags-append ps qs)

tags-Out : (p : ℕ) (ps zs : List ℕ) → Out (general_tag p) (tags ps ++ zs) → Out p ps
tags-Out p [] zs o = tt
tags-Out p (q ∷ ps) zs o = (λ e. o.0 (ap general_tag e), tags-Out p ps zs o.1)

pub tags-Distinct : (ps zs : List ℕ) → Distinct (tags ps ++ zs) → Distinct ps
tags-Distinct [] zs d = tt
tags-Distinct (p ∷ ps) zs d = (tags-Out p ps zs d.0, tags-Distinct ps zs d.1)
