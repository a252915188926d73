-- ===== src/Base/Distinct.antt =====
-- Absence from a list, distinct elements, and predicates that hold throughout a list.
use Prim.Native.Nat.{ℕ}
use mathlib.Core.Path.{◌≡◌}
use mathlib.Core.Logic.{◌≢◌}
use mathlib.Core.List.{List, [], ◌∷◌, ◌++◌}
use native.Mathlib.Omega.{arith}
use leeos.Base.Memory.{update}

abbrev pub All {ℓ κ} : {A : Type ℓ} → (A → Type κ) → List A → Type κ
All P [] = Unit
All P (x ∷ xs) = P x × All P xs

pub All-append {ℓ} :
    {A : Type ℓ} (P : A → Type 0) (xs ys : List A) → All P xs → All P ys → All P (xs ++ ys)
All-append P [] ys h g = g
All-append P (x ∷ xs) ys h g = (h.0, All-append P xs ys h.1 g)

-- `a` is not in the list.
abbrev pub Out : ℕ → List ℕ → Type 0
Out a [] = Unit
Out a (x ∷ xs) = (a ≢ x) × Out a xs

abbrev pub Distinct : List ℕ → Type 0
Distinct [] = Unit
Distinct (x ∷ xs) = Out x xs × Distinct xs

pub Out-append : (a : ℕ) (xs ys : List ℕ) → Out a (xs ++ ys) → Out a xs × Out a ys
Out-append a [] ys h = (tt, h)
Out-append a (x ∷ xs) ys h = let ih = Out-append a xs ys h.1 in ((h.0, ih.0), ih.1)

pub append-Out : (a : ℕ) (xs ys : List ℕ) → Out a xs → Out a ys → Out a (xs ++ ys)
append-Out a [] ys h g = g
append-Out a (x ∷ xs) ys h g = (h.0, append-Out a xs ys h.1 g)

pub Distinct-append : (xs ys : List ℕ) → Distinct (xs ++ ys) → Distinct ys
Distinct-append [] ys h = h
Distinct-append (x ∷ xs) ys h = Distinct-append xs ys h.1

-- What is left when one element is dropped, and what comes when one is put in.
pub Out-drop : (a e : ℕ) (xs ys : List ℕ) → Out a (xs ++ (e ∷ ys)) → Out a (xs ++ ys)
Out-drop a e [] ys h = h.1
Out-drop a e (x ∷ xs) ys h = (h.0, Out-drop a e xs ys h.1)

pub Out-insert : (a e : ℕ) (xs ys : List ℕ) → a ≢ e → Out a (xs ++ ys) → Out a (xs ++ (e ∷ ys))
Out-insert a e [] ys ne h = (ne, h)
Out-insert a e (x ∷ xs) ys ne h = (h.0, Out-insert a e xs ys ne h.1)

pub Distinct-drop : (e : ℕ) (xs ys : List ℕ) → Distinct (xs ++ (e ∷ ys)) → Distinct (xs ++ ys)
Distinct-drop e [] ys h = h.1
Distinct-drop e (x ∷ xs) ys h = (Out-drop x e xs ys h.0, Distinct-drop e xs ys h.1)

pub Distinct-insert :
    (e : ℕ) (xs ys : List ℕ) → Out e (xs ++ ys) → Distinct (xs ++ ys) → Distinct (xs ++ (e ∷ ys))
Distinct-insert e [] ys o h = (o, h)
Distinct-insert e (x ∷ xs) ys o h =
    (Out-insert x e xs ys (ground arith) h.0, Distinct-insert e xs ys o.1 h.1)

pub update-All {ℓ} :
    {A : Type ℓ} (f : ℕ → A) (i : ℕ) (v : A) (xs : List ℕ)
    → Out i xs
    → All (λ z. update f i v z ≡ f z) xs
update-All f i v [] o = tt
update-All f i v (x ∷ xs) o = (ground arith, update-All f i v xs o.1)

pub update_twice-All {ℓ} :
    {A : Type ℓ} (f : ℕ → A) (i j : ℕ) (v w : A) (xs : List ℕ)
    → Out i xs
    → Out j xs
    → All (λ z. update (update f i v) j w z ≡ f z) xs
update_twice-All f i j v w [] oi oj = tt
update_twice-All f i j v w (x ∷ xs) oi oj = (ground arith, update_twice-All f i j v w xs oi.1 oj.1)

pub All-insert :
    (P : ℕ → Type 0) (e : ℕ) (xs ys : List ℕ) → P e → All P (xs ++ ys) → All P (xs ++ (e ∷ ys))
All-insert P e [] ys p a = (p, a)
All-insert P e (x ∷ xs) ys p a = (a.0, All-insert P e xs ys p a.1)
