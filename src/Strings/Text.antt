-- ===== src/Strings/Text.antt =====
-- The routines of lib/string.c on strings that end with a zero byte.
use mathlib.Core.Path.{subst}
use leeos.Base.{
  ℕ, zero, suc, ◌+◌, ◌≤◌, ◌<◌, ◌≡◌, ◌≢◌, ◌⊎◌, inl, ap, ◌∙◌, List, [], ◌∷◌, ◌++◌, length, ok,
  ==_of_ne, arith, Returns, Returns-mono,
}
use leeos.Base.Memory.{update, update_self, update_ne}
use leeos.Strings.{strlen, strlen_loop, strcpy, strcpy_loop, strcat, end_of_string}
use leeos.Strings.Copies.{Outside}

-- The bytes at `p` are those of the string, and then the terminator.
abbrev pub IsString : (ℕ → ℕ) → ℕ → List ℕ → Type 0
IsString m p [] = m p ≡ 0
IsString m p (x ∷ xs) = (m p ≡ x) × (x ≢ 0) × IsString m (suc p) xs

pub strlen_loop_lem :
    (fuel : ℕ) (m : ℕ → ℕ) (p len : ℕ) (xs : List ℕ)
    → IsString m p xs
    → length xs < fuel
    → strlen_loop fuel m p len ≡ ok (len + length xs)
unfolding strlen_loop
strlen_loop_lem zero m p len xs s h = absurd (omega arith)
strlen_loop_lem (suc fuel) m p len [] s h = rw (s) (ap ok (omega arith))
strlen_loop_lem (suc fuel) m p len (x ∷ xs) s h =
    rw (s.0, ==_of_ne x 0 s.1)
      (strlen_loop_lem fuel m (suc p) (suc len) xs s.2 (omega arith) ∙ ap ok (omega arith))

pub end_of_string_lem :
    (fuel : ℕ) (m : ℕ → ℕ) (p : ℕ) (xs : List ℕ)
    → IsString m p xs
    → length xs < fuel
    → end_of_string fuel m p ≡ ok (p + length xs)
unfolding end_of_string
end_of_string_lem zero m p xs s h = absurd (omega arith)
end_of_string_lem (suc fuel) m p [] s h = rw (s) (ap ok (omega arith))
end_of_string_lem (suc fuel) m p (x ∷ xs) s h =
    rw (s.0, ==_of_ne x 0 s.1)
      (end_of_string_lem fuel m (suc p) xs s.2 (omega arith) ∙ ap ok (omega arith))

-- A string depends on its own bytes only.
pub IsString-frame :
    (m m' : ℕ → ℕ) (p : ℕ) (xs : List ℕ)
    → ((a : ℕ) → p ≤ a → a ≤ p + length xs → m' a ≡ m a)
    → IsString m p xs
    → IsString m' p xs
IsString-frame m m' p [] same s = same p (omega arith) (omega arith) ∙ s
IsString-frame m m' p (x ∷ xs) same s = (
  same p (omega arith) (omega arith) ∙ s.0,
  s.1,
  IsString-frame m m' (suc p) xs (λ a lo hi. same a (omega arith) (omega arith)) s.2,
)

pub record Copied (m : ℕ → ℕ) (dst : ℕ) (xs : List ℕ) (m' : ℕ → ℕ) : Type 0 where
  pub copy : IsString m' dst xs
  pub frame : (a : ℕ) → Outside dst (suc (length xs)) a → m' a ≡ m a

-- The first byte that strcpy writes and the rest of its work.
Copied-cons :
    (m : ℕ → ℕ) (dst x : ℕ) (xs : List ℕ) (m' : ℕ → ℕ)
    → x ≢ 0
    → Copied (update m dst x) (suc dst) xs m'
    → Copied m dst (x ∷ xs) m'
Copied-cons m dst x xs m' ne c = record {
  copy = (c.frame dst (inl (omega arith)) ∙ update_self m dst x, ne, c.copy);
  frame = λ a o. c.frame a (omega (arith, o)) ∙ update_ne m dst a x (omega (arith, o));
}

pub strcpy_loop_lem :
    (fuel dst src : ℕ) (m : ℕ → ℕ) (xs : List ℕ)
    → IsString m src xs
    → length xs < fuel
    → (dst ≤ src) ⊎ (src + length xs < dst)
    → Returns (strcpy_loop fuel dst src m) (Copied m dst xs)
unfolding strcpy_loop
strcpy_loop_lem zero dst src m xs s h o = absurd (omega arith)
strcpy_loop_lem (suc fuel) dst src m [] s h o = rw s (record {
  copy = update_self m dst 0;
  frame = λ a out. update_ne m dst a 0 (omega (arith, out));
})
strcpy_loop_lem (suc fuel) dst src m (x ∷ xs) s h o =
    rw (s.0, ==_of_ne x 0 s.1)
      (Returns-mono (strcpy_loop fuel (suc dst) (suc src) (update m dst x))
        (Copied (update m dst x) (suc dst) xs) (Copied m dst (x ∷ xs))
        (strcpy_loop_lem fuel (suc dst) (suc src) (update m dst x) xs
          (IsString-frame m (update m dst x) (suc src) xs
            (λ a lo hi. update_ne m dst a x (omega (arith, o))) s.2)
          (omega arith) (omega (arith, o)))
        (λ m'. Copied-cons m dst x xs m' s.1))

-- strlen returns the number of bytes before the terminator.
pub strlen_lem :
    (fuel : ℕ) (m : ℕ → ℕ) (str : ℕ) (xs : List ℕ)
    → str ≢ 0
    → IsString m str xs
    → length xs < fuel
    → strlen fuel m str ≡ ok (length xs)
unfolding strlen
strlen_lem fuel m str xs ne s h =
    rw (==_of_ne str 0 ne) (strlen_loop_lem fuel m str 0 xs s h ∙ ap ok (omega arith))

-- strcpy leaves the string of src at dst, and every byte outside that copy and its terminator
-- as it was, where neither address is null, dst is at or before src or behind its terminator,
-- and the fuel covers the string.
pub strcpy_copies :
    (fuel dst src : ℕ) (m : ℕ → ℕ) (xs : List ℕ)
    → dst ≢ 0
    → src ≢ 0
    → IsString m src xs
    → length xs < fuel
    → (dst ≤ src) ⊎ (src + length xs < dst)
    → Returns (strcpy fuel dst src m) (Copied m dst xs)
unfolding strcpy
strcpy_copies fuel dst src m xs nd ns s h o =
    rw (==_of_ne dst 0 nd, ==_of_ne src 0 ns) (strcpy_loop_lem fuel dst src m xs s h o)

IsString-append :
    (m m' : ℕ → ℕ) (p : ℕ) (xs ys : List ℕ)
    → IsString m p xs
    → ((a : ℕ) → a < p + length xs → m' a ≡ m a)
    → IsString m' (p + length xs) ys
    → IsString m' p (xs ++ ys)
IsString-append m m' p [] ys s same t = subst (λ q. IsString m' q ys) (omega arith) t
IsString-append m m' p (x ∷ xs) ys s same t = (
  same p (omega arith) ∙ s.0,
  s.1,
  IsString-append m m' (suc p) xs ys s.2 (λ a h. same a (omega arith))
      (subst (λ q. IsString m' q ys) (omega arith) t),
)

-- What strcat leaves: the two strings one after the other, and the bytes around them as they were.
pub record Joined (m : ℕ → ℕ) (dst : ℕ) (xs ys : List ℕ) (m' : ℕ → ℕ) : Type 0 where
  pub joined : IsString m' dst (xs ++ ys)
  pub frame : (a : ℕ) → Outside (dst + length xs) (suc (length ys)) a → m' a ≡ m a

-- strcat leaves the two strings one after the other at dst, and every byte but those behind the
-- first string as it was, where neither address is null, the string of src and its terminator
-- do not overlap the place of the result, and the fuel covers both strings.
pub strcat_joins :
    (fuel dst src : ℕ) (m : ℕ → ℕ) (xs ys : List ℕ)
    → dst ≢ 0
    → src ≢ 0
    → IsString m dst xs
    → IsString m src ys
    → length xs < fuel
    → length ys < fuel
    → (dst + length xs + length ys < src) ⊎ (src + length ys < dst)
    → Returns (strcat fuel dst src m) (Joined m dst xs ys)
unfolding strcat
strcat_joins fuel dst src m xs ys nd ns s t hx hy o =
    rw (==_of_ne dst 0 nd, ==_of_ne src 0 ns, end_of_string_lem fuel m dst xs s hx)
      (Returns-mono (strcpy_loop fuel (dst + length xs) src m) (Copied m (dst + length xs) ys)
        (Joined m dst xs ys)
        (strcpy_loop_lem fuel (dst + length xs) src m ys t hy (omega (arith, o)))
        (λ m' c. record {
          joined = IsString-append m m' dst xs ys s (λ a h. c.frame a (inl h)) c.copy;
          frame = c.frame;
        }))
