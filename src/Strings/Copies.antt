-- ===== src/Strings/Copies.antt =====
-- memset and memcpy of lib/string.c byte by byte, with the bytes that they leave alone.
use leeos.Base.{
  ℕ, zero, suc, ◌+◌, ◌≤◌, ◌<◌, ◌≡◌, ◌≢◌, ◌⊎◌, inl, refl, sym, ap, ◌∙◌, arith, Returns, ==_of_ne,
}
use leeos.Base.Memory.{update, update_self, update_ne}
use leeos.Strings.{memset, memset_loop, memcpy, memcpy_loop}

-- The address is not one of the `n` bytes at `p`.
abbrev pub Outside : ℕ → ℕ → ℕ → Type 0
Outside p n a = (a < p) ⊎ (p + n ≤ a)

at_zero : (f : ℕ → ℕ) (p : ℕ) → f (p + 0) ≡ f p
at_zero f p = ap f (omega arith)

at_suc : (f : ℕ → ℕ) (p i : ℕ) → f (p + suc i) ≡ f (suc p + i)
at_suc f p i = ap f (omega arith)

memset_loop-Outside :
    (dst value num : ℕ) (m : ℕ → ℕ) (a : ℕ)
    → Outside dst num a
    → memset_loop dst value num m a ≡ m a
unfolding memset_loop
memset_loop-Outside dst value zero m a o = refl
memset_loop-Outside dst value (suc num) m a o =
    memset_loop-Outside (suc dst) value num (update m dst value) a (omega (arith, o))
    ∙ update_ne m dst a value (omega (arith, o))

memset_loop_inside :
    (dst value num : ℕ) (m : ℕ → ℕ) (i : ℕ)
    → i < num
    → memset_loop dst value num m (dst + i) ≡ value
unfolding memset_loop
memset_loop_inside dst value zero m i h = absurd (omega arith)
memset_loop_inside dst value (suc num) m zero h =
    at_zero (memset_loop dst value (suc num) m) dst
    ∙ memset_loop-Outside (suc dst) value num (update m dst value) dst (inl (omega arith))
    ∙ update_self m dst value
memset_loop_inside dst value (suc num) m (suc i) h =
    at_suc (memset_loop dst value (suc num) m) dst i
    ∙ memset_loop_inside (suc dst) value num (update m dst value) i (omega arith)

memcpy_loop-Outside :
    (dst src size : ℕ) (m : ℕ → ℕ) (a : ℕ) → Outside dst size a → memcpy_loop dst src size m a ≡ m a
unfolding memcpy_loop
memcpy_loop-Outside dst src zero m a o = refl
memcpy_loop-Outside dst src (suc size) m a o =
    memcpy_loop-Outside (suc dst) (suc src) size (update m dst (m src)) a (omega (arith, o))
    ∙ update_ne m dst a (m src) (omega (arith, o))

memcpy_loop_inside :
    (dst src size : ℕ) (m : ℕ → ℕ) (i : ℕ)
    → i < size
    → (dst ≤ src) ⊎ (src + size ≤ dst)
    → memcpy_loop dst src size m (dst + i) ≡ m (src + i)
unfolding memcpy_loop
memcpy_loop_inside dst src zero m i h o = absurd (omega arith)
memcpy_loop_inside dst src (suc size) m zero h o =
    at_zero (memcpy_loop dst src (suc size) m) dst
    ∙ memcpy_loop-Outside (suc dst) (suc src) size (update m dst (m src)) dst (inl (omega arith))
    ∙ update_self m dst (m src)
    ∙ sym (at_zero m src)
memcpy_loop_inside dst src (suc size) m (suc i) h o =
    at_suc (memcpy_loop dst src (suc size) m) dst i
    ∙ memcpy_loop_inside (suc dst) (suc src) size (update m dst (m src)) i (omega arith)
        (omega (arith, o))
    ∙ update_ne m dst (suc src + i) (m src) (omega (arith, o))
    ∙ sym (at_suc m src i)

-- The bytes at `dst` have these values, and all other bytes are as they were.
pub record Filled (m : ℕ → ℕ) (dst n : ℕ) (value : ℕ → ℕ) (m' : ℕ → ℕ) : Type 0 where
  pub inside : (i : ℕ) → i < n → m' (dst + i) ≡ value i
  pub outside : (a : ℕ) → Outside dst n a → m' a ≡ m a

-- memset gives the num bytes at dst, which is not null, the value and changes no other byte.
pub memset_fills :
    (dst value num : ℕ) (m : ℕ → ℕ)
    → dst ≢ 0
    → Returns (memset dst value num m) (Filled m dst num (λ i. value))
unfolding memset
memset_fills dst value num m nd = rw (==_of_ne dst 0 nd) (record {
  inside = memset_loop_inside dst value num m;
  outside = memset_loop-Outside dst value num m;
})

-- memcpy gives the bytes at dst what the bytes at src were before the call and changes no other
-- byte, where neither address is null and the two are apart or dst is the lower one.
pub memcpy_copies :
    (dst src size : ℕ) (m : ℕ → ℕ)
    → dst ≢ 0
    → src ≢ 0
    → (dst ≤ src) ⊎ (src + size ≤ dst)
    → Returns (memcpy dst src size m) (Filled m dst size (λ i. m (src + i)))
unfolding memcpy
memcpy_copies dst src size m nd ns o =
    rw (==_of_ne dst 0 nd, ==_of_ne src 0 ns)
      (record {
        inside = λ i h. memcpy_loop_inside dst src size m i h o;
        outside = memcpy_loop-Outside dst src size m;
      })
