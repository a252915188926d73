-- ===== src/Ioqueue/Fifo.antt =====
-- Without waiting, the ring of an ioqueue is a bounded first-in first-out queue.
use leeos.Base.{
  ℕ, zero, suc, ◌+◌, ◌-◌, ◌%◌, ◌<◌, ◌≤◌, ◌≡◌, ◌≢◌, refl, List, [], ◌∷◌, ◌++◌, arith, ap, ap₂,
  length, true, false, ◌==◌, Run, ok, Returns, ==_self, ==_of_ne, length-append,
}
use leeos.Base.Memory.{update, update_ne}
use leeos.Kernel.{Kernel, Globals, IoQueue, is_off}
use leeos.Ioqueue.{
  next_pos, ioqueue_is_full, ioqueue_is_empty, ioq_getchar, ioq_putchar, await_char, await_room,
}

-- The `n` characters from index `t` on, going round at 64.
unfoldable pub window : (ℕ → ℕ) → ℕ → ℕ → List ℕ
window buf t zero = []
window buf t (suc n) = window buf t n ++ (buf ((t + n) % 64) ∷ [])

-- Both ends are indices of the buffer.
pub record IsRing (q : IoQueue) : Type 0 where
  pub head_in : q.head < 64
  pub tail_in : q.tail < 64

abbrev pub used : IoQueue → ℕ
used q = (q.head + 64 - q.tail) % 64

-- The characters that wait, oldest first.
abbrev pub contents : IoQueue → List ℕ
contents q = window q.buf q.tail (used q)

window-update :
    (buf : ℕ → ℕ) (t h c n : ℕ)
    → t < 64
    → h < 64
    → n ≤ (h + 64 - t) % 64
    → window (update buf h c) t n ≡ window buf t n
unfolding window
window-update buf t h c zero ht hh hn = refl
window-update buf t h c (suc n) ht hh hn =
    ap₂ (λ xs x. xs ++ (x ∷ [])) (window-update buf t h c n ht hh (omega arith))
      (update_ne buf h ((t + n) % 64) c (omega arith))

window-front :
    (buf : ℕ → ℕ) (t n : ℕ) → t < 64 → window buf t (suc n) ≡ buf t ∷ window buf ((t + 1) % 64) n
unfolding window
window-front buf t zero ht = ap (λ i. buf i ∷ []) (omega arith)
window-front buf t (suc n) ht =
    ap₂ (λ xs x. xs ++ (x ∷ [])) (window-front buf t n ht) (ap buf (omega arith))

length-window : (buf : ℕ → ℕ) (t n : ℕ) → length (window buf t n) ≡ n
unfolding window
length-window buf t zero = refl
length-window buf t (suc n) =
    omega (arith, length-append (window buf t n) (buf ((t + n) % 64) ∷ []), length-window buf t n)

next_pos_lem : (i : ℕ) → i < 64 → next_pos i ≡ (i + 1) % 64
unfolding next_pos
next_pos_lem i h = omega arith

-- What a call leaves alone.
pub record SameElse (ioq : ℕ) (k k' : Kernel) : Type 0 where
  pub links : k'.links ≡ k.links
  pub current : k'.current ≡ k.current
  pub status : k'.status ≡ k.status
  pub queues : (p : ℕ) → ioq ≢ p → k'.ioqueue p ≡ k.ioqueue p

-- A character written at the head extends the window; one read at the tail shortens it.
window-put :
    (buf : ℕ → ℕ) (t h c : ℕ)
    → t < 64
    → h < 64
    → (h + 64 - t) % 64 < 63
    → window (update buf h c) t (((h + 1) % 64 + 64 - t) % 64)
      ≡ window buf t ((h + 64 - t) % 64) ++ (c ∷ [])
unfolding window
window-put buf t h c ht hh room =
    let more : ((h + 1) % 64 + 64 - t) % 64 ≡ suc ((h + 64 - t) % 64) = omega arith in
    let end : h ≡ (t + (h + 64 - t) % 64) % 64 = omega arith in
    rw more (
      ap₂ (λ xs x. xs ++ (x ∷ [])) (window-update buf t h c ((h + 64 - t) % 64) ht hh (omega arith))
        (ground (arith, end)))

window-get :
    (buf : ℕ → ℕ) (t h : ℕ)
    → t < 64
    → h < 64
    → h ≢ t
    → window buf t ((h + 64 - t) % 64)
      ≡ buf t ∷ window buf ((t + 1) % 64) ((h + 64 - (t + 1) % 64) % 64)
window-get buf t h ht hh ne =
    let less : (h + 64 - t) % 64 ≡ suc ((h + 64 - (t + 1) % 64) % 64) = omega arith in
    rw less (window-front buf t _ ht)

module _ (fuel : ℕ) (g : Globals) (others : Kernel → Run Kernel) (rounds ioq : ℕ) (k : Kernel)
    (off : is_off k.links.intr ≡ true) (ring : IsRing (k.ioqueue ioq)) where
  pub is_full_iff : ioqueue_is_full ioq k ≡ ok (used (k.ioqueue ioq) == 63)
  unfolding ioqueue_is_full next_pos
  is_full_iff = rw off (ap ok (ground arith))

  -- With interrupts off, room in the buffer and no consumer registered, ioq_putchar returns
  -- with its character behind those that wait, and with the lists, the statuses, the running
  -- thread and the other queues as they were.
  pub ioq_putchar_appends :
      (n byte : ℕ)
      → used (k.ioqueue ioq) < 63
      → (k.ioqueue ioq).consumer ≡ 0
      → Returns (ioq_putchar fuel g others rounds ioq (suc n) byte k) (λ k'.
        IsRing (k'.ioqueue ioq)
        × (contents (k'.ioqueue ioq) ≡ contents (k.ioqueue ioq) ++ (byte ∷ []))
        × SameElse ioq k k')
  unfolding ioq_putchar await_room
  ioq_putchar_appends n byte room nobody =
      let q = k.ioqueue ioq in
      let not_full : (used (k.ioqueue ioq) == 63) ≡ false = ground arith in
      rw (off, is_full_iff, not_full, nobody, ==_self ioq, next_pos_lem q.head ring.head_in)
        (
          record { head_in = omega arith; tail_in = ring.tail_in },
          window-put q.buf q.tail q.head byte ring.tail_in ring.head_in room,
          record {
            links = refl;
            current = refl;
            status = refl;
            queues = λ p ne. rw (==_of_ne ioq p ne);
          },
        )

  -- With interrupts off, a character waiting and no producer registered, ioq_getchar returns
  -- the oldest one and takes it out, and leaves the lists, the statuses, the running thread
  -- and the other queues as they were.
  pub ioq_getchar_pops :
      (n c : ℕ) (cs : List ℕ)
      → contents (k.ioqueue ioq) ≡ c ∷ cs
      → (k.ioqueue ioq).producer ≡ 0
      → Returns (ioq_getchar fuel g others rounds ioq (suc n) k) (λ (byte, k').
        (byte ≡ c) × IsRing (k'.ioqueue ioq) × (contents (k'.ioqueue ioq) ≡ cs) × SameElse ioq k k')
  unfolding ioq_getchar await_char ioqueue_is_empty
  ioq_getchar_pops n c cs e nobody =
      let q = k.ioqueue ioq in
      let some_wait : q.head ≢ q.tail =
        λ same. omega (arith, length-window q.buf q.tail (used q), ap length e) in
      let front = window-get q.buf q.tail q.head ring.tail_in ring.head_in some_wait in
      let not_empty : (q.head == q.tail) ≡ false = ground arith in
      rw (off, not_empty, nobody, ==_self ioq, next_pos_lem q.tail ring.tail_in)
        (
          ground (arith, front),
          record { head_in = ring.head_in; tail_in = omega arith },
          ground (arith, front),
          record {
            links = refl;
            current = refl;
            status = refl;
            queues = λ p ne. rw (==_of_ne ioq p ne);
          },
        )
