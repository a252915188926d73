-- ===== src/Thread/Wake.antt =====
-- Waking a thread: thread_unlock of thread/thread.c.
use leeos.Base.{
  ℕ, ◌<◌, ◌≡◌, refl, sym, ◌∙◌, List, [], ◌∷◌, arith, ap, length, true, false, ◌==◌, if◌then◌else◌,
  ok, Returns,
}
use leeos.Base.Distinct.{All, Out}
use leeos.Interrupt.{intr_disable, intr_restored}
use leeos.Lists.{elem_find}
use leeos.Lists.Refine.{IsList-intr, list_push-IsList, intr-list_push}
use leeos.Lists.Walks.{elem_find_lem}
use leeos.Kernel.{
  Kernel, Globals, TaskStatus, task_running, task_ready, general_tag, is_ready, is_asleep, set_intr,
}
use leeos.Thread.{thread_unlock}
use leeos.Thread.Queue.{tags, IsPcb, Out-tags, Out-nodes, Out-contains, length-tags}
use leeos.Thread.Schedule.{IsReady}

is_asleep-not_ready : (s : TaskStatus) → is_asleep s ≡ true → is_ready s ≡ false
is_asleep-not_ready task_running h = refl
is_asleep-not_ready task_ready h = sym h
is_asleep-not_ready _ h = refl

-- The state after a thread was put at the front of the queue.
pub record Woken (g : Globals) (k : Kernel) (t : ℕ) (ready : List ℕ) (k' : Kernel) : Type 0 where
  pub queue : IsReady g k' (t ∷ ready)
  pub status : (p : ℕ) → k'.status p ≡ (if t == p then task_ready else k.status p)
  pub current : k'.current ≡ k.current
  pub value : k'.value ≡ k.value
  pub ioqueue : k'.ioqueue ≡ k.ioqueue
  pub intr : k'.links.intr ≡ k.links.intr

pub status_kept :
    (k k' : Kernel) (t : ℕ) (ps : List ℕ)
    → ((p : ℕ) → k'.status p ≡ (if t == p then task_ready else k.status p))
    → All (λ p. k.status p ≡ task_ready) ps
    → All (λ p. k'.status p ≡ task_ready) ps
status_kept k k' t [] h a = tt
status_kept k k' t (p ∷ ps) h a = (ground (arith, h p, a.0), status_kept k k' t ps h a.1)

module _ (fuel : ℕ) (g : Globals) where
  -- `thread_unlock` of a sleeping thread that is in no queue puts it at the front of the ready
  -- queue and leaves the interrupt flag as it was.
  pub thread_unlock-Woken :
      (k : Kernel) (ready : List ℕ) (t : ℕ)
      → IsReady g k ready
      → length ready < fuel
      → IsPcb g.ready_thread_list t
      → Out t ready
      → is_asleep (k.status t) ≡ true
      → Returns (thread_unlock fuel g t k) (Woken g k t ready)
  unfolding thread_unlock
  thread_unlock-Woken k ready t q enough h o asleep =
      let k0 = set_intr (intr_disable k.links.intr).0 k in
      let q0 : IsReady g k0 ready =
        IsList-intr k.links (intr_disable k.links.intr).0 g.ready_thread_list (tags ready) q in
      let found : elem_find fuel g.ready_thread_list (general_tag t) k0.links ≡ ok false =
        elem_find_lem fuel k0.links g.ready_thread_list (tags ready) q0 (general_tag t)
          (omega (arith, length-tags ready))
        ∙ ap ok (Out-contains _ _ (Out-tags t ready o)) in
      rw (asleep, is_asleep-not_ready (k.status t) asleep, found)
        (record {
          queue = IsList-intr _ _ g.ready_thread_list (tags (t ∷ ready)) (
              list_push-IsList k0.links g.ready_thread_list (tags ready) (general_tag t) q0
                (Out-nodes g.ready_thread_list t ready h o));
          status = λ p. refl;
          current = refl;
          value = refl;
          ioqueue = refl;
          intr = rw intr-list_push ((intr_restored k.links.intr).0);
        })
