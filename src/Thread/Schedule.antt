-- ===== src/Thread/Schedule.antt =====
-- `schedule` is round robin over the ready queue.
use leeos.Base.{
  ℕ, ◌+◌, ◌<◌, ◌≡◌, refl, ◌∙◌, List, [], ◌∷◌, ◌++◌, arith, ap, length, true, false, ◌==◌, ◌&&◌,
  if◌then◌else◌, ok, Returns, Returns-bind, Returns-mono, inl, inr, Bool-cases, u32,
}
use leeos.Base.Distinct.{All, All-append, Out}
use leeos.Interrupt.{intr_off}
use leeos.Lists.{list_empty, elem_find}
use leeos.Lists.Refine.{
  IsList, list_pop-IsList, list_append-IsList, list_empty-cons, intr-list_pop, intr-list_append,
}
use leeos.Lists.Walks.{elem_find_lem}
use leeos.Paging.{addr_virtual_to_phy}
use leeos.Kernel.{Kernel, Globals, task_running, task_ready, general_tag, is_running, is_off}
use leeos.Thread.{process_activate, page_dir_activate, update_tss_esp0, requeue, dispatch, schedule}
use leeos.Thread.Queue.{
  tags, IsPcb, pcb_of_tag_lem, Out-tags, Out-nodes, Out-contains, length-tags, tags-append,
}

-- The ready queue holds the threads `ready`, in order.
abbrev pub IsReady : Globals → Kernel → List ℕ → Type 0
IsReady g k ready = IsList k.links g.ready_thread_list (tags ready)

-- The page directory that `page_dir_activate` loads for a thread.
abbrev pub space_of : Kernel → ℕ → ℕ
space_of k p = if k.pgdir p == 0 then 0x00100000 else addr_virtual_to_phy k.word (k.pgdir p)

abbrev pub stack_of : Kernel → ℕ → ℕ
stack_of k p = if k.pgdir p == 0 then k.esp0 else u32 (p + 4096)

pub process_activate_lem :
    (p : ℕ) (k : Kernel)
    → process_activate p k ≡ record k { cr3 = space_of k p; esp0 = stack_of k p }
unfolding process_activate page_dir_activate update_tss_esp0
process_activate_lem p k = elim (Bool-cases (k.pgdir p == 0)) [
  | inl e ↦ rw (e, e)
  | inr e ↦ rw (e, e)
]

-- `next` runs in its own address space, the queue holds `rest`, and all else is as in `k`.
pub record Dispatched (g : Globals) (k : Kernel) (next : ℕ) (rest : List ℕ) (k' : Kernel)
    : Type 0 where
  pub current : k'.current ≡ next
  pub queue : IsReady g k' rest
  pub status : (p : ℕ) → k'.status p ≡ (if next == p then task_running else k.status p)
  pub ticks : k'.ticks ≡ k.ticks
  pub space : k'.cr3 ≡ space_of k next
  pub stack : k'.esp0 ≡ stack_of k next
  pub intr : k'.links.intr ≡ k.links.intr

module _ (fuel : ℕ) (g : Globals) where
  pub dispatch_ready :
      (k : Kernel) (next : ℕ) (rest : List ℕ)
      → IsReady g k (next ∷ rest)
      → IsPcb g.ready_thread_list next
      → Returns (dispatch fuel g k) (Dispatched g k next rest)
  unfolding dispatch
  dispatch_ready k next rest q h =
      let e : list_empty g.ready_thread_list k.links ≡ false =
        list_empty-cons k.links g.ready_thread_list (general_tag next) (tags rest) q in
      let popped = list_pop-IsList k.links g.ready_thread_list (general_tag next) (tags rest) q in
      rw (e, e, process_activate_lem, popped.0, pcb_of_tag_lem g.ready_thread_list next h)
        (record {
          current = refl;
          queue = popped.1;
          status = λ p. refl;
          ticks = refl;
          space = refl;
          stack = refl;
          intr = intr-list_pop g.ready_thread_list k.links;
        })

-- What a scheduling decision starts from: the queue is well formed, its threads are ready, and the
-- running thread is not among them.
pub record IsQueued (fuel : ℕ) (g : Globals) (k : Kernel) (ready : List ℕ) : Type 0 where
  pub queue : IsReady g k ready
  pub pcbs : All (IsPcb g.ready_thread_list) ready
  pub waiting : All (λ p. k.status p ≡ task_ready) ready
  pub absent : Out k.current ready
  pub self : IsPcb g.ready_thread_list k.current
  pub enough : length ready + 1 < fuel

module _ (fuel : ℕ) (g : Globals) where
  -- The queue after `requeue`: a running thread goes to its end.
  abbrev pub requeued : Kernel → List ℕ → List ℕ
  requeued k ready = if is_running (k.status k.current) then ready ++ (k.current ∷ []) else ready

  pub requeued-IsPcb :
      (k : Kernel) (ready : List ℕ)
      → IsQueued fuel g k ready
      → All (IsPcb g.ready_thread_list) (requeued k ready)
  requeued-IsPcb k ready s = elim (Bool-cases (is_running (k.status k.current))) [
    | inl run ↦ rw run (All-append (IsPcb g.ready_thread_list) ready _ s.pcbs (s.self, tt))
    | inr not_run ↦ rw not_run s.pcbs
  ]

  pub record Requeued (k : Kernel) (ready : List ℕ) (k' : Kernel) : Type 0 where
    pub queue : IsReady g k' (requeued k ready)
    pub status :
        (p : ℕ)
        → k'.status p
          ≡ (if is_running (k.status k.current) && k.current == p then task_ready else k.status p)
    pub ticks :
        (p : ℕ)
        → k'.ticks p ≡ (
            if is_running (k.status k.current) && k.current == p
            then k.priority k.current
            else k.ticks p)
    pub same :
        (k'.current ≡ k.current) × (k'.pgdir ≡ k.pgdir) × (k'.word ≡ k.word) × (k'.esp0 ≡ k.esp0)
    pub idle : k'.idle_thread ≡ k.idle_thread
    pub intr : k'.links.intr ≡ k.links.intr

  pub requeue-Requeued :
      (k : Kernel) (ready : List ℕ)
      → IsQueued fuel g k ready
      → Returns (requeue fuel g k) (Requeued k ready)
  unfolding requeue
  requeue-Requeued k ready s = elim (Bool-cases (is_running (k.status k.current))) [
    | inl run ↦
        let found : elem_find fuel g.ready_thread_list (general_tag k.current) k.links ≡ ok false =
          elem_find_lem fuel k.links g.ready_thread_list (tags ready) s.queue
            (general_tag k.current) (omega (arith, length-tags ready, s.enough))
          ∙ ap ok (Out-contains _ _ (Out-tags k.current ready s.absent)) in
        rw (run, found)
          (record {
            queue =
                rw (run, tags-append)
                  (list_append-IsList k.links g.ready_thread_list (tags ready)
                    (general_tag k.current) s.queue
                    (Out-nodes g.ready_thread_list k.current ready s.self s.absent));
            status = λ p. rw run;
            ticks = λ p. rw run;
            same = (refl, refl, refl, refl);
            idle = refl;
            intr = intr-list_append g.ready_thread_list (general_tag k.current) k.links;
          })
    | inr not_run ↦ rw (not_run) (record {
      queue = rw not_run s.queue;
      status = λ p. rw not_run;
      ticks = λ p. rw not_run;
      same = (refl, refl, refl, refl);
      idle = refl;
      intr = refl;
    })
  ]

  -- What `schedule` makes of a state: the thread at the front of the queue runs, behind it those
  -- that waited and, if its time was up, the thread that ran before.
  pub record Switched (k : Kernel) (next : ℕ) (rest : List ℕ) (k' : Kernel) : Type 0 where
    pub current : k'.current ≡ next
    pub queue : IsReady g k' rest
    pub status :
        (p : ℕ)
        → k'.status p ≡ (
            if next == p
            then task_running
            else if is_running (k.status k.current) && k.current == p
            then task_ready
            else k.status p)
    pub ticks :
        (p : ℕ)
        → k'.ticks p ≡ (
            if is_running (k.status k.current) && k.current == p
            then k.priority k.current
            else k.ticks p)
    pub space : k'.cr3 ≡ space_of k next
    pub stack : k'.esp0 ≡ stack_of k next
    pub intr : k'.links.intr ≡ intr_off

  -- With interrupts off and a thread to run, schedule switches to the first of the queue,
  -- whose status becomes TASK_RUNNING; in the queue stay the others in order and, at the end,
  -- the thread that ran before if its status was TASK_RUNNING, which then has TASK_READY and
  -- as ticks its priority; no other status or ticks change, and the page directory and the
  -- kernel stack are those of the new thread.
  pub schedule-Switched :
      (k : Kernel) (ready : List ℕ) (next : ℕ) (rest : List ℕ)
      → IsQueued fuel g k ready
      → k.links.intr ≡ intr_off
      → requeued k ready ≡ next ∷ rest
      → Returns (schedule fuel g k) (Switched k next rest)
  unfolding schedule
  schedule-Switched k ready next rest s off e =
      let is_off_now : is_off k.links.intr ≡ true = ap is_off off in
      let pcbs : All (IsPcb g.ready_thread_list) (next ∷ rest) =
        rw e at (requeued-IsPcb k ready s) in
      rw is_off_now (
        Returns-bind (requeue fuel g k) (dispatch fuel g) (Requeued k ready) (Switched k next rest)
          (requeue-Requeued k ready s)
          (λ k1 r.
            Returns-mono (dispatch fuel g k1) (Dispatched g k1 next rest) (Switched k next rest)
              (dispatch_ready fuel g k1 next rest (rw e at r.queue) pcbs.0)
              (λ k2 d. record {
                current = d.current;
                queue = d.queue;
                status =
                    λ p. d.status p ∙ ap (λ t. if next == p then task_running else t) (r.status p);
                ticks = λ p. rw d.ticks (r.ticks p);
                space = d.space ∙ rw (r.same.1, r.same.2);
                stack = d.stack ∙ rw (r.same.1, r.same.3);
                intr = d.intr ∙ r.intr ∙ off;
              })))
