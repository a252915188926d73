-- ===== src/Lists.antt =====
-- lib/kernel/list.c and list.h: the doubly linked lists of the kernel, on explicit addresses.
pub mod Chain
pub mod Refine
pub mod Walks
pub mod Frame
pub mod Cleared
pub mod Deque
use leeos.Base.{
  ℕ, zero, suc, ◌+◌, ◌%◌, ◌^◌, Bool, true, false, u32, Option, none, some, ◌==◌, if◌then◌else◌, Run,
  ok, stuck,
}
use leeos.Base.Memory.{update}
use leeos.Interrupt.{IntrStatus, intr_disable, intr_set_status}

-- The fields `prev` and `next` of `struct list_elem`, by the element's address, and the interrupt
-- flag, which the operations turn off while they write. An address is a number and 0 is null.
pub record Links : Type 0 where
  pub prev : ℕ → ℕ
  pub next : ℕ → ℕ
  pub intr : IntrStatus

-- `struct list` at address `plist`: the elements `head` and `tail`, 8 bytes each.
abbrev pub head_of : ℕ → ℕ
head_of plist = plist

abbrev pub tail_of : ℕ → ℕ
tail_of plist = plist + 8

abbrev pub set_prev : ℕ → ℕ → Links → Links
set_prev elem v k = record k { prev = update k.prev elem v }

abbrev pub set_next : ℕ → ℕ → Links → Links
set_next elem v k = record k { next = update k.next elem v }

-- `intr_disable()`, the writes, and `intr_set_status(old_status)`.
abbrev pub atomically : (Links → Links) → Links → Links
atomically writes k =
    let (off, old_status) = intr_disable k.intr in
    let k' = writes (record k { intr = off }) in
    record k' { intr = (intr_set_status old_status k'.intr).0 }

unfoldable pub list_init : ℕ → Links → Links
list_init plist k = set_prev (tail_of plist) (head_of plist) (
    set_next (head_of plist) (tail_of plist)
      (set_next (tail_of plist) 0 (set_prev (head_of plist) 0 k)))

-- `before->prev` is read anew by each of the first two writes.
unfoldable pub list_insert_before : (before elem : ℕ) → Links → Links
unfolding intr_disable intr_set_status
list_insert_before before elem = atomically λ k.
    let k1 = set_next (k.prev before) elem k in
    let k2 = set_prev elem (k1.prev before) k1 in
    let k3 = set_next elem before k2 in set_prev before elem k3

unfoldable pub list_push : (plist elem : ℕ) → Links → Links
list_push plist elem k = list_insert_before (k.next (head_of plist)) elem k

unfoldable pub list_append : (plist elem : ℕ) → Links → Links
list_append plist elem k = list_insert_before (tail_of plist) elem k

unfoldable pub list_remove : ℕ → Links → Links
unfolding intr_disable intr_set_status
list_remove elem = atomically λ k.
    let k1 = set_next (k.prev elem) (k.next elem) k in set_prev (k1.next elem) (k1.prev elem) k1

unfoldable pub list_pop : ℕ → Links → ℕ × Links
list_pop plist k = let pop_elem = k.next (head_of plist) in (pop_elem, list_remove pop_elem k)

-- The `while` loops walk from an element to the tail; with too little fuel they are stuck.
pub find_loop : (fuel stop obj_elem help_elem : ℕ) → Links → Run Bool
find_loop zero stop obj_elem help_elem k = stuck
find_loop (suc fuel) stop obj_elem help_elem k =
    let rest = find_loop fuel stop obj_elem (k.next help_elem) k in
    if help_elem == stop then ok false else if help_elem == obj_elem then ok true else rest

unfoldable pub elem_find : (fuel plist obj_elem : ℕ) → Links → Run Bool
unfolding find_loop
elem_find fuel plist obj_elem k = find_loop fuel (tail_of plist) obj_elem (k.next (head_of plist)) k

pub len_loop : (fuel stop help_elem len : ℕ) → Links → Run ℕ
len_loop zero stop help_elem len k = stuck
len_loop (suc fuel) stop help_elem len k =
    let rest = len_loop fuel stop (k.next help_elem) (u32 (len + 1)) k in
    if help_elem == stop then ok len else rest

unfoldable pub list_len : (fuel plist : ℕ) → Links → Run ℕ
unfolding len_loop
list_len fuel plist k = len_loop fuel (tail_of plist) (k.next (head_of plist)) 0 k

unfoldable pub list_empty : ℕ → Links → Bool
list_empty plist k = k.next (head_of plist) == tail_of plist

-- `func` is the callback with its `arg`; a callback that changes no list.
pub traversal_loop : (fuel stop : ℕ) → (ℕ → Bool) → ℕ → Links → Run ℕ
traversal_loop zero stop func help_elem k = stuck
traversal_loop (suc fuel) stop func help_elem k =
    let rest = traversal_loop fuel stop func (k.next help_elem) k in
    if help_elem == stop then ok 0 else if func help_elem then ok help_elem else rest

unfoldable pub list_traveral : (fuel plist : ℕ) → (ℕ → Bool) → Links → Run ℕ
unfolding traversal_loop list_empty
list_traveral fuel plist func k =
    if list_empty plist k
    then ok 0
    else traversal_loop fuel (tail_of plist) func (k.next (head_of plist)) k
