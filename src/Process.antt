-- ===== src/Process.antt =====
-- userprog/process.c: how a process comes to be. The name is left out.
pub mod Directory
use Prim.Native.Nat.{bit_or}
use leeos.Base.{
  ℕ, ◌+◌, ◌-◌, ◌*◌, ◌/◌, ◌^◌, Bool, not, ◌&&◌, ◌==◌, if◌then◌else◌, ltb, leb, u32, sub32, Run, ok,
  ◌>>=◌,
}
use leeos.Base.Memory.{update}
use leeos.Interrupt.{intr_disable, intr_set_status}
use leeos.Kernel.{Kernel, Globals, general_tag, all_list_tag, set_intr}
use leeos.Bitmap.{bitmap_init}
use leeos.Paging.{addr_virtual_to_phy}
use leeos.Pools.{Memory, VirtualAddrs, pf_user, page_size, malloc_kernel_pages}
use leeos.Creation.{ThreadStack, thread_init, thread_create, enlist}
use leeos.Heap.{Heap, HeapGlobals, block_des_init}
use leeos.Heap.Pages.{get_a_page}
use leeos.Segments.{selector_u_code, selector_u_data}

abbrev pub user_prog_start_vaddr : ℕ
user_prog_start_vaddr = 0x8048000

abbrev pub user_stack3_vaddr : ℕ
user_stack3_vaddr = 0xc0000000 - 0x1000

-- `memcpy(dst, src, size)` on words.
abbrev pub copy_words : (ℕ → ℕ) → (dst src size : ℕ) → ℕ → ℕ
copy_words word dst src size a =
    if leb dst a && ltb a (dst + size) then word (src + (a - dst)) else word a

-- The upper quarter of the directory is the running one's; its last entry is the page itself.
unfoldable pub create_page_dir : Memory → Run (ℕ × Memory)
create_page_dir k = do
  r ← malloc_kernel_pages 1 k
  let m = r.1
  let w = copy_words m.word (r.0 + 0x300 * 4) (0xfffff000 + 0x300 * 4) 1024
  let self = bit_or (bit_or (bit_or (addr_virtual_to_phy w r.0) 4) 2) 1
  ok (if r.0 == 0 then (0, m) else (r.0, record m { word = update w (r.0 + 4 * 1023) self }))

-- The addresses below the kernel's, none in use.
unfoldable pub create_user_vaddr_bitmap : Memory → Run (VirtualAddrs × Memory)
create_user_vaddr_bitmap k = do
  let bitmap_len = (0xc0000000 - user_prog_start_vaddr) / page_size / 8
  let bit_cnts = (bitmap_len + page_size - 1) / page_size
  r ← malloc_kernel_pages bit_cnts k
  let bitmap = bitmap_init (record { bitmap_len = bitmap_len; bits = λ i. 0 })
  ok (record { vaddr_start = user_prog_start_vaddr; vaddr_bitmap = bitmap }, r.1)

-- `struct intr_stack`, where `exit_intr` takes the registers of the process from; those that
-- are zero are left out.
pub record IntrStack : Type 0 where
  pub address : ℕ
  pub eip : ℕ
  pub cs : ℕ
  pub ds : ℕ
  pub ss : ℕ
  pub eflags : ℕ
  pub esp : ℕ

module _ (fuel : ℕ) (g : Globals) (hg : HeapGlobals) (others : Kernel → Run Kernel)
    (rounds : ℕ) where
  -- `self_kernel_stack` points to words, so `sizeof(struct thread_stack)`, 32, counts four times.
  unfoldable pub start_process : (filename : ℕ) → Heap → Run (IntrStack × Heap)
  start_process filename h = do
    let stack = u32 (h.kernel.self_kernel_stack h.kernel.current + 4 * 32)
    page ← get_a_page fuel g hg others rounds pf_user user_stack3_vaddr h
    ok (
      record {
        address = stack;
        eip = filename;
        cs = selector_u_code;
        ds = selector_u_data;
        ss = selector_u_data;
        eflags = bit_or (bit_or (0 * 2 ^ 12) (1 * 2 ^ 1)) (1 * 2 ^ 9);
        esp = u32 (page.0 + page_size);
      },
      page.1,
    )

  -- What process_execute makes: the stack of the new thread and the addresses of the process.
  -- `start` is the address of start_process.
  unfoldable pub process_execute :
      (start filename : ℕ) → Heap → Run (ThreadStack × VirtualAddrs × Heap)
  process_execute start filename h = do
    r ← malloc_kernel_pages 1 h.memory
    let process = r.0
    k1 ← thread_init fuel g others rounds process 31 h.kernel
    v ← create_user_vaddr_bitmap r.1
    let created = thread_create process start filename k1
    d ← create_page_dir v.1
    let k2 = created.1
    let k3 = record k2 { pgdir = update k2.pgdir process d.0 }
    let h1 = block_des_init (process + 100) (record h { kernel = k3; memory = d.1 })
    let k4 = h1.kernel
    let old = intr_disable k4.links.intr
    k5 ← enlist fuel g others rounds g.ready_thread_list (general_tag process) (set_intr old.0 k4)
    k6 ← enlist fuel g others rounds g.all_thread_list (all_list_tag process) k5
    let back = (intr_set_status old.1 k6.links.intr).0
    ok (created.0, v.0, record h1 { kernel = set_intr back k6 })
