-- ===== src/Process/Directory.antt =====
-- The page directory of a new process.
use Prim.Native.Nat.{bit_and, bit_or}
use leeos.Base.{
  ℕ, ◌+◌, ◌-◌, ◌*◌, ◌%◌, ◌≤◌, ◌<◌, ◌≡◌, ◌≢◌, refl, ap, sym, ◌∙◌, ==_of_ne, arith, Returns,
  Returns-bind, u32,
}
use leeos.Base.Memory.{update, update_self, update_ne}
use leeos.Paging.{pte_addr, addr_virtual_to_phy}
use leeos.Pools.{Memory, pf_kernel, page_size, malloc_pages, malloc_kernel_pages, clear_words}
use leeos.Pools.Mapped.{pte_addr-pde_addr, translate}
use leeos.Process.{create_page_dir, copy_words}

-- The kernel's part of the address space is that of the running directory; the process has nothing
-- of its own yet; the last entry maps the directory itself.
pub record IsDirectory (r : ℕ × Memory) : Type 0 where
  pub kernel : (i : ℕ) → 768 ≤ i → i < 1023 → r.1.word (r.0 + 4 * i) ≡ r.1.word (0xfffff000 + 4 * i)
  pub empty : (i : ℕ) → i < 768 → r.1.word (r.0 + 4 * i) ≡ 0
  pub self :
      r.1.word (r.0 + 4 * 1023) ≡ bit_or (bit_or (bit_or (addr_virtual_to_phy r.1.word r.0) 4) 2) 1

-- Words far from the page are not written.
filled-IsDirectory :
    (dir : ℕ) (m : Memory) (w : ℕ → ℕ)
    → dir + page_size ≤ 0xffc00000
    → m.word ≡ clear_words w dir (u32 (page_size * 1))
    → (let copied = copy_words m.word (dir + 0x300 * 4) (0xfffff000 + 0x300 * 4) 1024 in
        let last = bit_or (bit_or (bit_or (addr_virtual_to_phy copied dir) 4) 2) 1 in
        IsDirectory (dir, record m { word = update copied (dir + 4 * 1023) last }))
filled-IsDirectory dir m w low e =
    let copied = copy_words m.word (dir + 0x300 * 4) (0xfffff000 + 0x300 * 4) 1024 in
    let last = bit_or (bit_or (bit_or (addr_virtual_to_phy copied dir) 4) 2) 1 in
    let final = update copied (dir + 4 * 1023) last in
    record {
      kernel = λ i lo hi.
          update_ne copied (dir + 4 * 1023) (dir + 4 * i) last (omega arith)
          ∙ ground (
            arith,
            ap m.word (
                let at : 0xfffff000 + 0x300 * 4 + (dir + 4 * i - (dir + 0x300 * 4))
                    ≡ 0xfffff000 + 4 * i =
                  omega arith in
                at),
          )
          ∙ sym (update_ne copied (dir + 4 * 1023) (0xfffff000 + 4 * i) last (omega arith));
      empty = λ i lt.
          update_ne copied (dir + 4 * 1023) (dir + 4 * i) last (omega arith)
          ∙ ground (arith, ap (λ f. f (dir + 4 * i)) e);
      self =
          update_self copied (dir + 4 * 1023) last
          ∙ ap (λ (p : ℕ). bit_or (bit_or (bit_or p 4) 2) 1)
              (translate copied dir
                ∙ ap (λ (w : ℕ). u32 (bit_and w 0xfffff000 + dir % page_size))
                    (sym (
                      update_ne copied (dir + 4 * 1023) (pte_addr dir) last
                        (λ t. omega (arith, t, (pte_addr-pde_addr dir (omega arith)).0))))
                ∙ sym (translate final dir));
    }

cleared_page :
    (k : Memory)
    → Returns (malloc_pages pf_kernel 1 k) (λ r. (r.0 ≢ 0) × (r.0 + page_size ≤ 0xffc00000))
    → Returns (malloc_kernel_pages 1 k) (λ r.
      (r.0 ≢ 0)
      × (r.0 + page_size ≤ 0xffc00000)
      × (w : ℕ → ℕ) × (r.1.word ≡ clear_words w r.0 (u32 (page_size * 1))))
unfolding malloc_kernel_pages
cleared_page k got =
    Returns-bind (malloc_pages pf_kernel 1 k) _ _ _ got
      (λ r (ne, low). rw (==_of_ne r.0 0 ne) (ne, low, r.1.word, refl))

-- Where malloc_pages has a page that ends at or below 0xffc00000, create_page_dir returns with
-- a directory in which the entries 768 to 1022 are those of the running directory, the entries
-- below them are zero, and the last one is the physical address of the directory itself with
-- its three bits.
pub create_page_dir-IsDirectory :
    (k : Memory)
    → Returns (malloc_pages pf_kernel 1 k) (λ r. (r.0 ≢ 0) × (r.0 + page_size ≤ 0xffc00000))
    → Returns (create_page_dir k) IsDirectory
unfolding create_page_dir
create_page_dir-IsDirectory k got =
    Returns-bind (malloc_kernel_pages 1 k) _ _ _ (cleared_page k got)
      (λ r (ne, low, w, e). rw (==_of_ne r.0 0 ne) (filled-IsDirectory r.0 r.1 w low e))
