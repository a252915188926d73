-- ===== src/Segments/Fields.antt =====
-- What the processor reads in the descriptors of userprog/tss.c and kernel/interrupt.c.
use leeos.Base.{
  ℕ, zero, suc, ◌+◌, ◌-◌, ◌*◌, ◌/◌, ◌%◌, ◌^◌, ◌≤◌, ◌<◌, ◌≡◌, refl, sym, ◌∙◌, ltb, leb, ◌&&◌,
  if◌then◌else◌, arith,
}
use mathlib.Core.Path.{subst}
use leeos.Base.Memory.{update, update_ne}
use leeos.Base.Masks.{and_field}
use leeos.Segments.{
  GdtDesc, make_gdt_desc, InterruptGateDesc, set_inerrupt_gate_desc, Interrupts, int_desc_num,
  idt_desc_attr, set_gates, idt_desc_init, fill_handlers, exception_init, idt_init, code_selector,
  Tss, tss_init, tss_size, selector, selector_u_code, selector_u_data, tss_attr_low,
  gdt_attr_code_low_dpl_3, gdt_attr_data_low_dpl_3,
}

-- The segment that a descriptor describes, and its attributes.
abbrev pub base_of : GdtDesc → ℕ
base_of d = d.base_low_word + 2 ^ 16 * d.base_mid_byte + 2 ^ 24 * d.base_high_byte

abbrev pub limit_of : GdtDesc → ℕ
limit_of d = d.limit_low_word + 2 ^ 16 * (d.limit_high_attr_high % 16)

abbrev pub attr_high_of : GdtDesc → ℕ
attr_high_of d = d.limit_high_attr_high / 16 * 16

-- The base, the limit and the attributes that a processor reads from the scattered fields of
-- make_gdt_desc are those that were given, for a base of 32 bits, a limit of 20 bits and high
-- attributes in the upper half of a byte.
pub make_gdt_desc_fields :
    (base limit attr_low attr_high : ℕ)
    → base < 2 ^ 32
    → limit < 2 ^ 20
    → attr_high < 16
    → (base_of (make_gdt_desc base limit attr_low (16 * attr_high)) ≡ base)
      × (limit_of (make_gdt_desc base limit attr_low (16 * attr_high)) ≡ limit)
      × ((make_gdt_desc base limit attr_low (16 * attr_high)).attr_low_byte ≡ attr_low)
      × (attr_high_of (make_gdt_desc base limit attr_low (16 * attr_high)) ≡ 16 * attr_high)
unfolding make_gdt_desc
make_gdt_desc_fields base limit attr_low attr_high h h' h2 = omega (
  arith,
  and_field 0 16 base,
  and_field 16 8 base,
  and_field 24 8 base,
  and_field 0 16 limit,
  and_field 16 4 limit,
)

-- The handler that a gate leads to.
abbrev pub offset_of : InterruptGateDesc → ℕ
offset_of d = d.code_offset_low_word + 2 ^ 16 * d.code_offset_high_word

-- A gate for a handler, at a privilege level, in the kernel's code.
pub record IsGate (dpl func : ℕ) (d : InterruptGateDesc) : Type 0 where
  pub offset : offset_of d ≡ func
  pub attribute : d.attribute ≡ idt_desc_attr dpl
  pub selector : d.selector ≡ code_selector

set_inerrupt_gate_desc-IsGate :
    (dpl func : ℕ)
    → func < 2 ^ 32
    → IsGate dpl func (set_inerrupt_gate_desc (idt_desc_attr dpl) func)
unfolding set_inerrupt_gate_desc
set_inerrupt_gate_desc-IsGate dpl func h = record {
  offset = omega (arith, and_field 0 16 func, and_field 16 16 func);
  attribute = refl;
  selector = refl;
}

set_gates_lem :
    (left i : ℕ) (table : ℕ → ℕ) (idt : ℕ → InterruptGateDesc) (j : ℕ)
    → set_gates left i table idt j ≡ (
        if leb i j && ltb j (i + left)
        then set_inerrupt_gate_desc (idt_desc_attr 0) (table j)
        else idt j)
unfolding set_gates
set_gates_lem zero i table idt j = ground arith
set_gates_lem (suc left) i table idt j =
    set_gates_lem left (suc i) table
      (update idt i (set_inerrupt_gate_desc (idt_desc_attr 0) (table i))) j
    ∙ ground arith

fill_handlers_lem :
    (left i handler : ℕ) (table : ℕ → ℕ) (j : ℕ)
    → fill_handlers left i handler table j
      ≡ (if leb i j && ltb j (i + left) then handler else table j)
unfolding fill_handlers
fill_handlers_lem zero i handler table j = ground arith
fill_handlers_lem (suc left) i handler table j =
    fill_handlers_lem left (suc i) handler (update table i handler) j ∙ ground arith

-- With handlers at addresses of 32 bits, after idt_init the gates of the vectors below 0x80
-- lead to the entries of interrupt_table at privilege level 0, that of 0x80 to
-- system_call_handler at level 3, all in the kernel's code segment, and the function of every
-- vector is the general handler.
pub idt_init-IsGate :
    (interrupt_table : ℕ → ℕ) (system_call general idt : ℕ) (t : Interrupts)
    → ((i : ℕ) → interrupt_table i < 2 ^ 32)
    → system_call < 2 ^ 32
    → ((i : ℕ)
        → i < 0x80
        → IsGate 0
            (interrupt_table i)
            ((idt_init interrupt_table system_call general idt t).0.idt i))
      × IsGate 3 system_call ((idt_init interrupt_table system_call general idt t).0.idt 0x80)
      × ((i : ℕ)
          → i ≤ 0x80
          → (idt_init interrupt_table system_call general idt t).0.exception_funcptr_table i
            ≡ general)
unfolding idt_init idt_desc_init exception_init
idt_init-IsGate interrupt_table system_call general idt t small small' =
    let gates = set_gates int_desc_num 0 interrupt_table t.idt in
    let last_gate = set_inerrupt_gate_desc (idt_desc_attr 3) system_call in
    (
      λ i lt.
          let gate : update gates (int_desc_num - 1) last_gate i
              ≡ set_inerrupt_gate_desc (idt_desc_attr 0) (interrupt_table i) =
            update_ne gates (int_desc_num - 1) i last_gate (omega arith)
            ∙ set_gates_lem int_desc_num 0 interrupt_table t.idt i
            ∙ ground arith in
          subst (IsGate 0 (interrupt_table i)) (sym gate)
            (set_inerrupt_gate_desc-IsGate 0 (interrupt_table i) (small i)),
      set_inerrupt_gate_desc-IsGate 3 system_call small',
      λ i le. fill_handlers_lem int_desc_num 0 general t.exception_funcptr_table i ∙ ground arith,
    )

-- What a selector finds in the table, which stands at 0xc0000903.
abbrev pub segment : ℕ → Tss → GdtDesc
segment selector t = t.gdt (0xc0000903 + selector / 8 * 8)

-- After tss_init, the descriptor of the task state segment has its address and its size, and the
-- two of user code and user data reach from 0 over the whole address space.
pub tss_init_segments :
    (tss : ℕ) (t : Tss)
    → tss < 2 ^ 32
    → (base_of (segment (selector 4 0) (tss_init tss t)) ≡ tss)
      × (limit_of (segment (selector 4 0) (tss_init tss t)) ≡ tss_size - 1)
      × (base_of (segment selector_u_code (tss_init tss t)) ≡ 0)
      × (limit_of (segment selector_u_code (tss_init tss t)) ≡ 0xfffff)
      × (base_of (segment selector_u_data (tss_init tss t)) ≡ 0)
      × (limit_of (segment selector_u_data (tss_init tss t)) ≡ 0xfffff)
unfolding tss_init
tss_init_segments tss t h =
    let d = make_gdt_desc_fields tss (tss_size - 1) tss_attr_low 8 h (omega arith) (omega arith) in
    let u =
      make_gdt_desc_fields 0 0xfffff gdt_attr_code_low_dpl_3 12 (omega arith) (omega arith)
        (omega arith) in
    let v =
      make_gdt_desc_fields 0 0xfffff gdt_attr_data_low_dpl_3 12 (omega arith) (omega arith)
        (omega arith) in
    (d.0, d.1, u.0, u.1, v.0, v.1)
