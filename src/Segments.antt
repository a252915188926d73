-- ===== src/Segments.antt =====
-- The descriptors of segments and interrupts: userprog/tss.c, kernel/interrupt.c and kernel/global.h.
pub mod Fields
use Prim.Native.Nat.{bit_and, bit_or}
use leeos.Base.{ℕ, zero, suc, ◌+◌, ◌-◌, ◌*◌, ◌/◌, ◌^◌, u8, u16, List, [], ◌∷◌}
use leeos.Base.Memory.{update}

-- `struct gdt_desc`.
pub record GdtDesc : Type 0 where
  pub limit_low_word : ℕ
  pub base_low_word : ℕ
  pub base_mid_byte : ℕ
  pub attr_low_byte : ℕ
  pub limit_high_attr_high : ℕ
  pub base_high_byte : ℕ

unfoldable pub make_gdt_desc : (desc_addr limit attr_low attr_high : ℕ) → GdtDesc
make_gdt_desc desc_addr limit attr_low attr_high = record {
  base_low_word = u16 (bit_and desc_addr 0x0000ffff);
  base_mid_byte = u8 (bit_and desc_addr 0x00ff0000 / 2 ^ 16);
  base_high_byte = u8 (bit_and desc_addr 0xff000000 / 2 ^ 24);
  limit_low_word = u16 (bit_and limit 0x0000ffff);
  attr_low_byte = attr_low;
  limit_high_attr_high = u8 (attr_high + bit_and limit 0x000f0000 / 2 ^ 16);
}

-- `(index << 3) + (TI_GDT << 2) + rpl`.
abbrev pub selector : (index rpl : ℕ) → ℕ
selector index rpl = index * 2 ^ 3 + 0 * 2 ^ 2 + rpl

abbrev pub code_selector : ℕ
code_selector = selector 1 0

abbrev pub selector_k_stack : ℕ
selector_k_stack = selector 2 0

abbrev pub selector_u_code : ℕ
selector_u_code = selector 5 3

abbrev pub selector_u_data : ℕ
selector_u_data = selector 6 3

-- A present descriptor: its privilege level, whether it is of memory, and its type.
abbrev pub attr_low_of : (dpl s type : ℕ) → ℕ
attr_low_of dpl s type = 1 * 2 ^ 7 + dpl * 2 ^ 5 + s * 2 ^ 4 + type

abbrev pub tss_attr_low : ℕ
tss_attr_low = attr_low_of 0 0 9

abbrev pub gdt_attr_code_low_dpl_3 : ℕ
gdt_attr_code_low_dpl_3 = attr_low_of 3 1 8

abbrev pub gdt_attr_data_low_dpl_3 : ℕ
gdt_attr_data_low_dpl_3 = attr_low_of 3 1 2

-- Limits in pages, and 32 bits or not.
abbrev pub tss_attr_high : ℕ
tss_attr_high = 1 * 2 ^ 7 + 0 * 2 ^ 6 + 0 * 2 ^ 5 + 0 * 2 ^ 4 + 0

abbrev pub gdt_attr_high : ℕ
gdt_attr_high = 1 * 2 ^ 7 + 1 * 2 ^ 6 + 0 * 2 ^ 5 + 0 * 2 ^ 4

-- The fields of `struct tss` that are set, and the descriptors by their address.
pub record Tss : Type 0 where
  pub ss0 : ℕ
  pub io_base : ℕ
  pub gdt : ℕ → GdtDesc

-- `sizeof(struct tss)`: 27 words.
abbrev pub tss_size : ℕ
tss_size = 27 * 4

unfoldable pub tss_init : (tss : ℕ) → Tss → Tss
tss_init tss t =
    let task = make_gdt_desc tss (tss_size - 1) tss_attr_low tss_attr_high in
    let code = make_gdt_desc 0 0xfffff gdt_attr_code_low_dpl_3 gdt_attr_high in
    let values = make_gdt_desc 0 0xfffff gdt_attr_data_low_dpl_3 gdt_attr_high in
    record {
      ss0 = selector_k_stack;
      io_base = tss_size;
      gdt = update (update (update t.gdt 0xc0000923 task) 0xc000092b code) 0xc0000933 values;
    }

-- `struct interrupt_gate_desc`.
pub record InterruptGateDesc : Type 0 where
  pub code_offset_low_word : ℕ
  pub selector : ℕ
  pub n_count : ℕ
  pub attribute : ℕ
  pub code_offset_high_word : ℕ

unfoldable pub set_inerrupt_gate_desc : (attr func : ℕ) → InterruptGateDesc
set_inerrupt_gate_desc attr func = record {
  n_count = 0;
  attribute = attr;
  selector = code_selector;
  code_offset_low_word = u16 (bit_and func 0x0000ffff);
  code_offset_high_word = u16 (bit_and func 0xffff0000 / 2 ^ 16);
}

abbrev pub int_desc_num : ℕ
int_desc_num = 0x81

-- `IDT_DESC_ATTR_DPL0` and `IDT_DESC_ATTR_DPL3`.
abbrev pub idt_desc_attr : (dpl : ℕ) → ℕ
idt_desc_attr dpl = 1 * 2 ^ 7 + dpl * 2 ^ 5 + 0xe

-- The tables of kernel/interrupt.c; a handler is its address.
pub record Interrupts : Type 0 where
  pub idt : ℕ → InterruptGateDesc
  pub exception_funcptr_table : ℕ → ℕ

-- The loop of idt_desc_init, and that of exception_init.
unfoldable pub set_gates : (left i : ℕ) → (ℕ → ℕ) → (ℕ → InterruptGateDesc) → ℕ → InterruptGateDesc
set_gates zero i interrupt_table idt = idt
set_gates (suc left) i interrupt_table idt =
    set_gates left (suc i) interrupt_table
      (update idt i (set_inerrupt_gate_desc (idt_desc_attr 0) (interrupt_table i)))

unfoldable pub idt_desc_init :
    (interrupt_table : ℕ → ℕ) (system_call_handler : ℕ) → Interrupts → Interrupts
idt_desc_init interrupt_table system_call_handler t =
    let gates = set_gates int_desc_num 0 interrupt_table t.idt in
    record t {
      idt =
          update gates (int_desc_num - 1)
            (set_inerrupt_gate_desc (idt_desc_attr 3) system_call_handler);
    }

unfoldable pub fill_handlers : (left i handler : ℕ) → (ℕ → ℕ) → ℕ → ℕ
fill_handlers zero i handler table = table
fill_handlers (suc left) i handler table =
    fill_handlers left (suc i) handler (update table i handler)

-- Every vector gets the general handler; the names of the exceptions are left out.
unfoldable pub exception_init : (general_exception_handler : ℕ) → Interrupts → Interrupts
exception_init general_exception_handler t = record t {
  exception_funcptr_table =
      fill_handlers int_desc_num 0 general_exception_handler t.exception_funcptr_table;
}

unfoldable pub register_handler : (vec_num func : ℕ) → Interrupts → Interrupts
register_handler vec_num func t = record t {
  exception_funcptr_table = update t.exception_funcptr_table (u8 vec_num) func;
}

-- The bytes that pic_init writes, each with its port.
unfoldable pub pic_init : List (ℕ × ℕ)
pic_init =
    (0x20, 0x11)
    ∷ (0x21, 0x20)
    ∷ (0x21, 0x04)
    ∷ (0x21, 0x01)
    ∷ (0xa0, 0x11)
    ∷ (0xa1, 0x28)
    ∷ (0xa1, 0x02)
    ∷ (0xa1, 0x01)
    ∷ (0x21, 0xf8)
    ∷ (0xa1, 0xbf)
    ∷ []

-- What idt_init leaves in the tables, what pic_init writes to the ports, and the operand of lidt;
-- `idt` is the table's address, in which a gate takes 8 bytes.
unfoldable pub idt_init :
    (ℕ → ℕ)
    → (system_call_handler general_exception_handler idt : ℕ) → Interrupts
    → Interrupts × List (ℕ × ℕ) × ℕ
unfolding pic_init
idt_init interrupt_table system_call_handler general_exception_handler idt t = (
  exception_init general_exception_handler (idt_desc_init interrupt_table system_call_handler t),
  pic_init,
  bit_or (8 * int_desc_num - 1) (idt * 2 ^ 16),
)
