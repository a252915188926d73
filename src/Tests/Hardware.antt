-- ===== src/Tests/Hardware.antt =====
-- Descriptors and the clock at concrete values.
use leeos.Base.{◌≢◌, none, some, ℕ, ◌+◌, ◌*◌, ◌%◌, ◌^◌, ◌≤◌, ◌<◌, ◌≡◌, arith}
use leeos.Segments.{Interrupts, make_gdt_desc, idt_init}
use leeos.Segments.Fields.{
  base_of, limit_of, attr_high_of, make_gdt_desc_fields, IsGate, idt_init-IsGate,
}
use leeos.Timer.{frequency_set}
use leeos.Timer.Rate.{Pit, run_writes, frequency_set-loaded}

make_gdt_desc_fields_example :
    (base_of (make_gdt_desc 0xc0012345 0xabcde 0x92 0xc0) ≡ 0xc0012345)
    × (limit_of (make_gdt_desc 0xc0012345 0xabcde 0x92 0xc0) ≡ 0xabcde)
    × ((make_gdt_desc 0xc0012345 0xabcde 0x92 0xc0).attr_low_byte ≡ 0x92)
    × (attr_high_of (make_gdt_desc 0xc0012345 0xabcde 0x92 0xc0) ≡ 0xc0)
make_gdt_desc_fields_example =
    make_gdt_desc_fields 0xc0012345 0xabcde 0x92 12 (omega arith) (omega arith) (omega arith)

abbrev empty_tables : Interrupts
empty_tables = record {
  idt = λ i. record {
    code_offset_low_word = 0;
    selector = 0;
    n_count = 0;
    attribute = 0;
    code_offset_high_word = 0;
  };
  exception_funcptr_table = λ i. 0;
}

abbrev entries : ℕ → ℕ
entries i = 0xc0010000 + i % 0x81 * 16

idt_init-IsGate_example :
    ((i : ℕ)
      → i < 0x80
      → IsGate 0
          (entries i)
          ((idt_init entries 0xc0020000 0xc0030000 0xc0040000 empty_tables).0.idt i))
    × IsGate 3 0xc0020000
        ((idt_init entries 0xc0020000 0xc0030000 0xc0040000 empty_tables).0.idt 0x80)
    × ((i : ℕ)
        → i ≤ 0x80
        → (idt_init entries 0xc0020000 0xc0030000 0xc0040000 empty_tables).0.exception_funcptr_table
            i
          ≡ 0xc0030000)
idt_init-IsGate_example =
    idt_init-IsGate entries 0xc0020000 0xc0030000 0xc0040000 empty_tables (λ i. omega arith)
      (omega arith)

abbrev new_pit : Pit
new_pit = record { access = λ n. 0; mode = λ n. 0; low = λ n. none; count = λ n. none }

frequency_set-loaded_example :
    ((run_writes (frequency_set 0x40 0 3 2 11931) new_pit).count 0 ≡ some (11931 % 2 ^ 8))
    × ((run_writes (frequency_set 0x40 0 3 2 11931) new_pit).mode 0 ≡ 2)
    × ((n : ℕ) → n ≢ 0 → (run_writes (frequency_set 0x40 0 3 2 11931) new_pit).count n ≡ none)
frequency_set-loaded_example = frequency_set-loaded 0 2 11931 new_pit (omega arith) (omega arith)
