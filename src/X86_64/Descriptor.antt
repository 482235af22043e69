-- ===== src/X86_64/Descriptor.antt =====
-- The descriptors of include/x86_64/regs/register_info.hpp: segment descriptors of GdtrInfo, error
-- codes and interrupt gates of IdtrInfo. The bit-fields of a word are laid out from its lowest bit
-- on, and an assignment to one keeps its low bits.
pub mod Laws
pub mod SystemTypes
pub mod Gates
pub mod Tests
use cpu_io.Base.{ℕ, ◌*◌, ◌+◌, bit_and, bit_or, shl64, shr, List, [], ◌∷◌}
use cpu_io.RegisterInfo.{Field, field, uint32, uint64, get_value, insert}

abbrev pub segment_limit_low : Field
segment_limit_low = field 0 16 uint64

abbrev pub segment_base_low : Field
segment_base_low = field 16 16 uint64

abbrev pub segment_base_mid : Field
segment_base_mid = field 32 8 uint64

abbrev pub segment_type_field : Field
segment_type_field = field 40 4 uint64

abbrev pub segment_s : Field
segment_s = field 44 1 uint64

abbrev pub segment_dpl : Field
segment_dpl = field 45 2 uint64

abbrev pub segment_p : Field
segment_p = field 47 1 uint64

abbrev pub segment_limit_high : Field
segment_limit_high = field 48 4 uint64

abbrev pub segment_avl : Field
segment_avl = field 52 1 uint64

abbrev pub segment_l : Field
segment_l = field 53 1 uint64

abbrev pub segment_db : Field
segment_db = field 54 1 uint64

abbrev pub segment_g : Field
segment_g = field 55 1 uint64

abbrev pub segment_base_high : Field
segment_base_high = field 56 8 uint64

abbrev pub error_code_ext : Field
error_code_ext = field 0 1 uint32

abbrev pub error_code_idt : Field
error_code_idt = field 1 1 uint32

abbrev pub error_code_ti : Field
error_code_ti = field 2 1 uint32

abbrev pub error_code_segment_selector_index : Field
error_code_segment_selector_index = field 3 29 uint32

abbrev pub gate_offset1 : Field
gate_offset1 = field 0 16 uint64

abbrev pub gate_selector : Field
gate_selector = field 16 16 uint64

abbrev pub gate_ist : Field
gate_ist = field 32 3 uint64

abbrev pub gate_zero0 : Field
gate_zero0 = field 35 5 uint64

abbrev pub gate_type : Field
gate_type = field 40 4 uint64

abbrev pub gate_zero1 : Field
gate_zero1 = field 44 1 uint64

abbrev pub gate_dpl : Field
gate_dpl = field 45 2 uint64

abbrev pub gate_p : Field
gate_p = field 47 1 uint64

abbrev pub gate_offset2 : Field
gate_offset2 = field 48 16 uint64

abbrev pub gate_offset3 : Field
gate_offset3 = field 0 32 uint64

abbrev pub gate_reserved : Field
gate_reserved = field 32 32 uint64

abbrev pub segment_fields : List Field
segment_fields =
    segment_limit_low ∷ segment_base_low ∷ segment_base_mid ∷ segment_type_field ∷ segment_s
    ∷ segment_dpl ∷ segment_p ∷ segment_limit_high ∷ segment_avl ∷ segment_l ∷ segment_db
    ∷ segment_g ∷ segment_base_high ∷ []

abbrev pub error_code_fields : List Field
error_code_fields =
    error_code_ext ∷ error_code_idt ∷ error_code_ti ∷ error_code_segment_selector_index ∷ []

abbrev pub gate_low_fields : List Field
gate_low_fields =
    gate_offset1 ∷ gate_selector ∷ gate_ist ∷ gate_zero0 ∷ gate_type ∷ gate_zero1 ∷ gate_dpl
    ∷ gate_p ∷ gate_offset2 ∷ []

abbrev pub gate_high_fields : List Field
gate_high_fields = gate_offset3 ∷ gate_reserved ∷ []

pub data SegmentType : Type 0 where
  data_read_only data_read_only_accessed data_read_write data_read_write_accessed
        data_read_only_expand_down :
      SegmentType
  data_read_only_expand_down_accessed data_read_write_expand_down
        data_read_write_expand_down_accessed code_execute_only code_execute_only_accessed :
      SegmentType
  code_execute_read code_execute_read_accessed code_execute_only_conforming
        code_execute_only_conforming_accessed code_execute_read_conforming :
      SegmentType
  code_execute_read_conforming_accessed : SegmentType

abbrev pub segment_type : SegmentType → ℕ
segment_type data_read_only = 0
segment_type data_read_only_accessed = 1
segment_type data_read_write = 2
segment_type data_read_write_accessed = 3
segment_type data_read_only_expand_down = 4
segment_type data_read_only_expand_down_accessed = 5
segment_type data_read_write_expand_down = 6
segment_type data_read_write_expand_down_accessed = 7
segment_type code_execute_only = 8
segment_type code_execute_only_accessed = 9
segment_type code_execute_read = 10
segment_type code_execute_read_accessed = 11
segment_type code_execute_only_conforming = 12
segment_type code_execute_only_conforming_accessed = 13
segment_type code_execute_read_conforming = 14
segment_type code_execute_read_conforming_accessed = 15

pub data SegmentClass : Type 0 where
  system code_data : SegmentClass

abbrev pub segment_class : SegmentClass → ℕ
segment_class system = 0
segment_class code_data = 1

pub data Dpl : Type 0 where
  ring0 ring1 ring2 ring3 : Dpl

abbrev pub privilege : Dpl → ℕ
privilege ring0 = 0
privilege ring1 = 1
privilege ring2 = 2
privilege ring3 = 3

pub data Presence : Type 0 where
  not_present present : Presence

abbrev pub presence : Presence → ℕ
presence not_present = 0
presence present = 1

pub data Availability : Type 0 where
  not_available available : Availability

abbrev pub availability : Availability → ℕ
availability not_available = 0
availability available = 1

pub data CodeMode : Type 0 where
  mode_legacy mode_64_bit : CodeMode

abbrev pub code_mode : CodeMode → ℕ
code_mode mode_legacy = 0
code_mode mode_64_bit = 1

-- The constructor of `SegmentDescriptor`, which starts from the word 0.
unfoldable pub make_segment :
    SegmentType → SegmentClass → Dpl → Presence → Availability → CodeMode → ℕ
make_segment type s dpl p avl l =
    let val = insert segment_type_field 0 (segment_type type) in
    let val = insert segment_s val (segment_class s) in
    let val = insert segment_dpl val (privilege dpl) in
    let val = insert segment_p val (presence p) in
    let val = insert segment_avl val (availability avl) in insert segment_l val (code_mode l)

-- The two words of a gate.
pub record Gate : Type 0 where
  pub low : ℕ
  pub high : ℕ

-- The constructor of `Idt`, which starts from zeros.
unfoldable pub make_gate : ℕ → ℕ → ℕ → ℕ → ℕ → ℕ → Gate
make_gate base selector ist type dpl p =
    let low = insert gate_offset1 0 (bit_and base 0xFFFF) in
    let low = insert gate_selector low selector in
    let low = insert gate_ist low ist in
    let low = insert gate_type low type in
    let low = insert gate_dpl low dpl in
    let low = insert gate_p low p in
    record {
      low = insert gate_offset2 low (bit_and (shr base 16) 0xFFFF);
      high = insert gate_offset3 0 (shr base 32);
    }
