-- ===== src/X86_64/Descriptor/Tests.antt =====
-- Arguments for the constructors of the descriptors of include/x86_64/regs/register_info.hpp.
use cpu_io.Base.{◌≡◌, arith}
use cpu_io.RegisterInfo.{get_value}
use cpu_io.X86_64.Descriptor.{
  segment_limit_low, segment_base_low, segment_base_mid, segment_type_field, segment_s, segment_dpl,
  segment_p, segment_limit_high, segment_avl, segment_l, segment_db, segment_g, segment_base_high,
  gate_selector, gate_ist, gate_zero0, gate_type, gate_zero1, gate_dpl, gate_p, gate_reserved,
  code_execute_read, code_data, ring3, present, not_available, mode_64_bit, make_segment, make_gate,
}
use cpu_io.X86_64.Descriptor.Laws.{make_segment_lem}
use cpu_io.X86_64.Descriptor.Gates.{make_gate_lem, handler}

make_segment_example :
    (get_value segment_limit_low
        (make_segment code_execute_read code_data ring3 present not_available mode_64_bit)
      ≡ 0)
    × (get_value segment_base_low
          (make_segment code_execute_read code_data ring3 present not_available mode_64_bit)
        ≡ 0)
    × (get_value segment_base_mid
          (make_segment code_execute_read code_data ring3 present not_available mode_64_bit)
        ≡ 0)
    × (get_value segment_type_field
          (make_segment code_execute_read code_data ring3 present not_available mode_64_bit)
        ≡ 10)
    × (get_value segment_s
          (make_segment code_execute_read code_data ring3 present not_available mode_64_bit)
        ≡ 1)
    × (get_value segment_dpl
          (make_segment code_execute_read code_data ring3 present not_available mode_64_bit)
        ≡ 3)
    × (get_value segment_p
          (make_segment code_execute_read code_data ring3 present not_available mode_64_bit)
        ≡ 1)
    × (get_value segment_limit_high
          (make_segment code_execute_read code_data ring3 present not_available mode_64_bit)
        ≡ 0)
    × (get_value segment_avl
          (make_segment code_execute_read code_data ring3 present not_available mode_64_bit)
        ≡ 0)
    × (get_value segment_l
          (make_segment code_execute_read code_data ring3 present not_available mode_64_bit)
        ≡ 1)
    × (get_value segment_db
          (make_segment code_execute_read code_data ring3 present not_available mode_64_bit)
        ≡ 0)
    × (get_value segment_g
          (make_segment code_execute_read code_data ring3 present not_available mode_64_bit)
        ≡ 0)
    × (get_value segment_base_high
          (make_segment code_execute_read code_data ring3 present not_available mode_64_bit)
        ≡ 0)
make_segment_example =
    make_segment_lem code_execute_read code_data ring3 present not_available mode_64_bit

make_gate_example :
    (handler (make_gate 0xFFFF_8000_0010_2345 8 1 14 0 1) ≡ 0xFFFF_8000_0010_2345)
    × (get_value gate_selector (make_gate 0xFFFF_8000_0010_2345 8 1 14 0 1).low ≡ 8)
    × (get_value gate_ist (make_gate 0xFFFF_8000_0010_2345 8 1 14 0 1).low ≡ 1)
    × (get_value gate_zero0 (make_gate 0xFFFF_8000_0010_2345 8 1 14 0 1).low ≡ 0)
    × (get_value gate_type (make_gate 0xFFFF_8000_0010_2345 8 1 14 0 1).low ≡ 14)
    × (get_value gate_zero1 (make_gate 0xFFFF_8000_0010_2345 8 1 14 0 1).low ≡ 0)
    × (get_value gate_dpl (make_gate 0xFFFF_8000_0010_2345 8 1 14 0 1).low ≡ 0)
    × (get_value gate_p (make_gate 0xFFFF_8000_0010_2345 8 1 14 0 1).low ≡ 1)
    × (get_value gate_reserved (make_gate 0xFFFF_8000_0010_2345 8 1 14 0 1).high ≡ 0)
make_gate_example =
    make_gate_lem 0xFFFF_8000_0010_2345 8 1 14 0 1 (omega arith) (omega arith) (omega arith)
      (omega arith) (omega arith) (omega arith)
