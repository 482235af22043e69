-- ===== src/X86_64/Output/Laws.antt =====
-- What the operators of operator.cpp print for x86_64.
use cpu_io.Base.{ℕ, ◌/◌, ◌%◌, ◌^◌, ◌≡◌, refl, arith, some, [], ◌∷◌, ◌!=◌, if◌then◌else◌, u8}
use cpu_io.Output.{Printed, number, string, printed, choice, String}
use cpu_io.RegisterInfo.{cast, get_value}
use cpu_io.RegisterInfo.Laws.{get_value-eq}
use cpu_io.X86_64.Descriptor
use cpu_io.X86_64.Descriptor.{
  SegmentType, SegmentClass, system, code_data, Dpl, ring0, Presence, not_present, present,
  Availability, not_available, available, CodeMode, mode_legacy, mode_64_bit, segment_type,
  privilege, make_segment,
}
use cpu_io.X86_64.Descriptor.Laws.{make_segment_lem}
use cpu_io.X86_64.Output.{
  show_segment_descriptor, show_cs, show_ss, show_ds, show_es, show_fs, show_gs,
}
use cpu_io.X86_64.Machine.{cs, ss, ds, es, fs, gs, Cpu}
use cpu_io.X86_64.Info.{selector_rpl, selector_ti, selector_index}
use cpu_io.X86_64.ReadWrite.{read}
use cpu_io.X86_64.Field

-- The words for the arguments of the constructor of `SegmentDescriptor`.
abbrev pub class_word : SegmentClass → String
class_word system = "System"
class_word code_data = "CodeData"

abbrev pub presence_word : Presence → String
presence_word not_present = "NotPresent"
presence_word present = "Present"

abbrev pub availability_word : Availability → String
availability_word not_available = "NotAvailable"
availability_word available = "Available"

abbrev pub mode_word : CodeMode → String
mode_word mode_legacy = "Legacy"
mode_word mode_64_bit = "64Bit"

abbrev pub segment_line :
    ℕ → SegmentType → SegmentClass → Dpl → Presence → Availability → CodeMode → Printed
segment_line val t s d p a l =
    printed "val: 0x%p, type: 0x%X, s: %s, dpl: 0x%X, p: %s, avl: %s, l: %s" (
      number val
      ∷ number (segment_type t)
      ∷ string (some (class_word s))
      ∷ number (privilege d)
      ∷ string (some (presence_word p))
      ∷ string (some (availability_word a))
      ∷ string (some (mode_word l))
      ∷ [])

class-choice :
    (s : SegmentClass)
    → choice (Descriptor.segment_class s) "CodeData" "System" ≡ string (some (class_word s))
class-choice system = refl
class-choice code_data = refl

presence-choice :
    (p : Presence)
    → choice (Descriptor.presence p) "Present" "NotPresent" ≡ string (some (presence_word p))
presence-choice not_present = refl
presence-choice present = refl

availability-choice :
    (a : Availability)
    → choice (Descriptor.availability a) "Available" "NotAvailable"
      ≡ string (some (availability_word a))
availability-choice not_available = refl
availability-choice available = refl

mode-choice :
    (l : CodeMode) → choice (Descriptor.code_mode l) "64Bit" "Legacy" ≡ string (some (mode_word l))
mode-choice mode_legacy = refl
mode-choice mode_64_bit = refl

type-byte : (t : SegmentType) → u8 (segment_type t) ≡ segment_type t
type-byte Descriptor.data_read_only = refl
type-byte _ = refl

privilege-byte : (d : Dpl) → u8 (privilege d) ≡ privilege d
privilege-byte ring0 = refl
privilege-byte _ = refl

-- For all choices of the six arguments of the constructor, the operator prints the descriptor with
-- the number of its type and its privilege level, and the words for the other four.
pub printed_segment :
    (t : SegmentType) (s : SegmentClass) (d : Dpl) (p : Presence) (a : Availability) (l : CodeMode)
    → show_segment_descriptor (make_segment t s d p a l)
      ≡ segment_line (make_segment t s d p a l) t s d p a l
unfolding show_segment_descriptor
printed_segment t s d p a l =
    let fields = make_segment_lem t s d p a l in
    rw
      (
        fields.3,
        fields.4,
        fields.5,
        fields.6,
        fields.8,
        fields.9,
        type-byte t,
        class-choice s,
        privilege-byte d,
        presence-choice p,
        availability-choice a,
        mode-choice l,
      )
      refl

-- A selector taken apart: the privilege level, the table and the index.
abbrev pub selector_line : ℕ → Printed
selector_line v = printed "val: 0x%X, rpl: %d, ti: %s, index: 0x%X" (
    number v
    ∷ number (v % 4)
    ∷ string (some (if v / 4 % 2 != 0 then "LDT" else "GDT"))
    ∷ number (v / 8 % 2 ^ 13)
    ∷ [])

rpl-eq : (v : ℕ) → get_value selector_rpl v ≡ v % 4
unfolding cast
rpl-eq v = omega (arith, get_value-eq selector_rpl (record { fits = omega arith; ones = refl }) v)

ti-eq : (v : ℕ) → get_value selector_ti v ≡ v / 4 % 2
unfolding cast
ti-eq v = ground (arith, get_value-eq selector_ti (record { fits = omega arith; ones = refl }) v)

index-eq : (v : ℕ) → get_value selector_index v ≡ v / 8 % 2 ^ 13
unfolding cast
index-eq v =
    omega (arith, get_value-eq selector_index (record { fits = omega arith; ones = refl }) v)

-- For each of the six segment registers, the operator prints its value, the low two bits as the
-- privilege level, "LDT" or "GDT" by bit 2, and the bits above as the index.
pub printed_selectors :
    (c : Cpu)
    → (show_cs c ≡ some (selector_line (c.reg cs), c))
      × (show_ss c ≡ some (selector_line (c.reg ss), c))
      × (show_ds c ≡ some (selector_line (c.reg ds), c))
      × (show_es c ≡ some (selector_line (c.reg es), c))
      × (show_fs c ≡ some (selector_line (c.reg fs), c))
      × (show_gs c ≡ some (selector_line (c.reg gs), c))
unfolding show_cs show_ss show_ds show_es show_fs show_gs Field.get read
printed_selectors c = (
  rw (rpl-eq (c.reg cs), ti-eq (c.reg cs), index-eq (c.reg cs)) refl,
  rw (rpl-eq (c.reg ss), ti-eq (c.reg ss), index-eq (c.reg ss)) refl,
  rw (rpl-eq (c.reg ds), ti-eq (c.reg ds), index-eq (c.reg ds)) refl,
  rw (rpl-eq (c.reg es), ti-eq (c.reg es), index-eq (c.reg es)) refl,
  rw (rpl-eq (c.reg fs), ti-eq (c.reg fs), index-eq (c.reg fs)) refl,
  rw (rpl-eq (c.reg gs), ti-eq (c.reg gs), index-eq (c.reg gs)) refl,
)
