-- ===== src/X86_64/Pic/Calls/Refinement.antt =====
-- That sequences of calls of include/x86_64/pic.hpp do what they mean.
use cpu_io.Base.{
  ℕ, ◌-◌, ◌*◌, ◌/◌, ◌%◌, ◌^◌, ◌<◌, ◌≡◌, refl, arith, some, Bool, true, false, leb, ◌==◌, List, [],
  ◌∷◌, if◌then◌else◌, bit_and, bit_or, bit_at, bit_at_not, bit_at_zero,
}
use cpu_io.X86_64.Bus.{Bus, ◌>>=◌, ◌>>◌}
use cpu_io.X86_64.Pic.{Pic, disable_all, make_pic}
use cpu_io.X86_64.Pic.Chip.{Chip, Controller, end_of_interrupt}
use cpu_io.X86_64.Pic.Init.{make_pic_lem, masked}
use cpu_io.X86_64.Pic.Mask.{switched_lines, mask_bytes}
use cpu_io.X86_64.Pic.Laws.{switch_line, clear_lem}
use cpu_io.X86_64.Pic.Calls.{
  Call, enabling, disabling, clearing, disabling_all, View, Meaning, with_line, all_masked, ended,
  meant, replay, Shows, perform, run,
}

-- A controller with another mask.
mask-Shows :
    (c : Chip) (v : View) (k x : ℕ) (b : Bool)
    → Shows c v
    → x < 256
    → ((line : ℕ)
        → line < 8
        → bit_at line x ≡ (if line == k then if b then 1 else 0 else bit_at line c.mask))
    → Shows (record c { mask = x }) (with_line k b v)
mask-Shows c v k x b shows lt at = record {
  ready = shows.ready;
  byte = lt;
  base = shows.base;
  lines = λ line l. ground (arith, at line l, shows.lines line l);
  serving = shows.serving;
}

ones : (line : ℕ) → line < 8 → bit_at line 0xFF ≡ 1
ones line l = ground (arith, bit_at_not 8 line 0 (omega arith), bit_at_zero line)

all_masked-Shows :
    (c : Chip) (v : View) → Shows c v → Shows (record c { mask = 0xFF }) (all_masked v)
all_masked-Shows c v shows = record {
  ready = shows.ready;
  byte = omega arith;
  base = shows.base;
  lines = ones;
  serving = shows.serving;
}

-- A controller after the constructor.
all_ones-Shows :
    (c : Chip) {vector : ℕ}
    → c.awaiting ≡ 0
    → c.vector ≡ vector
    → c.mask ≡ 0xFF
    → Shows c (record { vector = vector; masked = λ line. true; in_service = c.in_service })
all_ones-Shows c ready base mask = record {
  ready = ready;
  byte = omega arith;
  base = base;
  lines = λ line l. rw mask (ones line l);
  serving = refl;
}

ended-Shows : (c : Chip) (v : View) → Shows c v → Shows (end_of_interrupt c) (ended v)
ended-Shows c v shows = record {
  ready = shows.ready;
  byte = shows.byte;
  base = shows.base;
  lines = shows.lines;
  serving = rw shows.serving refl;
}

enabled-Shows :
    (c : Chip) (v : View) (irq : ℕ)
    → Shows c v
    → Shows (record c { mask = bit_and c.mask (255 - 2 ^ (irq % 8)) }) (with_line (irq % 8) false v)
enabled-Shows c v irq shows =
    mask-Shows c v (irq % 8) _ false shows (mask_bytes c.mask (irq % 8) shows.byte (omega arith)).0
      (λ line l. (switched_lines c.mask (irq % 8) line shows.byte (omega arith) l).0)

disabled-Shows :
    (c : Chip) (v : View) (irq : ℕ)
    → Shows c v
    → Shows (record c { mask = bit_or c.mask (2 ^ (irq % 8)) }) (with_line (irq % 8) true v)
disabled-Shows c v irq shows =
    mask-Shows c v (irq % 8) _ true shows (mask_bytes c.mask (irq % 8) shows.byte (omega arith)).1
      (λ line l. (switched_lines c.mask (irq % 8) line shows.byte (omega arith) l).1)

-- One of two controllers, by the number.
choice-Shows :
    (b : Bool) (c x y : Chip) (v w : View)
    → c ≡ (if b then x else y)
    → Shows x v
    → Shows y w
    → Shows c (if b then v else w)
choice-Shows true c x y v w e p q = rw e p
choice-Shows false c x y v w e p q = rw e q

abbrev pub driver : ℕ → ℕ → Pic
driver offset1 offset2 = record { offset1 = offset1; offset2 = offset2 }

module _ {D : Type 0} ⦃bus : Bus D⦄ (m : Controller D bus 0x20 0x21)
    (s : Controller D bus 0xA0 0xA1) where
  -- Both controllers show what the state means.
  abbrev pub Represents : D → Meaning → Type 0
  Represents d n = Shows (m.chip d) n.master × Shows (s.chip d) n.slave

  abbrev pub Performs : Pic → Call → D → Meaning → Type 0
  Performs pic call d n =
      (e : D) × (perform pic call d ≡ some (tt, e)) × Represents e (meant pic call n)

  pub perform-Represents :
      (pic : Pic) (call : Call) (d : D) (n : Meaning) → Represents d n → Performs pic call d n
  unfolding perform meant disable_all
  perform-Represents pic (enabling irq) d n r =
      let done = switch_line m s pic irq d r.0.ready r.1.ready r.0.byte r.1.byte in
      let b = leb pic.offset2 irq in
      (
        done.0,
        done.2,
        (
          choice-Shows b _ _ _ _ _ done.4 r.0 (enabled-Shows (m.chip d) n.master irq r.0),
          choice-Shows b _ _ _ _ _ done.5 (enabled-Shows (s.chip d) n.slave irq r.1) r.1,
        ),
      )
  perform-Represents pic (disabling irq) d n r =
      let done = switch_line m s pic irq d r.0.ready r.1.ready r.0.byte r.1.byte in
      let b = leb pic.offset2 irq in
      (
        done.1,
        done.3,
        (
          choice-Shows b _ _ _ _ _ done.6 r.0 (disabled-Shows (m.chip d) n.master irq r.0),
          choice-Shows b _ _ _ _ _ done.7 (disabled-Shows (s.chip d) n.slave irq r.1) r.1,
        ),
      )
  perform-Represents pic (clearing irq) d n r =
      let done = clear_lem m s pic irq d in
      let b = leb pic.offset2 irq in
      (
        done.0,
        done.1,
        (
          choice-Shows b _ _ _ _ _ done.2 r.0 (ended-Shows (m.chip d) n.master r.0),
          choice-Shows b _ _ _ _ _ done.3 (ended-Shows (s.chip d) n.slave r.1) r.1,
        ),
      )
  perform-Represents pic disabling_all d n r = (
    bus.out_byte 0xA1 0xFF (bus.out_byte 0x21 0xFF d),
    refl,
    (
      rw
          (
            m.elsewhere 0xA1 0xFF (bus.out_byte 0x21 0xFF d) (ground arith) (ground arith),
            m.ocw1 0xFF d r.0.ready,
          )
          (all_masked-Shows (m.chip d) n.master r.0),
      rw
          (masked s 0xFF _ (s.chip d) (s.elsewhere 0x21 0xFF d (ground arith) (ground arith))
            r.1.ready)
          (all_masked-Shows (s.chip d) n.slave r.1),
    ),
  )

  run-Represents :
      (pic : Pic) (calls : List Call) (d : D) (n : Meaning)
      → Represents d n
      → (e : D) × (run pic calls d ≡ some (tt, e)) × Represents e (replay pic calls n)
  unfolding run replay
  run-Represents pic [] d n r = (d, refl, r)
  run-Represents pic (call ∷ calls) d n r =
      let first = perform-Represents pic call d n r in
      let rest = run-Represents pic calls first.0 (meant pic call n) first.2 in
      (rest.0, rw (first.1, ◌>>◌, ◌>>=◌) rest.1, rest.2)

  -- The two controllers as the constructor leaves them, in a state c.
  abbrev pub constructed : ℕ → ℕ → D → Meaning
  constructed offset1 offset2 c = record {
    master = record {
      vector = offset1 / 8 * 8;
      masked = λ line. true;
      in_service = (m.chip c).in_service;
    };
    slave = record {
      vector = offset2 / 8 * 8;
      masked = λ line. true;
      in_service = (s.chip c).in_service;
    };
  }

  -- The constructor leaves the controllers in this state.
  pub constructed-Represents :
      (offset1 offset2 : ℕ) (d : D)
      → offset1 < 256
      → offset2 < 256
      → (c : D) × (make_pic offset1 offset2 d ≡ some (driver offset1 offset2, c))
        × Represents c (constructed offset1 offset2 c)
  constructed-Represents offset1 offset2 d lt1 lt2 =
      let made = make_pic_lem m s offset1 offset2 d lt1 lt2 in
      (
        made.0,
        made.1,
        (
          all_ones-Shows (m.chip made.0) made.2 made.3 made.5,
          all_ones-Shows (s.chip made.0) made.6 made.7 made.9,
        ),
      )

  -- On two controllers that keep to the documentation, the constructor with two offsets below 256
  -- leaves the offsets, rounded down to multiples of 8, as their vectors and every line masked, and any sequence of `Enable`,
  -- `Disable` of a line, `Disable` and `Clear` then runs to its end. In either controller a line's
  -- mask bit is then zero exactly if the last call that switches the line is an `Enable`; the
  -- interrupts in service are those after the constructor less the ones that the calls end; and the
  -- vectors are the same.
  pub driver_calls :
      (offset1 offset2 : ℕ) (calls : List Call) (d : D)
      → offset1 < 256
      → offset2 < 256
      → (c : D) × (e : D) × (make_pic offset1 offset2 d ≡ some (driver offset1 offset2, c))
        × Represents c (constructed offset1 offset2 c)
        × (run (driver offset1 offset2) calls c ≡ some (tt, e))
        × Represents e (replay (driver offset1 offset2) calls (constructed offset1 offset2 c))
  driver_calls offset1 offset2 calls d lt1 lt2 =
      let made = constructed-Represents offset1 offset2 d lt1 lt2 in
      let rest =
        run-Represents (driver offset1 offset2) calls made.0 (constructed offset1 offset2 made.0)
          made.2 in
      (made.0, rest.0, made.1, made.2, rest.1, rest.2)
