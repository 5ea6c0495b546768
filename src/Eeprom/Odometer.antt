-- ===== src/Eeprom/Odometer.antt =====
-- The odometer of power-on hours, the second half of firmware/src/device/eeprom.c. Time is in microseconds
-- since boot; the answer of the comparison with `MOTOR_POWER_ON_VOLTAGE_THRESHOLD`, of floating point
-- numbers, is an argument. The counters have 32 bits, the time of the motors 64.
pub mod Restored
use creature_controller.Common.{
  ℕ, suc, ◌+◌, ◌-◌, ◌*◌, ◌/◌, ◌%◌, ◌≤◌, ◌<◌, ◌≡◌, refl, sym, ap, ◌∙◌, ◌&&◌, Bool, true, false, not,
  List, [], ◌∷◌, Option, none, some, arith, ltb, leb, if◌then◌else◌, length, get_or,
}
use creature_controller.Eeprom.Record.{
  Hours, IsHours, slot_size, eeprom_hours_serialize, eeprom_hours_deserialize,
  deserialize-serialize,
}
use creature_controller.Eeprom.Slots.{Best, slot_count, eeprom_hours_select_slot}
use creature_controller.Eeprom.Memory.{
  Chip, IsChip, total_size, cells_from, eeprom_read, eeprom_write, eeprom_write_lem,
}

-- `EEPROM_HOURS_REGION_SIZE` and `EEPROM_HOURS_REGION_ADDR`.
abbrev pub region_size : ℕ
region_size = 256

abbrev pub region_addr : ℕ
region_addr = 32512

-- The static variables of the odometer.
pub record Odometer : Type 0 where
  pub baseline_uptime_min : ℕ
  pub baseline_motor_min : ℕ
  pub last_seq : ℕ
  pub last_slot : ℕ
  pub motor_on_accum_us : ℕ
  pub last_motor_sample : ℕ
  pub motor_sample_primed : Bool

-- `current_uptime_minutes` at a time, and `current_motor_minutes`.
unfoldable pub current_uptime_minutes : ℕ → Odometer → ℕ
current_uptime_minutes now o = (o.baseline_uptime_min + now / 60000000 % 4294967296) % 4294967296

unfoldable pub current_motor_minutes : Odometer → ℕ
current_motor_minutes o =
    (o.baseline_motor_min + o.motor_on_accum_us / 60000000 % 4294967296) % 4294967296

-- `eeprom_hours_get_uptime_hours` and `eeprom_hours_get_motor_hours`.
unfoldable pub eeprom_hours_get_uptime_hours : ℕ → Odometer → ℕ
eeprom_hours_get_uptime_hours now o = current_uptime_minutes now o / 60

unfoldable pub eeprom_hours_get_motor_hours : Odometer → ℕ
eeprom_hours_get_motor_hours o = current_motor_minutes o / 60

-- `eeprom_hours_motor_sample`.
unfoldable pub eeprom_hours_motor_sample : ℕ → Bool → Odometer → Odometer
eeprom_hours_motor_sample now powered o =
    let first = record o { last_motor_sample = now; motor_sample_primed = true } in
    let seen = record o { last_motor_sample = now } in
    let counted = record seen {
      motor_on_accum_us =
          (o.motor_on_accum_us + (now - o.last_motor_sample)) % 18446744073709551616;
    } in
    if not o.motor_sample_primed
    then first
    else if ltb o.last_motor_sample now && powered
    then counted
    else seen

-- The assignments of `eeprom_hours_init` after the choice of a slot.
unfoldable pub restore : Option Best → Odometer → Odometer
restore none o = record o {
  baseline_uptime_min = 0;
  baseline_motor_min = 0;
  last_seq = 0;
  last_slot = 15;
  motor_on_accum_us = 0;
  motor_sample_primed = false;
}
restore (some b) o = record o {
  baseline_uptime_min = b.hours.uptime_min;
  baseline_motor_min = b.hours.motor_min;
  last_seq = b.hours.seq;
  last_slot = b.slot;
  motor_on_accum_us = 0;
  motor_sample_primed = false;
}

-- What a persist writes, and where.
unfoldable pub next_hours : ℕ → Odometer → Hours
next_hours now o = record {
  seq = (o.last_seq + 1) % 4294967296;
  uptime_min = current_uptime_minutes now o;
  motor_min = current_motor_minutes o;
}

unfoldable pub next_slot : Odometer → ℕ
next_slot o = (o.last_slot + 1) % slot_count

unfoldable pub slot_addr : ℕ → ℕ
slot_addr slot = (region_addr + slot * slot_size) % 65536

module _ {M : Type 0} (chip : Chip M) where
  -- `eeprom_hours_init`.
  unfoldable pub eeprom_hours_init : M → Odometer → Odometer × M
  eeprom_hours_init m o =
      let (region, m') = eeprom_read chip m region_addr region_size in
      (restore (eeprom_hours_select_slot region) o, m')

  -- `eeprom_hours_persist`.
  unfoldable pub eeprom_hours_persist : ℕ → Odometer → M → Odometer × M
  eeprom_hours_persist now o m =
      let hours = next_hours now o in
      let slot = next_slot o in
      let m' = eeprom_write chip m (slot_addr slot) (eeprom_hours_serialize hours) in
      (record o { last_seq = hours.seq; last_slot = slot }, m')

-- Cells that hold these bytes are read as these bytes.
cells_from_lem :
    (f : ℕ → ℕ) (addr : ℕ) (bytes : List ℕ)
    → ((i : ℕ) → i < length bytes → f (addr + i) ≡ get_or bytes i 0)
    → cells_from f addr (length bytes) ≡ bytes
unfolding cells_from
cells_from_lem f addr [] h = refl
cells_from_lem f addr (b ∷ bs) h =
    let here : addr + 0 ≡ addr = omega arith in
    let head : f addr ≡ b = ap f (sym here) ∙ h 0 (omega arith) in
    let tail : cells_from f (addr + 1) (length bs) ≡ bs = cells_from_lem f (addr + 1) bs (λ i l.
      let next : addr + 1 + i ≡ addr + suc i = omega arith in
      ap f next ∙ h (suc i) (omega (arith, l))) in
    rw (head, tail) refl

next_slot_lem :
    (o : Odometer)
    → o.last_slot < slot_count
    → (¬ (next_slot o ≡ o.last_slot))
      × (region_addr ≤ slot_addr (next_slot o))
      × (slot_addr (next_slot o) + slot_size ≤ region_addr + region_size)
unfolding next_slot slot_addr
next_slot_lem o h = (λ e. omega arith, omega arith, omega arith)

next_hours-IsHours : (now : ℕ) (o : Odometer) → IsHours (next_hours now o)
unfolding next_hours current_uptime_minutes current_motor_minutes
next_hours-IsHours now o = (omega arith, omega arith, omega arith)

module _ {M : Type 0} (chip : Chip M) (sheet : IsChip chip) where
  -- On a chip that does what its data sheet says, that answers, and that is not write-protected, and from a
  -- last slot of the ring, a persist takes another slot than the last one, inside the region of the
  -- odometer. Afterwards that slot holds a valid record of the counters under the next sequence number, and
  -- no other cell of the array has changed, so the record before it is still there.
  pub eeprom_hours_persist_lem :
      (now : ℕ) (o : Odometer) (m : M)
      → o.last_slot < slot_count
      → chip.ready m ≡ true
      → chip.writable m ≡ true
      → let after = eeprom_hours_persist chip now o m in
        let addr = slot_addr after.0.last_slot in
        (¬ (after.0.last_slot ≡ o.last_slot))
        × (region_addr ≤ addr)
        × (addr + slot_size ≤ region_addr + region_size)
        × (eeprom_hours_deserialize (cells_from (chip.cell after.1) addr slot_size)
            ≡ some (record {
              seq = (o.last_seq + 1) % 4294967296;
              uptime_min = current_uptime_minutes now o;
              motor_min = current_motor_minutes o;
            }))
        × ((a : ℕ)
            → a < total_size
            → (leb addr a && ltb a (addr + slot_size)) ≡ false
            → chip.cell after.1 a ≡ chip.cell m a)
  unfolding eeprom_hours_persist next_hours
  eeprom_hours_persist_lem now o m h answers allowed = (
    place.0,
    place.1,
    place.2,
    ap eeprom_hours_deserialize (ap (cells_from (chip.cell m') addr) (sym back.0) ∙ held) ∙ back.1,
    λ a inside out. cell_at a inside ∙ ground (arith, out, back.0),
  )
    where
      hours : Hours
      hours = next_hours now o

      addr : ℕ
      addr = slot_addr (next_slot o)

      bytes : List ℕ
      bytes = eeprom_hours_serialize hours

      m' : M
      m' = eeprom_write chip m addr bytes

      place :
          (¬ (next_slot o ≡ o.last_slot))
          × (region_addr ≤ slot_addr (next_slot o))
          × (slot_addr (next_slot o) + slot_size ≤ region_addr + region_size)
      place = next_slot_lem o h

      back : (length bytes ≡ slot_size) × (eeprom_hours_deserialize bytes ≡ some hours)
      back = deserialize-serialize hours (next_hours-IsHours now o)

      cell_at :
          (a : ℕ)
          → a < total_size
          → chip.cell m' a ≡ (
              if leb addr a && ltb a (addr + length bytes)
              then get_or bytes (a - addr) 0
              else chip.cell m a)
      cell_at a inside =
          eeprom_write_lem chip sheet m addr bytes a answers allowed
            (omega (arith, place.2, back.0)) inside

      held : cells_from (chip.cell m') addr (length bytes) ≡ bytes
      held = cells_from_lem (chip.cell m') addr bytes (λ i l.
          let offset : addr + i - addr ≡ i = omega arith in
          cell_at (addr + i) (omega (arith, l, place.2, back.0)) ∙ ground (arith, l, offset))
