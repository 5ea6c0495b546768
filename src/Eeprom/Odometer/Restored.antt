-- ===== src/Eeprom/Odometer/Restored.antt =====
-- The odometer over a restart: `eeprom_hours_init` behind `eeprom_hours_persist` of
-- firmware/src/device/eeprom.c.
use creature_controller.Common.{
  ℕ, ◌+◌, ◌-◌, [], ◌∷◌, ◌*◌, ◌%◌, ◌<◌, ◌≡◌, refl, ap, ◌∙◌, false, List, Option, none, some, arith,
  length, subst,
}
use creature_controller.Eeprom.Record.{
  Hours, slot_size, eeprom_hours_serialize, eeprom_hours_deserialize,
}
use creature_controller.Eeprom.Slots.{
  Best, Newest, slot_count, slots_in, read_slot, eeprom_hours_select_slot,
  eeprom_hours_select_slot_lem,
}
use creature_controller.Eeprom.Memory.{
  Chip, IsChip, cells_from, eeprom_write-protected, eeprom_write-pin,
}
use creature_controller.Eeprom.Memory.Cells.{
  length-cells_from, cells_from-cong, part_lem, eeprom_read_lem,
}
use creature_controller.Eeprom.Odometer.{
  Odometer, region_addr, region_size, slot_addr, next_hours, next_slot, restore, eeprom_hours_init,
  eeprom_hours_persist,
}

-- The record that a slot of the ring holds.
unfoldable pub record_at : (ℕ → ℕ) → ℕ → Option Hours
record_at f i = eeprom_hours_deserialize (cells_from f (slot_addr i) slot_size)

-- The slots of the region are what is read of the memory.
read_slot-cells_from :
    (f : ℕ → ℕ) (i : ℕ)
    → i < slot_count
    → read_slot (cells_from f region_addr region_size) i ≡ record_at f i
unfolding read_slot record_at slot_addr
read_slot-cells_from f i h =
    let place : region_addr + i * slot_size ≡ (region_addr + i * slot_size) % 65536 =
      omega (arith, h) in
    ap eeprom_hours_deserialize (
      part_lem f region_addr (i * slot_size) slot_size region_size (omega (arith, h))
      ∙ ap (λ x. cells_from f x slot_size) place)

sixteen : (f : ℕ → ℕ) → slots_in (length (cells_from f region_addr region_size)) ≡ slot_count
unfolding slots_in
sixteen f = ap slots_in (length-cells_from f region_addr region_size)

-- Of a ring without a valid record, no slot is chosen.
select-blank :
    (f : ℕ → ℕ)
    → ((i : ℕ) → i < slot_count → record_at f i ≡ none)
    → eeprom_hours_select_slot (cells_from f region_addr region_size) ≡ none
select-blank f blank = no_record (eeprom_hours_select_slot region) (
    subst (λ k. Newest region k (eeprom_hours_select_slot region)) (sixteen f)
      (eeprom_hours_select_slot_lem region))
  where
    region : List ℕ
    region = cells_from f region_addr region_size

    no_record : (best : Option Best) → Newest region slot_count best → best ≡ none
    no_record none n = refl
    no_record (some b) n = absurd (
        let found = n.1 in
        let same = read_slot-cells_from f b.slot n.0 in let empty = blank b.slot n.0 in cc)

module _ {M : Type 0} (chip : Chip M) where
  -- Persists one after another, each at its time and with its variables.
  unfoldable pub persist_all : List (ℕ × Odometer) → M → M
  persist_all [] m = m
  persist_all ((now, o) ∷ more) m = persist_all more (eeprom_hours_persist chip now o m).1

module _ {M : Type 0} (chip : Chip M) (sheet : IsChip chip) where
  persist_protected :
      (now : ℕ) (o : Odometer) (m : M) (a : ℕ)
      → chip.writable m ≡ false
      → (chip.cell (eeprom_hours_persist chip now o m).1 a ≡ chip.cell m a)
        × (chip.writable (eeprom_hours_persist chip now o m).1 ≡ chip.writable m)
  unfolding eeprom_hours_persist
  persist_protected now o m a closed =
      let bytes = eeprom_hours_serialize (next_hours now o) in
      (
        eeprom_write-protected chip sheet m (slot_addr (next_slot o)) bytes a closed,
        eeprom_write-pin chip sheet m (slot_addr (next_slot o)) bytes,
      )

  persist_all_keeps :
      (persists : List (ℕ × Odometer)) (m : M) (a : ℕ)
      → chip.writable m ≡ false
      → chip.cell (persist_all chip persists m) a ≡ chip.cell m a
  unfolding persist_all
  persist_all_keeps [] m a closed = refl
  persist_all_keeps ((now, o) ∷ more) m a closed =
      let one = persist_protected now o m a closed in
      persist_all_keeps more (eeprom_hours_persist chip now o m).1 a (one.1 ∙ closed) ∙ one.0

  -- A restart reads the same cells.
  init-power :
      (m : M) (o : Odometer)
      → (eeprom_hours_init chip (chip.power_up m) o).0
        ≡ restore (eeprom_hours_select_slot (cells_from (chip.cell m) region_addr region_size)) o
  unfolding eeprom_hours_init
  init-power m o =
      ap (λ x. restore (eeprom_hours_select_slot x) o)
        (eeprom_read_lem chip sheet (chip.power_up m) region_addr region_size (omega arith)
            (sheet.power_ready m)
          ∙ cells_from-cong (chip.cell (chip.power_up m)) (chip.cell m) region_addr region_size
              (λ i l. sheet.power_keeps m (region_addr + i)))

  -- On a write-protected chip, as on the boards where the pin is tied high, whose ring holds no valid
  -- record: however many persists there have been, and whatever the counters were, a restart begins with
  -- both counters at zero, at sequence number 0 and the last slot.
  init-protected :
      (persists : List (ℕ × Odometer)) (fresh : Odometer) (m : M)
      → chip.writable m ≡ false
      → ((i : ℕ) → i < slot_count → record_at (chip.cell m) i ≡ none)
      → (eeprom_hours_init chip (chip.power_up (persist_all chip persists m)) fresh).0
        ≡ record fresh {
          baseline_uptime_min = 0;
          baseline_motor_min = 0;
          last_seq = 0;
          last_slot = slot_count - 1;
          motor_on_accum_us = 0;
          motor_sample_primed = false;
        }
  unfolding restore
  init-protected persists fresh m closed blank =
      init-power (persist_all chip persists m) fresh
      ∙ ap (λ x. restore (eeprom_hours_select_slot x) fresh)
          (cells_from-cong (chip.cell (persist_all chip persists m)) (chip.cell m) region_addr
            region_size (λ i l. persist_all_keeps persists m (region_addr + i) closed))
      ∙ ap (λ b. restore b fresh) (select-blank (chip.cell m) blank)
