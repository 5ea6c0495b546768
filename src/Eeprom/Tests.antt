-- ===== src/Eeprom/Tests.antt =====
-- Tests of the EEPROM: a chip that is a function from addresses to cells, and the theorems at it.
use creature_controller.Common.{
  false, Bool, ◌<◌, ℕ, ◌+◌, ◌-◌, ◌%◌, ◌≤◌, ◌≡◌, refl, ◌&&◌, true, false, List, [], ◌∷◌, ◌++◌, some,
  arith, ltb, leb, if◌then◌else◌, length, get_or, replicate,
}
use creature_controller.Eeprom.Record.{
  Hours, slot_size, eeprom_hours_serialize, eeprom_hours_deserialize, hours_body, put_u16, put_u32,
  get_u16, get_u32, eeprom_hours_crc16, crc_bytes, crc_bits, crc_bit,
}
use creature_controller.Eeprom.Slots.{
  Newest, slots_in, select_from, consider, read_slot, is_newer, eeprom_hours_select_slot,
  eeprom_hours_select_slot_lem,
}
use creature_controller.Eeprom.Memory.{
  Chip, IsChip, total_size, cells_from, written, eeprom_write, eeprom_write_lem,
}
use creature_controller.Eeprom.Odometer.{
  Odometer, region_addr, region_size, slot_addr, current_uptime_minutes, current_motor_minutes,
  eeprom_hours_persist, eeprom_hours_persist_lem,
}
use creature_controller.Eeprom.Config.{UsbConfig, image, parse_eeprom_data, parse_eeprom_data-image}

-- A chip that does not answer after a write until it is waited for or restarted, with its protect pin.
record Array : Type 0 where
  cells : ℕ → ℕ
  answers : Bool
  allowed : Bool

abbrev written_cells : (ℕ → ℕ) → ℕ → List ℕ → ℕ → ℕ
written_cells cells addr bytes a =
    if leb addr a && ltb a (addr + length bytes) then get_or bytes (a - addr) 0 else cells a

abbrev array : Chip Array
array = record {
  read = λ m addr n. (if m.answers then cells_from m.cells addr n else [], m);
  write = λ m addr bytes. record m {
    cells = if m.answers && m.allowed then written_cells m.cells addr bytes else m.cells;
    answers = false;
  };
  wait_cycle = λ m. record m { answers = true };
  power_up = λ m. record m { answers = true };
  cell = λ m. m.cells;
  ready = λ m. m.answers;
  writable = λ m. m.allowed;
}

array-IsChip : IsChip array
array-IsChip = record {
  reads = λ m addr n r h. rw r refl;
  read_keeps = λ m addr n a. refl;
  read_ready = λ m addr n. refl;
  writes = λ m addr bytes a r w p h i. rw (r, w) refl;
  protects = λ m addr bytes a c. closed m.answers m.allowed m.cells addr bytes a c;
  write_pin = λ m addr bytes. refl;
  wait_keeps = λ m a. refl;
  wait_ready = λ m. refl;
  wait_pin = λ m. refl;
  power_keeps = λ m a. refl;
  power_ready = λ m. refl;
}
  where
    closed :
        (answers allowed : Bool) (cells : ℕ → ℕ) (addr : ℕ) (bytes : List ℕ) (a : ℕ)
        → allowed ≡ false
        → (if answers && allowed then written_cells cells addr bytes else cells) a ≡ cells a
    closed true true cells addr bytes a c = absurd (cc)
    closed true false cells addr bytes a c = refl
    closed false allowed cells addr bytes a c = refl

-- Erased, and open to writes, or closed.
abbrev erased : Array
erased = record { cells = λ a. 255; answers = true; allowed = true }

abbrev some_hours : Hours
some_hours = record { seq = 7; uptime_min = 70000; motor_min = 300 }

-- A region with an erased slot, an old record and a new one.
abbrev region : List ℕ
region =
    replicate 16 255
    ++ (eeprom_hours_serialize (record { seq = 3; uptime_min = 45; motor_min = 0 })
        ++ eeprom_hours_serialize some_hours)

region_best : eeprom_hours_select_slot region ≡ some (record { slot = 2; hours = some_hours })
unfolding eeprom_hours_select_slot select_from slots_in eeprom_hours_serialize hours_body put_u16
    put_u32 consider read_slot eeprom_hours_deserialize get_u16 eeprom_hours_crc16 crc_bytes
    crc_bits crc_bit is_newer get_u32
region_best = refl

eeprom_hours_select_slot_lem_example :
    Newest region (slots_in (length region)) (eeprom_hours_select_slot region)
eeprom_hours_select_slot_lem_example = eeprom_hours_select_slot_lem region

-- Four bytes over the end of a page.
abbrev four : List ℕ
four = 1 ∷ 2 ∷ 3 ∷ 4 ∷ []

eeprom_write_lem_example :
    array.cell (eeprom_write array erased 62 four) 65
    ≡ written array array-IsChip (array.cell erased) 62 four 65
eeprom_write_lem_example =
    eeprom_write_lem array array-IsChip erased 62 four 65 refl refl (omega arith) (omega arith)

-- An odometer at the end of the ring.
abbrev running : Odometer
running = record {
  baseline_uptime_min = 500;
  baseline_motor_min = 20;
  last_seq = 31;
  last_slot = 15;
  motor_on_accum_us = 120000000;
  last_motor_sample = 0;
  motor_sample_primed = true;
}

eeprom_hours_persist_lem_example :
    let after = eeprom_hours_persist array 900000000 running erased in
    let addr = slot_addr after.0.last_slot in
    (¬ (after.0.last_slot ≡ running.last_slot))
    × (region_addr ≤ addr)
    × (addr + slot_size ≤ region_addr + region_size)
    × (eeprom_hours_deserialize (cells_from (array.cell after.1) addr slot_size)
        ≡ some (record {
          seq = (running.last_seq + 1) % 4294967296;
          uptime_min = current_uptime_minutes 900000000 running;
          motor_min = current_motor_minutes running;
        }))
    × ((a : ℕ)
        → a < total_size
        → (leb addr a && ltb a (addr + slot_size)) ≡ false
        → array.cell after.1 a ≡ array.cell erased a)
eeprom_hours_persist_lem_example =
    eeprom_hours_persist_lem array array-IsChip 900000000 running erased (omega arith) refl refl

-- A configuration.
abbrev bunny : UsbConfig
bunny = record {
  usb_vid = 0x1209;
  usb_pid = 0x0001;
  usb_serial = 65 ∷ 66 ∷ [];
  usb_product = 72 ∷ 111 ∷ 112 ∷ [];
  usb_manufacturer = [];
  configured_logging_level = 3;
}

abbrev unset : UsbConfig
unset = record {
  usb_vid = 0;
  usb_pid = 0;
  usb_serial = [];
  usb_product = [];
  usb_manufacturer = [];
  configured_logging_level = 0;
}

parse_eeprom_data-image_example :
    parse_eeprom_data (image bunny 0x0300 (255 ∷ 255 ∷ [])) unset ≡ (true, bunny)
parse_eeprom_data-image_example =
    parse_eeprom_data-image bunny unset 0x0300 (255 ∷ 255 ∷ [])
      (omega arith, omega arith, omega arith)
      (
        omega arith,
        (
          omega arith,
          (
            omega arith,
            (
              omega arith,
              (
                omega arith,
                (
                  omega arith,
                  (
                    omega arith,
                    (
                      omega arith,
                      (
                        omega arith,
                        (
                          omega arith,
                          (
                            omega arith,
                            (
                              omega arith,
                              (
                                omega arith,
                                (
                                  omega arith,
                                  (
                                    omega arith,
                                    (
                                      omega arith,
                                      (
                                        omega arith,
                                        (
                                          omega arith,
                                          (omega arith, (omega arith, (omega arith, tt))),
                                        ),
                                      ),
                                    ),
                                  ),
                                ),
                              ),
                            ),
                          ),
                        ),
                      ),
                    ),
                  ),
                ),
              ),
            ),
          ),
        ),
      )
