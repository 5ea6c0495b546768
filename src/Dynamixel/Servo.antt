-- ===== src/Dynamixel/Servo.antt =====
-- The servo operations of firmware/src/dynamixel/dynamixel_servo.c, over the bus driver.
pub mod Registers
pub mod Encoding
use creature_controller.Common.{
  ◌≡◌, refl, arith, ℕ, zero, suc, ◌+◌, ◌-◌, ◌*◌, ◌/◌, ◌%◌, min, Bool, true, false, not, ◌&&◌, ◌||◌,
  List, [], ◌∷◌, ◌++◌, map, ltb, leb, ◌==◌, if◌then◌else◌, length, get_or, take,
}
use creature_controller.Dynamixel.Packet.{
  DxlResult, dxl_ok, timeout, invalid_packet, crc_mismatch, servo_error, tx_fail, buffer_overflow,
  torque_enabled, Packet,
}
use creature_controller.Dynamixel.Bus.{Hal, Bus}
use Registers.{
  inst_ping, inst_read, inst_write, inst_factory_reset, inst_reboot, inst_sync_write, broadcast_id,
  reg_id, reg_baud_rate, reg_torque_enable, reg_led, reg_profile_velocity, reg_goal_position,
  reg_present_position, reg_present_temperature, reg_present_input_volt, reg_present_load,
  reg_moving, reg_hardware_error, default_timeout_ms, scan_timeout_ms, max_sync_servos,
}

-- `DXL_OK`, as a test.
abbrev pub is_ok : DxlResult → Bool
is_ok dxl_ok = true
is_ok _ = false

-- The bytes of a value, the low one first: `(value >> (8 * i)) & 0xFF` for i below the length.
unfoldable pub value_bytes : ℕ → ℕ → List ℕ
value_bytes zero value = []
value_bytes (suc n) value = (value % 256) ∷ value_bytes n (value / 256)

-- The loop of `dxl_read_register`, which ors each byte into its place of the 32-bit value, for the 1, 2 or
-- 4 bytes that a register has.
unfoldable pub bytes_value : List ℕ → ℕ
bytes_value [] = 0
bytes_value (b ∷ bytes) = b + 256 * bytes_value bytes

abbrev pub request : ℕ → ℕ → List ℕ → Packet
request id instruction params = record {
  id = id;
  instruction = instruction;
  error = 0;
  params = params;
}

-- The packet of `dxl_read_register`: address and length, in two bytes each.
abbrev pub read_packet : ℕ → ℕ → ℕ → Packet
read_packet id address len = request id inst_read (value_bytes 2 address ++ value_bytes 2 len)

-- The packet of `dxl_write_register`: the address in two bytes, and the value in `len`.
abbrev pub write_packet : ℕ → ℕ → ℕ → ℕ → Packet
write_packet id address len value =
    request id inst_write (value_bytes 2 address ++ value_bytes len value)

-- `baud_rate_table`, and `dxl_baud_index_to_rate`.
baud_rate_table : List ℕ
baud_rate_table = 9600 ∷ 57600 ∷ 115200 ∷ 1000000 ∷ 2000000 ∷ 3000000 ∷ 4000000 ∷ 4500000 ∷ []

unfoldable pub dxl_baud_index_to_rate : ℕ → ℕ
unfolding baud_rate_table
dxl_baud_index_to_rate index = if leb 8 index then 0 else get_or baud_rate_table index 0

-- `dxl_ping_result_t`.
pub record PingResult : Type 0 where
  pub model_number : ℕ
  pub firmware_version : ℕ

abbrev ping_result : Packet → PingResult
ping_result rx = record {
  model_number = get_or rx.params 0 0 + get_or rx.params 1 0 * 256;
  firmware_version = get_or rx.params 2 0;
}

-- `dxl_servo_status_t`, with each field as the bits that were read.
pub record ServoStatus : Type 0 where
  pub present_position : ℕ
  pub present_temperature : ℕ
  pub present_voltage : ℕ
  pub present_load : ℕ
  pub moving : ℕ
  pub hardware_error : ℕ

module _ {S : Type 0} (hal : Hal S) where
  -- A transaction: the packet goes onto the bus, and an answer comes back.
  unfoldable pub transact : Bus S → Packet → ℕ → DxlResult × Packet × Bus S
  transact b p ms =
      let (res, rx, env) = hal.txrx b.env p ms in (res, rx, record { env = env; sent = p ∷ b.sent })

  -- `dxl_ping`; `old` is what `*result` holds before.
  pub dxl_ping : Bus S → ℕ → PingResult → DxlResult × PingResult × Bus S
  dxl_ping b id old =
      let (res, rx, b') = transact b (request id inst_ping []) default_timeout_ms in
      if is_ok res
      then (dxl_ok, if leb 3 (length rx.params) then ping_result rx else old, b')
      else (res, old, b')

  -- `dxl_scan` over `n` ids from `id` on: what the callback is called with, in order.
  pub dxl_scan : ℕ → Bus S → ℕ → List (ℕ × PingResult) × Bus S
  dxl_scan zero b id = ([], b)
  dxl_scan (suc n) b id =
      let (res, rx, b') = transact b (request id inst_ping []) scan_timeout_ms in
      let (found, b'') = dxl_scan n b' (id + 1) in
      (if is_ok res && leb 3 (length rx.params) then (id, ping_result rx) ∷ found else found, b'')

  -- `dxl_read_register`, for up to four bytes; `old` is what `*value` holds before.
  unfoldable pub dxl_read_register : Bus S → ℕ → ℕ → ℕ → ℕ → DxlResult × ℕ × Bus S
  dxl_read_register b id address len old =
      let (res, rx, b') = transact b (read_packet id address len) default_timeout_ms in
      if is_ok res then (dxl_ok, bytes_value (take len rx.params), b') else (res, old, b')

  -- `dxl_write_register`.
  unfoldable pub dxl_write_register : Bus S → ℕ → ℕ → ℕ → ℕ → DxlResult × Bus S
  dxl_write_register b id address len value =
      let (res, _, b') = transact b (write_packet id address len value) default_timeout_ms in
      (res, b')

  -- `check_torque_off`.
  pub check_torque_off : Bus S → ℕ → DxlResult × Bus S
  check_torque_off b id =
      let (res, torque, b') = dxl_read_register b id reg_torque_enable 1 0 in
      if id == broadcast_id
      then (dxl_ok, b)
      else (if is_ok res then (if torque == 0 then dxl_ok else torque_enabled) else res, b')

  -- `dxl_set_id` and `dxl_set_baud_rate`: a write to EEPROM, behind the check.
  unfoldable pub write_eeprom : Bus S → ℕ → ℕ → ℕ → DxlResult × Bus S
  write_eeprom b id address value =
      let (res, b') = check_torque_off b id in
      if is_ok res then dxl_write_register b' id address 1 value else (res, b')

  pub dxl_set_id : Bus S → ℕ → ℕ → DxlResult × Bus S
  dxl_set_id b current_id new_id = write_eeprom b current_id reg_id new_id

  pub dxl_set_baud_rate : Bus S → ℕ → ℕ → DxlResult × Bus S
  dxl_set_baud_rate b id baud_index = write_eeprom b id reg_baud_rate baud_index

  -- `dxl_factory_reset` and `dxl_reboot`.
  pub dxl_factory_reset : Bus S → ℕ → ℕ → DxlResult × Bus S
  dxl_factory_reset b id option =
      let (res, _, b') =
        transact b (request id inst_factory_reset (option ∷ [])) default_timeout_ms in
      (res, b')

  pub dxl_reboot : Bus S → ℕ → DxlResult × Bus S
  dxl_reboot b id =
      let (res, _, b') = transact b (request id inst_reboot []) default_timeout_ms in (res, b')

  -- `dxl_set_torque`, `dxl_set_position`, `dxl_set_led` and `dxl_set_profile_velocity`.
  pub dxl_set_torque : Bus S → ℕ → Bool → DxlResult × Bus S
  dxl_set_torque b id enable = dxl_write_register b id reg_torque_enable 1 (if enable then 1 else 0)

  pub dxl_set_position : Bus S → ℕ → ℕ → DxlResult × Bus S
  dxl_set_position b id position = dxl_write_register b id reg_goal_position 4 position

  pub dxl_set_led : Bus S → ℕ → Bool → DxlResult × Bus S
  dxl_set_led b id on = dxl_write_register b id reg_led 1 (if on then 1 else 0)

  pub dxl_set_profile_velocity : Bus S → ℕ → ℕ → DxlResult × Bus S
  dxl_set_profile_velocity b id velocity = dxl_write_register b id reg_profile_velocity 4 velocity

  -- What the two register operations put onto the bus.
  pub dxl_read_register-sent :
      (b : Bus S) (id address len old : ℕ)
      → (dxl_read_register b id address len old).2.sent ≡ read_packet id address len ∷ b.sent
  unfolding dxl_read_register transact
  dxl_read_register-sent b id address len old = ground arith

  pub dxl_write_register-sent :
      (b : Bus S) (id address len value : ℕ)
      → (dxl_write_register b id address len value).1.sent
        ≡ write_packet id address len value ∷ b.sent
  unfolding dxl_write_register transact
  dxl_write_register-sent b id address len value = refl
