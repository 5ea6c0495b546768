-- ===== src/Dynamixel/Sync.antt =====
-- Sync Write, Sync Read and the status of one servo, from firmware/src/dynamixel/dynamixel_servo.c.
pub mod Matching
use creature_controller.Common.{
  ℕ, zero, suc, ◌+◌, ◌-◌, ◌*◌, ◌/◌, ◌%◌, Bool, true, false, not, ◌&&◌, ◌||◌, List, [], ◌∷◌, ◌++◌,
  map, ltb, leb, ◌==◌, if◌then◌else◌, length, get_or,
}
use creature_controller.Dynamixel.Packet.{DxlResult, dxl_ok, invalid_packet, tx_fail, Packet}
use creature_controller.Dynamixel.Bus.{Hal, Bus}
use creature_controller.Dynamixel.Servo.{
  is_ok, value_bytes, request, ServoStatus, dxl_read_register,
}
use creature_controller.Dynamixel.Servo.Registers.{
  inst_sync_read, inst_sync_write, broadcast_id, reg_goal_position, reg_present_position,
  reg_present_temperature, reg_present_input_volt, reg_present_load, reg_moving, reg_hardware_error,
  max_sync_servos,
}

-- `dxl_sync_position_t`.
pub record SyncPosition : Type 0 where
  pub id : ℕ
  pub position : ℕ

-- `dxl_sync_status_result_t`.
pub record SyncResult : Type 0 where
  pub id : ℕ
  pub status : ServoStatus
  pub valid : Bool
  pub servo_error : ℕ

abbrev pub no_status : ServoStatus
no_status = record {
  present_position = 0;
  present_temperature = 0;
  present_voltage = 0;
  present_load = 0;
  moving = 0;
  hardware_error = 0;
}

-- The id and the four position bytes of each entry.
pub position_params : List SyncPosition → List ℕ
position_params [] = []
position_params (e ∷ es) = e.id ∷ (value_bytes 4 e.position ++ position_params es)

abbrev pub sync_write_packet : List SyncPosition → Packet
sync_write_packet entries =
    request broadcast_id inst_sync_write
      (value_bytes 2 reg_goal_position ++ value_bytes 2 4 ++ position_params entries)

-- `SYNC_READ_START_ADDR` and `SYNC_READ_DATA_LENGTH`.
abbrev pub sync_read_start_addr : ℕ
sync_read_start_addr = 126

abbrev pub sync_read_data_length : ℕ
sync_read_data_length = 21

abbrev pub sync_read_packet : List ℕ → Packet
sync_read_packet ids =
    request broadcast_id inst_sync_read
      (value_bytes 2 sync_read_start_addr ++ value_bytes 2 sync_read_data_length ++ ids)

-- The result of a servo before any answer.
abbrev pub no_answer : ℕ → SyncResult
no_answer id = record { id = id; status = no_status; valid = false; servo_error = 0 }

-- The block of registers from 126 on.
abbrev pub block_status : List ℕ → ServoStatus
block_status d = record {
  present_load = get_or d 0 0 + get_or d 1 0 * 256;
  present_position =
      get_or d 6 0 + get_or d 7 0 * 256 + get_or d 8 0 * 65536 + get_or d 9 0 * 16777216;
  present_voltage = get_or d 18 0 + get_or d 19 0 * 256;
  present_temperature = get_or d 20 0;
  moving = 0;
  hardware_error = 0;
}

-- An answer is stored in the first result of that id that is not valid yet.
pub store_answer : Packet → List SyncResult → List SyncResult
store_answer rx [] = []
store_answer rx (r ∷ rs) =
    if (r.id == rx.id) && not r.valid
    then (if leb sync_read_data_length (length rx.params)
        then record r { servo_error = rx.error; status = block_status rx.params; valid = true }
        else record r { servo_error = rx.error })
      ∷ rs
    else r ∷ store_answer rx rs

pub store_answers : List Packet → List SyncResult → List SyncResult
store_answers [] rs = rs
store_answers (rx ∷ rxs) rs = store_answers rxs (store_answer rx rs)

unfoldable pub count_valid : List SyncResult → ℕ
count_valid [] = 0
count_valid (r ∷ rs) = (if r.valid then 1 else 0) + count_valid rs

-- The timeout for `n` answers at a baud rate, in 32 bits.
pub sync_read_timeout : ℕ → ℕ → ℕ
sync_read_timeout n baud =
    let byte_time_us = 10000000 / baud in
    let expected_us =
      (n * ((sync_read_data_length + 11) * byte_time_us + 500) + 15 * byte_time_us + 1000)
      % 4294967296 in
    expected_us / 500 + 5

module _ {S : Type 0} (hal : Hal S) where
  -- `dxl_sync_write_position`.
  unfoldable pub dxl_sync_write_position : Bus S → List SyncPosition → DxlResult × Bus S
  dxl_sync_write_position b entries =
      let (locked, env) = hal.bus_lock b.env in
      let (res, env') = hal.tx env (sync_write_packet entries) in
      if (length entries == 0) || ltb max_sync_servos (length entries)
      then (invalid_packet, b)
      else if not locked
      then (tx_fail, record b { env = env })
      else (res, record { env = hal.bus_unlock env'; sent = sync_write_packet entries ∷ b.sent })

  -- `dxl_sync_read_status`: the result, the results by id, and how many of them are valid. `old` is
  -- what the array of results holds before.
  unfoldable pub dxl_sync_read_status :
      Bus S → List ℕ → List SyncResult → DxlResult × List SyncResult × ℕ × Bus S
  dxl_sync_read_status b ids old =
      let n = length ids in
      let (locked, env) = hal.bus_lock b.env in
      let (res, rxs, env') =
        hal.txrx_multi env (sync_read_packet ids) sync_read_data_length n
          (sync_read_timeout n (hal.baud_rate env)) in
      let b' : Bus S = record { env = hal.bus_unlock env'; sent = sync_read_packet ids ∷ b.sent } in
      let results = store_answers rxs (map no_answer ids) in
      if (n == 0) || ltb max_sync_servos n
      then (invalid_packet, old, 0, b)
      else if not locked
      then (tx_fail, map no_answer ids, 0, record b { env = env })
      else if is_ok res
      then (dxl_ok, results, count_valid results, b')
      else (res, map no_answer ids, 0, b')

  -- One step of `dxl_read_status`: a register is read, unless a read before has failed.
  abbrev read_field :
      DxlResult × ServoStatus × Bus S
      → ℕ
      → ℕ
      → ℕ
      → (ServoStatus → ℕ → ServoStatus)
      → DxlResult × ServoStatus × Bus S
  read_field (dxl_ok, st, b) id address len store =
      let (res, val, b') = dxl_read_register hal b id address len 0 in
      (res, if is_ok res then store st val else st, b')
  read_field (res, st, b) id address len store = (res, st, b)

  -- `dxl_read_status`.
  pub dxl_read_status : Bus S → ℕ → DxlResult × ServoStatus × Bus S
  dxl_read_status b id =
      let s1 =
        read_field (dxl_ok, no_status, b) id reg_present_position 4
          (λ st v. record st { present_position = v }) in
      let s2 =
        read_field s1 id reg_present_temperature 1
          (λ st v. record st { present_temperature = v }) in
      let s3 =
        read_field s2 id reg_present_input_volt 2 (λ st v. record st { present_voltage = v }) in
      let s4 = read_field s3 id reg_present_load 2 (λ st v. record st { present_load = v }) in
      let s5 = read_field s4 id reg_moving 1 (λ st v. record st { moving = v }) in
      read_field s5 id reg_hardware_error 1 (λ st v. record st { hardware_error = v })
