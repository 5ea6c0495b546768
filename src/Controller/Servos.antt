-- ===== src/Controller/Servos.antt =====
-- The Dynamixel motors of firmware/src/controller/controller.c. The section that takes
-- `dxl_motors_mutex` without a time limit is one atomic step; `motor_power_rail_present` is read
-- wherever the code reads it.
pub mod Map
pub mod Traffic
pub mod Torque
pub mod Released
pub mod Restore
use creature_controller.Common.{
  ℕ, zero, suc, ◌+◌, ◌-◌, ◌*◌, ◌/◌, ◌%◌, Bool, true, false, not, ◌&&◌, ◌||◌, List, [], ◌∷◌, ◌++◌,
  map, ltb, leb, ◌==◌, if◌then◌else◌, length,
}
use creature_controller.Dynamixel.Packet.{DxlResult, dxl_ok}
use creature_controller.Dynamixel.Bus.{Hal, Bus}
use creature_controller.Dynamixel.Servo.{is_ok, dxl_read_register, dxl_write_register}
use creature_controller.Dynamixel.Servo.Registers.{
  max_id, reg_torque_enable, reg_led, reg_profile_velocity,
}

-- `DynamixelMotorEntry`.
pub record DxlMotor : Type 0 where
  pub dxl_id : ℕ
  pub min_position : ℕ
  pub max_position : ℕ
  pub requested_position : ℕ
  pub profile_velocity : ℕ
  pub is_configured : Bool
  pub velocity_confirmed : Bool

-- `dxl_torque_request_t`.
pub data TorqueRequest : Type 0 where
  none enable disable : TorqueRequest

-- The variables of the Dynamixel part: `dxl_motors[0 .. dxl_motor_count)`, whether `dxl_ctx` is set,
-- the requests of other tasks, and the tallies of the telemetry.
pub record Dxl : Type 0 where
  pub ready : Bool
  pub motors : List DxlMotor
  pub reinit_requested : Bool
  pub torque_request : TorqueRequest
  pub dsense_messages_sent : ℕ
  pub dsense_sends_dropped : ℕ
  pub dsense_reads_failed : ℕ

-- `MAX_DYNAMIXEL_SERVOS`, `DXL_MAX_PROFILE_VELOCITY`, `DXL_WRITE_MAX_ATTEMPTS` and
-- `DXL_WRITE_RETRY_DELAY_MS`.
abbrev pub max_dynamixel_servos : ℕ
max_dynamixel_servos = 16

abbrev pub max_profile_velocity : ℕ
max_profile_velocity = 267

abbrev pub write_max_attempts : ℕ
write_max_attempts = 3

abbrev pub write_retry_delay_ms : ℕ
write_retry_delay_ms = 20

-- The loop of `dynamixel_mark_velocity_confirmed`: the first motor of that id.
pub mark_confirmed : ℕ → Bool → List DxlMotor → List DxlMotor
mark_confirmed id confirmed [] = []
mark_confirmed id confirmed (m ∷ ms) =
    if m.dxl_id == id
    then record m { velocity_confirmed = confirmed } ∷ ms
    else m ∷ mark_confirmed id confirmed ms

-- `dynamixel_mark_velocity_confirmed`.
pub mark_velocity_confirmed : Dxl → ℕ → Bool → Dxl
unfolding mark_confirmed
mark_velocity_confirmed d id confirmed = record d { motors = mark_confirmed id confirmed d.motors }

-- Is the id in the map?
unfoldable pub has_id : ℕ → List DxlMotor → Bool
has_id id [] = false
has_id id (m ∷ ms) = (m.dxl_id == id) || has_id id ms

-- The loop of `requestDynamixelPosition`: false if the id is missing or the position is outside the
-- limits of that motor.
pub request_position : ℕ → ℕ → List DxlMotor → List DxlMotor × Bool
request_position id position [] = ([], false)
request_position id position (m ∷ ms) =
    let (ms', found) = request_position id position ms in
    if m.dxl_id == id
    then (if ltb position m.min_position || ltb m.max_position position
        then (m ∷ ms, false)
        else (record m { requested_position = position } ∷ ms, true))
    else (m ∷ ms', found)

-- `requestDynamixelPosition`.
pub request_dynamixel_position : Dxl → ℕ → ℕ → Dxl × Bool
unfolding request_position
request_dynamixel_position d id position =
    let (ms, granted) = request_position id position d.motors in (record d { motors = ms }, granted)

-- `dynamixel_request_torque_all`.
abbrev pub request_torque_all : Dxl → Bool → Dxl
request_torque_all d on = record d {
  torque_request = if on then TorqueRequest.enable else TorqueRequest.disable;
}

-- The entry that `configureDynamixelServo` adds; the sum has 32 bits.
abbrev pub new_motor : ℕ → ℕ → ℕ → ℕ → DxlMotor
new_motor id min_pos max_pos velocity = record {
  dxl_id = id;
  min_position = min_pos;
  max_position = max_pos;
  requested_position = (min_pos + max_pos) % 4294967296 / 2;
  profile_velocity = velocity;
  is_configured = true;
  velocity_confirmed = false;
}

-- The id and the flag of each motor, as the operations on all of them copy these.
abbrev pub snapshot : List DxlMotor → List (ℕ × Bool)
snapshot [] = []
snapshot (m ∷ ms) = (m.dxl_id, m.velocity_confirmed) ∷ snapshot ms

-- The id and the velocity of each motor.
abbrev pub velocities : List DxlMotor → List (ℕ × ℕ)
velocities [] = []
velocities (m ∷ ms) = (m.dxl_id, m.profile_velocity) ∷ velocities ms

abbrev pub unconfirm : DxlMotor → DxlMotor
unconfirm m = record m { velocity_confirmed = false }

module _ {S : Type 0} (hal : Hal S) where
  -- One attempt of `dynamixel_apply_register`: write, read back if that went well, compare.
  unfoldable pub attempt_register : Bus S → ℕ → ℕ → ℕ → ℕ → Bool × Bus S
  attempt_register b id address len value =
      let (wrote, b1) = dxl_write_register hal b id address len value in
      let (read, readback, b2) = dxl_read_register hal b1 id address len 0 in
      if is_ok wrote then (is_ok read && (readback == value), b2) else (false, b1)

  -- The delay after an attempt, unless it was the last one.
  pub pause : ℕ → Bus S → Bus S
  pause left b = if ltb 0 left then record b { env = hal.delay b.env write_retry_delay_ms } else b

  -- The loop of `dynamixel_apply_register` with so many attempts left.
  unfoldable pub apply_attempts : ℕ → Bus S → ℕ → ℕ → ℕ → ℕ → Bool × Bus S
  apply_attempts zero b id address len value = (false, b)
  apply_attempts (suc left) b id address len value =
      let (done, b') = attempt_register b id address len value in
      let again = apply_attempts left (pause left b') id address len value in
      if not (hal.rail_present b.env) then (false, b) else if done then (true, b') else again

  -- `dynamixel_apply_register`, and its three uses.
  pub apply_register : Bus S → ℕ → ℕ → ℕ → ℕ → Bool × Bus S
  apply_register b id address len value = apply_attempts write_max_attempts b id address len value

  pub apply_profile_velocity : Bus S → ℕ → ℕ → Bool × Bus S
  apply_profile_velocity b id velocity = apply_register b id reg_profile_velocity 4 velocity

  pub apply_torque : Bus S → ℕ → Bool → Bool × Bus S
  apply_torque b id on = apply_register b id reg_torque_enable 1 (if on then 1 else 0)

  pub apply_led : Bus S → ℕ → Bool → Bool × Bus S
  apply_led b id on = apply_register b id reg_led 1 (if on then 1 else 0)

  -- The loop of `dynamixel_set_torque_all`: a servo that is not confirmed is driven torque-off.
  pub torque_each : Bool → List (ℕ × Bool) → Bus S → Bus S
  torque_each on [] b = b
  torque_each on ((id, confirmed) ∷ rest) b =
      torque_each on rest (apply_torque b id (on && confirmed)).1

  -- `dynamixel_set_torque_all`, less the counts for the log.
  pub set_torque_all : Dxl → Bus S → Bool → Bus S
  set_torque_all d b on =
      if not d.ready || (length d.motors == 0)
      then b
      else if not (hal.rail_present b.env)
      then b
      else torque_each on (snapshot d.motors) b

  -- The loop of `resetDynamixelMotorMap` that turns the lights off.
  pub leds_off : List (ℕ × Bool) → Bus S → Bus S
  leds_off [] b = b
  leds_off ((id, _) ∷ rest) b = leds_off rest (apply_led b id false).1

  -- `resetDynamixelMotorMap`.
  pub reset_dynamixel_motor_map : Dxl → Bus S → Dxl × Bus S
  reset_dynamixel_motor_map d b =
      let b1 = set_torque_all d b false in
      let b2 = if hal.rail_present b1.env then leds_off (snapshot d.motors) b1 else b1 in
      (record d { torque_request = TorqueRequest.none; motors = [] }, b2)

  -- The part of `configureDynamixelServo` behind the lock: the settings are written and read back,
  -- unless the motors have no power.
  pub apply_settings : Dxl → Bus S → ℕ → ℕ → Dxl × Bus S
  apply_settings d b id velocity =
      let (confirmed, b1) = apply_profile_velocity b id velocity in
      let (_, b2) = apply_led b1 id confirmed in
      if hal.rail_present b.env
      then (mark_velocity_confirmed d id confirmed, b2)
      else (record (mark_velocity_confirmed d id false) { reinit_requested = true }, b)

  -- `configureDynamixelServo`.
  pub configure_dynamixel_servo : Dxl → Bus S → ℕ → ℕ → ℕ → ℕ → Bool × Dxl × Bus S
  configure_dynamixel_servo d b id min_pos max_pos profile_velocity =
      let velocity =
        if ltb max_profile_velocity profile_velocity
        then max_profile_velocity
        else profile_velocity in
      let d' = record d { motors = d.motors ++ (new_motor id min_pos max_pos velocity ∷ []) } in
      let (d'', b') = apply_settings d' b id velocity in
      if not d.ready
      then (false, d, b)
      else if (id == 0) || ltb max_id id
      then (false, d, b)
      else if leb max_dynamixel_servos (length d.motors)
      then (false, d, b)
      else if has_id id d.motors
      then (false, d, b)
      else (true, d'', b')

  -- The loop of `dynamixel_reinitialize_all`.
  pub reinitialize_each : List (ℕ × ℕ) → Dxl → Bus S → Dxl × Bus S
  reinitialize_each [] d b = (d, b)
  reinitialize_each ((id, velocity) ∷ rest) d b =
      let (confirmed, b1) = apply_profile_velocity b id velocity in
      let (_, b2) = apply_led b1 id confirmed in
      reinitialize_each rest (mark_velocity_confirmed d id confirmed) b2

  -- `dynamixel_reinitialize_all`, with the emergency stop and whether a first frame has come.
  pub reinitialize_all : Bool → Bool → Dxl → Bus S → Dxl × Bus S
  reinitialize_all estop first_frame d b =
      let fresh = record d { motors = map unconfirm d.motors } in
      let (d', b') = reinitialize_each (velocities d.motors) fresh b in
      if not d.ready || (length d.motors == 0)
      then (d, b)
      else if estop
      then (d', b')
      else if not first_frame
      then (d', b')
      else (d', set_torque_all d' b' true)
