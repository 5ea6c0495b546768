-- ===== src/Messaging/Handlers.antt =====
-- The message handlers, firmware/src/messaging/processors, as they are built for hardware version 4.
pub mod Config
pub mod Motion
pub mod Kept
pub mod Orderly
pub mod Flags
use creature_controller.Common.{
  ℕ, zero, suc, ◌+◌, ◌%◌, Bool, true, false, not, ◌&&◌, ◌||◌, List, [], ◌∷◌, ◌++◌, Option, none,
  some, ltb, leb, ◌==◌, if◌then◌else◌,
}
use creature_controller.Dynamixel.Bus.{Hal, Bus}
use creature_controller.Dynamixel.Servo.Registers.{max_id, position_max}
use creature_controller.Controller.Motors.{
  request_servo_position, configure_servo_min_max, reset_servo_motor_map,
}
use creature_controller.Controller.Power.{disable_all_motors}
use creature_controller.Controller.Servos.{
  request_dynamixel_position, request_torque_all, reset_dynamixel_motor_map,
  configure_dynamixel_servo,
}
use creature_controller.Controller.Lifecycle.{
  Board, send_to_controller, firmware_configuration_received, first_frame_received,
}
use creature_controller.Messaging.Text.{string_to_u16, strtok, same_text}
use creature_controller.Messaging.Text.Numbers.{decimal}

-- What a handler returns, or that it passes NULL to `strcmp`.
pub data Handled : Type 0 where
  accepted refused fault : Handled

abbrev pub space : ℕ
space = 32

abbrev pub servo_type : List ℕ
servo_type = b'S' ∷ b'E' ∷ b'R' ∷ b'V' ∷ b'O' ∷ []

abbrev pub dynamixel_type : List ℕ
dynamixel_type = b'D' ∷ b'Y' ∷ b'N' ∷ b'A' ∷ b'M' ∷ b'I' ∷ b'X' ∷ b'E' ∷ b'L' ∷ []

-- The SERVO branch of `handleConfigMessage`, over the words behind the motor type.
pub configure_servo : Board → Option (List ℕ) → Option (List ℕ) → Option (List ℕ) → Handled × Board
configure_servo c (some output) (some min_us_str) (some max_us_str) =
    let min_us = string_to_u16 min_us_str in
    let max_us = string_to_u16 max_us_str in
    let (p, done) = configure_servo_min_max c.pwm output min_us max_us in
    if min_us == 0
    then (refused, c)
    else if max_us == 0
    then (refused, c)
    else if done
    then (accepted, record c { pwm = p })
    else (refused, record c { pwm = p })
configure_servo c _ _ _ = (refused, c)

module _ {S : Type 0} (hal : Hal S) where
  -- The DYNAMIXEL branch of `handleConfigMessage`.
  pub configure_dynamixel :
      Board
      → Bus S
      → Option (List ℕ)
      → Option (List ℕ)
      → Option (List ℕ)
      → Option (List ℕ)
      → Handled × Board × Bus S
  configure_dynamixel c b (some id_str) (some min_str) (some max_str) (some velocity_str) =
      let id = string_to_u16 id_str in
      let min_pos = string_to_u16 min_str in
      let max_pos = string_to_u16 max_str in
      let (done, d, b') =
        configure_dynamixel_servo hal c.dxl b id min_pos max_pos (string_to_u16 velocity_str) in
      if (id == 0) || ltb max_id id
      then (refused, c, b)
      else if ltb position_max min_pos
      then (refused, c, b)
      else if ltb position_max max_pos
      then (refused, c, b)
      else if ltb max_pos min_pos
      then (refused, c, b)
      else (if done then accepted else refused, record c { dxl = d }, b')
  configure_dynamixel c b _ _ _ _ = (refused, c, b)

  -- The body of the loop of `handleConfigMessage`, over the motor type and the words behind it.
  pub configure_motor : Board → Bus S → Option (List ℕ) → List ℕ → Handled × Board × Bus S
  configure_motor c b none rest = (fault, c, b)
  configure_motor c b (some motor_type) rest =
      let (w1, r1) = strtok space rest in
      let (w2, r2) = strtok space r1 in
      let (w3, r3) = strtok space r2 in
      let (w4, _) = strtok space r3 in
      let (h, c') = configure_servo c w1 w2 w3 in
      if same_text motor_type servo_type
      then (h, c', b)
      else if same_text motor_type dynamixel_type
      then configure_dynamixel c b w1 w2 w3 w4
      else (refused, c, b)

  -- The loop of `handleConfigMessage`, which ends with the first motor that is not accepted.
  pub proceed :
      Handled → Handled × Board × Bus S → Handled × Board × Bus S → Handled × Board × Bus S
  proceed accepted stay go = go
  proceed _ stay go = stay

  pub configure_motors : List (List ℕ) → Board → Bus S → Handled × Board × Bus S
  unfolding proceed
  configure_motors [] c b = (accepted, c, b)
  configure_motors (token ∷ tokens) c b =
      let (motor_type, rest) = strtok space token in
      let (h, c', b') = configure_motor c b motor_type rest in
      proceed h (h, c', b') (configure_motors tokens c' b')

  -- How `handleConfigMessage` ends: a refused message starts the init timer again.
  pub conclude : Handled → Board → Board
  conclude accepted c = firmware_configuration_received c
  conclude refused c = record c { flags = record c.flags { init_timer = true } }
  conclude fault c = c

  -- `handleConfigMessage`.
  pub handle_config_message : List (List ℕ) → Board → Bus S → Handled × Board × Bus S
  unfolding conclude
  handle_config_message tokens c b =
      let (d, b1) = reset_dynamixel_motor_map hal c.dxl b in
      let fresh : Board = record c {
        flags = record c.flags { init_timer = false };
        pwm = reset_servo_motor_map c.pwm;
        dxl = d;
      } in
      let (h, c', b') = configure_motors tokens fresh b1 in (h, conclude h c', b')

-- `handleEmergencyStopMessage` up to its endless loop.
unfoldable pub handle_emergency_stop_message : Board → Board
handle_emergency_stop_message c = record c {
  flags = record c.flags { estop = true };
  dxl = request_torque_all c.dxl false;
  pwm = (disable_all_motors c.pwm).0;
}

-- `handlePingMessage`, with the time since boot in milliseconds.
unfoldable pub handle_ping_message : ℕ → Board → Board
handle_ping_message now c = record c {
  outgoing = (send_to_controller c.outgoing (b'P' ∷ b'O' ∷ b'N' ∷ b'G' ∷ 9 ∷ decimal 10 now)).0;
}

module _ (desired_ticks : ℕ → ℕ → ℕ → ℕ) where
  -- The body of the loop of `handlePositionMessage`, over the two words of a token.
  pub request_motor : Board → Option (List ℕ) → Option (List ℕ) → Bool × Board
  request_motor c (some (m ∷ id)) (some value) =
      let dxl_id = string_to_u16 id in
      let pos = string_to_u16 value in
      let (d, dxl_done) = request_dynamixel_position c.dxl dxl_id pos in
      let (p, done) = request_servo_position desired_ticks c.pwm (m ∷ id) pos in
      if m == b'D'
      then (if (dxl_id == 0) || ltb max_id dxl_id
          then (false, c)
          else if ltb position_max pos
          then (false, c)
          else (dxl_done, record c { dxl = d }))
      else (done, record c { pwm = p })
  request_motor c _ _ = (false, c)

  -- The loop of `handlePositionMessage`.
  pub request_motors : List (List ℕ) → Board → Bool × Board
  request_motors [] c = (true, c)
  request_motors (token ∷ tokens) c =
      let (position, rest) = strtok space token in
      let (done, c') = request_motor c position (strtok space rest).0 in
      let more = request_motors tokens c' in if done then more else (false, c')

  -- `handlePositionMessage`, and whether the message counts as processed.
  pub handle_position_message : List (List ℕ) → Board → Bool × Board
  handle_position_message tokens c =
      let (done, c') = request_motors tokens c in
      if not c.flags.safe_to_run
      then (true, c)
      else if not done
      then (false, c')
      else if not c'.flags.first_frame
      then (true, first_frame_received c' true)
      else (true, c')
