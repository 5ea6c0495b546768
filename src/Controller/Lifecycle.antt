-- ===== src/Controller/Lifecycle.antt =====
-- The life of the controller, from firmware/src/controller/controller.c: its state machine, the
-- flags that gate motion, and the watch on the motors' power rail.
pub mod Rail
pub mod Queue
use creature_controller.Common.{
  ℕ, ◌+◌, ◌-◌, Bool, true, false, not, List, [], ◌∷◌, ◌++◌, ltb, leb, if◌then◌else◌, length,
}
use creature_controller.Controller.Motors.{Pwm}
use creature_controller.Controller.Power.{enable_all_motors, disable_all_motors}
use creature_controller.Controller.Servos.{Dxl, request_torque_all}

-- `FirmwareState`.
pub data FirmwareState : Type 0 where
  idle configuring running errored_out : FirmwareState

-- `controller_safe_to_run`, `controller_firmware_state`, `has_first_frame_been_received`,
-- `emergency_stop_active`, and whether `controller_init_request_timer` runs.
pub record Flags : Type 0 where
  pub safe_to_run : Bool
  pub state : FirmwareState
  pub first_frame : Bool
  pub estop : Bool
  pub init_timer : Bool

-- The queue `outgoing_messages` in the order of sending, and `outgoing_messages_dropped`.
pub record Outgoing : Type 0 where
  pub queue : List (List ℕ)
  pub dropped : ℕ

-- `OUTGOING_MESSAGE_MAX_LENGTH` and `OUTGOING_MESSAGE_QUEUE_LENGTH`.
abbrev pub outgoing_message_max_length : ℕ
outgoing_message_max_length = 384

abbrev pub outgoing_message_queue_length : ℕ
outgoing_message_queue_length = 15

-- `send_to_controller` of firmware/src/io/message_processor.c, with the queue created.
unfoldable pub send_to_controller : Outgoing → List ℕ → Outgoing × Bool
send_to_controller o message =
    if ltb (outgoing_message_max_length - 2) (length message)
    then (o, false)
    else if leb outgoing_message_queue_length (length o.queue)
    then (record o { dropped = o.dropped + 1 }, false)
    else (record o { queue = o.queue ++ (message ∷ []) }, true)

-- What the message handlers and the timers work on.
pub record Board : Type 0 where
  pub flags : Flags
  pub pwm : Pwm
  pub dxl : Dxl
  pub outgoing : Outgoing

-- `controller_connected`: what stands at its end, behind writes one after the other without a lock.
unfoldable pub controller_connected : Flags → Flags
controller_connected f = record f {
  safe_to_run = false;
  state = FirmwareState.configuring;
  init_timer = true;
}

-- `controller_disconnected`.
unfoldable pub controller_disconnected : Board → Board
controller_disconnected c = record c {
  dxl = request_torque_all c.dxl false;
  flags = record c.flags {
    safe_to_run = false;
    state = FirmwareState.idle;
    first_frame = false;
    init_timer = false;
  };
}

-- The text "READY\t1".
abbrev pub ready_message : List ℕ
ready_message = b'R' ∷ b'E' ∷ b'A' ∷ b'D' ∷ b'Y' ∷ 9 ∷ b'1' ∷ []

-- The text "INIT\t4": the hardware version of a board with Dynamixel servos.
abbrev pub init_message : List ℕ
init_message = b'I' ∷ b'N' ∷ b'I' ∷ b'T' ∷ 9 ∷ b'4' ∷ []

-- `send_init_request`.
unfoldable pub send_init_request : Outgoing → Outgoing
unfolding send_to_controller
send_init_request o = (send_to_controller o init_message).0

-- `firmware_configuration_received`: what stands at its end; it writes the state before the permission to
-- move, without a lock.
unfoldable pub firmware_configuration_received : Board → Board
unfolding send_to_controller
firmware_configuration_received c = record c {
  flags = record c.flags { state = FirmwareState.running; safe_to_run = true };
  outgoing = (send_to_controller c.outgoing ready_message).0;
}

-- `first_frame_received`.
unfoldable pub first_frame_received : Board → Bool → Board
unfolding enable_all_motors disable_all_motors
first_frame_received c received =
    if received
    then record c {
      flags = record c.flags { first_frame = true };
      pwm = (enable_all_motors c.pwm).0;
      dxl = record c.dxl { reinit_requested = true };
    }
    else record c {
      flags = record c.flags { first_frame = false };
      pwm = (disable_all_motors c.pwm).0;
      dxl = request_torque_all c.dxl false;
    }

abbrev pub is_configuring : FirmwareState → Bool
is_configuring FirmwareState.configuring = true
is_configuring _ = false

-- `controller_reset_request_check_timer_callback`, with the level of `CONTROLLER_RESET_PIN`.
unfoldable pub controller_reset_request_check : Bool → Flags → Flags
controller_reset_request_check pin f =
    if not pin
    then f
    else if is_configuring f.state
    then f
    else record f { safe_to_run = false; state = FirmwareState.configuring; init_timer = true }

-- `controller_motor_power_sample`. `lost` and `restored` are the floating-point comparisons of a
-- voltage with the two thresholds.
module _ {V : Type 0} (lost restored : V → Bool) where
  unfoldable pub controller_motor_power_sample : V → Bool → Dxl → Bool × Dxl
  controller_motor_power_sample v rail d =
      if rail
      then (if lost v then (false, d) else (true, d))
      else if restored v
      then (true, record d { reinit_requested = true })
      else (false, d)
