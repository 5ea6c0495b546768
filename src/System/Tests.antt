-- ===== src/System/Tests.antt =====
-- The theorems on the whole board at concrete inputs.
use creature_controller.Common.{ℕ, refl, Bool, true, List, [], ◌∷◌, Option, leb, arith, All}
use creature_controller.Dynamixel.Sync.{SyncResult}
use creature_controller.Controller.Isr.{init_watchdog}
use creature_controller.Controller.Motors.Wiring.{
  initial_motor_map-IsWired, reset_servo_motor_map-IsWired,
}
use creature_controller.Controller.Servos.Traffic.{Only}
use creature_controller.Controller.Servos.Torque.{IsQuiet}
use creature_controller.Controller.Lifecycle.{controller_disconnected}
use creature_controller.Messaging.Fixtures.{
  steady_hal, linear_ticks, boot_pwm, board-IsSound, quiet_bus, link,
}
use creature_controller.Messaging.Parser.{calculate_checksum, checksum_from}
use creature_controller.Messaging.Parser.Frames.{joined, checksum_token, frame_with, frame}
use creature_controller.Messaging.Text.Numbers.{decimal}
use creature_controller.Messaging.Processor.{estop_type}
use creature_controller.System.{System, Reach, here, later, passing, disconnecting, receive, pass}
use creature_controller.System.Sound.{IsRegular, Reach-IsRegular}
use creature_controller.System.Stopped.{IsStopped, stop_is_final}
use creature_controller.System.Released.{stop_releases}
use creature_controller.Controller.Servos.{DxlMotor, Dxl, TorqueRequest, new_motor, has_id}
use creature_controller.Controller.Servos.Released.{torque_off, Puts}
use creature_controller.System.Phases.{Moves, causes, phase_of, IsHostless, board_refines}

-- The board of the message tests, with its tasks at rest.
abbrev system : System Unit
system = record {
  link = link;
  frame_counter = 0;
  sync_results = [];
  watchdog = init_watchdog;
  usb = [];
  messages_sent = 0;
}

abbrev no_text : ℕ → Option SyncResult → List ℕ
no_text id r = []

abbrev low : ℕ → Bool
low v = leb v 3

abbrev high : ℕ → Bool
high v = leb 5 v

system-IsRegular : IsRegular linear_ticks system
system-IsRegular = record {
  sound = board-IsSound;
  order = record {
    gated = (λ _. refl, λ _. refl);
    wired = reset_servo_motor_map-IsWired boot_pwm initial_motor_map-IsWired;
    bounded = record { few = omega arith; short = tt };
  };
}

-- The host disconnects, and a pass of the Dynamixel task follows.
abbrev unplugged : System Unit
unplugged = record {
  link = record link { board = controller_disconnected link.board };
  frame_counter = 0;
  sync_results = [];
  watchdog = init_watchdog;
  usb = [];
  messages_sent = 0;
}

abbrev passed : System Unit
passed = pass steady_hal linear_ticks no_text true low high true true unplugged

steps_taken : Reach steady_hal linear_ticks no_text true low high system passed
steps_taken = later (later here disconnecting) (passing true true)

Reach-IsRegular_example : IsRegular linear_ticks passed
Reach-IsRegular_example =
    Reach-IsRegular steady_hal linear_ticks no_text true low high system-IsRegular steps_taken

board_refines_example :
    Moves
      (phase_of system.link.board.flags)
      (causes steady_hal linear_ticks no_text true low high steps_taken)
      (phase_of passed.link.board.flags)
    × IsHostless passed.link.board.flags
board_refines_example =
    board_refines steady_hal linear_ticks no_text true low high system-IsRegular refl steps_taken

-- An ESTOP frame, and a pass after it.
abbrev stopped : System Unit
stopped = receive steady_hal linear_ticks no_text true low high 5 (frame estop_type []) system

abbrev stopped_passed : System Unit
stopped_passed = pass steady_hal linear_ticks no_text true low high true true stopped

stop_is_final_example : IsStopped stopped_passed × Only IsQuiet quiet_bus stopped_passed.link.bus
unfolding frame frame_with joined calculate_checksum checksum_from checksum_token decimal
stop_is_final_example =
    stop_is_final steady_hal linear_ticks no_text true low high 5 [] system-IsRegular refl tt
      (omega arith) (omega arith) (later here (passing true true))

-- A board with servo 1, confirmed, when a request to enable torque waits.
abbrev one_servo : Dxl
one_servo = record link.board.dxl {
  motors = record (new_motor 1 1000 3000 100) { velocity_confirmed = true } ∷ [];
  torque_request = TorqueRequest.enable;
}

abbrev armed : System Unit
armed = record system { link = record link { board = record link.board { dxl = one_servo } } }

armed-IsRegular : IsRegular linear_ticks armed
unfolding has_id
armed-IsRegular = record {
  sound = (
    board-IsSound.0,
    (
      omega arith,
      ((omega arith, omega arith, omega arith, omega arith, omega arith), tt),
      (refl, tt),
    ),
  );
  order = record {
    gated = (λ _. refl, λ _. refl);
    wired = reset_servo_motor_map-IsWired boot_pwm initial_motor_map-IsWired;
    bounded = record { few = omega arith; short = tt };
  };
}

abbrev armed_stopped : System Unit
armed_stopped = receive steady_hal linear_ticks no_text true low high 5 (frame estop_type []) armed

abbrev armed_passed : System Unit
armed_passed = pass steady_hal linear_ticks no_text true low high true true armed_stopped

stop_releases_example :
    All
      (λ (m : DxlMotor). Puts (torque_off m.dxl_id) quiet_bus armed_passed.link.bus)
      one_servo.motors
    × Only IsQuiet quiet_bus armed_passed.link.bus
    × IsStopped armed_passed
unfolding frame frame_with joined calculate_checksum checksum_from checksum_token decimal
stop_releases_example =
    stop_releases steady_hal linear_ticks no_text true low high armed 5 [] true true armed-IsRegular
      refl refl (λ e. refl) tt (omega arith) (omega arith)
