-- ===== src/Messaging/Fixtures.antt =====
-- Test data: servos that answer, a board as it boots and runs, and its link to the host.
use creature_controller.Common.{ℕ, ◌*◌, ◌/◌, refl, true, false, [], ◌∷◌, arith}
use creature_controller.Dynamixel.Packet.{dxl_ok}
use creature_controller.Dynamixel.Bus.{Hal, Bus}
use creature_controller.Controller.Motors.{Pwm, initial_motor_map, reset_servo_motor_map}
use creature_controller.Controller.Motors.Limits.{IsAtRest→IsSafe, reset_servo_motor_map-IsAtRest}
use creature_controller.Controller.Servos.{TorqueRequest}
use creature_controller.Controller.Lifecycle.{FirmwareState, Board}
use creature_controller.Messaging.Handlers.Motion.{IsSound}
use creature_controller.Messaging.Processor.{Link, serving}

-- Servos that answer every request with the bytes of 100.
abbrev pub steady_hal : Hal Unit
steady_hal = record {
  txrx = λ s p ms.
      (dxl_ok, record { id = 1; instruction = 85; error = 0; params = 100 ∷ 0 ∷ 0 ∷ 0 ∷ [] }, s);
  tx = λ s p. (dxl_ok, s);
  txrx_multi = λ s p len n ms. (dxl_ok, [], s);
  bus_lock = λ s. (true, s);
  bus_unlock = λ s. s;
  baud_rate = λ s. 1000000;
  delay = λ s ms. s;
  rail_present = λ s. true;
}

abbrev pub linear_ticks : ℕ → ℕ → ℕ → ℕ
linear_ticks resolution frame_length us = us * resolution / frame_length

abbrev pub boot_pwm : Pwm
boot_pwm = record {
  motor_map = initial_motor_map;
  frame_length_microseconds = 20000;
  pwm_resolution = 39061;
  gpio = λ q. false;
  level = λ s c. 0;
}

-- The board as it is configured, and as it runs with no motor configured.
abbrev pub board : Board
board = record {
  flags = record {
    safe_to_run = true;
    state = FirmwareState.running;
    first_frame = false;
    estop = false;
    init_timer = false;
  };
  pwm = reset_servo_motor_map boot_pwm;
  dxl = record {
    ready = true;
    motors = [];
    reinit_requested = false;
    torque_request = TorqueRequest.none;
    dsense_messages_sent = 0;
    dsense_sends_dropped = 0;
    dsense_reads_failed = 0;
  };
  outgoing = record { queue = []; dropped = 0 };
}

pub board-IsSound : IsSound linear_ticks board
board-IsSound = (
  IsAtRest→IsSafe linear_ticks (reset_servo_motor_map boot_pwm)
      (reset_servo_motor_map-IsAtRest boot_pwm refl),
  (omega arith, tt, tt),
)

abbrev pub quiet_bus : Bus Unit
quiet_bus = record { env = tt; sent = [] }

abbrev pub link : Link Unit
link = record {
  service = serving;
  board = board;
  bus = quiet_bus;
  successful_messages_parsed = 0;
  failed_messages_parsed = 0;
  checksum_errors = 0;
  position_messages_processed = 0;
}
