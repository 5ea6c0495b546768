-- ===== src/Controller/Tests.antt =====
-- The theorems on the controller at concrete inputs.
use creature_controller.Common.{
  ℕ, ◌+◌, ◌-◌, ◌*◌, ◌/◌, ◌%◌, ◌≤◌, ◌<◌, ◌≢◌, ◌≡◌, refl, ◌⊎◌, Bool, true, false, not, ◌&&◌, ◌||◌,
  List, [], ◌∷◌, Option, none, take, arith, length,
}
use creature_controller.Dynamixel.Packet.{dxl_ok}
use creature_controller.Dynamixel.Bus.{Hal, Bus}
use creature_controller.Dynamixel.Servo.{
  transact, dxl_read_register, dxl_write_register, bytes_value,
}
use creature_controller.Dynamixel.Sync.{SyncResult, no_status, count_valid}
use creature_controller.Controller.Motors.{
  configure_servo_min_max, Pwm, motor_map_size, invalid_motor_id, initial_motor_map, motor_at,
  get_motor_map_index, request_servo_position,
}
use creature_controller.Controller.Motors.Limits.{request_servo_position_lem}
use creature_controller.Controller.Motors.Wiring.{initial_motor_map-IsWired}
use creature_controller.Controller.Isr.{init_watchdog, on_pwm_wrap_handler, count_wrap, run_ticks}
use creature_controller.Controller.Isr.Liveness.{
  hung, alive, hung_updates, alive_updates, on_pwm_wrap_handler_lem,
}
use creature_controller.Controller.Servos.{
  TorqueRequest, Dxl, new_motor, has_id, attempt_register, apply_attempts,
}
use creature_controller.Controller.Servos.Map.{IsValid}
use creature_controller.Controller.Servos.Traffic.{Only, Confirms, apply_attempts_confirmed}
use creature_controller.Controller.Servos.Torque.{IsAllowed, is_confirmed}
use creature_controller.Controller.Lifecycle.{Flags, FirmwareState}
use creature_controller.Controller.Telemetry.{find_reading, sensor_report}
use creature_controller.Controller.Telemetry.Report.{find_reading_last, sensor_report_fits}
use creature_controller.Controller.Task.{Frame, task_pass}
use creature_controller.Controller.Task.Safety.{task_pass_sent}

-- The PWM motors at boot.
abbrev boot_pwm : Pwm
boot_pwm = record {
  motor_map = initial_motor_map;
  frame_length_microseconds = 20000;
  pwm_resolution = 39061;
  gpio = λ q. false;
  level = λ s c. 0;
}

abbrev linear_ticks : ℕ → ℕ → ℕ → ℕ
linear_ticks resolution frame us = us * resolution / frame

-- Motor 3 with its limits.
abbrev ready_pwm : Pwm
ready_pwm = (configure_servo_min_max boot_pwm (b'3' ∷ []) 1000 2000).0

request_servo_position_lem_example :
    let i = get_motor_map_index (b'3' ∷ []) in
    let (p', granted) = request_servo_position linear_ticks ready_pwm (b'3' ∷ []) 1500 in
    ((granted ≡ true)
      × (i < motor_map_size)
      × ((motor_at ready_pwm.motor_map i).min_microseconds ≤ 1500)
      × (1500 ≤ (motor_at ready_pwm.motor_map i).max_microseconds)
      × ((motor_at p'.motor_map i).current_microseconds ≡ 1500)
      × ((motor_at p'.motor_map i).requested_position
          ≡ linear_ticks ready_pwm.pwm_resolution ready_pwm.frame_length_microseconds 1500 % 65536)
      × ((j : ℕ) → j ≢ i → motor_at p'.motor_map j ≡ motor_at ready_pwm.motor_map j))
    ⊎ ((granted ≡ false)
        × (p' ≡ ready_pwm)
        × ((i ≡ invalid_motor_id)
            ⊎ ((1500 < (motor_at ready_pwm.motor_map i).min_microseconds)
                ⊎ ((motor_at ready_pwm.motor_map i).max_microseconds < 1500))))
unfolding configure_servo_min_max get_motor_map_index
request_servo_position_lem_example =
    request_servo_position_lem linear_ticks ready_pwm (b'3' ∷ []) 1500 refl

hung_updates_example :
    (run_ticks true (hung true 500) init_watchdog).updates ≤ init_watchdog.updates + 1
hung_updates_example = hung_updates 500 init_watchdog

alive_updates_example :
    (run_ticks true (alive true (25 ∷ 25 ∷ 25 ∷ 25 ∷ 24 ∷ [])) init_watchdog).updates
    ≡ init_watchdog.updates + 124 / 100
alive_updates_example =
    alive_updates true (25 ∷ 25 ∷ 25 ∷ 25 ∷ 24 ∷ []) init_watchdog (omega arith)
      (omega arith, (omega arith, (omega arith, (omega arith, (omega arith, tt)))))

on_pwm_wrap_handler_lem_example :
    let (p', w') = on_pwm_wrap_handler true true boot_pwm init_watchdog in
    (true ≡ false → p' ≡ boot_pwm)
    × (true ≡ true
        → (i : ℕ) → i < motor_map_size
        → p'.level ((13 - i) / 2) ((13 - i) % 2)
          ≡ (motor_at initial_motor_map i).requested_position)
    × (w' ≡ count_wrap true init_watchdog)
on_pwm_wrap_handler_lem_example =
    on_pwm_wrap_handler_lem true true boot_pwm init_watchdog initial_motor_map-IsWired

-- Servos that answer every request with the bytes of 100.
abbrev steady_hal : Hal Unit
steady_hal = record {
  txrx = λ s p ms.
      (dxl_ok, record { id = 1; instruction = 85; error = 0; params = 100 ∷ 0 ∷ 0 ∷ 0 ∷ [] }, s);
  tx = λ s p. (dxl_ok, s);
  txrx_multi = λ s p len n ms. (dxl_ok, [], s);
  bus_lock = λ s. (true, s);
  bus_unlock = λ s. s;
  baud_rate = λ s. 1000000;
  delay = λ s ms. s;
  rail_present = λ s. true;
}

abbrev quiet_bus : Bus Unit
quiet_bus = record { env = tt; sent = [] }

-- Servo 1, confirmed, and a request to enable torque.
abbrev one_servo : Dxl
one_servo = record {
  ready = true;
  motors = record (new_motor 1 1000 3000 100) { velocity_confirmed = true } ∷ [];
  reinit_requested = false;
  torque_request = TorqueRequest.enable;
  dsense_messages_sent = 0;
  dsense_sends_dropped = 0;
  dsense_reads_failed = 0;
}

one_servo-IsValid : IsValid one_servo
unfolding has_id
one_servo-IsValid = (
  omega arith,
  ((omega arith, omega arith, omega arith, omega arith, omega arith), tt),
  (refl, tt),
)

apply_attempts_confirmed_example :
    (before : Bus Unit) × Confirms steady_hal 1 112 4 100 before
      (apply_attempts steady_hal 3 quiet_bus 1 112 4 100).1
unfolding apply_attempts attempt_register dxl_write_register dxl_read_register transact bytes_value
apply_attempts_confirmed_example = apply_attempts_confirmed steady_hal 1 112 4 100 3 quiet_bus refl

abbrev servo_result : ℕ → Bool → SyncResult
servo_result id valid = record { id = id; status = no_status; valid = valid; servo_error = 0 }

abbrev answered : List SyncResult
answered = servo_result 1 true ∷ []

abbrev both : List SyncResult
both = servo_result 1 false ∷ servo_result 2 true ∷ []

find_reading_last_example : find_reading 2 (take (count_valid both) both) ≡ none
unfolding count_valid
find_reading_last_example =
    find_reading_last (servo_result 1 false ∷ []) (servo_result 2 true) (omega arith) (refl, tt)

-- A token of three characters.
abbrev short_token : ℕ → Option SyncResult → List ℕ
short_token id r = 9 ∷ b'D' ∷ (b'0' + id % 10) ∷ []

sensor_report_fits_example : length (sensor_report short_token (1 ∷ 2 ∷ []) [] 0) ≤ 382
sensor_report_fits_example = sensor_report_fits short_token (1 ∷ 2 ∷ []) [] 0 (λ id r. omega arith)

abbrev running_flags : Flags
running_flags = record {
  safe_to_run = true;
  state = FirmwareState.running;
  first_frame = true;
  estop = false;
  init_timer = false;
}

abbrev first_pass : Frame Unit
first_pass = record {
  dxl = one_servo;
  outgoing = record { queue = []; dropped = 0 };
  frame_counter = 0;
  sync_results = [];
  bus = quiet_bus;
}

task_pass_sent_example :
    Only
      (IsAllowed (λ id.
        not running_flags.estop
        && (is_confirmed one_servo.motors id
            || (running_flags.first_frame
                && is_confirmed
                    (task_pass steady_hal short_token true true running_flags first_pass).dxl.motors
                    id))))
      quiet_bus
      (task_pass steady_hal short_token true true running_flags first_pass).bus
task_pass_sent_example = task_pass_sent steady_hal short_token true true running_flags first_pass
