-- ===== src/Controller/Motors.antt =====
-- The PWM motor map of firmware/src/controller/controller.c. A C string is the list of its
-- characters; a NULL pointer and the empty string, which the code treats alike, are []. Each
-- section that takes `motor_map_mutex` without a time limit is one atomic step.
pub mod Limits
pub mod Wiring
pub mod Frequency
use creature_controller.Common.{
  ℕ, zero, suc, ◌+◌, ◌-◌, ◌*◌, ◌/◌, ◌%◌, Bool, true, false, not, ◌&&◌, ◌||◌, List, [], ◌∷◌, map,
  ltb, leb, ◌==◌, if◌then◌else◌, length, get_or, set,
}

-- `MotorMap`.
pub record Motor : Type 0 where
  pub motor_id : List ℕ
  pub gpio_pin : ℕ
  pub slice : ℕ
  pub channel : ℕ
  pub power_pin : ℕ
  pub requested_position : ℕ
  pub min_microseconds : ℕ
  pub max_microseconds : ℕ
  pub current_microseconds : ℕ
  pub is_configured : Bool

-- `CONTROLLER_MOTORS_PER_MODULE`, which is `MOTOR_MAP_SIZE`.
abbrev pub motor_map_size : ℕ
motor_map_size = 8

-- `INVALID_MOTOR_ID`.
abbrev pub invalid_motor_id : ℕ
invalid_motor_id = 255

-- An entry of the initial `motor_map`: SERVO_i_GPIO_PIN is 13 - i and SERVO_i_POWER_PIN is 21 - i.
abbrev pub initial_motor : ℕ → Motor
initial_motor i = record {
  motor_id = (b'0' + i) ∷ [];
  gpio_pin = 13 - i;
  slice = (13 - i) / 2 % 8;
  channel = (13 - i) % 2;
  power_pin = 21 - i;
  requested_position = 0;
  min_microseconds = 0;
  max_microseconds = 0;
  current_microseconds = 0;
  is_configured = false;
}

abbrev pub initial_motor_map : List Motor
initial_motor_map =
    initial_motor 0
    ∷ initial_motor 1
    ∷ initial_motor 2
    ∷ initial_motor 3
    ∷ initial_motor 4
    ∷ initial_motor 5
    ∷ initial_motor 6
    ∷ initial_motor 7
    ∷ []

-- The motor map, with the outputs that it drives: the GPIO levels, and the PWM level of each slice
-- and channel.
pub record Pwm : Type 0 where
  pub motor_map : List Motor
  pub frame_length_microseconds : ℕ
  pub pwm_resolution : ℕ
  pub gpio : ℕ → Bool
  pub level : ℕ → ℕ → ℕ

-- `motor_map[i]`; the default stands for a read out of range, which no caller makes.
unfoldable pub motor_at : List Motor → ℕ → Motor
motor_at ms i = get_or ms i (initial_motor 0)

-- `getMotorMapIndex`. Only the first character counts.
unfoldable pub get_motor_map_index : List ℕ → ℕ
get_motor_map_index [] = invalid_motor_id
get_motor_map_index (c ∷ _) =
    let motor_number = (c + 256 - b'0') % 256 in
    if leb motor_map_size motor_number then invalid_motor_id else motor_number

-- The floating-point conversion of microseconds to counter ticks, from the resolution and the
-- frame's length.
module _ (desired_ticks : ℕ → ℕ → ℕ → ℕ) where
  -- `requestServoPosition`. `requested_position` has 16 bits.
  unfoldable pub request_servo_position : Pwm → List ℕ → ℕ → Pwm × Bool
  request_servo_position p motor_id us =
      let i = get_motor_map_index motor_id in
      let m = motor_at p.motor_map i in
      if i == invalid_motor_id
      then (p, false)
      else if ltb us m.min_microseconds || ltb m.max_microseconds us
      then (p, false)
      else (
        record p {
          motor_map = set p.motor_map i (record m {
            current_microseconds = us;
            requested_position =
                desired_ticks p.pwm_resolution p.frame_length_microseconds us % 65536;
          });
        },
        true,
      )

-- `configureServoMinMax`.
unfoldable pub configure_servo_min_max : Pwm → List ℕ → ℕ → ℕ → Pwm × Bool
configure_servo_min_max p motor_id min_us max_us =
    let i = get_motor_map_index motor_id in
    if i == invalid_motor_id then (p, false) else (
      record p {
        motor_map = set p.motor_map i (record (motor_at p.motor_map i) {
          min_microseconds = min_us;
          max_microseconds = max_us;
          is_configured = true;
        });
      },
      true,
    )

-- `is_motor_configured`.
unfoldable pub is_motor_configured : Pwm → List ℕ → Bool
is_motor_configured p motor_id =
    let i = get_motor_map_index motor_id in
    if i == invalid_motor_id then false else (motor_at p.motor_map i).is_configured

-- `are_all_motors_configured`, which stops at the first motor that is not.
all_configured : List Motor → Bool
all_configured [] = true
all_configured (m ∷ ms) = if m.is_configured then all_configured ms else false

unfoldable pub are_all_motors_configured : Pwm → Bool
unfolding all_configured
are_all_motors_configured p = all_configured p.motor_map

-- `resetServoMotorMap`. The outputs stay as they are.
abbrev pub reset_motor : Motor → Motor
reset_motor m = record m {
  min_microseconds = 0;
  max_microseconds = 0;
  current_microseconds = 0;
  requested_position = 0;
  is_configured = false;
}

unfoldable pub reset_servo_motor_map : Pwm → Pwm
reset_servo_motor_map p = record p { motor_map = map reset_motor p.motor_map }

-- `pwm_set_freq_duty`: what it programs into a slice, all in 32 bits.
pub record SliceSetting : Type 0 where
  pub divider16 : ℕ
  pub wrap : ℕ
  pub duty_level : ℕ

unfoldable pub pwm_set_freq_duty : ℕ → ℕ → SliceSetting
pwm_set_freq_duty frequency d =
    let clock : ℕ = 125000000 in
    let rounded =
      clock / frequency / 4096 + (if clock % (frequency * 4096 % 4294967296) == 0 then 0 else 1) in
    let divider16 = if rounded / 16 == 0 then 16 else rounded in
    let wrap = clock * 16 % 4294967296 / divider16 / frequency - 1 in
    record { divider16 = divider16; wrap = wrap; duty_level = wrap * d % 4294967296 / 100 }

-- `SERVO_FREQUENCY`.
abbrev pub servo_frequency : ℕ
servo_frequency = 50

-- A write to the level of one slice and channel.
abbrev pub set_level : (ℕ → ℕ → ℕ) → ℕ → ℕ → ℕ → ℕ → ℕ → ℕ
set_level f slice channel v s c = if (s == slice) && (c == channel) then v else f s c

-- `pwm_set_chan_level(motor_map[i].slice, motor_map[i].channel, motor_map[i].requested_position)`
-- for each motor in turn.
pub drive_motors : List Motor → (ℕ → ℕ → ℕ) → ℕ → ℕ → ℕ
drive_motors [] f = f
drive_motors (m ∷ ms) f = drive_motors ms (set_level f m.slice m.channel m.requested_position)

-- The loop of `controller_start`: each motor's level is set for a duty of 0.
pub start_motors : List Motor → (ℕ → ℕ → ℕ) → ℕ → ℕ → ℕ
start_motors [] f = f
start_motors (m ∷ ms) f =
    start_motors ms (set_level f m.slice m.channel (pwm_set_freq_duty servo_frequency 0).duty_level)

-- `controller_start`: the frame's length and the resolution are set once.
unfoldable pub controller_start : Pwm → Pwm
unfolding start_motors
controller_start p =
    if p.frame_length_microseconds == 0
    then record p {
      level = start_motors p.motor_map p.level;
      frame_length_microseconds = 1000000 / servo_frequency;
      pwm_resolution = (pwm_set_freq_duty servo_frequency 0).wrap;
    }
    else record p { level = start_motors p.motor_map p.level }
