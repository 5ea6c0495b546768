-- ===== src/Controller/Power.antt =====
-- Power to the PWM motors: firmware/src/device/power_control.c. A GPIO level is a Boolean; the
-- power pin of a motor switches its supply.
pub mod Laws
pub mod Keeps
use creature_controller.Common.{
  ℕ, ◌+◌, Bool, true, false, not, ◌&&◌, List, [], ◌∷◌, ◌==◌, if◌then◌else◌, length,
}
use creature_controller.Controller.Motors.{
  Motor, Pwm, motor_map_size, invalid_motor_id, motor_at, get_motor_map_index,
}

-- `gpio_put`.
abbrev pub gpio_put : (ℕ → Bool) → ℕ → Bool → ℕ → Bool
gpio_put f pin v q = if q == pin then v else f q

-- `init_motor_power_control`: every power pin is low.
pub init_power : List Motor → (ℕ → Bool) → ℕ → Bool
init_power [] f = f
init_power (m ∷ ms) f = init_power ms (gpio_put f m.power_pin false)

unfoldable pub init_motor_power_control : Pwm → Pwm
unfolding init_power
init_motor_power_control p = record p { gpio = init_power p.motor_map p.gpio }

-- `enable_motor_power` and `disable_motor_power`.
pub set_motor_power : Pwm → List ℕ → Bool → Pwm × Bool
set_motor_power p motor_id v =
    let i = get_motor_map_index motor_id in
    if i == invalid_motor_id
    then (p, false)
    else (record p { gpio = gpio_put p.gpio (motor_at p.motor_map i).power_pin v }, true)

unfoldable pub enable_motor_power : Pwm → List ℕ → Pwm × Bool
unfolding set_motor_power
enable_motor_power p motor_id = set_motor_power p motor_id true

unfoldable pub disable_motor_power : Pwm → List ℕ → Pwm × Bool
unfolding set_motor_power
disable_motor_power p motor_id = set_motor_power p motor_id false

-- The locals of `enable_all_motors`.
pub record Tally : Type 0 where
  pub pwm : Pwm
  pub all_successful : Bool
  pub configured_count : ℕ
  pub powered_count : ℕ

-- One round of its loop.
pub enable_one : Motor → Tally → Tally
enable_one m t =
    let (p', powered) = enable_motor_power t.pwm m.motor_id in
    if m.is_configured
    then record {
      pwm = p';
      all_successful = if powered then t.all_successful else false;
      configured_count = t.configured_count + 1;
      powered_count = if powered then t.powered_count + 1 else t.powered_count;
    }
    else t

pub enable_each : List Motor → Tally → Tally
enable_each [] t = t
enable_each (m ∷ ms) t = enable_each ms (enable_one m t)

-- `enable_all_motors`.
unfoldable pub enable_all_motors : Pwm → Pwm × Bool
unfolding enable_each enable_one enable_motor_power
enable_all_motors p =
    let t =
      enable_each p.motor_map
        (record { pwm = p; all_successful = true; configured_count = 0; powered_count = 0 }) in
    (t.pwm, if t.configured_count == 0 then false else t.all_successful)

-- `disable_all_motors`.
pub disable_each : List Motor → Pwm × Bool → Pwm × Bool
disable_each [] r = r
disable_each (m ∷ ms) r =
    let (p', done) = disable_motor_power r.0 m.motor_id in
    disable_each ms (p', if done then r.1 else false)

unfoldable pub disable_all_motors : Pwm → Pwm × Bool
unfolding disable_each disable_motor_power
disable_all_motors p = disable_each p.motor_map (p, true)

-- `is_motor_powered`.
unfoldable pub is_motor_powered : Pwm → List ℕ → Bool
is_motor_powered p motor_id =
    let i = get_motor_map_index motor_id in
    if i == invalid_motor_id then false else p.gpio (motor_at p.motor_map i).power_pin
