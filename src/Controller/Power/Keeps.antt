-- ===== src/Controller/Power/Keeps.antt =====
-- Switching power leaves the motor map as it is.
use creature_controller.Common.{
  ℕ, ◌+◌, Bool, true, false, List, [], ◌∷◌, ◌≡◌, refl, ap, ◌∙◌, ◌==◌, if◌then◌else◌, if_both,
}
use creature_controller.Controller.Motors.{
  Motor, Pwm, invalid_motor_id, motor_at, get_motor_map_index,
}
use creature_controller.Controller.Motors.Limits.{IsSafe}
use creature_controller.Controller.Power.{
  gpio_put, set_motor_power, enable_motor_power, disable_motor_power, Tally, enable_one,
  enable_each, enable_all_motors, disable_each, disable_all_motors,
}

-- What switching power leaves alone.
abbrev pub settings : Pwm → List Motor × ℕ × ℕ
settings p = (p.motor_map, p.frame_length_microseconds, p.pwm_resolution)

set_motor_power-keeps :
    (p : Pwm) (id : List ℕ) (v : Bool) → settings (set_motor_power p id v).0 ≡ settings p
unfolding set_motor_power
set_motor_power-keeps p id v =
    if_both (λ (r : Pwm × Bool). settings r.0 ≡ settings p)
      (get_motor_map_index id == invalid_motor_id) (p, false)
      (
        record p {
          gpio = gpio_put p.gpio (motor_at p.motor_map (get_motor_map_index id)).power_pin v;
        },
        true,
      )
      refl refl

enable_one-keeps : (m : Motor) (t : Tally) → settings (enable_one m t).pwm ≡ settings t.pwm
unfolding enable_one enable_motor_power
enable_one-keeps m t =
    if_both (λ (u : Tally). settings u.pwm ≡ settings t.pwm) m.is_configured
      (record {
        pwm = (enable_motor_power t.pwm m.motor_id).0;
        all_successful =
            if (enable_motor_power t.pwm m.motor_id).1 then t.all_successful else false;
        configured_count = t.configured_count + 1;
        powered_count =
            if (enable_motor_power t.pwm m.motor_id).1
            then t.powered_count + 1
            else t.powered_count;
      })
      t (set_motor_power-keeps t.pwm m.motor_id true) refl

enable_each-keeps : (ms : List Motor) (t : Tally) → settings (enable_each ms t).pwm ≡ settings t.pwm
unfolding enable_each
enable_each-keeps [] t = refl
enable_each-keeps (m ∷ ms) t = enable_each-keeps ms (enable_one m t) ∙ enable_one-keeps m t

disable_each-keeps :
    (ms : List Motor) (r : Pwm × Bool) → settings (disable_each ms r).0 ≡ settings r.0
unfolding disable_each disable_motor_power
disable_each-keeps [] r = refl
disable_each-keeps (m ∷ ms) r =
    disable_each-keeps ms (d.0, if d.1 then r.1 else false)
    ∙ set_motor_power-keeps r.0 m.motor_id false
  where
    d : Pwm × Bool
    d = disable_motor_power r.0 m.motor_id

-- What is safe stays safe while the map and the clock of the outputs stay.
pub same_settings-IsSafe :
    (desired_ticks : ℕ → ℕ → ℕ → ℕ) (p q : Pwm)
    → settings q ≡ settings p
    → IsSafe desired_ticks p
    → IsSafe desired_ticks q
same_settings-IsSafe desired_ticks p q e s =
    let map_same : q.motor_map ≡ p.motor_map = ap (λ (x : List Motor × ℕ × ℕ). x.0) e in
    let frame_same : q.frame_length_microseconds ≡ p.frame_length_microseconds =
      ap (λ (x : List Motor × ℕ × ℕ). x.1) e in
    let clock_same : q.pwm_resolution ≡ p.pwm_resolution = ap (λ (x : List Motor × ℕ × ℕ). x.2) e in
    record {
      eight = rw map_same s.eight;
      within = λ i h. rw (map_same, frame_same, clock_same) (s.within i h);
    }

enable_all_motors-settings : (p : Pwm) → settings (enable_all_motors p).0 ≡ settings p
unfolding enable_all_motors
enable_all_motors-settings p =
    enable_each-keeps p.motor_map
      (record { pwm = p; all_successful = true; configured_count = 0; powered_count = 0 })

disable_all_motors-settings : (p : Pwm) → settings (disable_all_motors p).0 ≡ settings p
unfolding disable_all_motors
disable_all_motors-settings p = disable_each-keeps p.motor_map (p, true)

pub enable_all_motors-keeps : (p : Pwm) → (enable_all_motors p).0.motor_map ≡ p.motor_map
enable_all_motors-keeps p = ap (λ (x : List Motor × ℕ × ℕ). x.0) (enable_all_motors-settings p)

pub disable_all_motors-keeps : (p : Pwm) → (disable_all_motors p).0.motor_map ≡ p.motor_map
disable_all_motors-keeps p = ap (λ (x : List Motor × ℕ × ℕ). x.0) (disable_all_motors-settings p)

pub enable_all_motors-IsSafe :
    (desired_ticks : ℕ → ℕ → ℕ → ℕ) (p : Pwm)
    → IsSafe desired_ticks p
    → IsSafe desired_ticks (enable_all_motors p).0
enable_all_motors-IsSafe desired_ticks p s =
    same_settings-IsSafe desired_ticks p (enable_all_motors p).0 (enable_all_motors-settings p) s

pub disable_all_motors-IsSafe :
    (desired_ticks : ℕ → ℕ → ℕ → ℕ) (p : Pwm)
    → IsSafe desired_ticks p
    → IsSafe desired_ticks (disable_all_motors p).0
disable_all_motors-IsSafe desired_ticks p s =
    same_settings-IsSafe desired_ticks p (disable_all_motors p).0 (disable_all_motors-settings p) s
