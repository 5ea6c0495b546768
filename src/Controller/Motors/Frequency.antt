-- ===== src/Controller/Motors/Frequency.antt =====
-- The PWM slices are programmed within the ranges of the hardware.
use creature_controller.Common.{
  Bool, true, ◌&&◌, ◌||◌, holds_from, holds_from_lem, ℕ, ◌≤◌, ◌<◌, ◌≡◌, refl, arith, ltb, leb,
}
use creature_controller.Controller.Motors.{pwm_set_freq_duty}

in_range : ℕ → Bool
in_range f =
    let setting = pwm_set_freq_duty f 0 in
    ltb f 8 || (ltb setting.wrap 65536 && leb 16 setting.divider16 && ltb setting.divider16 4096)

every_frequency : holds_from 0 2001 in_range ≡ true
unfolding holds_from in_range pwm_set_freq_duty
every_frequency = refl

frequency_in_range : (f : ℕ) → f < 2001 → in_range f ≡ true
frequency_in_range f h = holds_from_lem 2001 in_range f every_frequency h

-- For each frequency from 8 Hz to 2000 Hz the counter's wrap fits its 16 bits, and the clock divider,
-- in sixteenths, is at least 1 and below 256, as the hardware wants.
pub pwm_set_freq_duty_bounds :
    (f d : ℕ)
    → 8 ≤ f
    → f ≤ 2000
    → ((pwm_set_freq_duty f d).wrap < 65536)
      × (16 ≤ (pwm_set_freq_duty f d).divider16)
      × ((pwm_set_freq_duty f d).divider16 < 4096)
unfolding in_range
pwm_set_freq_duty_bounds f d lo hi =
    rw (same_wrap, same_divider) (ground (arith, frequency_in_range f))
  where
    same_wrap : (pwm_set_freq_duty f d).wrap ≡ (pwm_set_freq_duty f 0).wrap
    same_wrap = unfold pwm_set_freq_duty in refl

    same_divider : (pwm_set_freq_duty f d).divider16 ≡ (pwm_set_freq_duty f 0).divider16
    same_divider = unfold pwm_set_freq_duty in refl
