-- ===== src/Controller/Isr.antt =====
-- The PWM wrap interrupt of firmware/src/controller/controller.c, with the watchdog that it feeds,
-- firmware/src/watchdog/watchdog.c.
pub mod Liveness
use creature_controller.Common.{
  ℕ, zero, suc, ◌+◌, Bool, true, false, List, [], ◌∷◌, leb, if◌then◌else◌,
}
use creature_controller.Controller.Motors.{Pwm, drive_motors}

-- `PWM_WRAPS_PER_WATCHDOG_UPDATE`.
abbrev pub pwm_wraps_per_watchdog_update : ℕ
pwm_wraps_per_watchdog_update = 100

-- The counters of the interrupt, the liveness flag of the health gate, and how often
-- `watchdog_update` has been called.
pub record Watchdog : Type 0 where
  pub number_of_pwm_wraps : ℕ
  pub watchdog_wrap_count : ℕ
  pub watchdog_health_ok : Bool
  pub updates : ℕ

-- `init_watchdog`, over the flag's initial value.
abbrev pub init_watchdog : Watchdog
init_watchdog = record {
  number_of_pwm_wraps = 0;
  watchdog_wrap_count = 0;
  watchdog_health_ok = true;
  updates = 1;
}

-- A round of `watchdog_heartbeat_task`.
pub heartbeat : Watchdog → Watchdog
heartbeat w = record w { watchdog_health_ok = true }

-- The build's USE_WATCHDOG_HEALTH_GATE.
module _ (health_gate : Bool) where
  -- `watchdog_feed`.
  pub watchdog_feed : Watchdog → Watchdog
  watchdog_feed w =
      if health_gate
      then (if w.watchdog_health_ok
          then record w { watchdog_health_ok = false; updates = w.updates + 1 }
          else w)
      else record w { updates = w.updates + 1 }

  -- The counting part of `on_pwm_wrap_handler`: `number_of_pwm_wraps` has 64 bits, and cannot wrap in
  -- the life of a board.
  pub count_wrap : Watchdog → Watchdog
  unfolding watchdog_feed
  count_wrap w =
      if leb pwm_wraps_per_watchdog_update (w.watchdog_wrap_count + 1)
      then watchdog_feed
          (record w { number_of_pwm_wraps = w.number_of_pwm_wraps + 1; watchdog_wrap_count = 0 })
      else record w {
        number_of_pwm_wraps = w.number_of_pwm_wraps + 1;
        watchdog_wrap_count = w.watchdog_wrap_count + 1;
      }

  -- `on_pwm_wrap_handler`, with the value of `controller_safe_to_run`.
  unfoldable pub on_pwm_wrap_handler : Bool → Pwm → Watchdog → Pwm × Watchdog
  on_pwm_wrap_handler is_safe p w =
      (if is_safe then record p { level = drive_motors p.motor_map p.level } else p, count_wrap w)

  -- What happens to the watchdog: the interrupt, or the heartbeat task.
  pub data Tick : Type 0 where
    wrap beat : Tick

  pub tick : Tick → Watchdog → Watchdog
  unfolding heartbeat
  tick wrap w = count_wrap w
  tick beat w = heartbeat w

  pub run_ticks : List Tick → Watchdog → Watchdog
  unfolding tick
  run_ticks [] w = w
  run_ticks (t ∷ ts) w = run_ticks ts (tick t w)
