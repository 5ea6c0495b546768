-- ===== src/Controller/Isr/Liveness.antt =====
-- The watchdog is fed while the scheduler lives, and with the health gate not longer; and the outputs
-- follow the motor map only while it is safe to run.
use creature_controller.Common.{
  ℕ, zero, suc, ◌+◌, ◌-◌, ◌*◌, ◌/◌, ◌%◌, ◌≤◌, ◌<◌, ◌≡◌, refl, ap, ◌∙◌, Bool, true, false, List, [],
  ◌∷◌, ◌++◌, All, Bool-cases, inl, inr, leb, arith, if◌then◌else◌,
}
use creature_controller.Controller.Motors.{Pwm, motor_at, motor_map_size}
use creature_controller.Controller.Motors.Wiring.{IsWired, drive_motors_lem}
use creature_controller.Controller.Isr.{
  Watchdog, pwm_wraps_per_watchdog_update, heartbeat, watchdog_feed, count_wrap,
  on_pwm_wrap_handler, Tick, wrap, beat, tick, run_ticks,
}

-- n interrupts with no heartbeat between them: the scheduler is stuck.
abbrev pub hung : (gate : Bool) → ℕ → List (Tick gate)
hung gate zero = []
hung gate (suc n) = wrap ∷ hung gate n

-- The wrap counter stays below its limit.
pub count_wrap-lt :
    (gate : Bool) (w : Watchdog)
    → w.watchdog_wrap_count < pwm_wraps_per_watchdog_update
    → (count_wrap gate w).watchdog_wrap_count < pwm_wraps_per_watchdog_update
unfolding count_wrap watchdog_feed
count_wrap-lt gate w h = ground arith

credit : (w : Watchdog) → ℕ
credit w = if w.watchdog_health_ok then 1 else 0

count_wrap_spends :
    (w : Watchdog) → (count_wrap true w).updates + credit (count_wrap true w) ≡ w.updates + credit w
unfolding count_wrap watchdog_feed credit
count_wrap_spends w = ground arith

hung_spends :
    (n : ℕ) (w : Watchdog)
    → (run_ticks true (hung true n) w).updates + credit (run_ticks true (hung true n) w)
      ≡ w.updates + credit w
unfolding run_ticks tick
hung_spends zero w = refl
hung_spends (suc n) w = hung_spends n (count_wrap true w) ∙ count_wrap_spends w

-- With the health gate, however many PWM wraps follow the last heartbeat, the hardware watchdog is
-- refreshed at most once more: a stuck scheduler lets it run out.
pub hung_updates : (n : ℕ) (w : Watchdog) → (run_ticks true (hung true n) w).updates ≤ w.updates + 1
unfolding credit
hung_updates n w = ground (arith, hung_spends n w)

-- A heartbeat, and so many wraps until the next one, for each number of the list.
abbrev pub alive : (gate : Bool) → List ℕ → List (Tick gate)
alive gate [] = []
alive gate (k ∷ ks) = beat ∷ (hung gate k ++ alive gate ks)

abbrev pub total : List ℕ → ℕ
total [] = 0
total (k ∷ ks) = k + total ks

run_ticks-append :
    (gate : Bool) (s t : List (Tick gate)) (w : Watchdog)
    → run_ticks gate (s ++ t) w ≡ run_ticks gate t (run_ticks gate s w)
unfolding run_ticks
run_ticks-append gate [] t w = refl
run_ticks-append gate (x ∷ s) t w = run_ticks-append gate s t (tick gate x w)

-- Wraps that do not reach the limit only count.
few_wraps :
    (gate : Bool) (k : ℕ) (w : Watchdog)
    → w.watchdog_wrap_count + k < pwm_wraps_per_watchdog_update
    → let w' = run_ticks gate (hung gate k) w in
      (w'.updates ≡ w.updates) × (w'.watchdog_wrap_count ≡ w.watchdog_wrap_count + k)
unfolding run_ticks tick count_wrap watchdog_feed
few_wraps gate zero w h = (refl, omega arith)
few_wraps gate (suc k) w h =
    let next = count_wrap gate w in
    let later = few_wraps gate k next (ground arith) in
    (ground (arith, later.0), ground (arith, later.1))

early_wrap :
    (gate : Bool) (w : Watchdog)
    → w.watchdog_wrap_count + 1 < pwm_wraps_per_watchdog_update
    → let w' = count_wrap gate w in
      (w'.updates ≡ w.updates)
      × (w'.watchdog_wrap_count ≡ w.watchdog_wrap_count + 1)
      × (w'.watchdog_health_ok ≡ w.watchdog_health_ok)
unfolding count_wrap watchdog_feed
early_wrap gate w h = (ground arith, ground arith, ground arith)

feeding_wrap :
    (gate : Bool) (w : Watchdog)
    → w.watchdog_health_ok ≡ true
    → pwm_wraps_per_watchdog_update ≤ w.watchdog_wrap_count + 1
    → let w' = count_wrap gate w in (w'.updates ≡ w.updates + 1) × (w'.watchdog_wrap_count ≡ 0)
unfolding count_wrap watchdog_feed
feeding_wrap gate w ok h = (ground arith, ground arith)

-- Wraps that reach the limit once refresh once, if there has been a heartbeat before.
many_wraps :
    (gate : Bool) (k : ℕ) (w : Watchdog)
    → w.watchdog_health_ok ≡ true
    → w.watchdog_wrap_count < pwm_wraps_per_watchdog_update
    → pwm_wraps_per_watchdog_update ≤ w.watchdog_wrap_count + k
    → k ≤ pwm_wraps_per_watchdog_update
    → let w' = run_ticks gate (hung gate k) w in
      (w'.updates ≡ w.updates + 1)
      × (w'.watchdog_wrap_count + pwm_wraps_per_watchdog_update ≡ w.watchdog_wrap_count + k)
unfolding run_ticks tick
many_wraps gate zero w ok c h l = absurd (omega arith)
many_wraps gate (suc k) w ok c h l =
    let next = count_wrap gate w in
    elim (Bool-cases (leb pwm_wraps_per_watchdog_update (w.watchdog_wrap_count + 1))) [
      | inl reached ↦
          let fed = feeding_wrap gate w ok (ground (arith, reached)) in
          let rest = few_wraps gate k next (omega (arith, fed.1, l)) in
          let full : w.watchdog_wrap_count + 1 ≡ pwm_wraps_per_watchdog_update =
            ground (arith, reached, c) in
          (rest.0 ∙ fed.0, omega (arith, rest.1, fed.1, full))
      | inr early ↦
          let one = early_wrap gate w (ground (arith, early)) in
          let rest =
            many_wraps gate k next (one.2 ∙ ok) (ground (arith, one.1, early))
              (omega (arith, one.1, h)) (omega (arith, l)) in
          (rest.0 ∙ ap (λ x. x + 1) one.0, omega (arith, rest.1, one.1))
    ]

-- A heartbeat and at most 100 wraps.
one_period :
    (gate : Bool) (k : ℕ) (w : Watchdog)
    → w.watchdog_wrap_count < pwm_wraps_per_watchdog_update
    → k ≤ pwm_wraps_per_watchdog_update
    → let w' = run_ticks gate (hung gate k) (heartbeat w) in
      (w'.watchdog_wrap_count < pwm_wraps_per_watchdog_update)
      × (pwm_wraps_per_watchdog_update * w'.updates + w'.watchdog_wrap_count
          ≡ pwm_wraps_per_watchdog_update * w.updates + w.watchdog_wrap_count + k)
unfolding heartbeat
one_period gate k w c l =
    let w1 = record w { watchdog_health_ok = true } in
    elim (Bool-cases (leb pwm_wraps_per_watchdog_update (w.watchdog_wrap_count + k))) [
      | inl reached ↦
          let m = many_wraps gate k w1 refl c (ground (arith, reached)) l in
          (omega (arith, m.1, c, l), omega (arith, m.0, m.1))
      | inr early ↦
          let m = few_wraps gate k w1 (ground (arith, early)) in
          (ground (arith, m.1, early), omega (arith, m.0, m.1))
    ]

-- As long as no more than 100 wraps come between two heartbeats (the firmware has one in every 25), with
-- the health gate or without, the watchdog is refreshed once in every 100 wraps: n wraps after a state with
-- wrap count c below 100 add (c + n) / 100 refreshes.
pub alive_updates :
    (gate : Bool) (ks : List ℕ) (w : Watchdog)
    → w.watchdog_wrap_count < pwm_wraps_per_watchdog_update
    → All (λ k. k ≤ pwm_wraps_per_watchdog_update) ks
    → (run_ticks gate (alive gate ks) w).updates
      ≡ w.updates + (w.watchdog_wrap_count + total ks) / pwm_wraps_per_watchdog_update
unfolding run_ticks tick
alive_updates gate [] w h l = omega arith
alive_updates gate (k ∷ ks) w h l =
    let w' = run_ticks gate (hung gate k) (heartbeat w) in
    let one = one_period gate k w h l.0 in
    let rest = alive_updates gate ks w' one.0 l.1 in
    ap (λ (x : Watchdog). x.updates)
      (run_ticks-append gate (hung gate k) (alive gate ks) (heartbeat w))
    ∙ omega (arith, one.0, one.1, rest)

-- For motors that are wired as at boot: a PWM wrap while it is not safe to run changes no output;
-- while it is safe, the output of each of the eight motors gets the position requested of it. The
-- watchdog is counted on in both cases alike.
pub on_pwm_wrap_handler_lem :
    (gate is_safe : Bool) (p : Pwm) (w : Watchdog)
    → IsWired p.motor_map
    → let (p', w') = on_pwm_wrap_handler gate is_safe p w in
      (is_safe ≡ false → p' ≡ p)
      × (is_safe ≡ true
          → (i : ℕ) → i < motor_map_size
          → p'.level ((13 - i) / 2) ((13 - i) % 2) ≡ (motor_at p.motor_map i).requested_position)
      × (w' ≡ count_wrap gate w)
unfolding on_pwm_wrap_handler
on_pwm_wrap_handler_lem gate false p w v = (λ e. refl, λ e. absurd (cc), refl)
on_pwm_wrap_handler_lem gate true p w v =
    (λ e. absurd (cc), λ e i h. drive_motors_lem p.motor_map v i p.level h, refl)
