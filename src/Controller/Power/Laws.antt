-- ===== src/Controller/Power/Laws.antt =====
-- Which motors have power after the operations on all of them.
use creature_controller.Common.{
  ℕ, suc, ◌-◌, ◌≤◌, ◌<◌, ◌≡◌, refl, ap, ◌∙◌, ◌↔◌, inl, inr, Bool, true, false, ◌&&◌, ◌||◌, List, [],
  ◌∷◌, arith, leb, ◌==◌, if◌then◌else◌, Bool-cases,
}
use creature_controller.Controller.Motors.{
  Motor, Pwm, motor_map_size, motor_at, get_motor_map_index,
}
use creature_controller.Controller.Motors.Wiring.{IsWired, IsSuffix, rest, first, whole}
use creature_controller.Controller.Power.{
  gpio_put, set_motor_power, enable_motor_power, disable_motor_power, Tally, enable_one,
  enable_each, enable_all_motors, disable_each, disable_all_motors,
}

-- Motor `m` of the map is found by its own name.
abbrev Finds : List Motor → Motor → Type 0
Finds ms m =
    (get_motor_map_index m.motor_id < motor_map_size)
    × (motor_at ms (get_motor_map_index m.motor_id) ≡ m)

abbrev AllFound : List Motor → List Motor → Type 0
AllFound ms [] = Unit
AllFound ms (m ∷ l) = Finds ms m × AllFound ms l

-- A pin of a configured motor in the list.
abbrev drives : List Motor → ℕ → Bool
drives [] q = false
drives (m ∷ l) q = (m.is_configured && (q == m.power_pin)) || drives l q

abbrev any_configured : List Motor → Bool
any_configured [] = false
any_configured (m ∷ l) = m.is_configured || any_configured l

abbrev is_power_pin : List Motor → ℕ → Bool
is_power_pin [] q = false
is_power_pin (m ∷ l) q = (q == m.power_pin) || is_power_pin l q

module _ (ms : List Motor) where
  set_motor_power_lem :
      (p : Pwm) (m : Motor) (v : Bool)
      → Finds ms m
      → p.motor_map ≡ ms
      → set_motor_power p m.motor_id v ≡ (record p { gpio = gpio_put p.gpio m.power_pin v }, true)
  unfolding set_motor_power
  set_motor_power_lem p m v f e =
      ground (arith, f, ap (λ (l : List Motor). motor_at l (get_motor_map_index m.motor_id)) e)

  -- One round of the loop of `enable_all_motors`.
  enable_one_lem :
      (m : Motor) (t : Tally)
      → Finds ms m
      → t.pwm.motor_map ≡ ms
      → let t' = enable_one m t in
        (t'.pwm.motor_map ≡ ms)
        × (t'.all_successful ≡ t.all_successful)
        × ((q : ℕ)
            → t'.pwm.gpio q
              ≡ (if m.is_configured && (q == m.power_pin) then true else t.pwm.gpio q))
        × ((t'.configured_count == 0)
            ≡ (if m.is_configured then false else t.configured_count == 0))
  unfolding enable_one enable_motor_power
  enable_one_lem m t f e = (
    ground (arith, set_motor_power_lem t.pwm m true f e),
    ground (arith, set_motor_power_lem t.pwm m true f e),
    λ q. ground (arith, set_motor_power_lem t.pwm m true f e),
    ground (arith, set_motor_power_lem t.pwm m true f e),
  )

  -- What the loop of `enable_all_motors` has done when it ends.
  enable_each_lem :
      (l : List Motor) (t : Tally)
      → AllFound ms l
      → t.pwm.motor_map ≡ ms
      → let t' = enable_each l t in
        (t'.pwm.motor_map ≡ ms)
        × (t'.all_successful ≡ t.all_successful)
        × ((q : ℕ) → t'.pwm.gpio q ≡ (if drives l q then true else t.pwm.gpio q))
        × ((t'.configured_count == 0)
            ≡ (if any_configured l then false else t.configured_count == 0))
  unfolding enable_each
  enable_each_lem [] t f e = (e, refl, λ q. refl, refl)
  enable_each_lem (m ∷ l) t f e =
      let one = enable_one_lem m t f.0 e in
      let ih = enable_each_lem l (enable_one m t) f.1 one.0 in
      (ih.0, ih.1 ∙ one.1, λ q. ground (arith, ih.2 q, one.2 q), ground (arith, ih.3, one.3))

  disable_each_lem :
      (l : List Motor) (r : Pwm × Bool)
      → AllFound ms l
      → r.0.motor_map ≡ ms
      → let r' = disable_each l r in
        (r'.0.motor_map ≡ ms)
        × (r'.1 ≡ r.1)
        × ((q : ℕ) → r'.0.gpio q ≡ (if is_power_pin l q then false else r.0.gpio q))
  unfolding disable_each disable_motor_power
  disable_each_lem [] r f e = (e, refl, λ q. refl)
  disable_each_lem (m ∷ l) r f e =
      let one = set_motor_power_lem r.0 m false f.0 e in
      let ih =
        disable_each_lem l (record r.0 { gpio = gpio_put r.0.gpio m.power_pin false }, r.1) f.1 e in
      (ground (arith, ih.0, one), ground (arith, ih.1, one), λ q. ground (arith, ih.2 q, one))

module _ (ms : List Motor) (w : IsWired ms) where
  all_found : (l : List Motor) (k : ℕ) → IsSuffix ms k l → AllFound ms l
  all_found [] k s = tt
  all_found (m ∷ l) k s =
      (ground (arith, first ms k m l s, w.named k, s.0), all_found l (suc k) (rest ms k m l s))

  drives_lem :
      (l : List Motor) (k i : ℕ)
      → IsSuffix ms k l
      → i < motor_map_size
      → drives l (21 - i) ≡ (if leb k i then (motor_at ms i).is_configured else false)
  drives_lem [] k i s h = ground (arith, s.0)
  drives_lem (m ∷ l) k i s h =
      ground (arith, s.0, first ms k m l s, w.pins k, drives_lem l (suc k) i (rest ms k m l s) h)

  is_power_pin_lem :
      (l : List Motor) (k i : ℕ)
      → IsSuffix ms k l
      → i < motor_map_size
      → is_power_pin l (21 - i) ≡ leb k i
  is_power_pin_lem [] k i s h = ground (arith, s.0)
  is_power_pin_lem (m ∷ l) k i s h =
      ground
        (arith, s.0, first ms k m l s, w.pins k, is_power_pin_lem l (suc k) i (rest ms k m l s) h)

  any_configured_found :
      (l : List Motor) (k : ℕ)
      → IsSuffix ms k l
      → any_configured l ≡ true
      → (i : ℕ) × (i < motor_map_size) × ((motor_at ms i).is_configured ≡ true)
  any_configured_found [] k s e = absurd (cc)
  any_configured_found (m ∷ l) k s e = elim (Bool-cases m.is_configured) [
    | inl here ↦
        (k, omega (arith, s.0), ap (λ (x : Motor). x.is_configured) (first ms k m l s) ∙ here)
    | inr there ↦ any_configured_found l (suc k) (rest ms k m l s) (rw there at e)
  ]

  found_any_configured :
      (l : List Motor) (k i : ℕ)
      → IsSuffix ms k l
      → k ≤ i
      → i < motor_map_size
      → (motor_at ms i).is_configured ≡ true
      → any_configured l ≡ true
  found_any_configured [] k i s a h e = absurd (omega (arith, s.0))
  found_any_configured (m ∷ l) k i s a h e =
      ground (arith, first ms k m l s, found_any_configured l (suc k) i (rest ms k m l s))

-- For motors that are wired as at boot: after `enable_all_motors` motor i has power exactly if it
-- is configured or had power before, and the result is true exactly if some motor is configured.
pub enable_all_motors_lem :
    (p : Pwm)
    → IsWired p.motor_map
    → let (p', done) = enable_all_motors p in
      ((i : ℕ)
        → i < motor_map_size
        → p'.gpio (21 - i) ≡ (motor_at p.motor_map i).is_configured || p.gpio (21 - i))
      × ((done ≡ true)
          ↔ ((i : ℕ) × (i < motor_map_size) × ((motor_at p.motor_map i).is_configured ≡ true)))
unfolding enable_all_motors
enable_all_motors_lem p w = (
  λ i h. ground (arith, ended.2 (21 - i), drives_lem ms w ms 0 i (whole ms w.eight) h),
  (
    λ e. any_configured_found ms w ms 0 (whole ms w.eight) (ground (arith, ended.3)),
    λ e. ground (
      arith,
      ended.1,
      ended.3,
      found_any_configured ms w ms 0 e.0 (whole ms w.eight) (omega arith) e.1 e.2,
    ),
  ),
)
  where
    ms : List Motor
    ms = p.motor_map

    begin : Tally
    begin = record { pwm = p; all_successful = true; configured_count = 0; powered_count = 0 }

    ended :
        let t' = enable_each ms begin in
        (t'.pwm.motor_map ≡ ms)
        × (t'.all_successful ≡ true)
        × ((q : ℕ) → t'.pwm.gpio q ≡ (if drives ms q then true else p.gpio q))
        × ((t'.configured_count == 0) ≡ (if any_configured ms then false else true))
    ended = enable_each_lem ms ms begin (all_found ms w ms 0 (whole ms w.eight)) refl

-- For motors that are wired as at boot, `disable_all_motors` succeeds and leaves no motor with
-- power.
pub disable_all_motors_lem :
    (p : Pwm)
    → IsWired p.motor_map
    → let (p', done) = disable_all_motors p in
      (done ≡ true) × ((i : ℕ) → i < motor_map_size → p'.gpio (21 - i) ≡ false)
unfolding disable_all_motors
disable_all_motors_lem p w = (
  ended.1,
  λ i h. ground (arith, ended.2 (21 - i), is_power_pin_lem ms w ms 0 i (whole ms w.eight) h),
)
  where
    ms : List Motor
    ms = p.motor_map

    ended :
        let r' = disable_each ms (p, true) in
        (r'.0.motor_map ≡ ms)
        × (r'.1 ≡ true)
        × ((q : ℕ) → r'.0.gpio q ≡ (if is_power_pin ms q then false else p.gpio q))
    ended = disable_each_lem ms ms (p, true) (all_found ms w ms 0 (whole ms w.eight)) refl
