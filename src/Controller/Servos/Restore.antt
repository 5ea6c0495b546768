-- ===== src/Controller/Servos/Restore.antt =====
-- Configuration and the re-initialization after a power loss give no torque to a servo that has not
-- been confirmed.
use creature_controller.Common.{
  ℕ, refl, inl, inr, Bool, true, false, not, ◌&&◌, ◌||◌, List, [], ◌∷◌, ◌++◌, map, leb, ltb, ◌==◌,
  if◌then◌else◌, length, Bool-cases,
}
use creature_controller.Dynamixel.Packet.{Packet}
use creature_controller.Dynamixel.Bus.{Hal, Bus}
use creature_controller.Dynamixel.Servo.Registers.{max_id}
use creature_controller.Controller.Servos.{
  Dxl, snapshot, velocities, unconfirm, new_motor, max_dynamixel_servos, max_profile_velocity,
  has_id, apply_led, apply_profile_velocity, set_torque_all, leds_off, reset_dynamixel_motor_map,
  mark_velocity_confirmed, apply_settings, configure_dynamixel_servo, reinitialize_each,
  reinitialize_all,
}
use creature_controller.Controller.Servos.Traffic.{Only, Only-refl, Only-trans, Only-weaken}
use creature_controller.Controller.Servos.Torque.{
  enables_torque, IsQuiet, IsAllowed, is_confirmed, quiet-IsAllowed, led_sent, velocity_sent,
  set_torque_all_sent,
}

off-IsQuiet : (p : Packet) → IsAllowed (λ _. false) p → IsQuiet p
off-IsQuiet p h = elim (Bool-cases (enables_torque p)) [
  | inl e ↦ absurd (let k = h e in cc)
  | inr e ↦ e
]

module _ {S : Type 0} (hal : Hal S) where
  leds_off_sent : (l : List (ℕ × Bool)) (b : Bus S) → Only IsQuiet b (leds_off hal l b)
  unfolding leds_off
  leds_off_sent [] b = Only-refl IsQuiet b b refl
  leds_off_sent ((id, c) ∷ l) b =
      Only-trans IsQuiet b (apply_led hal b id false).1
        (leds_off hal l (apply_led hal b id false).1) (led_sent hal b id false)
        (leds_off_sent l (apply_led hal b id false).1)

  torque_off_sent : (d : Dxl) (b : Bus S) → Only IsQuiet b (set_torque_all hal d b false)
  torque_off_sent d b =
      Only-weaken (IsAllowed (λ _. false)) IsQuiet b (set_torque_all hal d b false) off-IsQuiet
        (set_torque_all_sent hal d b false)

  -- Clearing the map enables no torque.
  pub reset_sent : (d : Dxl) (b : Bus S) → Only IsQuiet b (reset_dynamixel_motor_map hal d b).1
  unfolding reset_dynamixel_motor_map
  reset_sent d b =
      Only-trans IsQuiet b (set_torque_all hal d b false) (reset_dynamixel_motor_map hal d b).1
        (torque_off_sent d b) lights
    where
      b1 : Bus S
      b1 = set_torque_all hal d b false

      lights : Only IsQuiet b1 (reset_dynamixel_motor_map hal d b).1
      lights =
          unfold reset_dynamixel_motor_map in
          elim (Bool-cases (hal.rail_present b1.env)) [
            | inl up ↦ rw up (leds_off_sent (snapshot d.motors) b1)
            | inr down ↦ rw down (Only-refl IsQuiet b1 b1 refl)
          ]

  settings_sent :
      (b : Bus S) (id velocity : ℕ)
      → let (confirmed, b1) = apply_profile_velocity hal b id velocity in
        Only IsQuiet b (apply_led hal b1 id confirmed).1
  settings_sent b id velocity =
      Only-trans IsQuiet b r.1 (apply_led hal r.1 id r.0).1 (velocity_sent hal b id velocity)
        (led_sent hal r.1 id r.0)
    where
      r : Bool × Bus S
      r = apply_profile_velocity hal b id velocity

  apply_settings_sent :
      (d : Dxl) (b : Bus S) (id velocity : ℕ)
      → Only IsQuiet b (apply_settings hal d b id velocity).1
  unfolding apply_settings
  apply_settings_sent d b id velocity = elim (Bool-cases (hal.rail_present b.env)) [
    | inl up ↦ rw up (settings_sent b id velocity)
    | inr down ↦ rw down (Only-refl IsQuiet b b refl)
  ]

  -- Configuring a servo enables no torque.
  pub configure_sent :
      (d : Dxl) (b : Bus S) (id lo hi velocity : ℕ)
      → Only IsQuiet b (configure_dynamixel_servo hal d b id lo hi velocity).2
  unfolding configure_dynamixel_servo
  configure_sent d b id lo hi velocity = elim (Bool-cases (not d.ready)) [
    | inl c ↦ rw c nothing
    | inr c ↦ rw c (elim (Bool-cases ((id == 0) || ltb max_id id)) [
      | inl c' ↦ rw c' nothing
      | inr c' ↦ rw c' (elim (Bool-cases (leb max_dynamixel_servos (length d.motors))) [
        | inl full ↦ rw full nothing
        | inr room ↦ rw room (elim (Bool-cases (has_id id d.motors)) [
          | inl there ↦ rw there nothing
          | inr new ↦ rw new (apply_settings_sent added b id clamped)
        ])
      ])
    ])
  ]
    where
      nothing : Only IsQuiet b b
      nothing = Only-refl IsQuiet b b refl

      clamped : ℕ
      clamped = if ltb max_profile_velocity velocity then max_profile_velocity else velocity

      added : Dxl
      added = record d { motors = d.motors ++ (new_motor id lo hi clamped ∷ []) }

  reinitialize_each_sent :
      (l : List (ℕ × ℕ)) (d : Dxl) (b : Bus S) → Only IsQuiet b (reinitialize_each hal l d b).1
  unfolding reinitialize_each
  reinitialize_each_sent [] d b = Only-refl IsQuiet b b refl
  reinitialize_each_sent ((id, velocity) ∷ l) d b =
      Only-trans IsQuiet b b2 (reinitialize_each hal l (mark_velocity_confirmed d id r.0) b2).1
        (settings_sent b id velocity)
        (reinitialize_each_sent l (mark_velocity_confirmed d id r.0) b2)
    where
      r : Bool × Bus S
      r = apply_profile_velocity hal b id velocity

      b2 : Bus S
      b2 = (apply_led hal r.1 id r.0).1

  -- After a power loss torque is enabled only with no emergency stop, with a first frame received, and
  -- on a servo whose velocity is confirmed in the map that the re-initialization leaves.
  pub reinitialize_all_sent :
      (estop first_frame : Bool) (d : Dxl) (b : Bus S)
      → let (d', b') = reinitialize_all hal estop first_frame d b in
        Only (IsAllowed (λ id. not estop && first_frame && is_confirmed d'.motors id)) b b'
  unfolding reinitialize_all
  reinitialize_all_sent estop first_frame d b =
      elim (Bool-cases (not d.ready || (length d.motors == 0))) [
        | inl idle ↦ rw idle (Only-refl (Allowed d) b b refl)
        | inr some ↦ rw some (behind_guard estop first_frame)
      ]
    where
      Allowed : Dxl → Packet → Type 0
      Allowed x = IsAllowed (λ id. not estop && first_frame && is_confirmed x.motors id)

      r : Dxl × Bus S
      r =
          reinitialize_each hal (velocities d.motors) (record d { motors = map unconfirm d.motors })
            b

      quiet : (P : ℕ → Bool) → Only (IsAllowed P) b r.1
      quiet P = Only-weaken IsQuiet (IsAllowed P) b r.1 (quiet-IsAllowed P) (
          reinitialize_each_sent (velocities d.motors)
            (record d { motors = map unconfirm d.motors }) b)

      behind_guard :
          (e f : Bool)
          → let (d', b') =
              if e then r else if not f then r else (r.0, set_torque_all hal r.0 r.1 true) in
            Only (IsAllowed (λ id. not e && f && is_confirmed d'.motors id)) b b'
      behind_guard true f = quiet (λ id. not true && f && is_confirmed r.0.motors id)
      behind_guard false false = quiet (λ id. not false && false && is_confirmed r.0.motors id)
      behind_guard false true =
          Only-trans (IsAllowed (λ id. is_confirmed r.0.motors id)) b r.1
            (set_torque_all hal r.0 r.1 true) (quiet (λ id. is_confirmed r.0.motors id))
            (set_torque_all_sent hal r.0 r.1 true)
