-- ===== src/Controller/Servos/Torque.antt =====
-- Which servos may be given torque.
use creature_controller.Common.{
  ℕ, ◌≡◌, refl, inl, inr, Bool, true, false, not, ◌&&◌, ◌||◌, List, [], ◌∷◌, arith, ◌==◌,
  if◌then◌else◌, length, get_or, Bool-cases, All,
}
use creature_controller.Dynamixel.Packet.{Packet}
use creature_controller.Dynamixel.Bus.{Hal, Bus}
use creature_controller.Dynamixel.Servo.{value_bytes}
use creature_controller.Dynamixel.Servo.Registers.{
  inst_write, reg_torque_enable, reg_led, reg_profile_velocity,
}
use creature_controller.Controller.Servos.{
  DxlMotor, Dxl, snapshot, write_max_attempts, apply_register, apply_torque, apply_led,
  apply_profile_velocity, torque_each, set_torque_all,
}
use creature_controller.Controller.Servos.Traffic.{
  Only, Only-refl, Only-trans, Only-weaken, IsRegisterPacket, apply_attempts_sent,
}

-- A packet that writes something other than 0 to the Torque Enable register.
abbrev pub enables_torque : Packet → Bool
enables_torque p =
    (p.instruction == inst_write)
    && (get_or p.params 0 0 == reg_torque_enable)
    && (get_or p.params 1 0 == 0)
    && not (get_or p.params 2 0 == 0)

abbrev pub IsQuiet : Packet → Type 0
IsQuiet p = enables_torque p ≡ false

-- A packet enables torque only on the servos that the test admits.
abbrev pub IsAllowed : (ℕ → Bool) → Packet → Type 0
IsAllowed admits p = enables_torque p ≡ true → admits p.id ≡ true

-- Is the velocity of this servo confirmed in the motor map?
abbrev pub is_confirmed : List DxlMotor → ℕ → Bool
is_confirmed [] id = false
is_confirmed (m ∷ ms) id = ((m.dxl_id == id) && m.velocity_confirmed) || is_confirmed ms id

pub quiet-IsAllowed : (admits : ℕ → Bool) (p : Packet) → IsQuiet p → IsAllowed admits p
quiet-IsAllowed admits p h e = absurd (ground arith)

led-IsQuiet : (id v : ℕ) (p : Packet) → IsRegisterPacket id reg_led 1 v p → IsQuiet p
unfolding value_bytes
led-IsQuiet id v p (inl e) = rw e refl
led-IsQuiet id v p (inr e) = rw e refl

velocity-IsQuiet :
    (id v : ℕ) (p : Packet) → IsRegisterPacket id reg_profile_velocity 4 v p → IsQuiet p
unfolding value_bytes
velocity-IsQuiet id v p (inl e) = rw e refl
velocity-IsQuiet id v p (inr e) = rw e refl

torque-IsAllowed :
    (admits : ℕ → Bool) (id : ℕ) (on : Bool)
    → (on ≡ true → admits id ≡ true)
    → (p : Packet) → IsRegisterPacket id reg_torque_enable 1 (if on then 1 else 0) p
    → IsAllowed admits p
unfolding value_bytes
torque-IsAllowed admits id true h p (inl e) = rw e (λ _. h refl)
torque-IsAllowed admits id false h p (inl e) = rw e (λ k. absurd (cc))
torque-IsAllowed admits id on h p (inr e) = rw e (λ k. absurd (cc))

module _ {S : Type 0} (hal : Hal S) where
  pub led_sent : (b : Bus S) (id : ℕ) (on : Bool) → Only IsQuiet b (apply_led hal b id on).1
  unfolding apply_led apply_register
  led_sent b id on =
      Only-weaken (IsRegisterPacket id reg_led 1 (if on then 1 else 0)) IsQuiet b
        (apply_led hal b id on).1 (led-IsQuiet id (if on then 1 else 0))
        (apply_attempts_sent hal id reg_led 1 (if on then 1 else 0) write_max_attempts b)

  pub velocity_sent : (b : Bus S) (id v : ℕ) → Only IsQuiet b (apply_profile_velocity hal b id v).1
  unfolding apply_profile_velocity apply_register
  velocity_sent b id v =
      Only-weaken (IsRegisterPacket id reg_profile_velocity 4 v) IsQuiet b
        (apply_profile_velocity hal b id v).1 (velocity-IsQuiet id v)
        (apply_attempts_sent hal id reg_profile_velocity 4 v write_max_attempts b)

  torque_sent :
      (admits : ℕ → Bool) (b : Bus S) (id : ℕ) (on : Bool)
      → (on ≡ true → admits id ≡ true)
      → Only (IsAllowed admits) b (apply_torque hal b id on).1
  unfolding apply_torque apply_register
  torque_sent admits b id on h =
      Only-weaken (IsRegisterPacket id reg_torque_enable 1 (if on then 1 else 0)) (IsAllowed admits)
        b (apply_torque hal b id on).1 (torque-IsAllowed admits id on h)
        (apply_attempts_sent hal id reg_torque_enable 1 (if on then 1 else 0) write_max_attempts b)

  torque_each_sent :
      (admits : ℕ → Bool) (on : Bool) (l : List (ℕ × Bool)) (b : Bus S)
      → All (λ e. on && e.1 ≡ true → admits e.0 ≡ true) l
      → Only (IsAllowed admits) b (torque_each hal on l b)
  unfolding torque_each
  torque_each_sent admits on [] b h = Only-refl (IsAllowed admits) b b refl
  torque_each_sent admits on ((id, c) ∷ l) b h =
      Only-trans (IsAllowed admits) b (apply_torque hal b id (on && c)).1
        (torque_each hal on l (apply_torque hal b id (on && c)).1)
        (torque_sent admits b id (on && c) h.0)
        (torque_each_sent admits on l (apply_torque hal b id (on && c)).1 h.1)

  -- The flags copied are those of the map.
  flags_confirmed :
      (on : Bool) (test : ℕ → Bool) (ms : List DxlMotor)
      → ((id : ℕ) → is_confirmed ms id ≡ true → test id ≡ true)
      → All (λ e. on && e.1 ≡ true → on && test e.0 ≡ true) (snapshot ms)
  flags_confirmed on test [] h = tt
  flags_confirmed on test (m ∷ ms) h =
      (λ k. ground (arith, h m.dxl_id), flags_confirmed on test ms (λ id k. h id (ground arith)))

  -- `dynamixel_set_torque_all` enables torque only where it was asked to, and then only on servos whose
  -- velocity is confirmed.
  pub set_torque_all_sent :
      (d : Dxl) (b : Bus S) (on : Bool)
      → Only (IsAllowed (λ id. on && is_confirmed d.motors id)) b (set_torque_all hal d b on)
  unfolding set_torque_all
  set_torque_all_sent d b on = elim (Bool-cases (not d.ready || (length d.motors == 0))) [
    | inl idle ↦ rw idle (Only-refl Allowed b b refl)
    | inr some ↦ rw some (elim (Bool-cases (hal.rail_present b.env)) [
      | inr down ↦ rw down (Only-refl Allowed b b refl)
      | inl up ↦ rw up (
          torque_each_sent (λ id. on && is_confirmed d.motors id) on (snapshot d.motors) b
            (flags_confirmed on (is_confirmed d.motors) d.motors (λ id k. k)))
    ])
  ]
    where
      Allowed : Packet → Type 0
      Allowed = IsAllowed (λ id. on && is_confirmed d.motors id)
