-- ===== src/Controller/Lifecycle/Rail.antt =====
-- The watch on the motors' power rail over many samples.
use creature_controller.Common.{Bool, true, false, List, [], ◌∷◌, ◌≡◌, arith}
use creature_controller.Controller.Servos.{Dxl}
use creature_controller.Controller.Lifecycle.{controller_motor_power_sample}

module _ {V : Type 0} (lost restored : V → Bool) where
  -- One sample after another, while no re-initialization is served.
  unfoldable pub power_samples : List V → Bool → Dxl → Bool × Dxl
  power_samples [] rail d = (rail, d)
  power_samples (v ∷ vs) rail d =
      let (rail', d') = controller_motor_power_sample lost restored v rail d in
      power_samples vs rail' d'

  abbrev IsPending : Bool → Dxl → Type 0
  IsPending rail d = rail ≡ true → d.reinit_requested ≡ true

  sample-IsPending :
      (v : V) (rail : Bool) (d : Dxl)
      → IsPending rail d
      → let (rail', d') = controller_motor_power_sample lost restored v rail d in IsPending rail' d'
  unfolding controller_motor_power_sample
  sample-IsPending v true d h = λ e. ground arith
  sample-IsPending v false d h = λ e. ground arith

  samples-IsPending :
      (vs : List V) (rail : Bool) (d : Dxl)
      → IsPending rail d
      → let (rail', d') = power_samples vs rail d in IsPending rail' d'
  unfolding power_samples
  samples-IsPending [] rail d h = h
  samples-IsPending (v ∷ vs) rail d h =
      let r = controller_motor_power_sample lost restored v rail d in
      samples-IsPending vs r.0 r.1 (sample-IsPending v rail d h)

  -- From a time without power on, whatever is measured: if there is power in the end, then a
  -- re-initialization of the servos has been requested, as long as none has been served since.
  pub power_samples_lem :
      (vs : List V) (d : Dxl)
      → (power_samples vs false d).0 ≡ true
      → (power_samples vs false d).1.reinit_requested ≡ true
  power_samples_lem vs d = samples-IsPending vs false d (λ e. absurd (cc))
