-- ===== src/System/Released.antt =====
-- What the first pass of the Dynamixel task does after the emergency stop.
use creature_controller.Common.{ℕ, ◌≤◌, ◌≡◌, subst, ◌∙◌, Bool, true, List, [], Option, length, All}
use creature_controller.Dynamixel.Bus.{Hal, Bus}
use creature_controller.Dynamixel.Sync.{SyncResult}
use creature_controller.Controller.Servos.{DxlMotor}
use creature_controller.Controller.Servos.Traffic.{Only}
use creature_controller.Controller.Servos.Torque.{IsQuiet}
use creature_controller.Controller.Servos.Released.{torque_off, Puts}
use creature_controller.Controller.Task.Released.{task_pass-Puts}
use creature_controller.Messaging.Parser.Frames.{IsField, frame}
use creature_controller.Messaging.Processor.{serving, estop_type}
use creature_controller.Messaging.Processor.Safety.{emergency_stop_final, emergency_stop_keeps}
use creature_controller.System.{System, here, later, passing, receive, pass, frame_of}
use creature_controller.System.Sound.{IsRegular}
use creature_controller.System.Stopped.{IsStopped, stop_is_final}

module _ {S V : Type 0} (hal : Hal S) (ticks : ℕ → ℕ → ℕ → ℕ)
    (token : ℕ → Option SyncResult → List ℕ) (gate : Bool) (lost restored : V → Bool) where
  -- An ESTOP frame of at most 255 bytes and at most 27 tokens of at most 39 characters, taken by a
  -- regular board whose message task serves messages and whose bus driver is set up, in whatever state
  -- its servos are, and the pass of the Dynamixel task that begins next, while the motors have power:
  -- this pass writes 0 to the Torque Enable register of every servo of the map, and enables the torque
  -- of none; then the emergency stop stays set, and the PWM motors have no power.
  pub stop_releases :
      (x : System S) (now : ℕ) (tokens : List (List ℕ)) (got_offline got_map : Bool)
      → IsRegular ticks x
      → x.link.service ≡ serving
      → x.link.board.dxl.ready ≡ true
      → ((e : S) → hal.rail_present e ≡ true)
      → All (IsField 39) tokens
      → length tokens ≤ 27
      → length (frame estop_type tokens) ≤ 255
      → let z = receive hal ticks token gate lost restored now (frame estop_type tokens) x in
        let y = pass hal ticks token gate lost restored got_offline got_map z in
        All
          (λ (m : DxlMotor). Puts (torque_off m.dxl_id) x.link.bus y.link.bus)
          x.link.board.dxl.motors
        × Only IsQuiet x.link.bus y.link.bus
        × IsStopped y
  unfolding receive pass
  stop_releases x now tokens got_offline got_map h s ready up t n len =
      let done = emergency_stop_final hal ticks now tokens [] x.link s h.order.wired t n len in
      let keeps = emergency_stop_keeps hal ticks now tokens x.link s t n len in
      (
        subst
            (λ (b : Bus S).
              All (λ (m : DxlMotor). Puts (torque_off m.dxl_id) b y.link.bus)
                x.link.board.dxl.motors)
            done.4
            (subst
              (λ (ms : List DxlMotor).
                All (λ (m : DxlMotor). Puts (torque_off m.dxl_id) z.link.bus y.link.bus) ms)
              keeps.0
              (task_pass-Puts hal token got_offline got_map z.link.board.flags (frame_of z) up
                (keeps.1 ∙ ready) done.2)),
        final.1,
        final.0,
      )
    where
      z : System S
      z = receive hal ticks token gate lost restored now (frame estop_type tokens) x

      y : System S
      y = pass hal ticks token gate lost restored got_offline got_map z

      final : IsStopped y × Only IsQuiet x.link.bus y.link.bus
      final =
          stop_is_final hal ticks token gate lost restored now tokens h s t n len
            (later here (passing got_offline got_map))
