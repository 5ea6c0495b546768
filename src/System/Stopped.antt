-- ===== src/System/Stopped.antt =====
-- What the emergency stop guarantees over everything that may happen after it.
use creature_controller.Common.{
  ℕ, ◌-◌, ◌≤◌, ◌<◌, ◌≡◌, refl, ap, inl, inr, Bool, true, false, not, ◌&&◌, ◌||◌, List, [], ◌∷◌,
  Option, length, if_both, if◌then◌else◌, Bool-cases, All,
}
use creature_controller.Dynamixel.Packet.{Packet}
use creature_controller.Dynamixel.Bus.{Hal, Bus}
use creature_controller.Dynamixel.Sync.{SyncResult}
use creature_controller.Controller.Isr.{Watchdog, count_wrap, on_pwm_wrap_handler}
use creature_controller.Controller.Motors.{Pwm, motor_map_size, drive_motors}
use creature_controller.Controller.Servos.Traffic.{Only, Only-refl, Only-trans, Only-weaken}
use creature_controller.Controller.Servos.Torque.{IsQuiet, IsAllowed, enables_torque, is_confirmed}
use creature_controller.Controller.Lifecycle.{
  Flags, configuring, is_configuring, controller_connected, controller_disconnected,
  controller_reset_request_check,
}
use creature_controller.Controller.Task.{task_pass}
use creature_controller.Controller.Task.Safety.{task_pass_sent}
use creature_controller.Messaging.Parser.Frames.{IsField, frame}
use creature_controller.Messaging.Processor.{serving, stopped, estop_type, incoming_messages}
use creature_controller.Messaging.Processor.Safety.{stopped_ignores, emergency_stop_final}
use creature_controller.System.{
  System, Step, receiving, passing, wrapping, beating, connecting, disconnecting, checking_pin,
  asking, sampling, outside, sending, Reach, here, later, receive, pass, wrap, sample, frame_of,
  on_board,
}
use creature_controller.System.Sound.{IsRegular}

-- The message task has stopped, the emergency stop is set, and no PWM motor has power.
pub record IsStopped {S : Type 0} (x : System S) : Type 0 where
  pub halted : x.link.service ≡ stopped
  pub estop : x.link.board.flags.estop ≡ true
  pub unpowered : (i : ℕ) → i < motor_map_size → x.link.board.pwm.gpio (21 - i) ≡ false

check-estop : (level : Bool) (f : Flags) → (controller_reset_request_check level f).estop ≡ f.estop
unfolding controller_reset_request_check
check-estop level f =
    if_both (λ (g : Flags). g.estop ≡ f.estop) (not level) f
      (if is_configuring f.state then f else reset) refl
      (if_both (λ (g : Flags). g.estop ≡ f.estop) (is_configuring f.state) f reset refl refl)
  where
    reset : Flags
    reset = record f { safe_to_run = false; state = configuring; init_timer = true }

no_torque :
    (stop late : Bool) (p : Packet)
    → stop ≡ true
    → (enables_torque p ≡ true → not stop && late ≡ true)
    → IsQuiet p
no_torque stop late p e h = elim (Bool-cases (enables_torque p)) [
  | inl on ↦ absurd (let k = h on in cc)
  | inr off ↦ off
]

module _ {S V : Type 0} (hal : Hal S) (ticks : ℕ → ℕ → ℕ → ℕ)
    (token : ℕ → Option SyncResult → List ℕ) (gate : Bool) (lost restored : V → Bool) where
  -- Everything stays stopped, and nothing that enables torque goes onto the bus.
  abbrev Stays : System S → System S → Type 0
  Stays x y = IsStopped y × Only IsQuiet x.link.bus y.link.bus

  none_sent : (b b' : Bus S) → b'.sent ≡ b.sent → Only IsQuiet b b'
  none_sent b b' e = Only-refl IsQuiet b b' e

  pass-IsQuiet :
      (got_offline got_map : Bool) (x : System S)
      → x.link.board.flags.estop ≡ true
      → Only IsQuiet x.link.bus
          (task_pass hal token got_offline got_map x.link.board.flags (frame_of x)).bus
  pass-IsQuiet got_offline got_map x e =
      Only-weaken
        (IsAllowed (λ id.
          not f.estop
          && (is_confirmed x.link.board.dxl.motors id
              || (f.first_frame
                  && is_confirmed
                      (task_pass hal token got_offline got_map f (frame_of x)).dxl.motors id))))
        IsQuiet x.link.bus (task_pass hal token got_offline got_map f (frame_of x)).bus
        (λ p.
          no_torque f.estop
            (is_confirmed x.link.board.dxl.motors p.id
              || (f.first_frame
                  && is_confirmed
                      (task_pass hal token got_offline got_map f (frame_of x)).dxl.motors p.id))
            p e)
        (task_pass_sent hal token got_offline got_map f (frame_of x))
    where
      f : Flags
      f = x.link.board.flags

  Step-Stays :
      {x y : System S} → Step hal ticks token gate lost restored x y → IsStopped x → Stays x y
  unfolding receive pass wrap sample on_pwm_wrap_handler controller_connected
      controller_disconnected
  Step-Stays {x = x} (receiving now raw) h =
      rw (stopped_ignores hal ticks ((now, raw) ∷ []) x.link h.halted)
        (h, none_sent x.link.bus x.link.bus refl)
  Step-Stays {x = x} (passing got_offline got_map) h = (
    record { halted = h.halted; estop = h.estop; unpowered = h.unpowered },
    pass-IsQuiet got_offline got_map x h.estop,
  )
  Step-Stays {x = x} wrapping h =
      if_both
        (λ (p : Pwm). Stays x (on_board (λ c. record c { pwm = p }) (record x { watchdog = w })))
        x.link.board.flags.safe_to_run driven x.link.board.pwm
        (
          record { halted = h.halted; estop = h.estop; unpowered = h.unpowered },
          none_sent x.link.bus x.link.bus refl,
        )
        (
          record { halted = h.halted; estop = h.estop; unpowered = h.unpowered },
          none_sent x.link.bus x.link.bus refl,
        )
    where
      w : Watchdog
      w = count_wrap gate x.watchdog

      driven : Pwm
      driven = record x.link.board.pwm {
        level = drive_motors x.link.board.pwm.motor_map x.link.board.pwm.level;
      }
  Step-Stays {x = x} beating h = (
    record { halted = h.halted; estop = h.estop; unpowered = h.unpowered },
    none_sent x.link.bus x.link.bus refl,
  )
  Step-Stays {x = x} connecting h = (
    record { halted = h.halted; estop = h.estop; unpowered = h.unpowered },
    none_sent x.link.bus x.link.bus refl,
  )
  Step-Stays {x = x} disconnecting h = (
    record { halted = h.halted; estop = h.estop; unpowered = h.unpowered },
    none_sent x.link.bus x.link.bus refl,
  )
  Step-Stays {x = x} (checking_pin level) h = (
    record {
      halted = h.halted;
      estop = rw (check-estop level x.link.board.flags) h.estop;
      unpowered = h.unpowered;
    },
    none_sent x.link.bus x.link.bus refl,
  )
  Step-Stays {x = x} (asking e) h = (
    record { halted = h.halted; estop = h.estop; unpowered = h.unpowered },
    none_sent x.link.bus x.link.bus refl,
  )
  Step-Stays {x = x} (sampling v e r) h = (
    record { halted = h.halted; estop = h.estop; unpowered = h.unpowered },
    none_sent x.link.bus (record x.link.bus { env = e }) refl,
  )
  Step-Stays {x = x} (outside e r) h = (
    record { halted = h.halted; estop = h.estop; unpowered = h.unpowered },
    none_sent x.link.bus (record x.link.bus { env = e }) refl,
  )
  Step-Stays {x = x} sending h = (
    record { halted = h.halted; estop = h.estop; unpowered = h.unpowered },
    none_sent x.link.bus x.link.bus refl,
  )

  Reach-Stays :
      {x y : System S} → IsStopped x → Reach hal ticks token gate lost restored x y → Stays x y
  Reach-Stays {x = x} h here = (h, none_sent x.link.bus x.link.bus refl)
  Reach-Stays {x = x} h (later {y = y} {z = z} r s) =
      let first = Reach-Stays h r in
      let second = Step-Stays s first.0 in
      (second.0, Only-trans IsQuiet x.link.bus y.link.bus z.link.bus first.1 second.1)

  -- An ESTOP frame of at most 255 bytes and at most 27 tokens of at most 39 characters, taken by a
  -- regular board whose message task serves messages, at a moment when no pass of the Dynamixel task is
  -- under way: `receive` and `pass` are whole steps here. From then on, whatever passes, timers,
  -- interrupts, further messages and steps of the outside follow, in whatever order: the message task has
  -- stopped, the emergency stop stays set, no PWM motor has power, and no packet of these passes enables
  -- torque. Of a pass that was under way, which has looked at the flag before, nothing is said.
  pub stop_is_final :
      {x y : System S} (now : ℕ) (tokens : List (List ℕ))
      → IsRegular ticks x
      → x.link.service ≡ serving
      → All (IsField 39) tokens
      → length tokens ≤ 27
      → length (frame estop_type tokens) ≤ 255
      → let z = receive hal ticks token gate lost restored now (frame estop_type tokens) x in
        Reach hal ticks token gate lost restored z y
        → IsStopped y × Only IsQuiet x.link.bus y.link.bus
  unfolding receive
  stop_is_final {x = x} {y = y} now tokens h s t n len r =
      let done = emergency_stop_final hal ticks now tokens [] x.link s h.order.wired t n len in
      let after = Reach-Stays (record { halted = done.0; estop = done.1; unpowered = done.3 }) r in
      let stop = incoming_messages hal ticks ((now, frame estop_type tokens) ∷ []) x.link in
      (
        after.0,
        Only-trans IsQuiet x.link.bus stop.bus y.link.bus
            (none_sent x.link.bus stop.bus (ap (λ (b : Bus S). b.sent) done.4)) after.1,
      )
