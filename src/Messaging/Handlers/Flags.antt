-- ===== src/Messaging/Handlers/Flags.antt =====
-- How the handlers change the flags of the board.
use creature_controller.Common.{
  ℕ, ◌≡◌, refl, ap, Bool, true, false, not, List, if◌then◌else◌, if_both, if_split, arith,
}
use creature_controller.Dynamixel.Bus.{Hal, Bus}
use creature_controller.Controller.Motors.{reset_servo_motor_map}
use creature_controller.Controller.Servos.{Dxl, reset_dynamixel_motor_map}
use creature_controller.Controller.Lifecycle.{
  Flags, FirmwareState, Board, first_frame_received, firmware_configuration_received,
}
use creature_controller.Messaging.Handlers.{
  Handled, accepted, refused, fault, conclude, configure_motors, handle_config_message,
  handle_emergency_stop_message, request_motors, handle_position_message,
}
use creature_controller.Messaging.Handlers.Kept.{configure_motors-Keeps, request_motors-Keeps}
use creature_controller.Messaging.Handlers.Orderly.{IsGated}

-- The four ways: not at all (but for the init timer), by a configuration, by the first frame while the
-- board runs, and by the emergency stop.
pub data Change (f f' : Flags) : Type 0 where
  same : f'.state ≡ f.state → f'.first_frame ≡ f.first_frame → f'.estop ≡ f.estop → Change f f'
  configured :
      f'.state ≡ FirmwareState.running
      → f'.first_frame ≡ f.first_frame
      → f'.estop ≡ f.estop
      → Change f f'
  framed :
      f.state ≡ FirmwareState.running
      → f'.state ≡ f.state
      → f.first_frame ≡ false
      → f'.first_frame ≡ true
      → f'.estop ≡ f.estop
      → Change f f'
  stopping : f'.state ≡ f.state → f'.first_frame ≡ f.first_frame → f'.estop ≡ true → Change f f'

module _ {S : Type 0} (hal : Hal S) where
  conclude-Change :
      (f : Flags) (h : Handled) (c : Board)
      → c.flags ≡ record f { init_timer = false }
      → Change f (conclude hal h c).flags
  unfolding conclude firmware_configuration_received
  conclude-Change f accepted c e = rw e (configured refl refl refl)
  conclude-Change f refused c e = rw e (same refl refl refl)
  conclude-Change f fault c e = rw e (same refl refl refl)

  pub handle_config_message-Change :
      (tokens : List (List ℕ)) (c : Board) (b : Bus S)
      → Change c.flags (handle_config_message hal tokens c b).1.flags
  unfolding handle_config_message
  handle_config_message-Change tokens c b =
      conclude-Change c.flags end.0 end.1 (configure_motors-Keeps hal tokens fresh r.1).0
    where
      r : Dxl × Bus S
      r = reset_dynamixel_motor_map hal c.dxl b

      fresh : Board
      fresh = record c {
        flags = record c.flags { init_timer = false };
        pwm = reset_servo_motor_map c.pwm;
        dxl = r.0;
      }

      end : Handled × Board × Bus S
      end = configure_motors hal tokens fresh r.1

pub handle_emergency_stop_message-Change :
    (c : Board) → Change c.flags (handle_emergency_stop_message c).flags
unfolding handle_emergency_stop_message
handle_emergency_stop_message-Change c = stopping refl refl refl

pub handle_position_message-Change :
    (ticks : ℕ → ℕ → ℕ → ℕ) (tokens : List (List ℕ)) (c : Board)
    → IsGated c.flags
    → Change c.flags (handle_position_message ticks tokens c).1.flags
unfolding handle_position_message first_frame_received
handle_position_message-Change ticks tokens c g =
    if_split K (not c.flags.safe_to_run) (true, c) gated (λ _. same refl refl refl)
      (λ safe.
        if_both K (not r.0) (false, r.1) started kept
          (if_split K (not r.1.flags.first_frame) (true, first_frame_received r.1 true) (true, r.1)
            (λ fresh.
              framed (g.0 (ground arith)) (rw flags refl)
                (ground (arith, ap (λ (f : Flags). f.first_frame) flags)) refl (rw flags refl))
            (λ _. kept)))
  where
    r : Bool × Board
    r = request_motors ticks tokens c

    started : Bool × Board
    started =
        if not r.1.flags.first_frame then (true, first_frame_received r.1 true) else (true, r.1)

    gated : Bool × Board
    gated = if not r.0 then (false, r.1) else started

    K : Bool × Board → Type 0
    K x = Change c.flags x.1.flags

    flags : r.1.flags ≡ c.flags
    flags = (request_motors-Keeps ticks tokens c).0

    kept : Change c.flags r.1.flags
    kept = rw flags (same refl refl refl)
