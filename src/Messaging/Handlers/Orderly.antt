-- ===== src/Messaging/Handlers/Orderly.antt =====
-- What the handlers leave in order: the flags that gate motion, the wiring of the motors, and the bounds
-- of the outgoing queue.
use creature_controller.Common.{
  ℕ, ◌≡◌, ◌↔◌, refl, Bool, true, false, not, List, ◌∷◌, if◌then◌else◌, if_both,
}
use creature_controller.Dynamixel.Bus.{Hal, Bus}
use creature_controller.Controller.Motors.{reset_servo_motor_map}
use creature_controller.Controller.Motors.Wiring.{IsWired, reset_servo_motor_map-IsWired}
use creature_controller.Controller.Power.Keeps.{enable_all_motors-keeps, disable_all_motors-keeps}
use creature_controller.Controller.Servos.{Dxl, reset_dynamixel_motor_map}
use creature_controller.Controller.Lifecycle.{
  Flags, FirmwareState, Board, ready_message, first_frame_received, firmware_configuration_received,
}
use creature_controller.Controller.Lifecycle.Queue.{IsBounded, send_to_controller-IsBounded}
use creature_controller.Messaging.Text.Numbers.{decimal}
use creature_controller.Messaging.Handlers.{
  Handled, accepted, refused, fault, conclude, configure_motors, handle_config_message,
  handle_emergency_stop_message, handle_ping_message, request_motors, handle_position_message,
}
use creature_controller.Messaging.Handlers.Kept.{
  Keeps, configure_motors-Keeps, request_motors-Keeps,
}

-- The board may move exactly while its state is `running`.
abbrev pub IsGated : Flags → Type 0
IsGated f = (f.safe_to_run ≡ true) ↔ (f.state ≡ FirmwareState.running)

pub record IsOrderly (c : Board) : Type 0 where
  pub gated : IsGated c.flags
  pub wired : IsWired c.pwm.motor_map
  pub bounded : IsBounded c.outgoing

Keeps-IsOrderly : (c c' : Board) → Keeps c c' → IsOrderly c → IsOrderly c'
Keeps-IsOrderly c c' k h = record {
  gated = rw k.0 h.gated;
  wired = k.2 h.wired;
  bounded = rw k.1 h.bounded;
}

module _ {S : Type 0} (hal : Hal S) where
  conclude-IsOrderly : (h : Handled) (c : Board) → IsOrderly c → IsOrderly (conclude hal h c)
  unfolding conclude firmware_configuration_received
  conclude-IsOrderly accepted c o = record {
    gated = (λ _. refl, λ _. refl);
    wired = o.wired;
    bounded = send_to_controller-IsBounded c.outgoing ready_message o.bounded;
  }
  conclude-IsOrderly refused c o = record { gated = o.gated; wired = o.wired; bounded = o.bounded }
  conclude-IsOrderly fault c o = o

  pub handle_config_message-IsOrderly :
      (tokens : List (List ℕ)) (c : Board) (b : Bus S)
      → IsOrderly c
      → IsOrderly (handle_config_message hal tokens c b).1
  unfolding handle_config_message
  handle_config_message-IsOrderly tokens c b o =
      conclude-IsOrderly end.0 end.1
        (Keeps-IsOrderly fresh end.1 (configure_motors-Keeps hal tokens fresh r.1) begun)
    where
      r : Dxl × Bus S
      r = reset_dynamixel_motor_map hal c.dxl b

      fresh : Board
      fresh = record c {
        flags = record c.flags { init_timer = false };
        pwm = reset_servo_motor_map c.pwm;
        dxl = r.0;
      }

      begun : IsOrderly fresh
      begun = record {
        gated = o.gated;
        wired = reset_servo_motor_map-IsWired c.pwm o.wired;
        bounded = o.bounded;
      }

      end : Handled × Board × Bus S
      end = configure_motors hal tokens fresh r.1

pub handle_emergency_stop_message-IsOrderly :
    (c : Board) → IsOrderly c → IsOrderly (handle_emergency_stop_message c)
unfolding handle_emergency_stop_message
handle_emergency_stop_message-IsOrderly c o = record {
  gated = o.gated;
  wired = rw (disable_all_motors-keeps c.pwm) o.wired;
  bounded = o.bounded;
}

pub handle_ping_message-IsOrderly :
    (now : ℕ) (c : Board) → IsOrderly c → IsOrderly (handle_ping_message now c)
unfolding handle_ping_message
handle_ping_message-IsOrderly now c o = record {
  gated = o.gated;
  wired = o.wired;
  bounded =
      send_to_controller-IsBounded c.outgoing (b'P' ∷ b'O' ∷ b'N' ∷ b'G' ∷ 9 ∷ decimal 10 now)
        o.bounded;
}

first_frame_received-IsOrderly : (c : Board) → IsOrderly c → IsOrderly (first_frame_received c true)
unfolding first_frame_received
first_frame_received-IsOrderly c o = record {
  gated = o.gated;
  wired = rw (enable_all_motors-keeps c.pwm) o.wired;
  bounded = o.bounded;
}

pub handle_position_message-IsOrderly :
    (ticks : ℕ → ℕ → ℕ → ℕ) (tokens : List (List ℕ)) (c : Board)
    → IsOrderly c
    → IsOrderly (handle_position_message ticks tokens c).1
unfolding handle_position_message
handle_position_message-IsOrderly ticks tokens c o =
    if_both K (not c.flags.safe_to_run) (true, c) gated o
      (if_both K (not r.0) (false, r.1) framed requested
        (if_both K (not r.1.flags.first_frame) (true, first_frame_received r.1 true) (true, r.1)
          (first_frame_received-IsOrderly r.1 requested) requested))
  where
    r : Bool × Board
    r = request_motors ticks tokens c

    framed : Bool × Board
    framed =
        if not r.1.flags.first_frame then (true, first_frame_received r.1 true) else (true, r.1)

    gated : Bool × Board
    gated = if not r.0 then (false, r.1) else framed

    K : Bool × Board → Type 0
    K x = IsOrderly x.1

    requested : IsOrderly r.1
    requested = Keeps-IsOrderly c r.1 (request_motors-Keeps ticks tokens c) o
