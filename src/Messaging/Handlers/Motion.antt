-- ===== src/Messaging/Handlers/Motion.antt =====
-- What position messages and the emergency stop preserve,
-- firmware/src/messaging/processors/position_message.c and emergency_stop_message.c.
use creature_controller.Common.{
  ℕ, Bool, true, false, not, ◌||◌, List, [], ◌∷◌, Option, some, ltb, ◌==◌, if◌then◌else◌, if_both,
}
use creature_controller.Dynamixel.Servo.Registers.{max_id, position_max}
use creature_controller.Controller.Motors.{Pwm, request_servo_position}
use creature_controller.Controller.Motors.Limits.{IsSafe, request_servo_position-IsSafe}
use creature_controller.Controller.Power.Keeps.{enable_all_motors-IsSafe, disable_all_motors-IsSafe}
use creature_controller.Controller.Servos.{Dxl, request_dynamixel_position}
use creature_controller.Controller.Servos.Map.{IsValid, request_dynamixel_position-IsValid}
use creature_controller.Controller.Lifecycle.{Board, first_frame_received}
use creature_controller.Messaging.Text.{string_to_u16, strtok}
use creature_controller.Messaging.Handlers.{
  space, handle_emergency_stop_message, request_motor, request_motors, handle_position_message,
}

-- Every PWM motor is at rest or within its limits, and the Dynamixel map is well formed.
abbrev pub IsSound : (ℕ → ℕ → ℕ → ℕ) → Board → Type 0
IsSound ticks c = IsSafe ticks c.pwm × IsValid c.dxl

request_motor-IsSound :
    (ticks : ℕ → ℕ → ℕ → ℕ) (c : Board) (position value : Option (List ℕ))
    → IsSound ticks c
    → IsSound ticks (request_motor ticks c position value).1
unfolding request_motor
request_motor-IsSound ticks c (some (m ∷ id)) (some value) h =
    if_both K (m == b'D') dynamixel servo
      (if_both K ((number == 0) || ltb max_id number) stay checked h (
        if_both K (ltb position_max pos) stay (d.1, record c { dxl = d.0 }) h
          (h.0, request_dynamixel_position-IsValid c.dxl number pos h.1)))
      (request_servo_position-IsSafe ticks c.pwm (m ∷ id) pos h.0, h.1)
  where
    number : ℕ
    number = string_to_u16 id

    pos : ℕ
    pos = string_to_u16 value

    d : Dxl × Bool
    d = request_dynamixel_position c.dxl number pos

    p : Pwm × Bool
    p = request_servo_position ticks c.pwm (m ∷ id) pos

    stay : Bool × Board
    stay = (false, c)

    checked : Bool × Board
    checked = if ltb position_max pos then stay else (d.1, record c { dxl = d.0 })

    dynamixel : Bool × Board
    dynamixel = if (number == 0) || ltb max_id number then stay else checked

    servo : Bool × Board
    servo = (p.1, record c { pwm = p.0 })

    K : Bool × Board → Type 0
    K r = IsSound ticks r.1
request_motor-IsSound ticks c _ _ h = h

request_motors-IsSound :
    (ticks : ℕ → ℕ → ℕ → ℕ) (tokens : List (List ℕ)) (c : Board)
    → IsSound ticks c
    → IsSound ticks (request_motors ticks tokens c).1
unfolding request_motors
request_motors-IsSound ticks [] c h = h
request_motors-IsSound ticks (token ∷ tokens) c h =
    if_both (λ (r : Bool × Board). IsSound ticks r.1) one.0 (request_motors ticks tokens one.1)
      (false, one.1) (request_motors-IsSound ticks tokens one.1 first) first
  where
    w : Option (List ℕ) × List ℕ
    w = strtok space token

    one : Bool × Board
    one = request_motor ticks c w.0 (strtok space w.1).0

    first : IsSound ticks one.1
    first = request_motor-IsSound ticks c w.0 (strtok space w.1).0 h

first_frame_received-IsSound :
    (ticks : ℕ → ℕ → ℕ → ℕ) (c : Board)
    → IsSound ticks c
    → IsSound ticks (first_frame_received c true)
unfolding first_frame_received
first_frame_received-IsSound ticks c h = (enable_all_motors-IsSafe ticks c.pwm h.0, h.1)

-- If every motor is within its limits and the Dynamixel map is well formed, a position message
-- keeps both so, whether it is granted, dropped, or refused in the middle.
pub handle_position_message-IsSound :
    (ticks : ℕ → ℕ → ℕ → ℕ) (tokens : List (List ℕ)) (c : Board)
    → IsSound ticks c
    → IsSound ticks (handle_position_message ticks tokens c).1
unfolding handle_position_message
handle_position_message-IsSound ticks tokens c h =
    if_both K (not c.flags.safe_to_run) (true, c) gated h
      (if_both K (not r.0) (false, r.1) framed requested
        (if_both K (not r.1.flags.first_frame) (true, first_frame_received r.1 true) (true, r.1)
          (first_frame_received-IsSound ticks r.1 requested) requested))
  where
    r : Bool × Board
    r = request_motors ticks tokens c

    framed : Bool × Board
    framed =
        if not r.1.flags.first_frame then (true, first_frame_received r.1 true) else (true, r.1)

    gated : Bool × Board
    gated = if not r.0 then (false, r.1) else framed

    K : Bool × Board → Type 0
    K x = IsSound ticks x.1

    requested : IsSound ticks r.1
    requested = request_motors-IsSound ticks tokens c h

pub handle_emergency_stop_message-IsSound :
    (ticks : ℕ → ℕ → ℕ → ℕ) (c : Board)
    → IsSound ticks c
    → IsSound ticks (handle_emergency_stop_message c)
unfolding handle_emergency_stop_message
handle_emergency_stop_message-IsSound ticks c h = (disable_all_motors-IsSafe ticks c.pwm h.0, h.1)
