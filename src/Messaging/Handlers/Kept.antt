-- ===== src/Messaging/Handlers/Kept.antt =====
-- What the handlers leave alone: the flags and the outgoing queue while motors are configured or
-- moved, and the wiring of the motors always.
use creature_controller.Common.{
  ℕ, zero, suc, ◌≡◌, refl, ◌∙◌, Bool, false, ◌||◌, List, [], ◌∷◌, Option, none, some, ltb, ◌==◌,
  if◌then◌else◌, if_both,
}
use creature_controller.Dynamixel.Bus.{Hal, Bus}
use creature_controller.Dynamixel.Servo.Registers.{max_id, position_max}
use creature_controller.Controller.Motors.{Pwm, request_servo_position, configure_servo_min_max}
use creature_controller.Controller.Motors.Wiring.{
  IsWired, request_servo_position-IsWired, configure_servo_min_max-IsWired,
}
use creature_controller.Controller.Servos.{
  Dxl, request_dynamixel_position, configure_dynamixel_servo,
}
use creature_controller.Controller.Lifecycle.{Board}
use creature_controller.Messaging.Text.{string_to_u16, strtok, same_text}
use creature_controller.Messaging.Handlers.{
  Handled, accepted, refused, fault, space, servo_type, dynamixel_type, configure_servo,
  configure_dynamixel, configure_motor, proceed, configure_motors, request_motor, request_motors,
}

-- `c'` has the flags and the queue of `c`, and its motors are wired if those of `c` are.
abbrev pub Keeps : Board → Board → Type 0
Keeps c c' =
    (c'.flags ≡ c.flags)
    × (c'.outgoing ≡ c.outgoing)
    × (IsWired c.pwm.motor_map → IsWired c'.pwm.motor_map)

Keeps-refl : (c : Board) → Keeps c c
Keeps-refl c = (refl, refl, λ w. w)

Keeps-trans : (c d e : Board) → Keeps c d → Keeps d e → Keeps c e
Keeps-trans c d e h k = (k.0 ∙ h.0, k.1 ∙ h.1, λ w. k.2 (h.2 w))

configure_servo-Keeps :
    (c : Board) (w1 w2 w3 : Option (List ℕ)) → Keeps c (configure_servo c w1 w2 w3).1
unfolding configure_servo
configure_servo-Keeps c (some o) (some lo) (some hi) =
    if_both K (string_to_u16 lo == 0) (refused, c)
      (if string_to_u16 hi == 0
        then (refused, c)
        else if r.1
        then (accepted, record c { pwm = r.0 })
        else (refused, record c { pwm = r.0 }))
      (Keeps-refl c)
      (if_both K (string_to_u16 hi == 0) (refused, c)
        (if r.1 then (accepted, record c { pwm = r.0 }) else (refused, record c { pwm = r.0 }))
        (Keeps-refl c)
        (if_both K r.1 (accepted, record c { pwm = r.0 }) (refused, record c { pwm = r.0 })
          (refl, refl, wired) (refl, refl, wired)))
  where
    r : Pwm × Bool
    r = configure_servo_min_max c.pwm o (string_to_u16 lo) (string_to_u16 hi)

    wired : IsWired c.pwm.motor_map → IsWired r.0.motor_map
    wired = configure_servo_min_max-IsWired c.pwm o (string_to_u16 lo) (string_to_u16 hi)

    K : Handled × Board → Type 0
    K x = Keeps c x.1
configure_servo-Keeps c _ _ _ = Keeps-refl c

module _ {S : Type 0} (hal : Hal S) where
  configure_dynamixel-Keeps :
      (c : Board) (b : Bus S) (w1 w2 w3 w4 : Option (List ℕ))
      → Keeps c (configure_dynamixel hal c b w1 w2 w3 w4).1
  unfolding configure_dynamixel
  configure_dynamixel-Keeps c b (some u1) (some u2) (some u3) (some u4) =
      if_both K ((id == 0) || ltb max_id id) stay checked1 same (
        if_both K (ltb position_max lo) stay checked2 same (
          if_both K (ltb position_max hi) stay checked3 same
            (if_both K (ltb hi lo) stay done same same)))
    where
      id : ℕ
      id = string_to_u16 u1

      lo : ℕ
      lo = string_to_u16 u2

      hi : ℕ
      hi = string_to_u16 u3

      K : Handled × Board × Bus S → Type 0
      K x = Keeps c x.1

      same : Keeps c c
      same = Keeps-refl c

      stay : Handled × Board × Bus S
      stay = (refused, c, b)

      done : Handled × Board × Bus S
      done =
          let (ok, d, b') = configure_dynamixel_servo hal c.dxl b id lo hi (string_to_u16 u4) in
          (if ok then accepted else refused, record c { dxl = d }, b')

      checked3 : Handled × Board × Bus S
      checked3 = if ltb hi lo then stay else done

      checked2 : Handled × Board × Bus S
      checked2 = if ltb position_max hi then stay else checked3

      checked1 : Handled × Board × Bus S
      checked1 = if ltb position_max lo then stay else checked2
  configure_dynamixel-Keeps c b _ _ _ _ = Keeps-refl c

  configure_motor-Keeps :
      (c : Board) (b : Bus S) (motor_type : Option (List ℕ)) (rest : List ℕ)
      → Keeps c (configure_motor hal c b motor_type rest).1
  unfolding configure_motor
  configure_motor-Keeps c b none rest = Keeps-refl c
  configure_motor-Keeps c b (some t) rest =
      if_both (λ (x : Handled × Board × Bus S). Keeps c x.1) (same_text t servo_type)
        (servo.0, servo.1, b)
        (if same_text t dynamixel_type
          then configure_dynamixel hal c b (word 0) (word 1) (word 2) (word 3)
          else (refused, c, b))
        (configure_servo-Keeps c (word 0) (word 1) (word 2))
        (if_both (λ (x : Handled × Board × Bus S). Keeps c x.1) (same_text t dynamixel_type)
          (configure_dynamixel hal c b (word 0) (word 1) (word 2) (word 3)) (refused, c, b)
          (configure_dynamixel-Keeps c b (word 0) (word 1) (word 2) (word 3)) (Keeps-refl c))
    where
      behind : ℕ → List ℕ
      behind zero = rest
      behind (suc n) = (strtok space (behind n)).1

      word : ℕ → Option (List ℕ)
      word n = (strtok space (behind n)).0

      servo : Handled × Board
      servo = configure_servo c (word 0) (word 1) (word 2)

  pub configure_motors-Keeps :
      (tokens : List (List ℕ)) (c : Board) (b : Bus S) → Keeps c (configure_motors hal tokens c b).1
  unfolding configure_motors
  configure_motors-Keeps [] c b = Keeps-refl c
  configure_motors-Keeps (token ∷ tokens) c b =
      proceeding r.0 (configure_motors-Keeps tokens r.1 r.2)
    where
      r : Handled × Board × Bus S
      r = configure_motor hal c b (strtok space token).0 (strtok space token).1

      first : Keeps c r.1
      first = configure_motor-Keeps c b (strtok space token).0 (strtok space token).1

      proceeding :
          (h : Handled)
          → Keeps r.1 (configure_motors hal tokens r.1 r.2).1
          → Keeps c (proceed hal h r (configure_motors hal tokens r.1 r.2)).1
      proceeding accepted more =
          Keeps-trans c r.1 (configure_motors hal tokens r.1 r.2).1 first more
      proceeding refused more = first
      proceeding fault more = first

module _ (ticks : ℕ → ℕ → ℕ → ℕ) where
  request_motor-Keeps :
      (c : Board) (position value : Option (List ℕ))
      → Keeps c (request_motor ticks c position value).1
  unfolding request_motor
  request_motor-Keeps c (some (m ∷ id)) (some value) =
      if_both K (m == b'D') dynamixel (p.1, record c { pwm = p.0 })
        (if_both K ((number == 0) || ltb max_id number) (false, c) checked (Keeps-refl c)
          (if_both K (ltb position_max pos) (false, c) (d.1, record c { dxl = d.0 }) (Keeps-refl c)
            (Keeps-refl c)))
        (refl, refl, request_servo_position-IsWired ticks c.pwm (m ∷ id) pos)
    where
      number : ℕ
      number = string_to_u16 id

      pos : ℕ
      pos = string_to_u16 value

      d : Dxl × Bool
      d = request_dynamixel_position c.dxl number pos

      p : Pwm × Bool
      p = request_servo_position ticks c.pwm (m ∷ id) pos

      checked : Bool × Board
      checked = if ltb position_max pos then (false, c) else (d.1, record c { dxl = d.0 })

      dynamixel : Bool × Board
      dynamixel = if (number == 0) || ltb max_id number then (false, c) else checked

      K : Bool × Board → Type 0
      K r = Keeps c r.1
  request_motor-Keeps c _ _ = Keeps-refl c

  pub request_motors-Keeps :
      (tokens : List (List ℕ)) (c : Board) → Keeps c (request_motors ticks tokens c).1
  unfolding request_motors
  request_motors-Keeps [] c = Keeps-refl c
  request_motors-Keeps (token ∷ tokens) c =
      if_both (λ (r : Bool × Board). Keeps c r.1) one.0 (request_motors ticks tokens one.1)
        (false, one.1)
        (Keeps-trans c one.1 (request_motors ticks tokens one.1).1 first
          (request_motors-Keeps tokens one.1))
        first
    where
      w : Option (List ℕ) × List ℕ
      w = strtok space token

      one : Bool × Board
      one = request_motor ticks c w.0 (strtok space w.1).0

      first : Keeps c one.1
      first = request_motor-Keeps c w.0 (strtok space w.1).0
