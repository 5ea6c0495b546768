-- ===== src/Messaging/Handlers/Config.antt =====
-- What a configuration message does, firmware/src/messaging/processors/config_message.c.
use creature_controller.Common.{
  ℕ, zero, suc, ◌≡◌, refl, Bool, false, ◌||◌, List, [], ◌∷◌, Option, none, some, arith, ltb, ◌==◌,
  if◌then◌else◌, length, if_split, if_both,
}
use creature_controller.Dynamixel.Bus.{Hal, Bus}
use creature_controller.Dynamixel.Servo.Registers.{max_id, position_max}
use creature_controller.Controller.Motors.{
  Pwm, motor_map_size, configure_servo_min_max, reset_servo_motor_map,
}
use creature_controller.Controller.Motors.Limits.{
  IsAtRest, configure_servo_min_max-IsAtRest, reset_servo_motor_map-IsAtRest,
}
use creature_controller.Controller.Servos.{
  Dxl, reset_dynamixel_motor_map, configure_dynamixel_servo,
}
use creature_controller.Controller.Servos.Map.{
  IsValid, configure_dynamixel_servo-IsValid, reset_dynamixel_motor_map-IsValid,
}
use creature_controller.Controller.Servos.Traffic.{Only, Only-refl, Only-trans}
use creature_controller.Controller.Servos.Torque.{IsQuiet}
use creature_controller.Controller.Servos.Restore.{reset_sent, configure_sent}
use creature_controller.Controller.Lifecycle.{Board, firmware_configuration_received}
use creature_controller.Messaging.Text.{string_to_u16, strtok, same_text}
use creature_controller.Messaging.Handlers.{
  Handled, accepted, refused, fault, space, servo_type, dynamixel_type, configure_servo,
  configure_dynamixel, configure_motor, proceed, configure_motors, conclude, handle_config_message,
}

-- Every PWM motor is at rest, and the Dynamixel map is well formed.
abbrev IsFresh : Board → Type 0
IsFresh c = IsAtRest c.pwm × IsValid c.dxl

configure_servo-IsFresh :
    (c : Board) (w1 w2 w3 : Option (List ℕ)) → IsFresh c → IsFresh (configure_servo c w1 w2 w3).1
unfolding configure_servo
configure_servo-IsFresh c (some o) (some lo) (some hi) h =
    if_both Kept (string_to_u16 lo == 0) (refused, c)
      (if string_to_u16 hi == 0
        then (refused, c)
        else if r.1
        then (accepted, record c { pwm = r.0 })
        else (refused, record c { pwm = r.0 }))
      h
      (if_both Kept (string_to_u16 hi == 0) (refused, c)
        (if r.1 then (accepted, record c { pwm = r.0 }) else (refused, record c { pwm = r.0 })) h
        (if_both Kept r.1 (accepted, record c { pwm = r.0 }) (refused, record c { pwm = r.0 })
          (rest, h.1) (rest, h.1)))
  where
    r : Pwm × Bool
    r = configure_servo_min_max c.pwm o (string_to_u16 lo) (string_to_u16 hi)

    rest : IsAtRest r.0
    rest = configure_servo_min_max-IsAtRest c.pwm o (string_to_u16 lo) (string_to_u16 hi) h.0

    Kept : Handled × Board → Type 0
    Kept x = IsFresh x.1
configure_servo-IsFresh c _ _ _ h = h

module _ {S : Type 0} (hal : Hal S) where
  -- What the steps of a configuration give from a board and a bus on.
  abbrev Configures : Bus S → Handled × Board × Bus S → Type 0
  Configures b r = IsFresh r.1 × Only IsQuiet b r.2

  configure_dynamixel-Configures :
      (c : Board) (b : Bus S) (w1 w2 w3 w4 : Option (List ℕ))
      → IsFresh c
      → Configures b (configure_dynamixel hal c b w1 w2 w3 w4)
  unfolding configure_dynamixel
  configure_dynamixel-Configures c b (some u1) (some u2) (some u3) (some u4) h =
      if_both K ((id == 0) || ltb max_id id) stay checked1 same (
        if_split K (ltb position_max lo) stay checked2 (λ _. same)
          (λ lo_ok.
            if_split K (ltb position_max hi) stay checked3 (λ _. same)
              (λ hi_ok.
                if_split K (ltb hi lo) stay done (λ _. same)
                  (λ ordered. (
                    (
                      h.0,
                      configure_dynamixel_servo-IsValid hal c.dxl b id lo hi (string_to_u16 u4) h.1
                          (ground arith) (ground arith),
                    ),
                    configure_sent hal c.dxl b id lo hi (string_to_u16 u4),
                  )))))
    where
      id : ℕ
      id = string_to_u16 u1

      lo : ℕ
      lo = string_to_u16 u2

      hi : ℕ
      hi = string_to_u16 u3

      K : Handled × Board × Bus S → Type 0
      K = Configures b

      stay : Handled × Board × Bus S
      stay = (refused, c, b)

      same : K stay
      same = (h, Only-refl IsQuiet b b refl)

      done : Handled × Board × Bus S
      done =
          let (ok, d, b') = configure_dynamixel_servo hal c.dxl b id lo hi (string_to_u16 u4) in
          (if ok then accepted else refused, record c { dxl = d }, b')

      checked3 : Handled × Board × Bus S
      checked3 = if ltb hi lo then stay else done

      checked2 : Handled × Board × Bus S
      checked2 = if ltb position_max hi then stay else checked3

      checked1 : Handled × Board × Bus S
      checked1 = if ltb position_max lo then stay else checked2
  configure_dynamixel-Configures c b _ _ _ _ h = (h, Only-refl IsQuiet b b refl)

  configure_motor-Configures :
      (c : Board) (b : Bus S) (motor_type : Option (List ℕ)) (rest : List ℕ)
      → IsFresh c
      → Configures b (configure_motor hal c b motor_type rest)
  unfolding configure_motor
  configure_motor-Configures c b none rest h = (h, Only-refl IsQuiet b b refl)
  configure_motor-Configures c b (some t) rest h =
      if_both (Configures b) (same_text t servo_type) (servo.0, servo.1, b)
        (if same_text t dynamixel_type
          then configure_dynamixel hal c b (word 0) (word 1) (word 2) (word 3)
          else (refused, c, b))
        (configure_servo-IsFresh c (word 0) (word 1) (word 2) h, Only-refl IsQuiet b b refl)
        (if_both (Configures b) (same_text t dynamixel_type)
          (configure_dynamixel hal c b (word 0) (word 1) (word 2) (word 3)) (refused, c, b)
          (configure_dynamixel-Configures c b (word 0) (word 1) (word 2) (word 3) h)
          (h, Only-refl IsQuiet b b refl))
    where
      behind : ℕ → List ℕ
      behind zero = rest
      behind (suc n) = (strtok space (behind n)).1

      word : ℕ → Option (List ℕ)
      word n = (strtok space (behind n)).0

      servo : Handled × Board
      servo = configure_servo c (word 0) (word 1) (word 2)

  proceed-Configures :
      (b : Bus S) (r more : Handled × Board × Bus S) (x : Handled)
      → Configures b r
      → Configures r.2 more
      → Configures b (proceed hal x r more)
  unfolding proceed
  proceed-Configures b r more accepted first later =
      (later.0, Only-trans IsQuiet b r.2 more.2 first.1 later.1)
  proceed-Configures b r more refused first later = first
  proceed-Configures b r more fault first later = first

  configure_motors-Configures :
      (tokens : List (List ℕ)) (c : Board) (b : Bus S)
      → IsFresh c
      → Configures b (configure_motors hal tokens c b)
  unfolding configure_motors
  configure_motors-Configures [] c b h = (h, Only-refl IsQuiet b b refl)
  configure_motors-Configures (token ∷ tokens) c b h =
      proceed-Configures b r (configure_motors hal tokens r.1 r.2) r.0 first
        (configure_motors-Configures tokens r.1 r.2 first.0)
    where
      r : Handled × Board × Bus S
      r = configure_motor hal c b (strtok space token).0 (strtok space token).1

      first : Configures b r
      first = configure_motor-Configures c b (strtok space token).0 (strtok space token).1 h

  conclude-same :
      (x : Handled) (c : Board)
      → ((conclude hal x c).pwm ≡ c.pwm) × ((conclude hal x c).dxl ≡ c.dxl)
  unfolding conclude firmware_configuration_received
  conclude-same accepted c = (refl, refl)
  conclude-same refused c = (refl, refl)
  conclude-same fault c = (refl, refl)

  -- After a configuration message to a board with its eight PWM motors, whatever the message says
  -- and however far it gets, no pulse is requested of any PWM output (the power pins are not part of
  -- this), and the Dynamixel map is well formed; and the packets it has sent enable no torque.
  pub handle_config_message_lem :
      (tokens : List (List ℕ)) (c : Board) (b : Bus S)
      → length c.pwm.motor_map ≡ motor_map_size
      → let (_, c', b') = handle_config_message hal tokens c b in
        IsAtRest c'.pwm × IsValid c'.dxl × Only IsQuiet b b'
  unfolding handle_config_message
  handle_config_message_lem tokens c b eight = (
    rw same.0 done.0.0,
    rw same.1 done.0.1,
    Only-trans IsQuiet b r.1 end.2 (reset_sent hal c.dxl b) done.1,
  )
    where
      r : Dxl × Bus S
      r = reset_dynamixel_motor_map hal c.dxl b

      fresh : Board
      fresh = record c {
        flags = record c.flags { init_timer = false };
        pwm = reset_servo_motor_map c.pwm;
        dxl = r.0;
      }

      end : Handled × Board × Bus S
      end = configure_motors hal tokens fresh r.1

      done : Configures r.1 end
      done = configure_motors-Configures tokens fresh r.1 (
        reset_servo_motor_map-IsAtRest c.pwm eight,
        reset_dynamixel_motor_map-IsValid hal c.dxl b,
      )

      same :
          ((conclude hal end.0 end.1).pwm ≡ end.1.pwm)
          × ((conclude hal end.0 end.1).dxl ≡ end.1.dxl)
      same = conclude-same end.0 end.1
