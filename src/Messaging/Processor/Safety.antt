-- ===== src/Messaging/Processor/Safety.antt =====
-- What holds of the board after any sequence of messages.
use creature_controller.Common.{
  ℕ, ◌+◌, ◌-◌, ◌≤◌, ◌<◌, ◌≡◌, refl, ap, ◌∙◌, Bool, true, false, List, [], ◌∷◌, Option, none, some,
  arith, ◌==◌, if◌then◌else◌, length, if_both, if_split, ==_iff, ◌≢◌, All,
}
use creature_controller.Dynamixel.Bus.{Hal, Bus}
use creature_controller.Controller.Motors.{motor_map_size}
use creature_controller.Controller.Motors.Limits.{IsAtRest→IsSafe}
use creature_controller.Controller.Motors.Wiring.{IsWired}
use creature_controller.Controller.Power.Laws.{disable_all_motors_lem}
use creature_controller.Controller.Servos.{TorqueRequest}
use creature_controller.Controller.Servos.Traffic.{Only, Only-refl, Only-trans}
use creature_controller.Controller.Servos.Torque.{IsQuiet}
use creature_controller.Messaging.Text.{same_text}
use creature_controller.Messaging.Parser.{GenericMessage, calculate_checksum, parse_message}
use creature_controller.Messaging.Parser.Frames.{
  IsField, joined, frame_with, frame, parse_message-frame_with, parse_message-frame,
}
use creature_controller.Messaging.Handlers.{handle_emergency_stop_message, handle_ping_message}
use creature_controller.Messaging.Handlers.Config.{handle_config_message_lem}
use creature_controller.Messaging.Handlers.Motion.{
  IsSound, handle_position_message-IsSound, handle_emergency_stop_message-IsSound,
}
use creature_controller.Messaging.Processor.{
  Service, serving, stopped, faulted, Link, config_type, estop_type, ping_type, pos_type,
  run_config, run_estop, run_position, dispatch, process_parsed, process_message, take_message,
  incoming_messages,
}

module _ {S : Type 0} (hal : Hal S) (ticks : ℕ → ℕ → ℕ → ℕ) where
  -- The board is sound, and no packet but quiet ones has gone onto the bus since `b`.
  abbrev Preserves : Bus S → Link S → Type 0
  Preserves b l = IsSound ticks l.board × Only IsQuiet b l.bus

  dispatch-Preserves :
      (now : ℕ) (m : GenericMessage) (l : Link S)
      → IsSound ticks l.board
      → Preserves l.bus (dispatch hal ticks now m l)
  unfolding dispatch run_config run_estop run_position handle_ping_message
  dispatch-Preserves now m l h =
      if_both K (is config_type) config other1 (configured.0, configured.1)
        (if_both K (is estop_type) (run_estop hal ticks l) other2
          (handle_emergency_stop_message-IsSound ticks l.board h, none_sent)
          (if_both K (is ping_type) (record l { board = handle_ping_message now l.board }) other3
            (h, none_sent)
            (if_both K (is pos_type) (run_position hal ticks m.tokens l) l
              (handle_position_message-IsSound ticks m.tokens l.board h, none_sent)
              (h, none_sent))))
    where
      is : List ℕ → Bool
      is t = same_text m.message_type t

      K : Link S → Type 0
      K = Preserves l.bus

      none_sent : Only IsQuiet l.bus l.bus
      none_sent = Only-refl IsQuiet l.bus l.bus refl

      config : Link S
      config = run_config hal ticks m.tokens l

      configured : IsSound ticks config.board × Only IsQuiet l.bus config.bus
      configured =
          let r = handle_config_message_lem hal m.tokens l.board l.bus h.0.eight in
          ((IsAtRest→IsSafe ticks config.board.pwm r.0, r.1), r.2)

      other3 : Link S
      other3 = if is pos_type then run_position hal ticks m.tokens l else l

      other2 : Link S
      other2 = if is ping_type then record l { board = handle_ping_message now l.board } else other3

      other1 : Link S
      other1 = if is estop_type then run_estop hal ticks l else other2

  process_parsed-Preserves :
      (now : ℕ) (m : Option GenericMessage) (l : Link S)
      → IsSound ticks l.board
      → Preserves l.bus (process_parsed hal ticks now m l)
  unfolding process_parsed
  process_parsed-Preserves now none l h = (h, Only-refl IsQuiet l.bus l.bus refl)
  process_parsed-Preserves now (some m) l h =
      if_both (Preserves l.bus) (m.expected_checksum == m.calculated_checksum)
        (dispatch hal ticks now m parsed)
        (record parsed { checksum_errors = l.checksum_errors + 1 })
        (dispatch-Preserves now m parsed h) (h, Only-refl IsQuiet l.bus l.bus refl)
    where
      parsed : Link S
      parsed = record l { successful_messages_parsed = l.successful_messages_parsed + 1 }

  take_message-Preserves :
      (s : Service) (l l' : Link S)
      → IsSound ticks l.board
      → Preserves l.bus l'
      → Preserves l.bus (take_message hal ticks s l l')
  unfolding take_message
  take_message-Preserves serving l l' h k = k
  take_message-Preserves stopped l l' h k = (h, Only-refl IsQuiet l.bus l.bus refl)
  take_message-Preserves faulted l l' h k = (h, Only-refl IsQuiet l.bus l.bus refl)

  -- One message is taken.
  abbrev taken : ℕ → List ℕ → Link S → Link S
  taken now raw l = take_message hal ticks l.service l (process_message hal ticks now raw l)

  taken-Preserves :
      (now : ℕ) (raw : List ℕ) (l : Link S)
      → IsSound ticks l.board
      → Preserves l.bus (taken now raw l)
  unfolding process_message
  taken-Preserves now raw l h =
      take_message-Preserves l.service l (process_message hal ticks now raw l) h
        (process_parsed-Preserves now (parse_message raw) l h)

  -- From a sound board on, whatever texts arrive, in whatever order: every PWM motor stays at
  -- rest or within its limits, the Dynamixel map stays well formed, and the handlers themselves
  -- enable no torque.
  pub incoming_messages_safe :
      (texts : List (ℕ × List ℕ)) (l : Link S)
      → IsSound ticks l.board
      → IsSound ticks (incoming_messages hal ticks texts l).board
        × Only IsQuiet l.bus (incoming_messages hal ticks texts l).bus
  unfolding incoming_messages
  incoming_messages_safe [] l h = (h, Only-refl IsQuiet l.bus l.bus refl)
  incoming_messages_safe ((now, raw) ∷ more) l h =
      let one = taken-Preserves now raw l h in
      let later = incoming_messages_safe more (taken now raw l) one.0 in
      (
        later.0,
        Only-trans IsQuiet l.bus (taken now raw l).bus
            (incoming_messages hal ticks more (taken now raw l)).bus one.1 later.1,
      )

  -- Once the task has stopped, no message has any effect.
  pub stopped_ignores :
      (texts : List (ℕ × List ℕ)) (l : Link S)
      → l.service ≡ stopped
      → incoming_messages hal ticks texts l ≡ l
  unfolding incoming_messages take_message
  stopped_ignores [] l h = refl
  stopped_ignores ((now, raw) ∷ more) l h =
      ap
        (λ s.
          incoming_messages hal ticks more
            (take_message hal ticks s l (process_message hal ticks now raw l)))
        h
      ∙ stopped_ignores more l h

  estop_processed :
      (now : ℕ) (tokens : List (List ℕ)) (l : Link S)
      → All (IsField 39) tokens
      → length tokens ≤ 27
      → length (frame estop_type tokens) ≤ 255
      → process_message hal ticks now (frame estop_type tokens) l
        ≡ run_estop hal ticks
            (record l { successful_messages_parsed = l.successful_messages_parsed + 1 })
  unfolding process_message process_parsed dispatch same_text
  estop_processed now tokens l t n len =
      ap (λ m. process_parsed hal ticks now m l)
        (parse_message-frame estop_type tokens estop_field t n len)
      ∙ ap
          (λ b.
            if b
            then run_estop hal ticks
                (record l { successful_messages_parsed = l.successful_messages_parsed + 1 })
            else record l {
              successful_messages_parsed = l.successful_messages_parsed + 1;
              checksum_errors = l.checksum_errors + 1;
            })
          right
    where
      sum : ℕ
      sum = calculate_checksum (joined (estop_type ∷ tokens))

      right : (sum == sum) ≡ true
      right = ground arith

      estop_field : IsField 7 estop_type
      estop_field = ((refl, (refl, (refl, (refl, (refl, tt))))), ground arith, ground arith)

  -- The link after an ESTOP frame.
  abbrev ended : Link S → Link S
  ended l =
      run_estop hal ticks
        (record l { successful_messages_parsed = l.successful_messages_parsed + 1 })

  estop_ends :
      (now : ℕ) (tokens : List (List ℕ)) (texts : List (ℕ × List ℕ)) (l : Link S)
      → l.service ≡ serving
      → All (IsField 39) tokens
      → length tokens ≤ 27
      → length (frame estop_type tokens) ≤ 255
      → incoming_messages hal ticks ((now, frame estop_type tokens) ∷ texts) l ≡ ended l
  unfolding incoming_messages take_message run_estop
  estop_ends now tokens texts l s t n len =
      ap
        (λ v.
          incoming_messages hal ticks texts (
            take_message hal ticks v l (process_message hal ticks now (frame estop_type tokens) l)))
        s
      ∙ ap (incoming_messages hal ticks texts) (estop_processed now tokens l t n len)
      ∙ stopped_ignores texts (ended l) refl

  -- An ESTOP frame of at most 255 bytes and at most 27 tokens of at most 39 characters, taken
  -- while the task serves messages, over motors that are wired as at boot: it sets the emergency
  -- stop, asks for torque off and leaves none of the eight PWM motors with power, with no packet
  -- sent; the task has then stopped, and whatever messages arrive afterwards, all of this stays
  -- so.
  pub emergency_stop_final :
      (now : ℕ) (tokens : List (List ℕ)) (texts : List (ℕ × List ℕ)) (l : Link S)
      → l.service ≡ serving
      → IsWired l.board.pwm.motor_map
      → All (IsField 39) tokens
      → length tokens ≤ 27
      → length (frame estop_type tokens) ≤ 255
      → let after = incoming_messages hal ticks ((now, frame estop_type tokens) ∷ texts) l in
        (after.service ≡ stopped)
        × (after.board.flags.estop ≡ true)
        × (after.board.dxl.torque_request ≡ TorqueRequest.disable)
        × ((i : ℕ) → i < motor_map_size → after.board.pwm.gpio (21 - i) ≡ false)
        × (after.bus ≡ l.bus)
  unfolding run_estop handle_emergency_stop_message
  emergency_stop_final now tokens texts l s w t n len =
      rw (estop_ends now tokens texts l s t n len)
        (refl, refl, refl, (disable_all_motors_lem l.board.pwm w).1, refl)

  -- Such a frame leaves the Dynamixel map as it is.
  pub emergency_stop_keeps :
      (now : ℕ) (tokens : List (List ℕ)) (l : Link S)
      → l.service ≡ serving
      → All (IsField 39) tokens
      → length tokens ≤ 27
      → length (frame estop_type tokens) ≤ 255
      → let after = incoming_messages hal ticks ((now, frame estop_type tokens) ∷ []) l in
        (after.board.dxl.motors ≡ l.board.dxl.motors) × (after.board.dxl.ready ≡ l.board.dxl.ready)
  unfolding run_estop handle_emergency_stop_message
  emergency_stop_keeps now tokens l s t n len =
      rw (estop_ends now tokens [] l s t n len) (refl, refl)

  -- A message of a type of at most 7 characters, at most 27 tokens of at most 39, and a checksum
  -- token of a number up to 65535, in at most 255 bytes, where that number is not the checksum of
  -- what stands in front of it: it has no effect on the board or the bus, and is counted as
  -- parsed and as a checksum error.
  pub wrong_checksum_ignored :
      (now sum : ℕ) (action : List ℕ) (tokens : List (List ℕ)) (l : Link S)
      → sum ≤ 65535
      → sum ≢ calculate_checksum (joined (action ∷ tokens))
      → IsField 7 action
      → All (IsField 39) tokens
      → length tokens ≤ 27
      → length (frame_with sum action tokens) ≤ 255
      → process_message hal ticks now (frame_with sum action tokens) l ≡ record l {
        successful_messages_parsed = l.successful_messages_parsed + 1;
        checksum_errors = l.checksum_errors + 1;
      }
  unfolding process_message process_parsed
  wrong_checksum_ignored now sum action tokens l bound wrong a t n len =
      ap (λ m. process_parsed hal ticks now m l)
        (parse_message-frame_with sum action tokens bound a t n len)
      ∙ if_split (λ (x : Link S). x ≡ refused) (sum == right)
          (dispatch hal ticks now
            (record {
              message_type = action;
              tokens = tokens;
              expected_checksum = sum;
              calculated_checksum = right;
            })
            (record l { successful_messages_parsed = l.successful_messages_parsed + 1 }))
          refused (λ e. absurd (wrong ((==_iff sum right).0 e))) (λ _. refl)
    where
      right : ℕ
      right = calculate_checksum (joined (action ∷ tokens))

      refused : Link S
      refused = record l {
        successful_messages_parsed = l.successful_messages_parsed + 1;
        checksum_errors = l.checksum_errors + 1;
      }
