-- ===== src/Messaging/Processor/Orderly.antt =====
-- What messages leave in order, in whatever sequence they come.
use creature_controller.Common.{
  ℕ, ◌+◌, Bool, List, [], ◌∷◌, Option, none, some, ◌==◌, if◌then◌else◌, if_both,
}
use creature_controller.Dynamixel.Bus.{Hal}
use creature_controller.Messaging.Text.{same_text}
use creature_controller.Messaging.Parser.{GenericMessage, parse_message}
use creature_controller.Messaging.Handlers.{handle_ping_message}
use creature_controller.Messaging.Processor.{
  Service, serving, stopped, faulted, Link, config_type, estop_type, ping_type, pos_type,
  run_config, run_estop, run_position, dispatch, process_parsed, process_message, take_message,
  incoming_messages,
}
use creature_controller.Messaging.Handlers.Orderly.{
  IsOrderly, handle_config_message-IsOrderly, handle_emergency_stop_message-IsOrderly,
  handle_ping_message-IsOrderly, handle_position_message-IsOrderly,
}

module _ {S : Type 0} (hal : Hal S) (ticks : ℕ → ℕ → ℕ → ℕ) where
  dispatch-IsOrderly :
      (now : ℕ) (m : GenericMessage) (l : Link S)
      → IsOrderly l.board
      → IsOrderly (dispatch hal ticks now m l).board
  unfolding dispatch run_config run_estop run_position
  dispatch-IsOrderly now m l o =
      if_both K (is config_type) (run_config hal ticks m.tokens l) other1
        (handle_config_message-IsOrderly hal m.tokens l.board l.bus o)
        (if_both K (is estop_type) (run_estop hal ticks l) other2
          (handle_emergency_stop_message-IsOrderly l.board o)
          (if_both K (is ping_type) (record l { board = handle_ping_message now l.board }) other3
            (handle_ping_message-IsOrderly now l.board o)
            (if_both K (is pos_type) (run_position hal ticks m.tokens l) l
              (handle_position_message-IsOrderly ticks m.tokens l.board o) o)))
    where
      is : List ℕ → Bool
      is t = same_text m.message_type t

      K : Link S → Type 0
      K x = IsOrderly x.board

      other3 : Link S
      other3 = if is pos_type then run_position hal ticks m.tokens l else l

      other2 : Link S
      other2 = if is ping_type then record l { board = handle_ping_message now l.board } else other3

      other1 : Link S
      other1 = if is estop_type then run_estop hal ticks l else other2

  process_parsed-IsOrderly :
      (now : ℕ) (m : Option GenericMessage) (l : Link S)
      → IsOrderly l.board
      → IsOrderly (process_parsed hal ticks now m l).board
  unfolding process_parsed
  process_parsed-IsOrderly now none l o = o
  process_parsed-IsOrderly now (some m) l o =
      if_both (λ (x : Link S). IsOrderly x.board) (m.expected_checksum == m.calculated_checksum)
        (dispatch hal ticks now m parsed)
        (record parsed { checksum_errors = l.checksum_errors + 1 })
        (dispatch-IsOrderly now m parsed o) o
    where
      parsed : Link S
      parsed = record l { successful_messages_parsed = l.successful_messages_parsed + 1 }

  take_message-IsOrderly :
      (s : Service) (l l' : Link S)
      → IsOrderly l.board
      → IsOrderly l'.board
      → IsOrderly (take_message hal ticks s l l').board
  unfolding take_message
  take_message-IsOrderly serving l l' h k = k
  take_message-IsOrderly stopped l l' h k = h
  take_message-IsOrderly faulted l l' h k = h

  -- Whatever messages arrive: the gate of motion, the wiring of the motors and the bounds of the
  -- outgoing queue stay.
  pub incoming_messages-IsOrderly :
      (texts : List (ℕ × List ℕ)) (l : Link S)
      → IsOrderly l.board
      → IsOrderly (incoming_messages hal ticks texts l).board
  unfolding incoming_messages process_message
  incoming_messages-IsOrderly [] l o = o
  incoming_messages-IsOrderly ((now, raw) ∷ more) l o =
      incoming_messages-IsOrderly more
        (take_message hal ticks l.service l (process_message hal ticks now raw l))
        (take_message-IsOrderly l.service l (process_message hal ticks now raw l) o
          (process_parsed-IsOrderly now (parse_message raw) l o))
