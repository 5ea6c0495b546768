-- ===== src/Messaging/Processor/Changes.antt =====
-- How one message changes the flags of the board.
use creature_controller.Common.{
  ℕ, ◌+◌, refl, Bool, List, [], ◌∷◌, Option, none, some, ◌==◌, if◌then◌else◌, if_both,
}
use creature_controller.Dynamixel.Bus.{Hal}
use creature_controller.Messaging.Text.{same_text}
use creature_controller.Messaging.Parser.{GenericMessage, parse_message}
use creature_controller.Messaging.Handlers.{handle_ping_message}
use creature_controller.Messaging.Handlers.Orderly.{IsGated}
use creature_controller.Messaging.Handlers.Flags.{
  Change, same, handle_config_message-Change, handle_position_message-Change,
  handle_emergency_stop_message-Change,
}
use creature_controller.Messaging.Processor.{
  Service, serving, stopped, faulted, Link, config_type, estop_type, ping_type, pos_type,
  run_config, run_estop, run_position, dispatch, process_parsed, process_message, take_message,
  incoming_messages,
}

module _ {S : Type 0} (hal : Hal S) (ticks : ℕ → ℕ → ℕ → ℕ) where
  dispatch-Change :
      (now : ℕ) (m : GenericMessage) (l : Link S)
      → IsGated l.board.flags
      → Change l.board.flags (dispatch hal ticks now m l).board.flags
  unfolding dispatch run_config run_estop run_position handle_ping_message
  dispatch-Change now m l g =
      if_both K (is config_type) (run_config hal ticks m.tokens l) other1
        (handle_config_message-Change hal m.tokens l.board l.bus)
        (if_both K (is estop_type) (run_estop hal ticks l) other2
          (handle_emergency_stop_message-Change l.board)
          (if_both K (is ping_type) (record l { board = handle_ping_message now l.board }) other3
            (same refl refl refl)
            (if_both K (is pos_type) (run_position hal ticks m.tokens l) l
              (handle_position_message-Change ticks m.tokens l.board g) (same refl refl refl))))
    where
      is : List ℕ → Bool
      is t = same_text m.message_type t

      K : Link S → Type 0
      K x = Change l.board.flags x.board.flags

      other3 : Link S
      other3 = if is pos_type then run_position hal ticks m.tokens l else l

      other2 : Link S
      other2 = if is ping_type then record l { board = handle_ping_message now l.board } else other3

      other1 : Link S
      other1 = if is estop_type then run_estop hal ticks l else other2

  process_parsed-Change :
      (now : ℕ) (m : Option GenericMessage) (l : Link S)
      → IsGated l.board.flags
      → Change l.board.flags (process_parsed hal ticks now m l).board.flags
  unfolding process_parsed
  process_parsed-Change now none l g = same refl refl refl
  process_parsed-Change now (some m) l g =
      if_both (λ (x : Link S). Change l.board.flags x.board.flags)
        (m.expected_checksum == m.calculated_checksum) (dispatch hal ticks now m parsed)
        (record parsed { checksum_errors = l.checksum_errors + 1 }) (dispatch-Change now m parsed g)
        (same refl refl refl)
    where
      parsed : Link S
      parsed = record l { successful_messages_parsed = l.successful_messages_parsed + 1 }

  take_message-Change :
      (s : Service) (l l' : Link S)
      → Change l.board.flags l'.board.flags
      → Change l.board.flags (take_message hal ticks s l l').board.flags
  unfolding take_message
  take_message-Change serving l l' h = h
  take_message-Change stopped l l' h = same refl refl refl
  take_message-Change faulted l l' h = same refl refl refl

  -- One message changes the flags in one of the four ways, if the board may move exactly while it
  -- runs.
  pub incoming_message-Change :
      (now : ℕ) (raw : List ℕ) (l : Link S)
      → IsGated l.board.flags
      → Change l.board.flags (incoming_messages hal ticks ((now, raw) ∷ []) l).board.flags
  unfolding incoming_messages process_message
  incoming_message-Change now raw l g =
      take_message-Change l.service l (process_message hal ticks now raw l)
        (process_parsed-Change now (parse_message raw) l g)
