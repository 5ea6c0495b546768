-- ===== src/Messaging/Processor.antt =====
-- `processMessage` of firmware/src/messaging/messaging.c, as the task of
-- firmware/src/io/message_processor.c calls it on one message after another.
pub mod Safety
pub mod Orderly
pub mod Changes
use creature_controller.Common.{
  ℕ, zero, suc, ◌+◌, Bool, true, false, not, List, [], ◌∷◌, Option, none, some, ◌==◌, if◌then◌else◌,
}
use creature_controller.Dynamixel.Bus.{Hal, Bus}
use creature_controller.Controller.Lifecycle.{Board}
use creature_controller.Messaging.Text.{same_text}
use creature_controller.Messaging.Parser.{GenericMessage, parse_message}
use creature_controller.Messaging.Handlers.{
  Handled, accepted, refused, fault, handle_config_message, handle_emergency_stop_message,
  handle_ping_message, handle_position_message,
}

-- The task takes messages, is in the endless loop of the emergency stop, or has passed NULL to
-- `strcmp`.
pub data Service : Type 0 where
  serving stopped faulted : Service

-- The board and the bus, with the counters. They have 64 bits, and cannot wrap in the life of a board.
pub record Link (S : Type 0) : Type 0 where
  pub service : Service
  pub board : Board
  pub bus : Bus S
  pub successful_messages_parsed : ℕ
  pub failed_messages_parsed : ℕ
  pub checksum_errors : ℕ
  pub position_messages_processed : ℕ

abbrev pub config_type : List ℕ
config_type = b'C' ∷ b'O' ∷ b'N' ∷ b'F' ∷ b'I' ∷ b'G' ∷ []

abbrev pub estop_type : List ℕ
estop_type = b'E' ∷ b'S' ∷ b'T' ∷ b'O' ∷ b'P' ∷ []

abbrev pub ping_type : List ℕ
ping_type = b'P' ∷ b'I' ∷ b'N' ∷ b'G' ∷ []

abbrev pub pos_type : List ℕ
pos_type = b'P' ∷ b'O' ∷ b'S' ∷ []

-- Where the task is after the configuration handler.
pub service_after : Handled → Service
service_after fault = faulted
service_after _ = serving

module _ {S : Type 0} (hal : Hal S) (desired_ticks : ℕ → ℕ → ℕ → ℕ) where
  pub run_config : List (List ℕ) → Link S → Link S
  unfolding service_after
  run_config tokens l =
      let (h, c, b) = handle_config_message hal tokens l.board l.bus in
      record l { service = service_after h; board = c; bus = b }

  pub run_estop : Link S → Link S
  run_estop l = record l { service = stopped; board = handle_emergency_stop_message l.board }

  pub run_position : List (List ℕ) → Link S → Link S
  run_position tokens l =
      let (done, c) = handle_position_message desired_ticks tokens l.board in
      record l {
        board = c;
        position_messages_processed =
            if done then l.position_messages_processed + 1 else l.position_messages_processed;
      }

  -- The loop over `messageHandlers`; a message of another type is ignored. `now` is the time.
  pub dispatch : ℕ → GenericMessage → Link S → Link S
  unfolding run_config run_estop run_position
  dispatch now m l =
      if same_text m.message_type config_type
      then run_config m.tokens l
      else if same_text m.message_type estop_type
      then run_estop l
      else if same_text m.message_type ping_type
      then record l { board = handle_ping_message now l.board }
      else if same_text m.message_type pos_type
      then run_position m.tokens l
      else l

  -- `processMessage` behind `parseMessage`.
  pub process_parsed : ℕ → Option GenericMessage → Link S → Link S
  unfolding dispatch
  process_parsed now none l = record l { failed_messages_parsed = l.failed_messages_parsed + 1 }
  process_parsed now (some m) l =
      let l' : Link S = record l {
        successful_messages_parsed = l.successful_messages_parsed + 1;
      } in
      if m.expected_checksum == m.calculated_checksum
      then dispatch now m l'
      else record l' { checksum_errors = l'.checksum_errors + 1 }

  -- `processMessage`.
  pub process_message : ℕ → List ℕ → Link S → Link S
  unfolding process_parsed
  process_message now raw l = process_parsed now (parse_message raw) l

  -- The incoming message task, over the messages and the times at which these are taken from the
  -- queue.
  pub take_message : Service → Link S → Link S → Link S
  take_message serving l l' = l'
  take_message _ l l' = l

  pub incoming_messages : List (ℕ × List ℕ) → Link S → Link S
  unfolding take_message process_message
  incoming_messages [] l = l
  incoming_messages ((now, raw) ∷ more) l =
      incoming_messages more (take_message l.service l (process_message now raw l))
