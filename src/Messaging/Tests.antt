-- ===== src/Messaging/Tests.antt =====
-- The theorems on the messages at concrete inputs.
use creature_controller.Common.{
  ℕ, ◌-◌, ◌<◌, ◌≡◌, refl, true, false, List, [], ◌∷◌, ◌++◌, map, some, arith,
}
use creature_controller.Controller.Motors.{motor_map_size, reset_servo_motor_map}
use creature_controller.Controller.Motors.Limits.{IsAtRest}
use creature_controller.Controller.Motors.Wiring.{
  initial_motor_map-IsWired, reset_servo_motor_map-IsWired,
}
use creature_controller.Controller.Servos.{TorqueRequest}
use creature_controller.Controller.Servos.Map.{IsValid}
use creature_controller.Controller.Servos.Traffic.{Only}
use creature_controller.Controller.Servos.Torque.{IsQuiet}
use creature_controller.Messaging.Text.{string_to_u16}
use creature_controller.Messaging.Text.Numbers.{decimal, string_to_u16-decimal}
use creature_controller.Messaging.Parser.{calculate_checksum, checksum_from, parse_message}
use creature_controller.Messaging.Parser.Frames.{
  joined, checksum_token, frame_with, frame, parse_message-frame,
}
use creature_controller.Messaging.Fixtures.{
  steady_hal, linear_ticks, boot_pwm, board, quiet_bus, link,
}
use creature_controller.Messaging.Handlers.{handle_config_message}
use creature_controller.Messaging.Handlers.Config.{handle_config_message_lem}
use creature_controller.Messaging.Processor.{
  stopped, estop_type, pos_type, process_message, incoming_messages,
}
use creature_controller.Controller.Lifecycle.{send_to_controller}
use creature_controller.Messaging.Outgoing.{usb_line, hand_over, send_from, send_round}
use creature_controller.Messaging.Outgoing.Delivery.{
  Event, produce, round, fetch, Pipeline, fetch_from, happen, happen_all, messages_of, framed,
  lines, happen_all_lem,
}
use creature_controller.Messaging.Processor.Safety.{wrong_checksum_ignored, emergency_stop_final}

-- The token "3 1500" of a position message, and "SERVO 3 1000 2000" of a configuration.
abbrev position_token : List ℕ
position_token = b'3' ∷ 32 ∷ b'1' ∷ b'5' ∷ b'0' ∷ b'0' ∷ []

abbrev config_token : List ℕ
config_token =
    b'S' ∷ b'E' ∷ b'R' ∷ b'V' ∷ b'O' ∷ 32 ∷ b'3' ∷ 32 ∷ b'9' ∷ b'9' ∷ 32 ∷ b'2' ∷ b'0' ∷ b'0' ∷ []

string_to_u16-decimal_example : string_to_u16 (decimal 5 65535) ≡ 65535
string_to_u16-decimal_example = string_to_u16-decimal 65535 (omega arith)

parse_message-frame_example :
    let checksum = calculate_checksum (joined (pos_type ∷ position_token ∷ [])) in
    parse_message (frame pos_type (position_token ∷ []))
    ≡ some (record {
      message_type = pos_type;
      tokens = position_token ∷ [];
      expected_checksum = checksum;
      calculated_checksum = checksum;
    })
unfolding frame frame_with joined calculate_checksum checksum_from checksum_token decimal
parse_message-frame_example =
    parse_message-frame pos_type (position_token ∷ [])
      ((refl, (refl, (refl, tt))), omega arith, omega arith)
      (((refl, (refl, (refl, (refl, (refl, (refl, tt)))))), omega arith, omega arith), tt)
      (omega arith) (omega arith)

handle_config_message_lem_example :
    let (_, c', b') = handle_config_message steady_hal (config_token ∷ []) board quiet_bus in
    IsAtRest c'.pwm × IsValid c'.dxl × Only IsQuiet quiet_bus b'
unfolding reset_servo_motor_map
handle_config_message_lem_example =
    handle_config_message_lem steady_hal (config_token ∷ []) board quiet_bus refl

abbrev texts : List (ℕ × List ℕ)
texts = (5, frame pos_type (position_token ∷ [])) ∷ []

emergency_stop_final_example :
    let after =
      incoming_messages steady_hal linear_ticks
        ((5, frame estop_type []) ∷ (6, frame pos_type (position_token ∷ [])) ∷ [])
        link in
    (after.service ≡ stopped)
    × (after.board.flags.estop ≡ true)
    × (after.board.dxl.torque_request ≡ TorqueRequest.disable)
    × ((i : ℕ) → i < motor_map_size → after.board.pwm.gpio (21 - i) ≡ false)
    × (after.bus ≡ quiet_bus)
unfolding frame frame_with joined calculate_checksum checksum_from checksum_token decimal
emergency_stop_final_example =
    emergency_stop_final steady_hal linear_ticks 5 []
      ((6, frame pos_type (position_token ∷ [])) ∷ []) link refl
      (reset_servo_motor_map-IsWired boot_pwm initial_motor_map-IsWired) tt (omega arith)
      (omega arith)

wrong_checksum_ignored_example :
    process_message steady_hal linear_ticks 5 (frame_with 7 pos_type (position_token ∷ [])) link
    ≡ record link { successful_messages_parsed = 1; checksum_errors = 1 }
unfolding frame_with joined calculate_checksum checksum_from checksum_token decimal
wrong_checksum_ignored_example =
    wrong_checksum_ignored steady_hal linear_ticks 5 7 pos_type (position_token ∷ []) link
      (omega arith) (omega arith) ((refl, (refl, (refl, tt))), omega arith, omega arith)
      (((refl, (refl, (refl, (refl, (refl, (refl, tt)))))), omega arith, omega arith), tt)
      (omega arith) (omega arith)

-- A message is sent, handed over, and taken by the USB task; a second one waits.
abbrev events : List Event
events = produce (b'A' ∷ []) ∷ round ∷ fetch ∷ produce (b'B' ∷ []) ∷ []

abbrev pipeline : Pipeline
pipeline = record {
  sender = record { outgoing = record { queue = []; dropped = 0 }; usb = []; messages_sent = 0 };
  fetched = [];
}

happen_all_lem_example :
    lines (happen_all events pipeline) ≡ lines pipeline ++ map framed (messages_of events)
unfolding happen_all happen send_round send_from hand_over usb_line send_to_controller fetch_from
happen_all_lem_example =
    happen_all_lem events pipeline (record { few = omega arith; short = tt }) refl
