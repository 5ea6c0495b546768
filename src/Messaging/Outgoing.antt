-- ===== src/Messaging/Outgoing.antt =====
-- `outgoing_message_processor_task` of firmware/src/io/message_processor.c, which hands the messages of
-- the board to the USB task.
pub mod Delivery
use creature_controller.Common.{ℕ, ◌+◌, List, [], ◌∷◌, ◌++◌, leb, if◌then◌else◌, length, take}
use creature_controller.Controller.Lifecycle.{Outgoing}

-- `USB_SERIAL_OUTGOING_MESSAGE_MAX_LENGTH` and `USB_SERIAL_OUTGOING_QUEUE_LENGTH`.
abbrev pub usb_message_max_length : ℕ
usb_message_max_length = 384

abbrev pub usb_queue_length : ℕ
usb_queue_length = 15

-- `outgoing_messages` with its tally of drops, the queue `usb_serial_outgoing_messages`, and
-- `message_processor_messages_sent`, which has 64 bits.
pub record Sender : Type 0 where
  pub outgoing : Outgoing
  pub usb : List (List ℕ)
  pub messages_sent : ℕ

-- The text as the USB task gets it: with a newline, cut as `strncpy` cuts it.
unfoldable pub usb_line : List ℕ → List ℕ
usb_line message = take usb_message_max_length (message ++ (10 ∷ []))

-- One message that the task has taken from the queue.
unfoldable pub hand_over : List ℕ → Sender → Sender
hand_over message s =
    if leb usb_queue_length (length s.usb)
    then record s {
      outgoing = record s.outgoing { dropped = s.outgoing.dropped + 1 };
      messages_sent = s.messages_sent + 1;
    }
    else record s { usb = s.usb ++ (usb_line message ∷ []); messages_sent = s.messages_sent + 1 }

-- One round of the task over the messages in the queue; it waits while there is none.
unfoldable pub send_from : List (List ℕ) → Sender → Sender
send_from [] s = s
send_from (message ∷ rest) s =
    hand_over message (record s { outgoing = record s.outgoing { queue = rest } })

unfoldable pub send_round : Sender → Sender
send_round s = send_from s.outgoing.queue s
