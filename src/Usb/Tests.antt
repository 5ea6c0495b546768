-- ===== src/Usb/Tests.antt =====
-- Tests of the USB serial line, with a FIFO that takes five bytes at a time.
use creature_controller.Common.{
  ℕ, ◌+◌, ◌-◌, ◌≤◌, ◌≡◌, refl, true, List, [], ◌∷◌, arith, ltb, if◌then◌else◌, length, All, ◌≢◌,
}
use creature_controller.Usb.Receiver.{
  Receiver, newline, bell, tud_cdc_rx_cb, rx_chars, rx_char, push_line,
}
use creature_controller.Usb.Receiver.Lines.{
  fresh, take_lines, joined_chunks, sent_lines, tud_cdc_rx_cb_lem,
}
use creature_controller.Usb.Device.{Cdc, Device, device_round}
use creature_controller.Usb.Device.Stream.{all_bytes}
use creature_controller.Usb.Device.Count.{all_messages, device_round_lem}
use creature_controller.Messaging.Fixtures.{board}

abbrev five_bytes : Cdc ℕ
five_bytes = record {
  service = λ e. 0;
  connected = λ e. true;
  write =
      λ e bytes. if ltb 5 (e + length bytes) then (5 - e, 5) else (length bytes, e + length bytes);
  flush = λ e. e;
}

-- A message in flight, of which three bytes have gone, and another one in the queue.
abbrev sending_device : Device ℕ
sending_device = record {
  env = 0;
  queue = (80 ∷ 79 ∷ 78 ∷ 71 ∷ newline ∷ []) ∷ [];
  tx_msg = 76 ∷ 79 ∷ 71 ∷ 49 ∷ newline ∷ [];
  tx_sent = 3;
  tx_stalls = 1;
  wire = 76 ∷ 79 ∷ 71 ∷ [];
  messages_sent = 4;
  messages_dropped = 0;
  tx_fifo_full = 1;
  conn_check_ticks = 99;
  cdc_connected = true;
  board = board;
}

device_round_lem_example :
    let after = device_round five_bytes sending_device in
    (all_messages after ≡ all_messages sending_device)
    × (0 ≤ after.messages_dropped)
    × (after.messages_dropped ≡ 0 → all_bytes after ≡ all_bytes sending_device)
device_round_lem_example = device_round_lem five_bytes sending_device

-- A receiver in the middle of a line that was too long.
abbrev swallowing : Receiver
swallowing = record {
  line_buffer = 88 ∷ 88 ∷ [];
  overflowed = true;
  characters_received = 300;
  commands = [];
  messages_received = 0;
  incoming = [];
  incoming_dropped = 1;
}

abbrev two_chunks : List (List ℕ)
two_chunks = (bell ∷ 80 ∷ []) ∷ (79 ∷ newline ∷ newline ∷ 83 ∷ newline ∷ []) ∷ []

abbrev three_lines : List (List ℕ)
three_lines = (80 ∷ 79 ∷ []) ∷ [] ∷ (83 ∷ []) ∷ []

three_lines_commands :
    (tud_cdc_rx_cb two_chunks swallowing).commands ≡ (80 ∷ 79 ∷ []) ∷ (83 ∷ []) ∷ []
unfolding tud_cdc_rx_cb rx_chars rx_char push_line
three_lines_commands = refl

tud_cdc_rx_cb_lem_example :
    tud_cdc_rx_cb two_chunks swallowing
    ≡ fresh (take_lines three_lines (record swallowing { characters_received = 301 }))
unfolding joined_chunks sent_lines
tud_cdc_rx_cb_lem_example =
    tud_cdc_rx_cb_lem two_chunks three_lines swallowing three_lines_text same_bytes
  where
    text : (n : ℕ) → 11 ≤ n → (n ≢ newline) × (n ≢ bell)
    text n h = (λ e. omega (arith, h, e), λ e. omega (arith, h, e))

    three_lines_text : All (All (λ n. (n ≢ newline) × (n ≢ bell))) three_lines
    three_lines_text = (
      (text 80 (omega arith), (text 79 (omega arith), tt)),
      (tt, ((text 83 (omega arith), tt), tt)),
    )

    same_bytes : joined_chunks two_chunks ≡ bell ∷ sent_lines three_lines
    same_bytes = refl
