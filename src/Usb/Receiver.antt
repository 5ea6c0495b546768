-- ===== src/Usb/Receiver.antt =====
-- The way in: `tud_cdc_rx_cb` of firmware/src/io/usb_serial.c, and `incoming_usb_serial_reader_task` of
-- firmware/src/io/usb_workers.c.
pub mod Lines
use creature_controller.Common.{
  ℕ, zero, suc, ◌+◌, ◌-◌, ◌≤◌, ◌<◌, ◌≡◌, ◌≢◌, refl, sym, ap, ◌∙◌, Bool, true, false, not, List, [],
  ◌∷◌, ◌++◌, arith, ltb, leb, ◌==◌, if◌then◌else◌, length, take, drop, All, Bool-cases, inl, inr,
  length-append, length-take, take-append-drop, append-nil, append_assoc,
}

-- `USB_SERIAL_INCOMING_MESSAGE_MAX_LENGTH`, the lengths of the two queues, the newline and the bell.
abbrev pub line_max_length : ℕ
line_max_length = 256

abbrev pub incoming_queue_length : ℕ
incoming_queue_length = 5

abbrev pub newline : ℕ
newline = 10

abbrev pub bell : ℕ
bell = 7

-- The static variables of `tud_cdc_rx_cb`, of which `line_buffer` holds the `bufferIndex` bytes that are in
-- use, with `usb_serial_incoming_commands` and the counters.
pub record Receiver : Type 0 where
  pub line_buffer : List ℕ
  pub overflowed : Bool
  pub characters_received : ℕ
  pub commands : List (List ℕ)
  pub messages_received : ℕ
  pub incoming : List (List ℕ)
  pub incoming_dropped : ℕ

-- `xQueueSendToBack` of the line, counted as dropped where the queue is full.
unfoldable pub push_line : List ℕ → Receiver → Receiver
push_line line r =
    if leb incoming_queue_length (length r.commands)
    then record r { incoming_dropped = r.incoming_dropped + 1 }
    else record r { commands = r.commands ++ (line ∷ []) }

-- The body of the loop: one byte.
unfoldable pub rx_char : ℕ → Receiver → Receiver
rx_char ch r0 =
    let r = record r0 { characters_received = r0.characters_received + 1 } in
    let cleared = record r { line_buffer = []; overflowed = false } in
    let queued = push_line r.line_buffer r in
    if ch == bell
    then cleared
    else if ch == newline
    then (if r.overflowed
        then cleared
        else if length r.line_buffer == 0
        then r
        else record queued { line_buffer = [] })
    else if r.overflowed
    then r
    else if ltb (length r.line_buffer) (line_max_length - 1)
    then record r { line_buffer = r.line_buffer ++ (ch ∷ []) }
    else record r { overflowed = true; incoming_dropped = r.incoming_dropped + 1 }

-- The loop over a chunk, and `tud_cdc_rx_cb` over the chunks that the FIFO gives.
unfoldable pub rx_chars : List ℕ → Receiver → Receiver
rx_chars [] r = r
rx_chars (ch ∷ chs) r = rx_chars chs (rx_char ch r)

unfoldable pub tud_cdc_rx_cb : List (List ℕ) → Receiver → Receiver
tud_cdc_rx_cb [] r = r
tud_cdc_rx_cb (chunk ∷ chunks) r = tud_cdc_rx_cb chunks (rx_chars chunk r)

-- The bytes in front of a NUL.
unfoldable pub c_string : List ℕ → List ℕ
c_string [] = []
c_string (zero ∷ s) = []
c_string (suc n ∷ s) = suc n ∷ c_string s

-- A round of `incoming_usb_serial_reader_task`, over the commands that wait.
unfoldable pub read_command : List (List ℕ) → Receiver → Receiver
read_command [] r = r
read_command (line ∷ rest) r =
    let taken = record r { commands = rest; messages_received = r.messages_received + 1 } in
    if leb incoming_queue_length (length r.incoming)
    then record taken { incoming_dropped = r.incoming_dropped + 1 }
    else record taken { incoming = r.incoming ++ (c_string line ∷ []) }

unfoldable pub reader_round : Receiver → Receiver
reader_round r = read_command r.commands r
