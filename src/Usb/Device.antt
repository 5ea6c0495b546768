-- ===== src/Usb/Device.antt =====
-- The way out: `usb_device_task` of firmware/src/usb/usb.c. TinyUSB is a parameter; the bytes that its FIFO
-- accepts are recorded in order.
pub mod Stream
pub mod Count
use creature_controller.Common.{
  ℕ, zero, suc, ◌+◌, Bool, true, false, not, ◌&&◌, List, [], ◌∷◌, ◌++◌, ltb, leb, ◌==◌,
  if◌then◌else◌, length, take, drop,
}
use creature_controller.Controller.Lifecycle.{Board, controller_connected, controller_disconnected}

-- `USB_TX_BURST_MAX`, `USB_TX_STALL_LIMIT`, `USB_DEVICE_TASK_POLL_MS`, `USB_CDC_CONNECTION_CHECK_MS`.
abbrev pub burst_max : ℕ
burst_max = 8

abbrev pub stall_limit : ℕ
stall_limit = 200

abbrev pub poll_ms : ℕ
poll_ms = 1

abbrev pub connection_check_ms : ℕ
connection_check_ms = 100

-- `tud_task`, `tud_cdc_connected`, `tud_cdc_n_write` with the number of bytes taken, and the flush.
pub record Cdc (S : Type 0) : Type 0 where
  pub service : S → S
  pub connected : S → Bool
  pub write : S → List ℕ → ℕ × S
  pub flush : S → S

-- The variables of the task and of the file, with the queue `usb_serial_outgoing_messages`, the bytes on
-- the wire, and the board whose connection it reports. No text in `tx_msg` is `tx_len == 0`.
pub record Device (S : Type 0) : Type 0 where
  pub env : S
  pub queue : List (List ℕ)
  pub tx_msg : List ℕ
  pub tx_sent : ℕ
  pub tx_stalls : ℕ
  pub wire : List ℕ
  pub messages_sent : ℕ
  pub messages_dropped : ℕ
  pub tx_fifo_full : ℕ
  pub conn_check_ticks : ℕ
  pub cdc_connected : Bool
  pub board : Board

module _ {S : Type 0} where
  -- The next message of the queue, if there is one.
  unfoldable pub from_queue : List (List ℕ) → Device S → Bool × Device S
  from_queue [] d = (false, d)
  from_queue (message ∷ rest) d =
      (true, record d { queue = rest; tx_msg = message; tx_sent = 0; tx_stalls = 0 })

  -- The message in flight, or else the next one.
  unfoldable pub fetch_message : Device S → Bool × Device S
  fetch_message d = if length d.tx_msg == 0 then from_queue d.queue d else (true, d)

  -- Without a connection, the backlog is dropped and counted.
  unfoldable pub discard : Device S → Device S
  discard d =
      let in_flight = if length d.tx_msg == 0 then 0 else 1 in
      record d {
        tx_msg = [];
        queue = [];
        messages_dropped = d.messages_dropped + in_flight + length d.queue;
      }

module _ {S : Type 0} (cdc : Cdc S) where
  -- The rest of a round of the burst: whether the burst goes on.
  unfoldable pub write_some : Device S → Bool × Device S
  write_some d =
      let rest = drop d.tx_sent d.tx_msg in
      let (n, e) = cdc.write d.env rest in
      let d1 = record d { env = e; wire = d.wire ++ take n rest; tx_sent = d.tx_sent + n } in
      let stalls = if n == 0 then d.tx_stalls + 1 else d.tx_stalls in
      let d2 = record d1 { tx_fifo_full = d.tx_fifo_full + 1; tx_stalls = stalls } in
      if leb (length d.tx_msg) (d.tx_sent + n)
      then (true, record d1 { tx_msg = []; messages_sent = d.messages_sent + 1 })
      else if (n == 0) && leb stall_limit stalls
      then (false, record d2 { tx_msg = []; messages_dropped = d.messages_dropped + 1 })
      else (false, d2)

  -- The burst, with so many rounds left.
  unfoldable pub burst : ℕ → Device S → Device S
  burst zero d = d
  burst (suc left) d =
      let (have, d1) = fetch_message d in
      let (go_on, d2) = write_some d1 in
      let later = burst left d2 in if have then (if go_on then later else d2) else d1

  -- `service_cdc_connection`.
  unfoldable pub service_cdc_connection : Device S → Device S
  service_cdc_connection d =
      let connected = cdc.connected d.env in
      if connected && not d.cdc_connected
      then record d {
        cdc_connected = true;
        board = record d.board { flags = controller_connected d.board.flags };
      }
      else if not connected && d.cdc_connected
      then record d { cdc_connected = false; board = controller_disconnected d.board }
      else d

  -- The second step of the loop.
  unfoldable pub transmit_step : Device S → Device S
  transmit_step d =
      let sent = burst burst_max d in
      if cdc.connected d.env then record sent { env = cdc.flush sent.env } else discard d

  -- The third step.
  unfoldable pub connection_step : Device S → Device S
  connection_step d =
      let ticks = d.conn_check_ticks + poll_ms in
      if leb connection_check_ms ticks
      then service_cdc_connection (record d { conn_check_ticks = 0 })
      else record d { conn_check_ticks = ticks }

  -- A round of `usb_device_task`.
  unfoldable pub device_round : Device S → Device S
  device_round d = connection_step (transmit_step (record d { env = cdc.service d.env }))
