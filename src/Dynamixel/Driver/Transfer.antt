-- ===== src/Dynamixel/Driver/Transfer.antt =====
-- The transactions of the bus driver, firmware/src/dynamixel/dynamixel_hal.c: `dxl_hal_tx`,
-- `dxl_hal_txrx` and `dxl_hal_txrx_multi`, each under the bus lock. A loop that ends at a deadline makes
-- the rounds that the clock allows; a byte that is put onto the line is recorded.
pub mod Released
pub mod Reception
pub mod Partial
pub mod Exchange
pub mod Answered
use creature_controller.Common.{
  ℕ, zero, suc, ◌+◌, ◌-◌, ◌*◌, ◌/◌, Bool, true, false, not, ◌&&◌, List, [], ◌∷◌, ◌++◌, Option, none,
  some, ltb, leb, ◌==◌, if◌then◌else◌, length, take, drop, replicate,
}
use creature_controller.Dynamixel.Packet.{
  DxlResult, dxl_ok, timeout, servo_error, tx_fail, buffer_overflow, Packet, dxl_build_packet,
  dxl_parse_packet,
}
use creature_controller.Dynamixel.Servo.Registers.{broadcast_id}
use creature_controller.Dynamixel.Servo.{is_ok}
use creature_controller.Dynamixel.Driver.{
  Hardware, Driver, Metrics, max_packet_size, multi_rx_buf_size, count_noise, count_result,
  count_timeout, count_sent,
}
use creature_controller.Dynamixel.Driver.Scan.{find_packet_header}
use creature_controller.Dynamixel.Driver.Idle.{Alarm, start_alarm, alarm_callback}
use creature_controller.Dynamixel.Driver.Answers.{Reader, take_answers}

module _ {S : Type 0} (hw : Hardware S) where
  -- `dxl_hal_bus_lock` and `dxl_hal_bus_unlock`, of a driver that has been initialized.
  unfoldable pub bus_lock : Driver S → Bool × Driver S
  bus_lock d =
      let (taken, e) = hw.take_mutex d.env in
      (taken, record d { env = e; held = if taken then d.held + 1 else d.held })

  unfoldable pub bus_unlock : Driver S → Driver S
  bus_unlock d = record d { env = hw.give_mutex d.env; held = d.held - 1 }

  -- The loop of `dxl_hal_flush_rx`.
  unfoldable pub drain : ℕ → S → S
  drain zero e = e
  drain (suc n) e = let rest = drain n (hw.rx_get e) in if hw.rx_empty e then e else rest

  -- `dxl_hal_flush_rx`.
  unfoldable pub flush_rx : Driver S → Driver S
  flush_rx d = record d { env = drain (max_packet_size * 2) (hw.dma_abort d.env) }

  -- The loop of `pio_put_with_timeout`: is there room before the deadline?
  unfoldable pub await_room : ℕ → S → Bool × S
  await_room zero e = let (full, e') = hw.tx_full e in (not full, e')
  await_room (suc n) e =
      let (full, e') = hw.tx_full e in
      let later = await_room n e' in if full then later else (true, e')

  -- `pio_put_with_timeout`.
  unfoldable pub put_byte : ℕ → Driver S → Bool × Driver S
  put_byte b d =
      let (room, e) = await_room (hw.turns d.env) d.env in
      if room
      then (true, record d { env = hw.put e b; line = b ∷ d.line })
      else (false, record d { env = e })

  -- The loop over the bytes of the packet, which ends with the first that finds no room.
  unfoldable pub put_bytes : List ℕ → Driver S → Bool × Driver S
  put_bytes [] d = (true, d)
  put_bytes (b ∷ bs) d =
      let (done, d') = put_byte b d in
      let rest = put_bytes bs d' in if done then rest else (false, d')

  -- The loop of `wait_tx_complete`.
  unfoldable pub await_empty : ℕ → S → Bool × S
  await_empty zero e = hw.tx_empty e
  await_empty (suc n) e =
      let (empty, e') = hw.tx_empty e in
      let later = await_empty n e' in if empty then (true, e') else later

  -- `wait_one_byte_time`: so many microseconds.
  unfoldable pub one_byte_time : ℕ → ℕ
  one_byte_time baud_rate = let us = 12000000 / baud_rate in if ltb us 1 then 1 else us

  -- `wait_tx_complete`.
  unfoldable pub wait_tx_complete : Driver S → Bool × Driver S
  wait_tx_complete d =
      let (empty, e) = await_empty (hw.turns d.env) d.env in
      if empty
      then (true, record d { env = hw.busy_wait e (one_byte_time d.baud_rate) })
      else (false, record d { env = e })

  -- The pin is driven by the transmitter, or given up.
  abbrev pub drive_line : Driver S → Driver S
  drive_line d = record d { tx_enabled = true; tx_drives = true }

  abbrev pub release_line : Driver S → Driver S
  release_line d = record d { tx_enabled = false; tx_drives = false }

  -- The steps 2 to 5: the bytes are sent, and the line is given up whatever happens.
  unfoldable pub transmit : List ℕ → Driver S → DxlResult × Driver S
  transmit bytes d =
      let (put, d1) = put_bytes bytes (drive_line d) in
      let (complete, d2) = wait_tx_complete d1 in
      if not put
      then (timeout, release_line d1)
      else if not complete
      then (timeout, release_line d2)
      else (dxl_ok, record (release_line d2) { metrics = count_sent d2.metrics })

  -- `dxl_hal_tx_locked` and `dxl_hal_tx`.
  unfoldable pub tx_locked : Packet → Driver S → DxlResult × Driver S
  tx_locked p d =
      let (built, bytes) = dxl_build_packet p max_packet_size in
      if is_ok built then transmit bytes d else (built, d)

  unfoldable pub dxl_hal_tx : Packet → Driver S → DxlResult × Driver S
  dxl_hal_tx p d =
      let (taken, d1) = bus_lock d in
      let (res, d2) = tx_locked p d1 in if taken then (res, bus_unlock d2) else (tx_fail, d1)

  -- The reception begins, and ends.
  unfoldable pub start_rx : ℕ → Driver S → Driver S
  start_rx size d = record d { env = hw.dma_start d.env size; rx_enabled = true }

  unfoldable pub stop_rx : Driver S → Driver S
  stop_rx d = record d { env = hw.dma_abort d.env; rx_enabled = false }

  -- The header that is known, or that the bytes received so far show.
  unfoldable pub look : Option (ℕ × ℕ) → List ℕ → ℕ → Option (ℕ × ℕ)
  look (some found) bytes max_end = some found
  look none bytes max_end = find_packet_header bytes (length bytes) 0 max_end

  -- Is the packet complete?
  abbrev pub complete : Option (ℕ × ℕ) → ℕ → Bool
  complete none received = false
  complete (some (at, end)) received = leb end received

  -- The polling loop of `dxl_hal_txrx_locked`: the header found by the deadline, if any.
  unfoldable pub poll_header : ℕ → Option (ℕ × ℕ) → S → Option (ℕ × ℕ) × S
  poll_header zero found e = (found, e)
  poll_header (suc n) found e =
      let bytes = hw.received e in
      let found' = look found bytes max_packet_size in
      let later = poll_header n found' (hw.busy_wait e 10) in
      if complete found' (length bytes) then (found', e) else later

  -- The steps behind the polling loop. Behind the bytes received, the buffer holds zeros.
  unfoldable pub parse_answer :
      Option (ℕ × ℕ) → List ℕ → Packet → Driver S → DxlResult × Packet × Driver S
  parse_answer none bytes rx d =
      (timeout, rx, flush_rx (record d { metrics = count_timeout d.metrics }))
  parse_answer (some (at, end)) bytes rx d =
      let buffer = bytes ++ replicate (max_packet_size - length bytes) 0 in
      let (res, p) = dxl_parse_packet (take (end - at) (drop at buffer)) rx in
      (
        res,
        p,
        record d {
          metrics = count_result res (count_noise at d.metrics);
          last_servo_error = elim res [ servo_error ↦ p.error | _ ↦ d.last_servo_error ];
        },
      )

  -- `dxl_hal_txrx_locked` behind the transmission: the answer is awaited and read.
  unfoldable pub receive_answer : Packet → Driver S → DxlResult × Packet × Driver S
  receive_answer rx d =
      let d1 = start_rx max_packet_size d in
      let (found, e) = poll_header (hw.turns d1.env) none d1.env in
      let d2 = stop_rx (record d1 { env = e }) in
      let bytes = hw.received d2.env in parse_answer (look found bytes (length bytes)) bytes rx d2

  -- `dxl_hal_txrx_locked`. The timeout is part of what `turns` knows.
  unfoldable pub txrx_locked : Packet → Packet → Driver S → DxlResult × Packet × Driver S
  txrx_locked p rx d =
      let d0 = record d { last_servo_error = 0 } in
      let (built, bytes) = dxl_build_packet p max_packet_size in
      let (cast, dc) = dxl_hal_tx p d0 in
      let (sent, d1) = transmit bytes (flush_rx d0) in
      if p.id == broadcast_id
      then (cast, rx, dc)
      else if not (is_ok built)
      then (built, rx, d0)
      else if not (is_ok sent)
      then (timeout, rx, d1)
      else receive_answer rx d1

  -- `dxl_hal_txrx`.
  unfoldable pub dxl_hal_txrx : Packet → Packet → Driver S → DxlResult × Packet × Driver S
  dxl_hal_txrx p rx d =
      let (taken, d1) = bus_lock d in
      let (res, rx', d2) = txrx_locked p rx d1 in
      if taken then (res, rx', bus_unlock d2) else (tx_fail, rx, d1)
