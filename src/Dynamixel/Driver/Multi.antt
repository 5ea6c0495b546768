-- ===== src/Dynamixel/Driver/Multi.antt =====
-- The transaction with several answers, `dxl_hal_txrx_multi` of firmware/src/dynamixel/dynamixel_hal.c.
use creature_controller.Common.{
  ℕ, zero, suc, ◌+◌, ◌-◌, ◌*◌, not, List, ltb, leb, ◌==◌, if◌then◌else◌, length,
}
use creature_controller.Dynamixel.Packet.{
  DxlResult, dxl_ok, timeout, tx_fail, buffer_overflow, Packet, dxl_build_packet,
}
use creature_controller.Dynamixel.Servo.{is_ok}
use creature_controller.Dynamixel.Driver.{
  Hardware, Driver, max_packet_size, multi_rx_buf_size, count_timeout,
}
use creature_controller.Dynamixel.Driver.Idle.{Alarm, start_alarm, alarm_callback}
use creature_controller.Dynamixel.Driver.Answers.{take_answers}
use creature_controller.Dynamixel.Driver.Transfer.{
  bus_lock, bus_unlock, flush_rx, transmit, start_rx, stop_rx,
}

-- What the caller gets: the result, the array of packets, and `*received_count`.
pub record Answers : Type 0 where
  pub result : DxlResult
  pub rx_pkts : List Packet
  pub received_count : ℕ

module _ {S : Type 0} (hw : Hardware S) where
  -- The task waits for the semaphore: the alarm comes so often before the timeout, and signals when it
  -- finds the line idle.
  unfoldable pub await_signal : ℕ → Alarm → S → S
  await_signal zero a e = e
  await_signal (suc n) a e =
      let e' = hw.alarm_gap e in
      let (a', signals) = alarm_callback (a.rx_buf_size - length (hw.received e')) a in
      let later = await_signal n a' e' in if signals then e' else later

  -- The loop that stands in where no alarm is free.
  unfoldable pub await_idle : ℕ → ℕ → ℕ → ℕ → S → S
  await_idle zero idle_limit last_seen idle_checks e = e
  await_idle (suc n) idle_limit last_seen idle_checks e =
      let current = length (hw.received e) in
      let moved = await_idle n idle_limit current 0 (hw.delay_tick e) in
      let idle = await_idle n idle_limit last_seen (idle_checks + 1) (hw.delay_tick e) in
      let empty = await_idle n idle_limit last_seen idle_checks (hw.delay_tick e) in
      if not (current == last_seen)
      then moved
      else if ltb 0 last_seen
      then (if leb idle_limit (idle_checks + 1) then e else idle)
      else empty

  -- Step 8: with the alarm, or without it.
  unfoldable pub await_answers : ℕ → Driver S → Driver S
  await_answers size d =
      let a = start_alarm d.baud_rate size in
      let (added, e) = hw.add_alarm d.env a.alarm_period_us in
      if added
      then record d { env = hw.cancel_alarm (await_signal (hw.turns e) a e) }
      else record d { env = await_idle (hw.turns e) a.idle_limit 0 0 e }

  -- The steps 9 and 10: the answers are taken out of what has been received.
  unfoldable pub read_answers : ℕ → List Packet → Driver S → Answers × Driver S
  read_answers expected rx_pkts d =
      let d1 = stop_rx hw d in
      let bytes = hw.received d1.env in
      let r =
        take_answers (length bytes) bytes expected
          (record { offset = 0; count = 0; rx_pkts = rx_pkts; metrics = d1.metrics }) in
      if r.count == 0
      then (
        record { result = timeout; rx_pkts = r.rx_pkts; received_count = 0 },
        flush_rx hw (record d1 { metrics = count_timeout r.metrics }),
      )
      else (
        record { result = dxl_ok; rx_pkts = r.rx_pkts; received_count = r.count },
        record d1 { metrics = r.metrics },
      )

  -- `dxl_hal_txrx_multi_locked`: each answer has its data and eleven bytes around it.
  unfoldable pub txrx_multi_locked : Packet → ℕ → ℕ → List Packet → Driver S → Answers × Driver S
  txrx_multi_locked p data_per_response expected rx_pkts d =
      let d0 = record d { last_servo_error = 0 } in
      let failed : DxlResult → Answers =
        λ res. record { result = res; rx_pkts = rx_pkts; received_count = 0 } in
      let (built, bytes) = dxl_build_packet p max_packet_size in
      let size = (data_per_response + 11) * expected in
      let (sent, d1) = transmit hw bytes (flush_rx hw d0) in
      if not (is_ok built)
      then (failed built, d0)
      else if ltb multi_rx_buf_size size
      then (failed buffer_overflow, d0)
      else if not (is_ok sent)
      then (failed timeout, d1)
      else read_answers expected rx_pkts (await_answers size (start_rx hw size d1))

  -- `dxl_hal_txrx_multi`.
  unfoldable pub dxl_hal_txrx_multi : Packet → ℕ → ℕ → List Packet → Driver S → Answers × Driver S
  dxl_hal_txrx_multi p data_per_response expected rx_pkts d =
      let (taken, d1) = bus_lock hw d in
      let (answers, d2) = txrx_multi_locked p data_per_response expected rx_pkts d1 in
      if taken
      then (answers, bus_unlock hw d2)
      else (record { result = tx_fail; rx_pkts = rx_pkts; received_count = 0 }, d1)
