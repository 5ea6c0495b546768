-- ===== src/Dynamixel/Driver/Transfer/Released.antt =====
-- After every transaction, whatever happens in it, the line is given up and the bus lock is held as
-- often as before.
use creature_controller.Common.{
  ℕ, ◌+◌, ◌*◌, ◌≡◌, refl, ◌∙◌, Bool, true, false, not, List, [], ◌∷◌, Option, none, some, arith,
  ltb, ◌==◌, if◌then◌else◌, if_both, if_split, length,
}
use creature_controller.Dynamixel.Packet.{
  DxlResult, dxl_ok, timeout, tx_fail, buffer_overflow, Packet, dxl_build_packet,
}
use creature_controller.Dynamixel.Servo.{is_ok}
use creature_controller.Dynamixel.Servo.Registers.{broadcast_id}
use creature_controller.Dynamixel.Driver.{
  Hardware, Driver, max_packet_size, multi_rx_buf_size, count_timeout, count_sent,
}
use creature_controller.Dynamixel.Driver.Idle.{Alarm, start_alarm}
use creature_controller.Dynamixel.Driver.Answers.{Reader, take_answers}
use creature_controller.Dynamixel.Driver.Transfer.{
  bus_lock, bus_unlock, flush_rx, await_room, put_byte, put_bytes, await_empty, one_byte_time,
  wait_tx_complete, drive_line, release_line, transmit, tx_locked, dxl_hal_tx, start_rx, stop_rx,
  look, poll_header, parse_answer, receive_answer, txrx_locked, dxl_hal_txrx,
}
use creature_controller.Dynamixel.Driver.Multi.{
  Answers, await_signal, await_idle, await_answers, read_answers, txrx_multi_locked,
  dxl_hal_txrx_multi,
}

module _ {S : Type 0} (hw : Hardware S) where
  -- Neither state machine runs, and the pin is an input.
  abbrev pub IsReleased : Driver S → Type 0
  IsReleased d = (d.tx_enabled ≡ false) × (d.tx_drives ≡ false) × (d.rx_enabled ≡ false)

  -- What is released stays so, and the lock is held as often.
  abbrev pub Restores : Driver S → Driver S → Type 0
  Restores d d' = (IsReleased d → IsReleased d') × (d'.held ≡ d.held)

  -- The receiver and the lock are left alone.
  abbrev Aside : Driver S → Driver S → Type 0
  Aside d d' = (d'.rx_enabled ≡ d.rx_enabled) × (d'.held ≡ d.held)

  put_byte-Aside : (b : ℕ) (d : Driver S) → Aside d (put_byte hw b d).1
  unfolding put_byte
  put_byte-Aside b d =
      if_both (λ (r : Bool × Driver S). Aside d r.1) room.0
        (true, record d { env = hw.put room.1 b; line = b ∷ d.line })
        (false, record d { env = room.1 }) (refl, refl) (refl, refl)
    where
      room : Bool × S
      room = await_room hw (hw.turns d.env) d.env

  put_bytes-Aside : (bs : List ℕ) (d : Driver S) → Aside d (put_bytes hw bs d).1
  unfolding put_bytes
  put_bytes-Aside [] d = (refl, refl)
  put_bytes-Aside (b ∷ bs) d =
      let one = put_byte-Aside b d in
      let rest = put_bytes-Aside bs (put_byte hw b d).1 in
      if_both (λ (r : Bool × Driver S). Aside d r.1) (put_byte hw b d).0
        (put_bytes hw bs (put_byte hw b d).1) (false, (put_byte hw b d).1)
        (rest.0 ∙ one.0, rest.1 ∙ one.1) one

  wait_tx_complete-Aside : (d : Driver S) → Aside d (wait_tx_complete hw d).1
  unfolding wait_tx_complete
  wait_tx_complete-Aside d =
      if_both (λ (r : Bool × Driver S). Aside d r.1) drained.0
        (true, record d { env = hw.busy_wait drained.1 (one_byte_time hw d.baud_rate) })
        (false, record d { env = drained.1 }) (refl, refl) (refl, refl)
    where
      drained : Bool × S
      drained = await_empty hw (hw.turns d.env) d.env

  transmit-Restores : (bytes : List ℕ) (d : Driver S) → Restores d (transmit hw bytes d).1
  unfolding transmit
  transmit-Restores bytes d =
      if_both K (not put.0) (timeout, release_line hw put.1) waited first
        (if_both K (not complete.0) (timeout, release_line hw complete.1)
          (dxl_ok, record (release_line hw complete.1) { metrics = count_sent complete.1.metrics })
          second second)
    where
      K : DxlResult × Driver S → Type 0
      K r = Restores d r.1

      put : Bool × Driver S
      put = put_bytes hw bytes (drive_line hw d)

      complete : Bool × Driver S
      complete = wait_tx_complete hw put.1

      waited : DxlResult × Driver S
      waited = if not complete.0 then (timeout, release_line hw complete.1) else (
        dxl_ok,
        record (release_line hw complete.1) { metrics = count_sent complete.1.metrics },
      )

      one : Aside (drive_line hw d) put.1
      one = put_bytes-Aside bytes (drive_line hw d)

      two : Aside put.1 complete.1
      two = wait_tx_complete-Aside put.1

      first : Restores d (release_line hw put.1)
      first = (λ h. (refl, refl, one.0 ∙ h.2), one.1)

      second : Restores d (release_line hw complete.1)
      second = (λ h. (refl, refl, two.0 ∙ one.0 ∙ h.2), two.1 ∙ one.1)

  tx_locked-Restores : (p : Packet) (d : Driver S) → Restores d (tx_locked hw p d).1
  unfolding tx_locked
  tx_locked-Restores p d =
      let b = dxl_build_packet p max_packet_size in
      if_both (λ (r : DxlResult × Driver S). Restores d r.1) (is_ok b.0) (transmit hw b.1 d)
        (b.0, d) (transmit-Restores b.1 d) (λ h. h, refl)

  -- A locked section that restores the driver, between the lock and the unlock.
  locked-Restores :
      (d d2 : Driver S)
      → (bus_lock hw d).0 ≡ true
      → Restores (bus_lock hw d).1 d2
      → Restores d (bus_unlock hw d2)
  unfolding bus_lock bus_unlock
  locked-Restores d d2 taken r = (λ h. r.0 h, ground (arith, r.1))

  refused-Restores : (d : Driver S) → (bus_lock hw d).0 ≡ false → Restores d (bus_lock hw d).1
  unfolding bus_lock
  refused-Restores d busy = (λ h. h, rw busy refl)

  -- After `dxl_hal_tx`: sent or not, and with the lock or without.
  dxl_hal_tx-Restores : (p : Packet) (d : Driver S) → Restores d (dxl_hal_tx hw p d).1
  unfolding dxl_hal_tx
  dxl_hal_tx-Restores p d =
      if_split (λ (r : DxlResult × Driver S). Restores d r.1) l.0
        ((tx_locked hw p l.1).0, bus_unlock hw (tx_locked hw p l.1).1) (tx_fail, l.1)
        (λ taken. locked-Restores d (tx_locked hw p l.1).1 taken (tx_locked-Restores p l.1))
        (refused-Restores d)
    where
      l : Bool × Driver S
      l = bus_lock hw d

  parse_answer-Restores :
      (found : Option (ℕ × ℕ)) (bytes : List ℕ) (rx : Packet) (d : Driver S)
      → Restores d (parse_answer hw found bytes rx d).2
  unfolding parse_answer flush_rx
  parse_answer-Restores none bytes rx d = (λ h. h, refl)
  parse_answer-Restores (some (at, end)) bytes rx d = (λ h. h, refl)

  receive_answer-Restores : (rx : Packet) (d : Driver S) → Restores d (receive_answer hw rx d).2
  unfolding receive_answer start_rx stop_rx
  receive_answer-Restores rx d =
      let r = parse_answer-Restores (look hw polled.0 bytes (length bytes)) bytes rx stopped in
      (λ h. r.0 (h.0, h.1, refl), r.1)
    where
      started : Driver S
      started = start_rx hw max_packet_size d

      polled : Option (ℕ × ℕ) × S
      polled = poll_header hw (hw.turns started.env) none started.env

      stopped : Driver S
      stopped = stop_rx hw (record started { env = polled.1 })

      bytes : List ℕ
      bytes = hw.received stopped.env

  txrx_locked-Restores : (p rx : Packet) (d : Driver S) → Restores d (txrx_locked hw p rx d).2
  unfolding txrx_locked flush_rx
  txrx_locked-Restores p rx d =
      if_both K (p.id == broadcast_id) (cast.0, rx, cast.1) unicast (dxl_hal_tx-Restores p d0)
        (if_both K (not (is_ok built.0)) (built.0, rx, d0) sending (λ h. h, refl)
          (if_both K (not (is_ok sent.0)) (timeout, rx, sent.1) (receive_answer hw rx sent.1)
            transmitted received))
    where
      K : DxlResult × Packet × Driver S → Type 0
      K r = Restores d r.2

      d0 : Driver S
      d0 = record d { last_servo_error = 0 }

      cast : DxlResult × Driver S
      cast = dxl_hal_tx hw p d0

      built : DxlResult × List ℕ
      built = dxl_build_packet p max_packet_size

      sent : DxlResult × Driver S
      sent = transmit hw built.1 (flush_rx hw d0)

      sending : DxlResult × Packet × Driver S
      sending = if not (is_ok sent.0) then (timeout, rx, sent.1) else receive_answer hw rx sent.1

      unicast : DxlResult × Packet × Driver S
      unicast = if not (is_ok built.0) then (built.0, rx, d0) else sending

      transmitted : Restores d sent.1
      transmitted = transmit-Restores built.1 (flush_rx hw d0)

      received : Restores d (receive_answer hw rx sent.1).2
      received =
          let r = receive_answer-Restores rx sent.1 in
          (λ h. r.0 (transmitted.0 h), r.1 ∙ transmitted.1)

  -- After `dxl_hal_txrx`.
  dxl_hal_txrx-Restores : (p rx : Packet) (d : Driver S) → Restores d (dxl_hal_txrx hw p rx d).2
  unfolding dxl_hal_txrx
  dxl_hal_txrx-Restores p rx d =
      if_split (λ (r : DxlResult × Packet × Driver S). Restores d r.2) l.0
        (r.0, r.1, bus_unlock hw r.2) (tx_fail, rx, l.1)
        (λ taken. locked-Restores d r.2 taken (txrx_locked-Restores p rx l.1)) (refused-Restores d)
    where
      l : Bool × Driver S
      l = bus_lock hw d

      r : DxlResult × Packet × Driver S
      r = txrx_locked hw p rx l.1

  -- The transmitter and the lock are left alone, and the receiver does not run in the end.
  abbrev Ends : Driver S → Driver S → Type 0
  Ends d d' =
      (d'.tx_enabled ≡ d.tx_enabled)
      × (d'.tx_drives ≡ d.tx_drives)
      × (d'.rx_enabled ≡ false)
      × (d'.held ≡ d.held)

  await_answers_lem :
      (size : ℕ) (d : Driver S)
      → let d' = await_answers hw size d in
        (d'.tx_enabled ≡ d.tx_enabled) × (d'.tx_drives ≡ d.tx_drives) × (d'.held ≡ d.held)
  unfolding await_answers
  await_answers_lem size d =
      if_both
        (λ (x : Driver S).
          (x.tx_enabled ≡ d.tx_enabled) × (x.tx_drives ≡ d.tx_drives) × (x.held ≡ d.held))
        added.0 (record d { env = hw.cancel_alarm (await_signal hw (hw.turns added.1) a added.1) })
        (record d { env = await_idle hw (hw.turns added.1) a.idle_limit 0 0 added.1 })
        (refl, refl, refl) (refl, refl, refl)
    where
      a : Alarm
      a = start_alarm d.baud_rate size

      added : Bool × S
      added = hw.add_alarm d.env a.alarm_period_us

  read_answers-Ends :
      (expected : ℕ) (rx_pkts : List Packet) (d : Driver S)
      → Ends d (read_answers hw expected rx_pkts d).1
  unfolding read_answers stop_rx flush_rx
  read_answers-Ends expected rx_pkts d =
      if_both (λ (r : Answers × Driver S). Ends d r.1) (r.count == 0)
        (
          record { result = timeout; rx_pkts = r.rx_pkts; received_count = 0 },
          flush_rx hw (record d1 { metrics = count_timeout r.metrics }),
        )
        (
          record { result = dxl_ok; rx_pkts = r.rx_pkts; received_count = r.count },
          record d1 { metrics = r.metrics },
        )
        (refl, refl, refl, refl) (refl, refl, refl, refl)
    where
      d1 : Driver S
      d1 = stop_rx hw d

      bytes : List ℕ
      bytes = hw.received d1.env

      r : Reader
      r =
          take_answers (length bytes) bytes expected
            (record { offset = 0; count = 0; rx_pkts = rx_pkts; metrics = d1.metrics })

  txrx_multi_locked-Restores :
      (p : Packet) (n expected : ℕ) (rx_pkts : List Packet) (d : Driver S)
      → Restores d (txrx_multi_locked hw p n expected rx_pkts d).1
  unfolding txrx_multi_locked flush_rx start_rx
  txrx_multi_locked-Restores p n expected rx_pkts d =
      if_both K (not (is_ok built.0)) (failed built.0, d0) sized (λ h. h, refl)
        (if_both K (ltb multi_rx_buf_size size) (failed buffer_overflow, d0) sending (λ h. h, refl)
          (if_both K (not (is_ok sent.0)) (failed timeout, sent.1)
            (read_answers hw expected rx_pkts waited) transmitted received))
    where
      K : Answers × Driver S → Type 0
      K r = Restores d r.1

      failed : DxlResult → Answers
      failed res = record { result = res; rx_pkts = rx_pkts; received_count = 0 }

      d0 : Driver S
      d0 = record d { last_servo_error = 0 }

      built : DxlResult × List ℕ
      built = dxl_build_packet p max_packet_size

      size : ℕ
      size = (n + 11) * expected

      sent : DxlResult × Driver S
      sent = transmit hw built.1 (flush_rx hw d0)

      waited : Driver S
      waited = await_answers hw size (start_rx hw size sent.1)

      sending : Answers × Driver S
      sending =
          if not (is_ok sent.0)
          then (failed timeout, sent.1)
          else read_answers hw expected rx_pkts waited

      sized : Answers × Driver S
      sized = if ltb multi_rx_buf_size size then (failed buffer_overflow, d0) else sending

      transmitted : Restores d sent.1
      transmitted = transmit-Restores built.1 (flush_rx hw d0)

      received : Restores d (read_answers hw expected rx_pkts waited).1
      received =
          let e = read_answers-Ends expected rx_pkts waited in
          let w = await_answers_lem size (start_rx hw size sent.1) in
          (
            λ h. let t = transmitted.0 h in (e.0 ∙ w.0 ∙ t.0, e.1 ∙ w.1 ∙ t.1, e.2),
            e.3 ∙ w.2 ∙ transmitted.1,
          )

  -- After `dxl_hal_txrx_multi`.
  dxl_hal_txrx_multi-Restores :
      (p : Packet) (n expected : ℕ) (rx_pkts : List Packet) (d : Driver S)
      → Restores d (dxl_hal_txrx_multi hw p n expected rx_pkts d).1
  unfolding dxl_hal_txrx_multi
  dxl_hal_txrx_multi-Restores p n expected rx_pkts d =
      if_split (λ (r : Answers × Driver S). Restores d r.1) l.0 (r.0, bus_unlock hw r.1)
        (record { result = tx_fail; rx_pkts = rx_pkts; received_count = 0 }, l.1)
        (λ taken. locked-Restores d r.1 taken (txrx_multi_locked-Restores p n expected rx_pkts l.1))
        (refused-Restores d)
    where
      l : Bool × Driver S
      l = bus_lock hw d

      r : Answers × Driver S
      r = txrx_multi_locked hw p n expected rx_pkts l.1

  -- Whatever the line, the clock and the lock do: after each of the three transactions, if neither state
  -- machine ran and the pin was an input before, then this is so again, and the task holds the bus lock
  -- as often as before.
  pub transactions_release :
      (p rx : Packet) (n expected : ℕ) (rx_pkts : List Packet) (d : Driver S)
      → IsReleased d
      → let after_tx = (dxl_hal_tx hw p d).1 in
        let after_txrx = (dxl_hal_txrx hw p rx d).2 in
        let after_multi = (dxl_hal_txrx_multi hw p n expected rx_pkts d).1 in
        (IsReleased after_tx × (after_tx.held ≡ d.held))
        × (IsReleased after_txrx × (after_txrx.held ≡ d.held))
        × (IsReleased after_multi × (after_multi.held ≡ d.held))
  transactions_release p rx n expected rx_pkts d h =
      let a = dxl_hal_tx-Restores p d in
      let b = dxl_hal_txrx-Restores p rx d in
      let c = dxl_hal_txrx_multi-Restores p n expected rx_pkts d in
      ((a.0 h, a.1), (b.0 h, b.1), (c.0 h, c.1))
