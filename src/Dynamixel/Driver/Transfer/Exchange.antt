-- ===== src/Dynamixel/Driver/Transfer/Exchange.antt =====
-- A request and its answer: what `dxl_hal_txrx` of firmware/src/dynamixel/dynamixel_hal.c gives its
-- caller when a servo answers.
use creature_controller.Common.{
  true, take-whole, if_split, ℕ, zero, suc, ◌+◌, ◌-◌, ◌*◌, ◌≤◌, ◌<◌, ◌≡◌, ◌⊎◌, refl, sym, ap, subst,
  ◌∙◌, inl, inr, false, List, ◌++◌, append_assoc, Option, none, some, arith, ltb, leb, ◌==◌,
  if◌then◌else◌, length, take, drop, replicate, length-append, length-take, take-append,
  drop-append, Bool-cases,
}
use creature_controller.Dynamixel.Packet.{DxlResult, dxl_ok, servo_error, Packet}
use creature_controller.Dynamixel.Driver.{
  Hardware, Driver, max_packet_size, count_noise, count_result,
}
use creature_controller.Dynamixel.Driver.Scan.{on_wire, find_packet_header}
use creature_controller.Dynamixel.Driver.Answers.Stream.{
  Answer, IsAnswer, packet_read, wire_of, behind, low_length, high_length, wire_of-on_wire,
  length-wire_of, parsed,
}
use creature_controller.Dynamixel.Driver.Transfer.{
  start_rx, stop_rx, look, complete, poll_header, parse_answer, receive_answer,
}
use creature_controller.Dynamixel.Driver.Transfer.Partial.{
  take-behind, none-early, wire_part, find_here, leb_of_eq, long_enough,
}

-- The hardware at look number n of the polling loop, which waits ten microseconds behind each.
unfoldable pub looked : {S : Type 0} → Hardware S → ℕ → S → S
looked hw zero e = e
looked hw (suc n) e = looked hw n (hw.busy_wait e 10)

module _ (a : Answer) (v : IsAnswer a)
    (fits : length a.noise + length (wire_of a) ≤ max_packet_size) where
  abbrev pub bytes : List ℕ
  bytes = a.noise ++ wire_of a

  start : ℕ
  start = length a.noise

  end : ℕ
  end = start + length (wire_of a)

  -- What is seen when the header is complete.
  part-on_wire :
      (k : ℕ)
      → length a.noise + 7 ≤ k
      → take k bytes
        ≡ a.noise
          ++ on_wire a.id
              (low_length a v)
              (high_length a v)
              (take (k - length a.noise - 7) (behind a v))
  part-on_wire k h =
      take-behind a.noise (wire_of a) k (k - length a.noise) (omega arith)
      ∙ ap (λ w. a.noise ++ take (k - length a.noise) w) (wire_of-on_wire a v)
      ∙ ap (λ w. a.noise ++ w)
          (wire_part a.id (low_length a v) (high_length a v) (behind a v) (k - length a.noise)
            (omega arith))

  -- From any first part of the bytes, the scan finds nothing yet, or the answer.
  find-part :
      (k : ℕ)
      → let seen = take k bytes in
        (find_packet_header seen (length seen) 0 max_packet_size ≡ none)
        ⊎ (find_packet_header seen (length seen) 0 max_packet_size ≡ some (start, end))
  unfolding start end
  find-part k = elim (Bool-cases (ltb k (length a.noise + 7))) [
    | inl early ↦ inl (none-early a.noise (wire_of a) k max_packet_size v.clean (ground arith))
    | inr late ↦ inr (
        rw (part-on_wire k (ground arith)) (
          find_here a.noise (take (k - length a.noise - 7) (behind a v)) a.id (low_length a v)
            (high_length a v) max_packet_size v.clean (omega (arith, fits, length-wire_of a v))
          ∙ ap (λ n. some (length a.noise, n)) end_here))
  ]
    where
      end_here :
          length a.noise + 7 + (low_length a v + high_length a v * 256)
          ≡ length a.noise + length (wire_of a)
      end_here = omega (arith, length-wire_of a v)

  find-whole :
      (max_end : ℕ)
      → length bytes ≤ max_end
      → find_packet_header bytes (length bytes) 0 max_end ≡ some (start, end)
  unfolding start end
  find-whole max_end enough =
      subst
        (λ w.
          length (a.noise ++ w) ≤ max_end
          → find_packet_header (a.noise ++ w) (length (a.noise ++ w)) 0 max_end
            ≡ some (length a.noise, length a.noise + length w))
        (sym (wire_of-on_wire a v))
        (λ room.
          find_here a.noise (behind a v) a.id (low_length a v) (high_length a v) max_end v.clean
            (omega (arith, length-append a.noise line, whole, room))
          ∙ ap (λ n. some (length a.noise, n)) end_here)
        enough
    where
      line : List ℕ
      line = on_wire a.id (low_length a v) (high_length a v) (behind a v)

      whole : length line ≡ 7 + (low_length a v + high_length a v * 256)
      whole = ap length (sym (wire_of-on_wire a v)) ∙ length-wire_of a v

      end_here :
          length a.noise + 7 + (low_length a v + high_length a v * 256)
          ≡ length a.noise + length line
      end_here = omega (arith, whole)

  length-bytes : length bytes ≡ end
  unfolding start end
  length-bytes = length-append a.noise (wire_of a)

  slice : (zeros : List ℕ) → take (end - start) (drop start (bytes ++ zeros)) ≡ wire_of a
  unfolding start end
  slice zeros =
      ap (λ l. take (end - start) (drop start l)) (append_assoc a.noise (wire_of a) zeros)
      ∙ ap (take (end - start)) (drop-append start a.noise (wire_of a ++ zeros) refl)
      ∙ take-append (end - start) (wire_of a) zeros (omega arith)

  -- What a search knows: nothing, or the answer.
  abbrev Knows : Option (ℕ × ℕ) → Type 0
  Knows o = (o ≡ none) ⊎ (o ≡ some (start, end))

  module _ {S : Type 0} (hw : Hardware S) where
    -- What the DMA channel has written at each look from a state on is a first part of the bytes.
    abbrev pub Arriving : S → Type 0
    Arriving e = (n : ℕ) → (k : ℕ) × (hw.received (looked hw n e) ≡ take k bytes)

    at_once : (e : S) (parts : Arriving e) → hw.received e ≡ take (parts 0).0 bytes
    unfolding looked
    at_once e parts = (parts 0).1

    look-Knows :
        (found : Option (ℕ × ℕ)) (e : S)
        → Arriving e
        → Knows found
        → Knows (look hw found (hw.received e) max_packet_size)
    unfolding look looked
    look-Knows none e parts h =
        let part : take (parts 0).0 bytes ≡ hw.received e = sym (parts 0).1 in
        subst (λ l. Knows (look hw none l max_packet_size)) part (find-part (parts 0).0)
    look-Knows (some f) e parts h = h

    -- At the look that finds all bytes, the header is known.
    all-known :
        (found : Option (ℕ × ℕ))
        → Knows found
        → look hw found bytes max_packet_size ≡ some (start, end)
    unfolding look
    all-known none h =
        find-whole max_packet_size (omega (arith, length-append a.noise (wire_of a), fits))
    all-known (some f) (inl none_yet) = absurd (cc)
    all-known (some f) (inr known) = known

    -- At the look that finds all bytes, the packet is complete.
    all-complete :
        (found : Option (ℕ × ℕ)) (e : S)
        → Knows found
        → hw.received e ≡ bytes
        → complete hw (look hw found (hw.received e) max_packet_size) (length (hw.received e))
          ≡ true
    all-complete found e h all =
        ap (λ l. complete hw (look hw found l max_packet_size) (length l)) all
        ∙ ap (λ o. complete hw o (length bytes)) (all-known found h)
        ∙ leb_of_eq end (length bytes) (sym length-bytes)

    -- A packet that is complete is the answer, and all bytes are there.
    complete-all :
        (o : Option (ℕ × ℕ)) (k : ℕ)
        → Knows o
        → complete hw o (length (take k bytes)) ≡ true
        → (o ≡ some (start, end)) × (take k bytes ≡ bytes)
    complete-all o k (inl none_yet) c =
        let c' : complete hw none (length (take k bytes)) ≡ true =
          subst (λ x. complete hw x (length (take k bytes)) ≡ true) none_yet c in
        absurd (cc)
    complete-all o k (inr known) c =
        let c' : leb end (length (take k bytes)) ≡ true =
          subst (λ x. complete hw x (length (take k bytes)) ≡ true) known c in
        (
          known,
          take-whole k bytes (
              long_enough end (length bytes) (length (take k bytes)) k length-bytes
                (omega (arith, length-take k bytes)) c'),
        )

    -- If all bytes come before the last look, the polling ends with the answer, at a look that finds all
    -- bytes.
    abbrev Polled : Option (ℕ × ℕ) × S → Type 0
    Polled r = (r.0 ≡ some (start, end)) × (hw.received r.1 ≡ bytes)

    -- One round of the polling loop.
    round-Polled :
        (found : Option (ℕ × ℕ)) (e : S) (later : Option (ℕ × ℕ) × S)
        → Arriving e
        → Knows found
        → let found' = look hw found (hw.received e) max_packet_size in
          (complete hw found' (length (hw.received e)) ≡ false → Polled later)
          → Polled (if complete hw found' (length (hw.received e)) then (found', e) else later)
    round-Polled found e later parts known more =
        if_split Polled (complete hw found' (length (hw.received e))) (found', e) later
          (λ whole.
            let c =
              complete-all found' (parts 0).0 (look-Knows found e parts known)
                (subst (λ l. complete hw found' (length l) ≡ true) part whole) in
            (c.0, part ∙ c.1))
          more
      where
        found' : Option (ℕ × ℕ)
        found' = look hw found (hw.received e) max_packet_size

        part : hw.received e ≡ take (parts 0).0 bytes
        part = at_once e parts

    poll_header-Polled :
        (n m : ℕ) (found : Option (ℕ × ℕ)) (e : S)
        → Arriving e
        → hw.received (looked hw m e) ≡ bytes
        → m < n
        → Knows found
        → Polled (poll_header hw n found e)
    unfolding poll_header looked
    poll_header-Polled zero m found e parts all h known = absurd (omega arith)
    poll_header-Polled (suc n) zero found e parts all h known =
        round-Polled found e
          (poll_header hw n (look hw found (hw.received e) max_packet_size) (hw.busy_wait e 10))
          parts known (λ more. absurd (let yes = all-complete found e known all in cc))
    poll_header-Polled (suc n) (suc m) found e parts all h known =
        round-Polled found e
          (poll_header hw n (look hw found (hw.received e) max_packet_size) (hw.busy_wait e 10))
          parts known
          (λ more.
            poll_header-Polled n m (look hw found (hw.received e) max_packet_size)
              (hw.busy_wait e 10) (λ i. parts (suc i)) all (omega (arith, h))
              (look-Knows found e parts known))

    look_last : look hw (some (start, end)) bytes (length bytes) ≡ some (start, end)
    unfolding look
    look_last = refl

    -- What the caller gets.
    abbrev pub result : DxlResult
    result = if a.error == 0 then dxl_ok else servo_error

    abbrev pub Answered : Driver S → DxlResult × Packet × Driver S → Type 0
    Answered d r =
        (r.0 ≡ result)
        × (r.1 ≡ packet_read a)
        × (r.2.line ≡ d.line)
        × (r.2.metrics ≡ count_result result (count_noise (length a.noise) d.metrics))

    parse_answer-Answered :
        (rx : Packet) (d : Driver S) → Answered d (parse_answer hw (some (start, end)) bytes rx d)
    unfolding parse_answer start
    parse_answer-Answered rx d =
        rw (slice (replicate (max_packet_size - length bytes) 0), parsed a v rx)
          (refl, refl, refl, refl)

    -- Stopping the DMA channel takes nothing from an answer that is all there.
    pub receive_answer-Answered :
        (rx : Packet) (d : Driver S) (m : ℕ)
        → let e = hw.dma_start d.env max_packet_size in
          Arriving e
          → hw.received (looked hw m e) ≡ bytes
          → m < hw.turns e
          → ((e : S) → hw.received e ≡ bytes → hw.received (hw.dma_abort e) ≡ bytes)
          → Answered d (receive_answer hw rx d)
    unfolding receive_answer start_rx stop_rx
    receive_answer-Answered rx d m parts all soon kept =
        subst (λ b. Answered d (parse_answer hw (look hw polled.0 b (length b)) b rx stopped))
          (sym (kept polled.1 p.1))
          (subst
            (λ o. Answered d (parse_answer hw (look hw o bytes (length bytes)) bytes rx stopped))
            (sym p.0)
            (subst (λ o. Answered d (parse_answer hw o bytes rx stopped)) (sym look_last)
              (parse_answer-Answered rx stopped)))
      where
        started : Driver S
        started = start_rx hw max_packet_size d

        polled : Option (ℕ × ℕ) × S
        polled = poll_header hw (hw.turns started.env) none started.env

        p : Polled polled
        p = poll_header-Polled (hw.turns started.env) m none started.env parts all soon (inl refl)

        stopped : Driver S
        stopped = stop_rx hw (record started { env = polled.1 })
