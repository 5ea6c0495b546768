-- ===== src/Dynamixel/Driver/Answers/Stream.antt =====
-- The answers of several servos, as they follow one another on the line, and what the driver makes of
-- them.
use creature_controller.Common.{
  ℕ, zero, suc, ◌+◌, ◌-◌, ◌*◌, ◌/◌, ◌%◌, ◌≤◌, ◌<◌, ◌≡◌, ◌≢◌, refl, sym, ap, ◌∙◌, true, false, ◌&&◌,
  List, [], ◌∷◌, ◌++◌, map, append-nil, append_assoc, none, some, arith, ltb, ◌==◌, if◌then◌else◌,
  length, get_or, set, take, drop, length-append, length-set, take-append, drop-append, Bool-cases,
  inl, inr, take-set, All,
}
use creature_controller.Dynamixel.Crc.{dxl_crc16}
use creature_controller.Dynamixel.Stuffing.{stuffed_size, stuff}
use creature_controller.Dynamixel.Packet.{
  dxl_ok, servo_error, Packet, dxl_inst_status, wire_length, wire_body, le_bytes, dxl_build_packet,
  dxl_parse_packet,
}
use creature_controller.Dynamixel.Packet.Roundtrip.{
  IsPacket, wire_length_exact, dxl_build_packet_bounds, parse-build_status,
}
use creature_controller.Dynamixel.Driver.{Metrics, count_noise, count_result}
use creature_controller.Dynamixel.Driver.Scan.{on_wire, find_packet_header, find-noise}
use creature_controller.Dynamixel.Driver.Answers.{
  blank, Reader, next_answer, take_answer, follow, take_answers,
}

-- The answer of a servo, behind some noise.
pub record Answer : Type 0 where
  pub noise : List ℕ
  pub id : ℕ
  pub error : ℕ
  pub values : List ℕ

-- The packet that the servo sends, and the one that the driver gives to its caller.
abbrev pub sent_packet : Answer → Packet
sent_packet a = record {
  id = a.id;
  instruction = dxl_inst_status;
  error = 0;
  params = a.error ∷ a.values;
}

abbrev pub packet_read : Answer → Packet
packet_read a = record (sent_packet a) { error = a.error; params = a.values }

abbrev pub wire_of : Answer → List ℕ
wire_of a = (dxl_build_packet (sent_packet a) 256).1

-- The noise has no 0xff, the error byte is not 0xff, and the packet fits into 256 bytes.
pub record IsAnswer (a : Answer) : Type 0 where
  pub clean : All (λ b. b ≢ 0xff) a.noise
  pub flags : a.error ≢ 0xff
  pub whole : IsPacket (sent_packet a)
  pub fits : 10 + stuffed_size [] (a.error ∷ a.values) ≤ 256

unfoldable pub stream : List Answer → List ℕ
stream [] = []
stream (a ∷ l) = a.noise ++ (wire_of a ++ stream l)

module _ (a : Answer) (v : IsAnswer a) where
  packet : Packet
  packet = sent_packet a

  -- The bytes behind the length field.
  pub behind : List ℕ
  unfolding packet
  behind = dxl_inst_status ∷ (stuff [] packet.params ++ le_bytes (dxl_crc16 (wire_body packet)))

  pub low_length : ℕ
  unfolding packet
  low_length = wire_length packet % 256

  pub high_length : ℕ
  unfolding packet
  high_length = wire_length packet / 256 % 256

  pub wire_of-on_wire : wire_of a ≡ on_wire a.id low_length high_length behind
  unfolding dxl_build_packet wire_body behind low_length high_length packet
  wire_of-on_wire = ground (arith, wire_length_exact packet v.whole, v.fits)

  pub length-wire_of : length (wire_of a) ≡ 7 + (low_length + high_length * 256)
  unfolding low_length high_length packet
  length-wire_of =
      ground (
        arith,
        dxl_build_packet_bounds packet v.whole 256,
        wire_length_exact packet v.whole,
        v.fits,
      )

  pub parsed :
      (old : Packet)
      → dxl_parse_packet (wire_of a) old
        ≡ (if a.error == 0 then dxl_ok else servo_error, packet_read a)
  parsed old =
      ap (λ l. dxl_parse_packet l old) (sym (append-nil (wire_of a)))
      ∙ parse-build_status (sent_packet a) old 256 [] a.error a.values v.whole refl refl v.flags
          v.fits

  module _ (pre more : List ℕ) (expected : ℕ) (r : Reader) (o : r.offset ≡ length pre)
      (c : r.count < expected) where
    bytes : List ℕ
    bytes = pre ++ (a.noise ++ (wire_of a ++ more))

    start : ℕ
    start = length pre + length a.noise

    end : ℕ
    unfolding start
    end = start + length (wire_of a)

    length-bytes : length bytes ≡ end + length more
    unfolding bytes end start
    length-bytes = omega (
      arith,
      length-append pre (a.noise ++ (wire_of a ++ more)),
      length-append a.noise (wire_of a ++ more),
      length-append (wire_of a) more,
    )

    bytes-on_wire : bytes ≡ pre ++ (a.noise ++ on_wire a.id low_length high_length (behind ++ more))
    unfolding bytes
    bytes-on_wire = ap (λ w. pre ++ (a.noise ++ (w ++ more))) wire_of-on_wire

    may_go : (ltb r.offset (length bytes) && ltb r.count expected) ≡ true
    unfolding end start
    may_go = ground (arith, length-bytes, length-wire_of)

    header-found :
        find_packet_header bytes (length bytes) (length pre) (length bytes) ≡ some (start, end)
    unfolding end start
    header-found =
        ap (λ l. find_packet_header l (length bytes) (length pre) (length bytes)) bytes-on_wire
        ∙ find-noise pre a.noise (behind ++ more) a.id low_length high_length (length bytes)
            (length bytes) v.clean (omega (arith, length-bytes, length-wire_of))
            (omega (arith, length-bytes, length-wire_of))
        ∙ ap (λ k. some (start, k)) (omega (arith, length-wire_of))

    next-found : next_answer bytes expected r ≡ some (start, end)
    unfolding next_answer
    next-found =
        rw may_go
          (ap (λ k. find_packet_header bytes (length bytes) k (length bytes)) o ∙ header-found)

    slice : take (end - start) (drop start bytes) ≡ wire_of a
    unfolding bytes end start
    slice =
        ap (λ l. take (end - start) (drop start l))
          (sym (append_assoc pre a.noise (wire_of a ++ more)))
        ∙ ap (take (end - start)) (
            drop-append start (pre ++ a.noise) (wire_of a ++ more)
              (omega (arith, length-append pre a.noise)))
        ∙ take-append (end - start) (wire_of a) more (omega arith)

    -- The round over this answer.
    taken : take_answer bytes start end r ≡ record {
      offset = end;
      count = r.count + 1;
      rx_pkts = set r.rx_pkts r.count (packet_read a);
      metrics =
          count_result
            (if a.error == 0 then dxl_ok else servo_error)
            (count_noise (length a.noise) r.metrics);
    }
    unfolding take_answer start
    taken =
        rw (slice, parsed (get_or r.rx_pkts r.count blank), skipped)
          (elim (Bool-cases (a.error == 0)) [
            | inl fine ↦ rw fine refl
            | inr flagged ↦ rw flagged refl
          ])
      where
        skipped : start - r.offset ≡ length a.noise
        skipped = omega (arith, o)

-- The reader has read the answers behind those it had.
abbrev Reads : List Answer → Reader → Reader → Type 0
Reads l r r' =
    (r'.count ≡ r.count + length l)
    × (take r'.count r'.rx_pkts ≡ take r.count r.rx_pkts ++ map packet_read l)

take-next :
    (n : ℕ) (ps : List Packet) (p : Packet)
    → n < length ps
    → take (n + 1) (set ps n p) ≡ take n ps ++ (p ∷ [])
take-next n ps p h =
    let no_more : n + 1 - suc n ≡ 0 = omega arith in
    take-set (n + 1) n ps p (omega arith) h
    ∙ ap (λ k. take n ps ++ (p ∷ take k (drop (suc n) ps))) no_more

nothing_left :
    (left : ℕ) (got : List ℕ) (expected : ℕ) (r : Reader)
    → r.offset ≡ length got
    → take_answers left got expected r ≡ r
unfolding take_answers next_answer follow
nothing_left zero got expected r o = refl
nothing_left (suc left) got expected r o =
    ap
      (λ b.
        follow (if b then find_packet_header got (length got) r.offset (length got) else none) r
          (λ at stop. take_answers left got expected (take_answer got at stop r)))
      no_more
  where
    no_more : (ltb r.offset (length got) && ltb r.count expected) ≡ false
    no_more = ground arith

one_taken :
    (left : ℕ) (got : List ℕ) (expected at stop : ℕ) (r : Reader)
    → next_answer got expected r ≡ some (at, stop)
    → take_answers (suc left) got expected r
      ≡ take_answers left got expected (take_answer got at stop r)
unfolding take_answers follow
one_taken left got expected at stop r e =
    ap (λ o. follow o r (λ from to. take_answers left got expected (take_answer got from to r))) e

read_stream :
    (l : List Answer) (pre : List ℕ) (left : ℕ) (got : List ℕ) (expected : ℕ) (r : Reader)
    → got ≡ pre ++ stream l
    → All IsAnswer l
    → r.offset ≡ length pre
    → length l ≤ left
    → r.count + length l ≤ expected
    → r.count + length l ≤ length r.rx_pkts
    → Reads l r (take_answers left got expected r)
unfolding stream bytes start end
read_stream [] pre left got expected r e v o f x s =
    rw (nothing_left left got expected r (o ∙ sym whole))
      (omega arith, sym (append-nil (take r.count r.rx_pkts)))
  where
    whole : length got ≡ length pre
    whole = ap length (e ∙ append-nil pre)
read_stream (a ∷ l) pre zero got expected r e v o f x s = absurd (omega arith)
read_stream (a ∷ l) pre (suc left) got expected r e v o f x s =
    let rest =
      read_stream l (pre ++ (a.noise ++ wire_of a)) left got expected r1 (e ∙ simp append_assoc) v.1
        moved (omega arith) (omega arith)
        (omega (arith, s, length-set r.rx_pkts r.count (packet_read a))) in
    rw stepped (
      omega (arith, rest.0),
      rest.1
          ∙ ap (λ k. k ++ map packet_read l)
              (take-next r.count r.rx_pkts (packet_read a) (omega arith))
          ∙ append_assoc (take r.count r.rx_pkts) (packet_read a ∷ []) (map packet_read l),
    )
  where
    start : ℕ
    start = length pre + length a.noise

    r1 : Reader
    r1 = record {
      offset = start + length (wire_of a);
      count = r.count + 1;
      rx_pkts = set r.rx_pkts r.count (packet_read a);
      metrics =
          count_result (if a.error == 0 then dxl_ok else servo_error)
            (count_noise (length a.noise) r.metrics);
    }

    moved : start + length (wire_of a) ≡ length (pre ++ (a.noise ++ wire_of a))
    moved =
        omega (arith, length-append pre (a.noise ++ wire_of a), length-append a.noise (wire_of a))

    found : next_answer got expected r ≡ some (start, start + length (wire_of a))
    found = rw e (next-found a v.0 pre (stream l) expected r o (omega arith))

    one_round : take_answer got start (start + length (wire_of a)) r ≡ r1
    one_round = rw e (taken a v.0 pre (stream l) expected r o (omega arith))

    stepped : take_answers (suc left) got expected r ≡ take_answers left got expected r1
    stepped =
        one_taken left got expected start (start + length (wire_of a)) r found
        ∙ ap (take_answers left got expected) one_round

length-stream : (l : List Answer) → All IsAnswer l → length l ≤ length (stream l)
unfolding stream
length-stream [] v = omega arith
length-stream (a ∷ l) v = omega (
  arith,
  length-append a.noise (wire_of a ++ stream l),
  length-append (wire_of a) (stream l),
  length-wire_of a v.0,
  length-stream l v.1,
)

-- The answers of any number of servos, one behind the other, each of at most 256 bytes and with an error
-- byte other than 0xff, with noise between them that has no 0xff: if that many answers are expected and
-- fit into the array, the driver takes exactly these answers, in their order, each with the id, the
-- error and the values that the servo sent.
pub take_answers-stream :
    (l : List Answer) (expected : ℕ) (rx_pkts : List Packet) (m : Metrics)
    → All IsAnswer l
    → length l ≤ expected
    → length l ≤ length rx_pkts
    → let r' =
        take_answers
          (length (stream l))
          (stream l)
          expected
          (record { offset = 0; count = 0; rx_pkts = rx_pkts; metrics = m }) in
      (r'.count ≡ length l) × (take (length l) r'.rx_pkts ≡ map packet_read l)
take_answers-stream l expected rx_pkts m v x s =
    let done =
      read_stream l [] (length (stream l)) (stream l) expected
        (record { offset = 0; count = 0; rx_pkts = rx_pkts; metrics = m }) refl v refl
        (length-stream l v) (omega arith) (omega arith) in
    let all : (take_answers (length (stream l)) (stream l) expected
          (record { offset = 0; count = 0; rx_pkts = rx_pkts; metrics = m })).count
        ≡ length l =
      omega (arith, done.0) in
    (
      all,
      ap
            (λ n.
              take n
                (take_answers (length (stream l)) (stream l) expected
                  (record { offset = 0; count = 0; rx_pkts = rx_pkts; metrics = m })).rx_pkts)
            (sym all)
          ∙ done.1,
    )
