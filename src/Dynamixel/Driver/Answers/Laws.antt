-- ===== src/Dynamixel/Driver/Answers/Laws.antt =====
-- That the loop over the answers ends, stays within its bounds, and counts what it finds.
use creature_controller.Common.{
  ℕ, zero, suc, ◌+◌, ◌-◌, ◌≤◌, ◌<◌, ◌≡◌, ◌⊎◌, refl, ◌∙◌, get_or-set_ne, inl, inr, ◌&&◌, List,
  Option, length-set, if_both, get_or, take, drop, none, some, arith, ltb, if◌then◌else◌, length,
  Bool-cases, Option-cases,
}
use creature_controller.Dynamixel.Packet.{
  DxlResult, dxl_ok, timeout, invalid_packet, crc_mismatch, servo_error, tx_fail, buffer_overflow,
  torque_enabled, Packet, dxl_parse_packet,
}
use creature_controller.Dynamixel.Driver.{Metrics, count_noise, count_result}
use creature_controller.Dynamixel.Driver.Scan.{found_header, end_at}
use creature_controller.Dynamixel.Driver.Answers.{
  blank, is_answer, Reader, next_answer, take_answer, follow, take_answers,
}

-- A round takes a packet of at least seven bytes from the bytes received, and only if an answer is
-- still expected.
next_answer_lem :
    (bytes : List ℕ) (expected : ℕ) (r : Reader) (at end : ℕ)
    → next_answer bytes expected r ≡ some (at, end)
    → (r.offset ≤ at) × (at + 7 ≤ end) × (end ≤ length bytes) × (r.count < expected)
unfolding next_answer end_at
next_answer_lem bytes expected r at end e =
    elim (Bool-cases (ltb r.offset (length bytes) && ltb r.count expected)) [
      | inr stop ↦ absurd (let none_left = rw stop at e in cc)
      | inl go ↦
          let h = found_header bytes (length bytes) r.offset (length bytes) at end (rw go at e) in
          (h.0, omega (arith, h.2), h.3, ground arith)
    ]

-- What the counters of a result say: an answer is one packet received.
abbrev Counted : DxlResult → Metrics → Metrics → Type 0
Counted res m m' =
    (m'.rx_packets ≡ (if is_answer res then m.rx_packets + 1 else m.rx_packets))
    × (m'.tx_packets ≡ m.tx_packets)
    × (m'.timeouts ≡ m.timeouts)

count_result-Counted : (res : DxlResult) (m : Metrics) → Counted res m (count_result res m)
unfolding count_result
count_result-Counted dxl_ok m = (refl, refl, refl)
count_result-Counted timeout m = (refl, refl, refl)
count_result-Counted invalid_packet m = (refl, refl, refl)
count_result-Counted crc_mismatch m = (refl, refl, refl)
count_result-Counted servo_error m = (refl, refl, refl)
count_result-Counted tx_fail m = (refl, refl, refl)
count_result-Counted buffer_overflow m = (refl, refl, refl)
count_result-Counted torque_enabled m = (refl, refl, refl)

count_both :
    (res : DxlResult) (noise : ℕ) (m : Metrics)
    → Counted res m (count_result res (count_noise noise m))
unfolding count_noise
count_both res noise m =
    if_both (λ (k : Metrics). Counted res m (count_result res k)) (ltb 0 noise)
      (record m { rx_noise_bytes = m.rx_noise_bytes + noise }) m
      (count_result-Counted res (record m { rx_noise_bytes = m.rx_noise_bytes + noise }))
      (count_result-Counted res m)

-- What a run of the loop does to the counters: an answer more is a packet received more.
abbrev pub Progress : Reader → Reader → Type 0
Progress r r' =
    (r.count ≤ r'.count)
    × (length r'.rx_pkts ≡ length r.rx_pkts)
    × (r'.metrics.rx_packets + r.count ≡ r.metrics.rx_packets + r'.count)
    × (r'.metrics.tx_packets ≡ r.metrics.tx_packets)
    × (r'.metrics.timeouts ≡ r.metrics.timeouts)

take_answer-Progress :
    (bytes : List ℕ) (at end : ℕ) (r : Reader)
    → let r' = take_answer bytes at end r in
      Progress r r' × (r'.offset ≡ end) × (r'.count ≤ r.count + 1)
unfolding take_answer
take_answer-Progress bytes at end r =
    let c = count_both res (at - r.offset) r.metrics in
    (
      (ground arith, length-set r.rx_pkts r.count parsed.1, ground (arith, c.0), c.1, c.2),
      refl,
      ground arith,
    )
  where
    parsed : DxlResult × Packet
    parsed = dxl_parse_packet (take (end - at) (drop at bytes)) (get_or r.rx_pkts r.count blank)

    res : DxlResult
    res = parsed.0

-- The entries of the array that hold earlier answers, or lie behind the answers expected, are left alone.
abbrev pub Untouched : ℕ → Reader → Reader → Type 0
Untouched expected r r' =
    (j : ℕ) → (j < r.count) ⊎ (expected ≤ j) → get_or r'.rx_pkts j blank ≡ get_or r.rx_pkts j blank

take_answer-Untouched :
    (bytes : List ℕ) (at end expected : ℕ) (r : Reader)
    → r.count < expected
    → Untouched expected r (take_answer bytes at end r)
unfolding take_answer
take_answer-Untouched bytes at end expected r h j (inl before) =
    get_or-set_ne r.rx_pkts r.count j
      (dxl_parse_packet (take (end - at) (drop at bytes)) (get_or r.rx_pkts r.count blank)).1 blank
      (λ e. omega (arith, e, before))
take_answer-Untouched bytes at end expected r h j (inr behind) =
    get_or-set_ne r.rx_pkts r.count j
      (dxl_parse_packet (take (end - at) (drop at bytes)) (get_or r.rx_pkts r.count blank)).1 blank
      (λ e. omega (arith, e, behind, h))

Untouched-trans :
    (expected : ℕ) (r s t : Reader)
    → r.count ≤ s.count
    → Untouched expected r s
    → Untouched expected s t
    → Untouched expected r t
Untouched-trans expected r s t l h k j (inl before) =
    k j (inl (omega (arith, before, l))) ∙ h j (inl before)
Untouched-trans expected r s t l h k j (inr behind) = k j (inr behind) ∙ h j (inr behind)

-- How the loop ends: by its own condition, within the number of answers expected.
abbrev pub Ended : List ℕ → ℕ → Reader → Reader → Type 0
Ended bytes expected r r' =
    (next_answer bytes expected r' ≡ none)
    × (r'.count ≤ expected)
    × Progress r r'
    × Untouched expected r r'

Progress-trans : (r s t : Reader) → Progress r s → Progress s t → Progress r t
Progress-trans r s t h k =
    (omega (arith, h.0, k.0), k.1 ∙ h.1, omega (arith, h.2, k.2), k.3 ∙ h.3, k.4 ∙ h.4)

-- The loop over the answers ends by its own condition as soon as it may make as many rounds as there
-- are bytes behind the offset; it never takes more answers than are expected, it writes no entry of the
-- array that holds an earlier answer or lies behind the answers expected, and an answer more is exactly a
-- packet received more in the metrics. This is for an array with room for all answers expected, as every
-- caller gives it.
pub take_answers_lem :
    (left : ℕ) (bytes : List ℕ) (expected : ℕ) (r : Reader)
    → length bytes ≤ r.offset + left
    → r.count ≤ expected
    → expected ≤ length r.rx_pkts
    → Ended bytes expected r (take_answers left bytes expected r)
unfolding take_answers follow
take_answers_lem zero bytes expected r h c room =
    (none_left, c, (omega arith, refl, refl, refl, refl), λ j k. refl)
  where
    none_left : next_answer bytes expected r ≡ none
    none_left = elim (Option-cases (next_answer bytes expected r)) [
      | inl stop ↦ stop
      | inr ((at, end), go) ↦
          absurd
            (let n = next_answer_lem bytes expected r at end go in omega (arith, n.0, n.1, n.2))
    ]
take_answers_lem (suc left) bytes expected r h c room =
    after (λ r'. take_answers_lem left bytes expected r') (next_answer bytes expected r) refl
  where
    after :
        ((r' : Reader)
          → length bytes ≤ r'.offset + left
          → r'.count ≤ expected
          → expected ≤ length r'.rx_pkts
          → Ended bytes expected r' (take_answers left bytes expected r'))
        → (next : Option (ℕ × ℕ)) → next_answer bytes expected r ≡ next
        → Ended bytes expected r (
            follow next r (λ at end. take_answers left bytes expected (take_answer bytes at end r)))
    after again none stop = (stop, c, (omega arith, refl, refl, refl, refl), λ j k. refl)
    after again (some (at, end)) go =
        let n = next_answer_lem bytes expected r at end go in
        let one = take_answer-Progress bytes at end r in
        let rest =
          again (take_answer bytes at end r) (omega (arith, h, n.0, n.1, one.1))
            (omega (arith, n.3, one.2)) (omega (arith, one.0.1, room)) in
        (
          rest.0,
          rest.1,
          Progress-trans r (take_answer bytes at end r)
              (take_answers left bytes expected (take_answer bytes at end r)) one.0 rest.2,
          Untouched-trans expected r (take_answer bytes at end r)
              (take_answers left bytes expected (take_answer bytes at end r)) one.0.0
              (take_answer-Untouched bytes at end expected r n.3) rest.3,
        )
