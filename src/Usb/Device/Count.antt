-- ===== src/Usb/Device/Count.antt =====
-- What becomes of the messages in `usb_device_task` of firmware/src/usb/usb.c.
use creature_controller.Common.{
  ℕ, zero, suc, ◌+◌, ◌≤◌, ◌≡◌, refl, ap, ◌∙◌, Bool, true, List, [], ◌∷◌, arith, ◌==◌, if◌then◌else◌,
  length, if_split, if_both, Bool-cases, inl, inr,
}
use creature_controller.Usb.Device.{
  Cdc, Device, burst_max, from_queue, fetch_message, write_some, burst, discard, transmit_step,
  connection_step, device_round,
}
use creature_controller.Usb.Device.Stream.{
  all_bytes, Keeps, Keeps-trans, transmit_step-Keeps, connection_step-Keeps, connection_step_only,
}

module _ {S : Type 0} where
  -- The messages in flight, of which there is one at most.
  unfoldable pub in_flight : Device S → ℕ
  in_flight d = if length d.tx_msg == 0 then 0 else 1

  -- Messages are sent, dropped, in flight, or in the queue.
  unfoldable pub all_messages : Device S → ℕ
  all_messages d = d.messages_sent + d.messages_dropped + in_flight d + length d.queue

  from_queue_count :
      (q : List (List ℕ)) (d : Device S)
      → d.queue ≡ q
      → length d.tx_msg ≡ 0
      → let f = from_queue q d in
        (if f.0
          then f.1.messages_sent + f.1.messages_dropped + 1 + length f.1.queue
          else all_messages f.1)
        ≡ all_messages d
  unfolding from_queue all_messages in_flight
  from_queue_count [] d e none = refl
  from_queue_count (m ∷ q) d e none = ground (arith, none, ap length e)

  fetch_message_count :
      (d : Device S)
      → let f = fetch_message d in
        (if f.0
          then f.1.messages_sent + f.1.messages_dropped + 1 + length f.1.queue
          else all_messages f.1)
        ≡ all_messages d
  unfolding fetch_message
  fetch_message_count d =
      if_split
        (λ (f : Bool × Device S).
          (if f.0
            then f.1.messages_sent + f.1.messages_dropped + 1 + length f.1.queue
            else all_messages f.1)
          ≡ all_messages d)
        (length d.tx_msg == 0) (from_queue d.queue d) (true, d)
        (λ none. from_queue_count d.queue d refl (ground (arith, none)))
        (λ some. unfold all_messages in_flight in ground (arith, some))

  discard_count : (d : Device S) → all_messages (discard d) ≡ all_messages d
  unfolding discard all_messages in_flight
  discard_count d = ground arith

  module _ (cdc : Cdc S) where
    write_some_count :
        (d : Device S)
        → all_messages (write_some cdc d).1
          ≡ d.messages_sent + d.messages_dropped + 1 + length d.queue
    unfolding write_some all_messages in_flight
    write_some_count d = ground arith

    burst_count : (left : ℕ) (d : Device S) → all_messages (burst cdc left d) ≡ all_messages d
    unfolding burst
    burst_count zero d = refl
    burst_count (suc left) d = elim (Bool-cases f.0) [
      | inl have ↦ rw have (
          if_both (λ x. all_messages x ≡ all_messages d) w.0 (burst cdc left w.1) w.1
            (burst_count left w.1 ∙ written have) (written have))
      | inr none ↦ rw none (rw none at (fetch_message_count d))
    ]
      where
        f : Bool × Device S
        f = fetch_message d

        w : Bool × Device S
        w = write_some cdc f.1

        written : f.0 ≡ true → all_messages w.1 ≡ all_messages d
        written have = write_some_count f.1 ∙ rw have at (fetch_message_count d)

    transmit_step_count : (d : Device S) → all_messages (transmit_step cdc d) ≡ all_messages d
    unfolding transmit_step
    transmit_step_count d =
        let sent = burst cdc burst_max d in
        if_both (λ x. all_messages x ≡ all_messages d) (cdc.connected d.env)
          (record sent { env = cdc.flush sent.env }) (discard d)
          (unfold all_messages in_flight in burst_count burst_max d) (discard_count d)

    -- A round of the task keeps the number of messages that are sent, counted as dropped, in flight or in
    -- the queue: none is lost without being counted. And unless it drops one, the bytes that went to the
    -- host and those that are still to go are the same text as before, in the same order, wherever the FIFO
    -- has cut a message.
    pub device_round_lem :
        (d : Device S)
        → let after = device_round cdc d in
          (all_messages after ≡ all_messages d)
          × (d.messages_dropped ≤ after.messages_dropped)
          × (after.messages_dropped ≡ d.messages_dropped → all_bytes after ≡ all_bytes d)
    unfolding device_round all_bytes all_messages in_flight
    device_round_lem d =
        let d0 = record d { env = cdc.service d.env } in
        let t = transmit_step cdc d0 in
        let k : Keeps d0 (connection_step cdc t) =
          Keeps-trans d0 t (connection_step cdc t) (transmit_step-Keeps cdc d0)
            (connection_step-Keeps cdc t) in
        (
          connection_step_only cdc (λ x. all_messages x ≡ all_messages t) t (λ ticks c b. refl)
              ∙ transmit_step_count d0,
          k.0,
          k.1,
        )
