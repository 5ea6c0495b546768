-- ===== src/Usb/Device/Stream.antt =====
-- What `usb_device_task` of firmware/src/usb/usb.c does to the stream of bytes and to the messages.
use creature_controller.Common.{
  ℕ, zero, suc, ◌+◌, ◌≤◌, ◌≡◌, refl, sym, ap, ◌∙◌, Bool, true, false, not, ◌&&◌, List, [], ◌∷◌,
  ◌++◌, arith, leb, ◌==◌, if◌then◌else◌, length, take, drop, if_split, if_both, take-append-drop,
  append_assoc,
}
use creature_controller.Controller.Lifecycle.{Board, controller_connected, controller_disconnected}
use creature_controller.Usb.Device.{
  poll_ms, connection_check_ms, Cdc, Device, burst_max, stall_limit, from_queue, fetch_message,
  write_some, burst, discard, service_cdc_connection, transmit_step, connection_step,
}

-- The texts in a row.
unfoldable pub joined_texts : List (List ℕ) → List ℕ
joined_texts [] = []
joined_texts (text ∷ texts) = text ++ joined_texts texts

empty_lem : {A : Type 0} → (xs : List A) → length xs ≡ 0 → xs ≡ []
empty_lem [] e = refl
empty_lem (x ∷ xs) e = absurd (omega (arith, e))

drop_past : (n : ℕ) (s : List ℕ) → length s ≤ n → drop n s ≡ []
drop_past zero [] h = refl
drop_past zero (x ∷ s) h = absurd (omega arith)
drop_past (suc n) [] h = refl
drop_past (suc n) (x ∷ s) h = drop_past n s (omega (arith, h))

drop-drop : (n k : ℕ) (s : List ℕ) → drop (n + k) s ≡ drop k (drop n s)
drop-drop zero k s = let same : 0 + k ≡ k = omega arith in ap (λ x. drop x s) same
drop-drop (suc n) k [] =
    let next : suc n + k ≡ suc (n + k) = omega arith in rw next (sym (drop_past k [] (omega arith)))
drop-drop (suc n) k (x ∷ s) =
    let next : suc n + k ≡ suc (n + k) = omega arith in rw next (drop-drop n k s)

-- The bytes taken by a write are those that the rest no longer has.
moved_lem :
    (wire message : List ℕ) (sent n : ℕ) (tail : List ℕ)
    → (wire ++ take n (drop sent message)) ++ (drop (sent + n) message ++ tail)
      ≡ wire ++ (drop sent message ++ tail)
moved_lem wire message sent n tail = rw (drop-drop sent n message) (
    append_assoc wire (take n (drop sent message)) (drop n (drop sent message) ++ tail)
    ∙ ap (λ x. wire ++ x)
        (sym (append_assoc (take n (drop sent message)) (drop n (drop sent message)) tail)
          ∙ ap (λ x. x ++ tail) (take-append-drop n (drop sent message))))

module _ {S : Type 0} where
  -- The bytes on the wire, and those that are still to go there.
  unfoldable pub all_bytes : Device S → List ℕ
  all_bytes d = d.wire ++ (drop d.tx_sent d.tx_msg ++ joined_texts d.queue)

  -- No byte is lost, doubled or moved unless a message is dropped.
  abbrev pub Keeps : Device S → Device S → Type 0
  Keeps d e =
      (d.messages_dropped ≤ e.messages_dropped)
      × (e.messages_dropped ≡ d.messages_dropped → all_bytes e ≡ all_bytes d)

  pub Keeps-trans : (d e f : Device S) → Keeps d e → Keeps e f → Keeps d f
  Keeps-trans d e f h k = (
    omega (arith, h.0, k.0),
    λ same. k.1 (omega (arith, h.0, k.0)) ∙ h.1 (omega (arith, h.0, k.0)),
  )

  from_queue-Keeps :
      (q : List (List ℕ)) (d : Device S)
      → d.queue ≡ q
      → length d.tx_msg ≡ 0
      → Keeps d (from_queue q d).1
  unfolding from_queue all_bytes joined_texts
  from_queue-Keeps [] d e none = (omega arith, λ same. refl)
  from_queue-Keeps (m ∷ q) d e none =
      (omega arith, λ same. rw (e, drop_past d.tx_sent d.tx_msg (omega (arith, none))) refl)

  fetch_message-Keeps : (d : Device S) → Keeps d (fetch_message d).1
  unfolding fetch_message
  fetch_message-Keeps d =
      if_split (λ (x : Bool × Device S). Keeps d x.1) (length d.tx_msg == 0) (from_queue d.queue d)
        (true, d) (λ none. from_queue-Keeps d.queue d refl (ground (arith, none)))
        (λ some. (omega arith, λ same. refl))

  -- Where nothing is dropped, there was nothing to drop.
  discard-Keeps : (d : Device S) → Keeps d (discard d)
  unfolding discard all_bytes joined_texts
  discard-Keeps d = (
    omega arith,
    λ same.
        ap (λ x. d.wire ++ (x ++ []))
          (drop_past d.tx_sent [] (omega arith)
            ∙ sym (drop_past d.tx_sent d.tx_msg (ground (arith, same))))
        ∙ ap (λ x. d.wire ++ (drop d.tx_sent d.tx_msg ++ joined_texts x))
            (sym (empty_lem d.queue (ground (arith, same)))),
  )

  module _ (cdc : Cdc S) where
    write_some-Keeps : (d : Device S) → Keeps d (write_some cdc d).1
    unfolding write_some all_bytes
    write_some-Keeps d =
        if_split (λ (x : Bool × Device S). Keeps d x.1) (leb (length d.tx_msg) (d.tx_sent + n))
          (true, record d1 { tx_msg = []; messages_sent = d.messages_sent + 1 })
          (if (n == 0) && leb stall_limit stalls
            then (false, record d2 { tx_msg = []; messages_dropped = d.messages_dropped + 1 })
            else (false, d2))
          (λ all. (omega arith, λ same. done all ∙ moved))
          (λ part.
            if_both (λ (x : Bool × Device S). Keeps d x.1) ((n == 0) && leb stall_limit stalls)
              (false, record d2 { tx_msg = []; messages_dropped = d.messages_dropped + 1 })
              (false, d2) (omega arith, λ same. absurd (omega (arith, same)))
              (omega arith, λ same. moved))
      where
        n : ℕ
        n = (cdc.write d.env (drop d.tx_sent d.tx_msg)).0

        stalls : ℕ
        stalls = if n == 0 then d.tx_stalls + 1 else d.tx_stalls

        d1 : Device S
        d1 = record d {
          env = (cdc.write d.env (drop d.tx_sent d.tx_msg)).1;
          wire = d.wire ++ take n (drop d.tx_sent d.tx_msg);
          tx_sent = d.tx_sent + n;
        }

        d2 : Device S
        d2 = record d1 { tx_fifo_full = d.tx_fifo_full + 1; tx_stalls = stalls }

        moved :
            (d.wire ++ take n (drop d.tx_sent d.tx_msg))
              ++ (drop (d.tx_sent + n) d.tx_msg ++ joined_texts d.queue)
            ≡ d.wire ++ (drop d.tx_sent d.tx_msg ++ joined_texts d.queue)
        moved = moved_lem d.wire d.tx_msg d.tx_sent n (joined_texts d.queue)

        done :
            leb (length d.tx_msg) (d.tx_sent + n) ≡ true
            → (d.wire ++ take n (drop d.tx_sent d.tx_msg))
                ++ (drop (d.tx_sent + n) [] ++ joined_texts d.queue)
              ≡ (d.wire ++ take n (drop d.tx_sent d.tx_msg))
                ++ (drop (d.tx_sent + n) d.tx_msg ++ joined_texts d.queue)
        done all =
            ap (λ x. (d.wire ++ take n (drop d.tx_sent d.tx_msg)) ++ (x ++ joined_texts d.queue))
              (drop_past (d.tx_sent + n) [] (omega arith)
                ∙ sym (drop_past (d.tx_sent + n) d.tx_msg (ground (arith, all))))

    burst-Keeps : (left : ℕ) (d : Device S) → Keeps d (burst cdc left d)
    unfolding burst
    burst-Keeps zero d = (omega arith, λ same. refl)
    burst-Keeps (suc left) d =
        if_both (Keeps d) f.0 (if w.0 then burst cdc left w.1 else w.1) f.1
          (if_both (Keeps d) w.0 (burst cdc left w.1) w.1
            (Keeps-trans d w.1 (burst cdc left w.1) written (burst-Keeps left w.1)) written)
          (fetch_message-Keeps d)
      where
        f : Bool × Device S
        f = fetch_message d

        w : Bool × Device S
        w = write_some cdc f.1

        written : Keeps d w.1
        written = Keeps-trans d f.1 w.1 (fetch_message-Keeps d) (write_some-Keeps f.1)

    pub transmit_step-Keeps : (d : Device S) → Keeps d (transmit_step cdc d)
    unfolding transmit_step all_bytes
    transmit_step-Keeps d =
        let sent = burst cdc burst_max d in
        if_both (Keeps d) (cdc.connected d.env) (record sent { env = cdc.flush sent.env })
          (discard d) (unfold all_bytes in burst-Keeps burst_max d) (discard-Keeps d)

    -- The third step touches the connection only.
    pub connection_step_only :
        (P : Device S → Type 0) (d : Device S)
        → ((ticks : ℕ) (c : Bool) (b : Board)
            → P (record d { conn_check_ticks = ticks; cdc_connected = c; board = b }))
        → P (connection_step cdc d)
    unfolding connection_step service_cdc_connection
    connection_step_only P d h =
        let ticks = d.conn_check_ticks + poll_ms in
        let d0 = record d { conn_check_ticks = 0 } in
        let up = controller_connected d.board.flags in
        let connected = cdc.connected d.env in
        if_both P (leb connection_check_ms ticks) (service_cdc_connection cdc d0)
          (record d { conn_check_ticks = ticks })
          (if_both P (connected && not d.cdc_connected)
            (record d0 { cdc_connected = true; board = record d.board { flags = up } })
            (if not connected && d.cdc_connected
              then record d0 { cdc_connected = false; board = controller_disconnected d.board }
              else d0)
            (h 0 true (record d.board { flags = up }))
            (if_both P (not connected && d.cdc_connected)
              (record d0 { cdc_connected = false; board = controller_disconnected d.board }) d0
              (h 0 false (controller_disconnected d.board)) (h 0 d.cdc_connected d.board)))
          (h ticks d.cdc_connected d.board)

    pub connection_step-Keeps : (d : Device S) → Keeps d (connection_step cdc d)
    unfolding all_bytes
    connection_step-Keeps d =
        connection_step_only (Keeps d) d (λ t c b. (omega arith, λ same. refl))
