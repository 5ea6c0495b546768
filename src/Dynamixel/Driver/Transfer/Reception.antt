-- ===== src/Dynamixel/Driver/Transfer/Reception.antt =====
-- What a transaction puts onto the line, and that it reads the answer of a servo.
use creature_controller.Common.{
  ℕ, suc, ◌+◌, ◌≡◌, ◌⊎◌, refl, sym, ap, ◌∙◌, inl, inr, Bool, true, false, List, [], ◌∷◌, ◌++◌,
  reverse, reverse-append, append_assoc, arith, if_both, length, take, take-whole, Bool-cases,
}
use creature_controller.Dynamixel.Packet.{dxl_ok, timeout}
use creature_controller.Dynamixel.Driver.{Hardware, Driver, Metrics, count_sent}
use creature_controller.Dynamixel.Driver.Transfer.{
  await_room, put_byte, put_bytes, await_empty, one_byte_time, wait_tx_complete, drive_line,
  transmit,
}

module _ {S : Type 0} (hw : Hardware S) where
  -- The bytes put onto the line between two states, in the order of sending.
  abbrev pub Sends : List ℕ → Driver S → Driver S → Type 0
  Sends bytes d d' = (d'.line ≡ reverse bytes ++ d.line) × (d'.metrics ≡ d.metrics)

  abbrev SomeOf : List ℕ → Driver S → Driver S → Type 0
  SomeOf bytes d d' = (k : ℕ) × Sends (take k bytes) d d'

  reverse-cons : (b : ℕ) (bs line : List ℕ) → reverse bs ++ (b ∷ line) ≡ reverse (b ∷ bs) ++ line
  reverse-cons b bs line =
      sym (append_assoc (reverse bs) (b ∷ []) line)
      ∙ ap (λ l. l ++ line) (sym (reverse-append (b ∷ []) bs))

  put_byte_lem :
      (b : ℕ) (d : Driver S)
      → let (done, d') = put_byte hw b d in
        (d'.metrics ≡ d.metrics)
        × (((done ≡ true) × (d'.line ≡ b ∷ d.line)) ⊎ ((done ≡ false) × (d'.line ≡ d.line)))
  unfolding put_byte
  put_byte_lem b d =
      if_both K room.0 (true, record d { env = hw.put room.1 b; line = b ∷ d.line })
        (false, record d { env = room.1 }) (refl, inl (refl, refl)) (refl, inr (refl, refl))
    where
      room : Bool × S
      room = await_room hw (hw.turns d.env) d.env

      K : Bool × Driver S → Type 0
      K r =
          (r.1.metrics ≡ d.metrics)
          × (((r.0 ≡ true) × (r.1.line ≡ b ∷ d.line)) ⊎ ((r.0 ≡ false) × (r.1.line ≡ d.line)))

  -- All bytes are put, or the first few of them.
  put_bytes_lem :
      (bytes : List ℕ) (d : Driver S)
      → let (done, d') = put_bytes hw bytes d in
        ((done ≡ true) × Sends bytes d d') ⊎ ((done ≡ false) × SomeOf bytes d d')
  unfolding put_bytes
  put_bytes_lem [] d = inl (refl, (refl, refl))
  put_bytes_lem (b ∷ bs) d =
      let one = put_byte_lem b d in
      elim one.1 [
        | inr stuck ↦ rw stuck.0 (inr (refl, (0, (stuck.1, one.0))))
        | inl put ↦ rw put.0 (elim (put_bytes_lem bs (put_byte hw b d).1) [
          | inl done ↦ inl (
            done.0,
            (
              done.1.0 ∙ ap (λ l. reverse bs ++ l) put.1 ∙ reverse-cons b bs d.line,
              done.1.1 ∙ one.0,
            ),
          )
          | inr stuck ↦ inr (
            stuck.0,
            (
              suc stuck.1.0,
              (
                stuck.1.1.0
                    ∙ ap (λ l. reverse (take stuck.1.0 bs) ++ l) put.1
                    ∙ reverse-cons b (take stuck.1.0 bs) d.line,
                stuck.1.1.1 ∙ one.0,
              ),
            ),
          )
        ])
      ]

  wait_tx_complete_lem :
      (d : Driver S)
      → let d' = (wait_tx_complete hw d).1 in (d'.line ≡ d.line) × (d'.metrics ≡ d.metrics)
  unfolding wait_tx_complete
  wait_tx_complete_lem d =
      if_both (λ (r : Bool × Driver S). (r.1.line ≡ d.line) × (r.1.metrics ≡ d.metrics)) drained.0
        (true, record d { env = hw.busy_wait drained.1 (one_byte_time hw d.baud_rate) })
        (false, record d { env = drained.1 }) (refl, refl) (refl, refl)
    where
      drained : Bool × S
      drained = await_empty hw (hw.turns d.env) d.env

  -- A transmission succeeds exactly if it is counted as a packet sent, and then all bytes of the packet
  -- have gone onto the line in their order, and nothing else; if it fails, it is a timeout, and what has
  -- gone onto the line are the first bytes of the packet.
  pub transmit_lem :
      (bytes : List ℕ) (d : Driver S)
      → let (res, d') = transmit hw bytes d in
        ((res ≡ dxl_ok)
          × (d'.line ≡ reverse bytes ++ d.line)
          × (d'.metrics ≡ record d.metrics { tx_packets = d.metrics.tx_packets + 1 }))
        ⊎ ((res ≡ timeout)
            × ((k : ℕ) × (d'.line ≡ reverse (take k bytes) ++ d.line))
            × (d'.metrics ≡ d.metrics))
  unfolding transmit count_sent
  transmit_lem bytes d = elim (put_bytes_lem bytes (drive_line hw d)) [
    | inr stuck ↦ rw stuck.0 (inr (refl, (stuck.1.0, stuck.1.1.0), stuck.1.1.1))
    | inl put ↦ rw put.0 (elim (Bool-cases complete.0) [
      | inl empty ↦ rw empty (
          inl (
            refl,
            after.0 ∙ put.1.0,
            ap (λ (m : Metrics). record m { tx_packets = m.tx_packets + 1 }) (after.1 ∙ put.1.1),
          ))
      | inr full ↦ rw full (
          inr (
            refl,
            (
              length bytes,
              after.0
                  ∙ put.1.0
                  ∙ ap (λ l. reverse l ++ d.line)
                      (sym (take-whole (length bytes) bytes (omega arith))),
            ),
            after.1 ∙ put.1.1,
          ))
    ])
  ]
    where
      sent : Driver S
      sent = (put_bytes hw bytes (drive_line hw d)).1

      complete : Bool × Driver S
      complete = wait_tx_complete hw sent

      after : (complete.1.line ≡ sent.line) × (complete.1.metrics ≡ sent.metrics)
      after = wait_tx_complete_lem sent
