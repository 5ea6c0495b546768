-- ===== src/Controller/Servos/Traffic.antt =====
-- What the operations on the servos put onto the bus.
use creature_controller.Common.{
  ℕ, zero, suc, ◌≡◌, refl, ap, ◌∙◌, sym, ◌⊎◌, inl, inr, true, List, [], ◌∷◌, ◌++◌, append_assoc,
  arith, Bool-cases, All,
}
use creature_controller.Dynamixel.Packet.{DxlResult, dxl_ok, Packet}
use creature_controller.Dynamixel.Bus.{Hal, Bus}
use creature_controller.Dynamixel.Servo.{
  is_ok, read_packet, write_packet, dxl_read_register, dxl_write_register, dxl_read_register-sent,
  dxl_write_register-sent,
}
use creature_controller.Controller.Servos.{attempt_register, pause, apply_attempts}

-- `b'` has sent nothing beyond what `b` had but packets that satisfy `P`.
abbrev pub Only : {S : Type 0} → (Packet → Type 0) → Bus S → Bus S → Type 0
Only P b b' = (new : List Packet) × (b'.sent ≡ new ++ b.sent) × All P new

All-append : (P : Packet → Type 0) (xs ys : List Packet) → All P xs → All P ys → All P (xs ++ ys)
All-append P [] ys h k = k
All-append P (x ∷ xs) ys h k = (h.0, All-append P xs ys h.1 k)

All-weaken :
    (P Q : Packet → Type 0) → ((p : Packet) → P p → Q p) → (xs : List Packet) → All P xs → All Q xs
All-weaken P Q f [] h = tt
All-weaken P Q f (x ∷ xs) h = (f x h.0, All-weaken P Q f xs h.1)

module _ {S : Type 0} (P : Packet → Type 0) where
  pub Only-refl : (b b' : Bus S) → b'.sent ≡ b.sent → Only P b b'
  Only-refl b b' e = ([], e, tt)

  pub Only-one : (b b' : Bus S) (p : Packet) → b'.sent ≡ p ∷ b.sent → P p → Only P b b'
  Only-one b b' p e h = (p ∷ [], e, (h, tt))

  pub Only-trans : (b b' b'' : Bus S) → Only P b b' → Only P b' b'' → Only P b b''
  Only-trans b b' b'' (n, e, h) (n', e', h') =
      (n' ++ n, e' ∙ ap (λ l. n' ++ l) e ∙ sym (append_assoc n' n b.sent), All-append P n' n h' h)

pub Only-weaken :
    {S : Type 0} (P Q : Packet → Type 0) (b b' : Bus S)
    → ((p : Packet) → P p → Q p)
    → Only P b b'
    → Only Q b b'
Only-weaken P Q b b' f (n, e, h) = (n, e, All-weaken P Q f n h)

-- A packet that writes this value to this register of this servo, or reads the register.
abbrev pub IsRegisterPacket : ℕ → ℕ → ℕ → ℕ → Packet → Type 0
IsRegisterPacket id address len value p =
    (p ≡ write_packet id address len value) ⊎ (p ≡ read_packet id address len)

module _ {S : Type 0} (hal : Hal S) (id address len value : ℕ) where
  abbrev Mine : Packet → Type 0
  Mine = IsRegisterPacket id address len value

  wrote : (b : Bus S) → Only Mine b (dxl_write_register hal b id address len value).1
  wrote b =
      Only-one Mine b (dxl_write_register hal b id address len value).1
        (write_packet id address len value) (dxl_write_register-sent hal b id address len value)
        (inl refl)

  read_back : (b : Bus S) → Only Mine b (dxl_read_register hal b id address len 0).2
  read_back b =
      Only-one Mine b (dxl_read_register hal b id address len 0).2 (read_packet id address len)
        (dxl_read_register-sent hal b id address len 0) (inr refl)

  attempt_register_sent : (b : Bus S) → Only Mine b (attempt_register hal b id address len value).1
  unfolding attempt_register
  attempt_register_sent b =
      elim (Bool-cases (is_ok (dxl_write_register hal b id address len value).0)) [
        | inl ok ↦ rw ok (
            Only-trans Mine b (dxl_write_register hal b id address len value).1
              (dxl_read_register hal (dxl_write_register hal b id address len value).1 id address
                len 0).2
              (wrote b) (read_back (dxl_write_register hal b id address len value).1))
        | inr failed ↦ rw failed (wrote b)
      ]

  pub pause-sent : (left : ℕ) (b : Bus S) → (pause hal left b).sent ≡ b.sent
  unfolding pause
  pause-sent left b = ground arith

  pub apply_attempts_sent :
      (left : ℕ) (b : Bus S) → Only Mine b (apply_attempts hal left b id address len value).1
  unfolding apply_attempts
  apply_attempts_sent zero b = Only-refl Mine b b refl
  apply_attempts_sent (suc left) b = elim (Bool-cases (hal.rail_present b.env)) [
    | inr down ↦ rw down (Only-refl Mine b b refl)
    | inl up ↦ rw up (elim (Bool-cases (attempt_register hal b id address len value).0) [
      | inl done ↦ rw done (attempt_register_sent b)
      | inr again ↦ rw again (
          Only-trans Mine b b' (apply_attempts hal left (pause hal left b') id address len value).1
            (attempt_register_sent b)
            (Only-trans Mine b' (pause hal left b')
              (apply_attempts hal left (pause hal left b') id address len value).1
              (Only-refl Mine b' (pause hal left b') (pause-sent left b'))
              (apply_attempts_sent left (pause hal left b'))))
    ])
  ]
    where
      b' : Bus S
      b' = (attempt_register hal b id address len value).1

  -- From `before` on, with the rail up, the write is answered with DXL_OK, and the read behind it
  -- with DXL_OK and the value; then the bus is `end`.
  abbrev pub Confirms : Bus S → Bus S → Type 0
  Confirms before end =
      let (wrote, b1) = dxl_write_register hal before id address len value in
      let (read, readback, b2) = dxl_read_register hal b1 id address len 0 in
      (hal.rail_present before.env ≡ true)
      × (wrote ≡ dxl_ok)
      × (read ≡ dxl_ok)
      × (readback ≡ value)
      × (end ≡ b2)

  is_ok-eq : (r : DxlResult) → is_ok r ≡ true → r ≡ dxl_ok
  is_ok-eq dxl_ok h = refl
  is_ok-eq _ h = absurd (cc)

  attempt_register_confirmed :
      (b : Bus S)
      → hal.rail_present b.env ≡ true
      → (attempt_register hal b id address len value).0 ≡ true
      → Confirms b (attempt_register hal b id address len value).1
  unfolding attempt_register
  attempt_register_confirmed b up h = (
    up,
    ground (arith, is_ok-eq wrote_result),
    ground (arith, is_ok-eq read_result),
    ground arith,
    ground arith,
  )
    where
      wrote_result : DxlResult
      wrote_result = (dxl_write_register hal b id address len value).0

      read_result : DxlResult
      read_result =
          (dxl_read_register hal (dxl_write_register hal b id address len value).1 id address len
            0).0

  -- A register is reported as set only behind an attempt whose write was answered with DXL_OK, and
  -- that read back, with DXL_OK, the very value that was to be set.
  pub apply_attempts_confirmed :
      (left : ℕ) (b : Bus S)
      → (apply_attempts hal left b id address len value).0 ≡ true
      → (before : Bus S) × Confirms before (apply_attempts hal left b id address len value).1
  unfolding apply_attempts
  apply_attempts_confirmed zero b h = absurd (cc)
  apply_attempts_confirmed (suc left) b h = elim (Bool-cases (hal.rail_present b.env)) [
    | inr down ↦ absurd (ground arith)
    | inl up ↦ elim (Bool-cases (attempt_register hal b id address len value).0) [
      | inl done ↦ rw (up, done) (b, attempt_register_confirmed b up done)
      | inr again ↦
          rw (up, again)
            (apply_attempts_confirmed left
              (pause hal left (attempt_register hal b id address len value).1) (ground arith))
    ]
  ]
