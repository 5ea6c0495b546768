-- ===== src/Controller/Servos/Released.antt =====
-- Torque is switched off at every servo: `dynamixel_set_torque_all` of
-- firmware/src/controller/controller.c.
use creature_controller.Common.{
  ℕ, suc, ◌≡◌, refl, sym, ap, ◌∙◌, inl, inr, true, false, List, [], ◌∷◌, ◌++◌, append_assoc, All,
  arith, Bool-cases, length, ◌==◌,
}
use creature_controller.Dynamixel.Packet.{Packet}
use creature_controller.Dynamixel.Bus.{Hal, Bus}
use creature_controller.Dynamixel.Servo.{
  is_ok, write_packet, dxl_write_register, dxl_read_register, dxl_read_register-sent,
  dxl_write_register-sent,
}
use creature_controller.Dynamixel.Servo.Registers.{reg_torque_enable}
use creature_controller.Controller.Servos.{
  DxlMotor, Dxl, snapshot, attempt_register, pause, apply_attempts, apply_register, apply_torque,
  torque_each, set_torque_all,
}
use creature_controller.Controller.Servos.Traffic.{
  Only, Only-trans, Only-weaken, IsRegisterPacket, apply_attempts_sent, pause-sent,
}

-- The packet that switches the torque of a servo off.
abbrev pub torque_off : ℕ → Packet
torque_off id = write_packet id reg_torque_enable 1 0

-- `b'` has sent the packet `p` since `b`.
abbrev pub Puts : {S : Type 0} → Packet → Bus S → Bus S → Type 0
Puts p b b' =
    (after : List Packet) × ((before : List Packet) × (b'.sent ≡ after ++ (p ∷ (before ++ b.sent))))

module _ {S : Type 0} (p : Packet) where
  Puts-now : (b b' : Bus S) → b'.sent ≡ p ∷ b.sent → Puts p b b'
  Puts-now b b' e = ([], ([], e))

  pub Puts-then : (P : Packet → Type 0) (b b1 b2 : Bus S) → Puts p b b1 → Only P b1 b2 → Puts p b b2
  Puts-then P b b1 b2 (after, (before, e)) (new, more, _) = (
    new ++ after,
    (before, more ∙ ap (λ l. new ++ l) e ∙ sym (append_assoc new after (p ∷ (before ++ b.sent)))),
  )

  Puts-later : (P : Packet → Type 0) (b b1 b2 : Bus S) → Only P b b1 → Puts p b1 b2 → Puts p b b2
  Puts-later P b b1 b2 (new, more, _) (after, (before, e)) = (
    after,
    (
      before ++ new,
      e
          ∙ ap (λ l. after ++ (p ∷ l))
              (ap (λ l. before ++ l) more ∙ sym (append_assoc before new b.sent)),
    ),
  )

module _ {S : Type 0} (hal : Hal S) (up : (e : S) → hal.rail_present e ≡ true) where
  -- An attempt begins with the write.
  attempt_register-Puts :
      (b : Bus S) (id address len value : ℕ)
      → Puts (write_packet id address len value) b (attempt_register hal b id address len value).1
  unfolding attempt_register
  attempt_register-Puts b id address len value =
      elim (Bool-cases (is_ok (dxl_write_register hal b id address len value).0)) [
        | inl ok ↦ rw ok (
            Puts-then packet (λ q. Unit) b b1 (dxl_read_register hal b1 id address len 0).2 wrote
              ((_ ∷ []), dxl_read_register-sent hal b1 id address len 0, (tt, tt)))
        | inr failed ↦ rw failed wrote
      ]
    where
      packet : Packet
      packet = write_packet id address len value

      b1 : Bus S
      b1 = (dxl_write_register hal b id address len value).1

      wrote : Puts packet b b1
      wrote = Puts-now packet b b1 (dxl_write_register-sent hal b id address len value)

  apply_attempts-Puts :
      (left : ℕ) (b : Bus S) (id address len value : ℕ)
      → Puts
          (write_packet id address len value)
          b
          (apply_attempts hal (suc left) b id address len value).1
  unfolding apply_attempts
  apply_attempts-Puts left b id address len value =
      rw (up b.env) (elim (Bool-cases (attempt_register hal b id address len value).0) [
        | inl done ↦ rw done first
        | inr again ↦ rw again (
            Puts-then (write_packet id address len value) (IsRegisterPacket id address len value) b
              (pause hal left b')
              (apply_attempts hal left (pause hal left b') id address len value).1
              (Puts-then (write_packet id address len value) (λ q. Unit) b b' (pause hal left b')
                first ([], pause-sent hal id address len value left b', tt))
              (apply_attempts_sent hal id address len value left (pause hal left b')))
      ])
    where
      b' : Bus S
      b' = (attempt_register hal b id address len value).1

      first : Puts (write_packet id address len value) b b'
      first = attempt_register-Puts b id address len value

  apply_torque-Puts : (b : Bus S) (id : ℕ) → Puts (torque_off id) b (apply_torque hal b id false).1
  unfolding apply_torque apply_register
  apply_torque-Puts b id = apply_attempts-Puts 2 b id reg_torque_enable 1 0

  apply_torque_sent :
      (b : Bus S) (id : ℕ)
      → Only (IsRegisterPacket id reg_torque_enable 1 0) b (apply_torque hal b id false).1
  unfolding apply_torque apply_register
  apply_torque_sent b id = apply_attempts_sent hal id reg_torque_enable 1 0 3 b

  pub All-map :
      (P Q : DxlMotor → Type 0) (l : List DxlMotor)
      → ((m : DxlMotor) → P m → Q m)
      → All P l
      → All Q l
  All-map P Q [] f h = tt
  All-map P Q (m ∷ l) f h = (f m h.0, All-map P Q l f h.1)

  torque_each-Only :
      (ms : List DxlMotor) (b : Bus S) → Only (λ q. Unit) b (torque_each hal false (snapshot ms) b)
  unfolding torque_each
  torque_each-Only [] b = ([], refl, tt)
  torque_each-Only (m ∷ ms) b =
      Only-trans (λ q. Unit) b (apply_torque hal b m.dxl_id false).1
        (torque_each hal false (snapshot ms) (apply_torque hal b m.dxl_id false).1)
        (Only-weaken (IsRegisterPacket m.dxl_id reg_torque_enable 1 0) (λ q. Unit) b
          (apply_torque hal b m.dxl_id false).1 (λ q h. tt) (apply_torque_sent b m.dxl_id))
        (torque_each-Only ms (apply_torque hal b m.dxl_id false).1)

  torque_each-Puts :
      (ms : List DxlMotor) (b : Bus S)
      → All
          (λ (m : DxlMotor). Puts (torque_off m.dxl_id) b (torque_each hal false (snapshot ms) b))
          ms
  unfolding torque_each
  torque_each-Puts [] b = tt
  torque_each-Puts (m ∷ ms) b = (
    Puts-then (torque_off m.dxl_id) (λ q. Unit) b b1 (torque_each hal false (snapshot ms) b1)
        (apply_torque-Puts b m.dxl_id) (torque_each-Only ms b1),
    All-map (λ n. Puts (torque_off n.dxl_id) b1 end) (λ n. Puts (torque_off n.dxl_id) b end) ms
        (λ n h.
          Puts-later (torque_off n.dxl_id) (IsRegisterPacket m.dxl_id reg_torque_enable 1 0) b b1
            end (apply_torque_sent b m.dxl_id) h)
        (torque_each-Puts ms b1),
  )
    where
      b1 : Bus S
      b1 = (apply_torque hal b m.dxl_id false).1

      end : Bus S
      end = torque_each hal false (snapshot ms) b1

  -- While the motors have power, torque off for all of a map with a motor writes 0 to the Torque Enable
  -- register of each of them.
  pub set_torque_all-Puts :
      (d : Dxl) (b : Bus S)
      → d.ready ≡ true
      → All (λ (m : DxlMotor). Puts (torque_off m.dxl_id) b (set_torque_all hal d b false)) d.motors
  unfolding set_torque_all
  set_torque_all-Puts d b ready = elim (Bool-cases (length d.motors == 0)) [
    | inl none ↦ no_motor d.motors none
    | inr some ↦ rw (ready, some, up b.env) (torque_each-Puts d.motors b)
  ]
    where
      no_motor :
          (ms : List DxlMotor)
          → (length ms == 0) ≡ true
          → All (λ (m : DxlMotor). Puts (torque_off m.dxl_id) b (set_torque_all hal d b false)) ms
      no_motor [] e = tt
      no_motor (m ∷ ms) e = absurd (ground arith)
