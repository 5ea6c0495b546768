-- ===== src/Dynamixel/Packet/Errors.antt =====
-- What the parser rejects, and that it stays inside its buffers.
use native.Mathlib.Decide.{dec_lt}
use creature_controller.Common.{
  ◌↔◌, ap₂, ℕ, suc, ◌+◌, ◌-◌, ◌*◌, ◌≤◌, ◌<◌, ◌≢◌, ◌≡◌, refl, ap, ◌∙◌, sym, ◌⊎◌, true, false, List,
  [], arith, ◌==◌, if◌then◌else◌, length, get_or, set, take, drop, length-set, length-take,
  get_or-set_self, get_or-set_ne, take-set, take-set_ge, set_self, AllBytes-take, AllBytes-drop,
  AllBytes, get_or-lt,
}
use creature_controller.Dynamixel.Crc.{dxl_crc16}
use creature_controller.Dynamixel.Crc.Detection.{dxl_crc16_detects}
use creature_controller.Dynamixel.Stuffing.{Unstuffed, unstuff, all, overflow}
use creature_controller.Dynamixel.Stuffing.Inverse.{unstuff-length}
use creature_controller.Dynamixel.Packet.{
  DxlResult, dxl_ok, servo_error, invalid_packet, crc_mismatch, buffer_overflow, Packet, le_at,
  crc_offset, has_packet_start, read_params, read_payload, dxl_parse_packet,
}
use creature_controller.Dynamixel.Packet.Roundtrip.{IsPacket}

-- A packet that passes the tests in front of its payload.
pub record IsIntact (bytes : List ℕ) : Type 0 where
  pub long_enough : 10 ≤ length bytes
  pub starts : has_packet_start bytes ≡ true
  pub complete : 7 + le_at bytes 5 ≤ length bytes
  pub crc_agrees : le_at bytes (crc_offset bytes) ≡ dxl_crc16 (take (crc_offset bytes) bytes)

ok-IsIntact :
    (bytes : List ℕ) (old : Packet) → (dxl_parse_packet bytes old).0 ≡ dxl_ok → IsIntact bytes
unfolding dxl_parse_packet
ok-IsIntact bytes old h = ground arith

module _ (bytes : List ℕ) (i v : ℕ) where
  pub damaged : List ℕ
  damaged = set bytes i v

  module _ (w : IsIntact bytes) (place : (i ≡ 4) ⊎ ((7 ≤ i) × (i < 7 + le_at bytes 5))) where
    damaged-le_at : le_at damaged 5 ≡ le_at bytes 5
    unfolding damaged le_at
    damaged-le_at = ground (arith, get_or-set_ne bytes i 5 v 0, get_or-set_ne bytes i 6 v 0)

    damaged-crc_offset : crc_offset damaged ≡ crc_offset bytes
    unfolding crc_offset
    damaged-crc_offset = omega (arith, damaged-le_at)

    damaged-has_packet_start : has_packet_start damaged ≡ true
    unfolding damaged has_packet_start
    damaged-has_packet_start = ground (
      arith,
      w.starts,
      get_or-set_ne bytes i 0 v 0,
      get_or-set_ne bytes i 1 v 0,
      get_or-set_ne bytes i 2 v 0,
      get_or-set_ne bytes i 3 v 0,
    )

    module _ (hb : AllBytes bytes) (hv : v < 256) (changed : v ≢ get_or bytes i 0) where
      -- A change in front of the CRC changes what is computed.
      computed_differs :
          i < crc_offset bytes
          → dxl_crc16 (take (crc_offset bytes) damaged) ≢ dxl_crc16 (take (crc_offset bytes) bytes)
      unfolding damaged crc_offset
      computed_differs h e = changed (
          dxl_crc16_detects (take i bytes) (take (crc_offset bytes - suc i) (drop (suc i) bytes)) v
            (get_or bytes i 0) (AllBytes-take i bytes hb)
            (AllBytes-take (crc_offset bytes - suc i) (drop (suc i) bytes)
              (AllBytes-drop (suc i) bytes hb))
            hv (get_or-lt bytes i hb)
            (ap dxl_crc16 (sym (take-set (crc_offset bytes) i bytes v h inside))
              ∙ e
              ∙ ap dxl_crc16 (
                  ap (take (crc_offset bytes)) (sym (set_self bytes i 0))
                  ∙ take-set (crc_offset bytes) i bytes (get_or bytes i 0) h inside)))
        where
          inside : i < length bytes
          inside = ground (arith, w.complete)

      -- A change of the CRC changes what is received, and nothing else.
      received_differs :
          crc_offset bytes ≤ i → le_at damaged (crc_offset bytes) ≢ le_at bytes (crc_offset bytes)
      unfolding damaged le_at
      received_differs h e = ground (
        arith,
        get_or-lt bytes (crc_offset bytes) hb,
        get_or-lt bytes (crc_offset bytes + 1) hb,
        get_or-set_self bytes i v 0,
        get_or-set_ne bytes i (crc_offset bytes) v 0,
        get_or-set_ne bytes i (crc_offset bytes + 1) v 0,
        two_places,
      )
        where
          two_places : (i < length bytes) × ((i ≡ crc_offset bytes) ⊎ (i ≡ crc_offset bytes + 1))
          two_places = unfold crc_offset in ground (arith, w.complete)

      crc_disagrees : le_at damaged (crc_offset bytes) ≢ dxl_crc16 (take (crc_offset bytes) damaged)
      unfolding damaged le_at
      crc_disagrees e = elim (dec_lt i (crc_offset bytes)) [
        | yes h ↦ computed_differs h (
            sym e
            ∙ ap₂ (λ x y. x + y * 256) (get_or-set_ne bytes i (crc_offset bytes) v 0 (omega arith))
                (get_or-set_ne bytes i (crc_offset bytes + 1) v 0 (omega arith))
            ∙ w.crc_agrees)
        | no h ↦ received_differs (omega arith) (
            e
            ∙ ap dxl_crc16 (take-set_ge (crc_offset bytes) i bytes v (omega arith))
            ∙ sym w.crc_agrees)
      ]

      damaged-crc_mismatch : (old : Packet) → (dxl_parse_packet damaged old).0 ≡ crc_mismatch
      unfolding dxl_parse_packet
      damaged-crc_mismatch old = ground (
        arith, damaged-has_packet_start, damaged-le_at, damaged-crc_offset, damaged_length,
        w.long_enough, w.complete, crc_disagrees,
      )
        where
          damaged_length : length damaged ≡ length bytes
          damaged_length = unfold damaged in length-set bytes i v

-- Take a packet that is parsed with DXL_OK, and change one byte of it to another: the id, or any byte
-- from the instruction to the end of the CRC. The parser then answers DXL_CRC_MISMATCH.
pub parse-set :
    (bytes : List ℕ) (i v : ℕ) (old old' : Packet)
    → AllBytes bytes
    → v < 256
    → v ≢ get_or bytes i 0
    → (i ≡ 4) ⊎ ((7 ≤ i) × (i < 7 + le_at bytes 5))
    → (dxl_parse_packet bytes old).0 ≡ dxl_ok
    → (dxl_parse_packet (set bytes i v) old').0 ≡ crc_mismatch
unfolding damaged
parse-set bytes i v old old' hb hv changed place h =
    damaged-crc_mismatch bytes i v (ok-IsIntact bytes old h) place hb hv changed old'

read_params-IsPacket :
    (p : Packet) (s e : ℕ) (bytes : List ℕ) → IsPacket p → IsPacket (read_params p s e bytes).1
unfolding read_params
read_params-IsPacket p s e bytes h = go (unstuff [] false raw) refl
  where
    raw : List ℕ
    raw = take (e - s) (drop s bytes)

    go :
        (u : Unstuffed)
        → unstuff [] false raw ≡ u
        → IsPacket
            (elim u as (λ _. DxlResult × Packet) [
              | all ps ↦ (if p.error == 0 then dxl_ok else servo_error, record p { params = ps })
              | overflow ps ↦ (buffer_overflow, record p { params = take (length p.params) ps })
            ]).1
    go (all ps) eq = record { params_fit = (unstuff-length raw [] false (omega arith)).0 ps eq }
    go (overflow ps) eq = record {
      params_fit = omega (arith, length-take (length p.params) ps, h.params_fit);
    }

-- Whatever the bytes are, if the count of the packet struct fits its array before, it does so after:
-- the parser writes no parameter past the end of the array.
pub parse-IsPacket :
    (bytes : List ℕ) (old : Packet) → IsPacket old → IsPacket (dxl_parse_packet bytes old).1
unfolding dxl_parse_packet read_payload
parse-IsPacket bytes old h = ground (
  arith,
  h.params_fit,
  read_params-IsPacket
      (record old {
        id = get_or bytes 4 0;
        instruction = get_or bytes 7 0;
        error = get_or bytes 8 0;
      })
      9 (crc_offset bytes) bytes (record { params_fit = h.params_fit }),
  read_params-IsPacket
      (record old { id = get_or bytes 4 0; instruction = get_or bytes 7 0; error = 0 }) 8
      (crc_offset bytes) bytes (record { params_fit = h.params_fit }),
)

read_payload_result :
    (p : Packet) (bytes : List ℕ)
    → ((read_payload p bytes).0 ≢ invalid_packet)
      × ((read_payload p bytes).0 ≢ crc_mismatch)
      × ((read_payload p bytes).0 ≡ dxl_ok → (read_payload p bytes).1.error ≡ 0)
unfolding read_payload read_params
read_payload_result p bytes = ground arith

-- The result is DXL_INVALID_PACKET exactly for too few bytes, a wrong start or a length field that
-- reaches past the end; it is DXL_CRC_MISMATCH exactly if none of these is so and the CRC is wrong;
-- and if it is DXL_OK, then none of these is so, the CRC is right and the error byte stored is 0.
pub parse_result :
    (bytes : List ℕ) (old : Packet)
    → let r = (dxl_parse_packet bytes old).0 in
      let framed =
        (10 ≤ length bytes)
        × (has_packet_start bytes ≡ true)
        × (7 + le_at bytes 5 ≤ length bytes) in
      let checked = le_at bytes (crc_offset bytes) ≡ dxl_crc16 (take (crc_offset bytes) bytes) in
      ((r ≡ invalid_packet) ↔ (¬ framed))
      × ((r ≡ crc_mismatch) ↔ (framed × (¬ checked)))
      × ((r ≡ dxl_ok) → framed × checked × (((dxl_parse_packet bytes old).1).error ≡ 0))
unfolding dxl_parse_packet
parse_result bytes old =
    ground (arith, read_payload_result (record old { id = get_or bytes 4 0 }) bytes)
