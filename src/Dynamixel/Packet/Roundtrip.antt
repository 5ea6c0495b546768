-- ===== src/Dynamixel/Packet/Roundtrip.antt =====
-- What is built is parsed back.
use creature_controller.Common.{
  ℕ, ◌⊎◌, ◌+◌, ◌-◌, ◌≤◌, ◌<◌, ◌≢◌, ◌≡◌, refl, ap, ◌∙◌, true, List, [], ◌∷◌, ◌++◌, arith, ◌==◌,
  if◌then◌else◌, length, get_or, take, drop, length-append, take-append, get_or-append_right,
  append_assoc,
}
use creature_controller.Dynamixel.Crc.{dxl_crc16}
use creature_controller.Dynamixel.Crc.Reference.{dxl_crc16-lt}
use creature_controller.Dynamixel.Stuffing.{stuffed_size, stuff, dxl_max_params}
use creature_controller.Dynamixel.Stuffing.Inverse.{
  length-stuff, stuff_first, stuffed_size-le, unstuff-stuff,
}
use creature_controller.Dynamixel.Packet.{
  dxl_ok, servo_error, buffer_overflow, Packet, dxl_inst_status, wire_length, wire_body, le_bytes,
  dxl_build_packet, le_at, crc_offset, has_packet_start, read_params, read_payload,
  dxl_parse_packet,
}

-- The fields of the C struct in range.
pub record IsPacket (p : Packet) : Type 0 where
  pub params_fit : length p.params ≤ dxl_max_params

module _ (p : Packet) (v : IsPacket p) where
  pub wire_length_exact : wire_length p ≡ 3 + stuffed_size [] p.params
  unfolding wire_length
  wire_length_exact = omega (arith, stuffed_size-le p.params [])

  length-wire_body : length (wire_body p) ≡ 5 + wire_length p
  unfolding wire_body
  length-wire_body = omega (arith, wire_length_exact, length-stuff p.params [])

  -- A buffer of `n` bytes is enough exactly if it holds the header, the stuffed parameters and the
  -- CRC, and no byte is written past it.
  pub dxl_build_packet_bounds :
      (n : ℕ)
      → let (r, out) = dxl_build_packet p n in
        ((r ≡ dxl_ok) × (length out ≡ 10 + stuffed_size [] p.params) × (length out ≤ n))
        ⊎ ((r ≡ buffer_overflow) × (out ≡ []) × (n < 10 + stuffed_size [] p.params))
  unfolding dxl_build_packet le_bytes
  dxl_build_packet_bounds n = ground (
    arith,
    wire_length_exact,
    length-wire_body,
    length-append (wire_body p) (le_bytes (dxl_crc16 (wire_body p))),
  )

  module _ (rest : List ℕ) where
    -- The CRC and what follows the packet.
    tail : List ℕ
    tail = le_bytes (dxl_crc16 (wire_body p)) ++ rest

    wire : List ℕ
    wire = wire_body p ++ tail

    le_at-wire : le_at wire 5 ≡ wire_length p
    unfolding wire wire_body le_at
    le_at-wire = omega (arith, wire_length_exact, stuffed_size-le p.params [])

    crc_offset-wire : crc_offset wire ≡ length (wire_body p)
    unfolding crc_offset
    crc_offset-wire = omega (arith, le_at-wire, length-wire_body)

    take-wire : take (crc_offset wire) wire ≡ wire_body p
    unfolding wire
    take-wire = take-append (crc_offset wire) (wire_body p) tail crc_offset-wire

    le_at-crc : le_at wire (crc_offset wire) ≡ dxl_crc16 (wire_body p)
    unfolding wire le_at tail le_bytes
    le_at-crc = omega (
      arith,
      dxl_crc16-lt (wire_body p),
      get_or-append_right (crc_offset wire) 0 (wire_body p) tail 0 (omega (arith, crc_offset-wire)),
      get_or-append_right (crc_offset wire + 1) 1 (wire_body p) tail 0
          (omega (arith, crc_offset-wire)),
    )

    length-wire : length wire ≡ 7 + wire_length p + length rest
    unfolding wire tail le_bytes
    length-wire = omega (arith, length-append (wire_body p) tail, length-wire_body)

    has_packet_start-wire : has_packet_start wire ≡ true
    unfolding has_packet_start wire wire_body
    has_packet_start-wire = refl

    id-wire : get_or wire 4 0 ≡ p.id
    unfolding wire wire_body
    id-wire = refl

    instruction-wire : get_or wire 7 0 ≡ p.instruction
    unfolding wire wire_body
    instruction-wire = refl

    enters :
        (old : Packet) → dxl_parse_packet wire old ≡ read_payload (record old { id = p.id }) wire
    unfolding dxl_parse_packet
    enters old = ground (
      arith, has_packet_start-wire, id-wire, le_at-wire, length-wire, wire_length_exact, le_at-crc,
      take-wire,
    )

    params-wire : take (crc_offset wire - 8) (drop 8 wire) ≡ stuff [] p.params
    unfolding wire wire_body
    params-wire = take-append (crc_offset wire - 8) (stuff [] p.params) tail (
        omega
          (arith, crc_offset-wire, length-wire_body, wire_length_exact, length-stuff p.params []))

    module _ (e : ℕ) (ps : List ℕ) (ne : e ≢ 0xff) (h : p.params ≡ e ∷ ps) where
      stuffed-eq : stuff [] p.params ≡ e ∷ stuff [] ps
      stuffed-eq = ap (stuff []) h ∙ stuff_first e ps ne

      error-wire : get_or wire 8 0 ≡ e
      unfolding wire wire_body
      error-wire = rw stuffed-eq refl

      status_params-wire : take (crc_offset wire - 9) (drop 9 wire) ≡ stuff [] ps
      unfolding wire wire_body
      status_params-wire =
          ap (λ l. take (crc_offset wire - 9) (drop 1 (l ++ tail))) stuffed-eq
          ∙ take-append (crc_offset wire - 9) (stuff [] ps) tail (
              omega (
                arith,
                crc_offset-wire,
                length-wire_body,
                wire_length_exact,
                length-stuff p.params [],
                ap length stuffed-eq,
              ))

  read_wire :
      (old : Packet) (rest : List ℕ)
      → p.instruction ≢ dxl_inst_status
      → read_payload (record old { id = p.id }) (wire rest) ≡ (dxl_ok, record p { error = 0 })
  unfolding read_payload read_params
  read_wire old rest ne =
      ground
        (arith, instruction-wire rest, params-wire rest, unstuff-stuff p.params [], v.params_fit)

  read_status :
      (old : Packet) (rest : List ℕ) (e : ℕ) (ps : List ℕ)
      → e ≢ 0xff
      → p.params ≡ e ∷ ps
      → p.instruction ≡ dxl_inst_status
      → read_payload (record old { id = p.id }) (wire rest)
        ≡ (if e == 0 then dxl_ok else servo_error, record p { error = e; params = ps })
  unfolding read_payload read_params
  read_status old rest e ps ne h st = ground (
    arith,
    instruction-wire rest,
    error-wire rest e ps ne h,
    status_params-wire rest e ps ne h,
    unstuff-stuff ps [],
    ap length h,
    v.params_fit,
  )

-- A packet whose parameters fit, built into a large enough buffer and received with any bytes after
-- it, is parsed back: the result is DXL_OK, and id, instruction and parameters are those of the
-- packet, with no error. Status packets are another theorem.
pub parse-build :
    (p old : Packet) (n : ℕ) (rest : List ℕ)
    → IsPacket p
    → p.instruction ≢ dxl_inst_status
    → 10 + stuffed_size [] p.params ≤ n
    → ((dxl_build_packet p n).0 ≡ dxl_ok)
      × (dxl_parse_packet ((dxl_build_packet p n).1 ++ rest) old ≡ (dxl_ok, record p { error = 0 }))
unfolding dxl_build_packet wire tail
parse-build p old n rest v ne fits = ground (
  arith,
  wire_length_exact p v,
  append_assoc (wire_body p) (le_bytes (dxl_crc16 (wire_body p))) rest,
  enters p v rest old,
  read_wire p v old rest ne,
)

-- A status packet, whose first parameter byte is the error byte, is parsed back too, if that byte is
-- not FF: the error and the parameters behind it are those sent, and the result is DXL_OK exactly if
-- the error is 0.
pub parse-build_status :
    (p old : Packet) (n : ℕ) (rest : List ℕ) (e : ℕ) (ps : List ℕ)
    → IsPacket p
    → p.instruction ≡ dxl_inst_status
    → p.params ≡ e ∷ ps
    → e ≢ 0xff
    → 10 + stuffed_size [] p.params ≤ n
    → dxl_parse_packet ((dxl_build_packet p n).1 ++ rest) old
      ≡ (if e == 0 then dxl_ok else servo_error, record p { error = e; params = ps })
unfolding dxl_build_packet wire tail
parse-build_status p old n rest e ps v st h ne fits = ground (
  arith,
  wire_length_exact p v,
  append_assoc (wire_body p) (le_bytes (dxl_crc16 (wire_body p))) rest,
  enters p v rest old,
  read_status p v old rest e ps ne h st,
)
