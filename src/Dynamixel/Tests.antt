-- ===== src/Dynamixel/Tests.antt =====
-- The theorems on the Dynamixel protocol at concrete inputs.
use creature_controller.Common.{
  ℕ, ◌+◌, ◌≤◌, ◌<◌, ◌≡◌, refl, ◌⊎◌, inr, true, List, [], ◌∷◌, ◌++◌, map, arith, length, set, take,
  replicate, ◌↔◌, All, AllBytes,
}
use creature_controller.Dynamixel.Crc.{table_at, crc_step, crc_from, dxl_crc16}
use creature_controller.Dynamixel.Crc.Reference.{crc_by_bits, dxl_crc16-bits}
use creature_controller.Dynamixel.Stuffing.{completes_header, stuffed_size, unstuff}
use creature_controller.Dynamixel.Stuffing.Inverse.{stuffed_size-le}
use creature_controller.Dynamixel.Packet.{
  dxl_ok, buffer_overflow, invalid_packet, crc_mismatch, Packet, le_at, crc_offset,
  has_packet_start, read_params, read_payload, dxl_build_packet, dxl_parse_packet,
}
use creature_controller.Dynamixel.Packet.Roundtrip.{dxl_build_packet_bounds, parse-build}
use creature_controller.Dynamixel.Packet.Errors.{parse-set, parse_result}
use creature_controller.Dynamixel.Bus.{Hal, Bus}
use creature_controller.Dynamixel.Servo.{value_bytes, dxl_read_register}
use creature_controller.Dynamixel.Servo.Encoding.{dxl_read_register_lem}
use creature_controller.Dynamixel.Sync.{no_answer, store_answers}
use creature_controller.Dynamixel.Sync.Matching.{Answered, ids_of, sync_read_matching}

abbrev seven : ℕ
seven = 7

-- A write of 255, 255, 253 to the Goal Position register of servo 1.
abbrev write_request : Packet
write_request = record {
  id = 1;
  instruction = 3;
  error = 0;
  params = 116 ∷ 0 ∷ 255 ∷ 255 ∷ 253 ∷ 0 ∷ [];
}

abbrev status_answer : Packet
status_answer = record { id = 1; instruction = 85; error = 0; params = 0 ∷ 5 ∷ 0 ∷ 0 ∷ 0 ∷ [] }

abbrev blank : Packet
blank = record { id = 0; instruction = 0; error = 0; params = [] }

dxl_crc16-bits_example : dxl_crc16 (1 ∷ 2 ∷ []) ≡ crc_by_bits 0 (1 ∷ 2 ∷ [])
dxl_crc16-bits_example = dxl_crc16-bits (1 ∷ 2 ∷ []) (omega arith, (omega arith, tt))

dxl_build_packet_bounds_example :
    let (r, out) = dxl_build_packet write_request 64 in
    ((r ≡ dxl_ok) × (length out ≡ 10 + stuffed_size [] write_request.params) × (length out ≤ 64))
    ⊎ ((r ≡ buffer_overflow) × (out ≡ []) × (64 < 10 + stuffed_size [] write_request.params))
dxl_build_packet_bounds_example =
    dxl_build_packet_bounds write_request (record { params_fit = omega arith }) 64

parse-build_example :
    ((dxl_build_packet write_request 64).0 ≡ dxl_ok)
    × (dxl_parse_packet ((dxl_build_packet write_request 64).1 ++ (9 ∷ [])) blank
        ≡ (dxl_ok, write_request))
parse-build_example =
    parse-build write_request blank 64 (9 ∷ []) (record { params_fit = omega arith }) (omega arith)
      (omega (arith, stuffed_size-le write_request.params []))

-- The bytes of the status answer.
abbrev wire_bytes : List ℕ
wire_bytes = 255 ∷ 255 ∷ 253 ∷ 0 ∷ 1 ∷ 8 ∷ 0 ∷ 85 ∷ 0 ∷ 5 ∷ 0 ∷ 0 ∷ 0 ∷ 191 ∷ 252 ∷ []

wire_bytes-AllBytes : AllBytes wire_bytes
wire_bytes-AllBytes = (
  omega arith,
  (
    omega arith,
    (
      omega arith,
      (
        omega arith,
        (
          omega arith,
          (
            omega arith,
            (
              omega arith,
              (
                omega arith,
                (
                  omega arith,
                  (
                    omega arith,
                    (omega arith, (omega arith, (omega arith, (omega arith, (omega arith, tt))))),
                  ),
                ),
              ),
            ),
          ),
        ),
      ),
    ),
  ),
)

parse-set_example : (dxl_parse_packet (set wire_bytes 9 6) blank).0 ≡ crc_mismatch
unfolding dxl_parse_packet dxl_crc16 crc_from crc_step table_at has_packet_start read_payload
    read_params unstuff completes_header le_at crc_offset
parse-set_example =
    parse-set wire_bytes 9 6 blank blank wire_bytes-AllBytes (omega arith) (omega arith)
      (inr (omega arith, omega arith)) refl

parse_result_example :
    let r = (dxl_parse_packet wire_bytes blank).0 in
    let framed =
      (10 ≤ length wire_bytes)
      × (has_packet_start wire_bytes ≡ true)
      × (7 + le_at wire_bytes 5 ≤ length wire_bytes) in
    let checked =
      le_at wire_bytes (crc_offset wire_bytes)
      ≡ dxl_crc16 (take (crc_offset wire_bytes) wire_bytes) in
    ((r ≡ invalid_packet) ↔ (¬ framed))
    × ((r ≡ crc_mismatch) ↔ (framed × (¬ checked)))
    × ((r ≡ dxl_ok) → framed × checked × (((dxl_parse_packet wire_bytes blank).1).error ≡ 0))
parse_result_example = parse_result wire_bytes blank

-- A servo that answers every request with the bytes of 5.
abbrev steady_hal : Hal Unit
steady_hal = record {
  txrx = λ s p ms.
      (dxl_ok, record { id = 1; instruction = 85; error = 0; params = 5 ∷ 0 ∷ 0 ∷ 0 ∷ [] }, s);
  tx = λ s p. (dxl_ok, s);
  txrx_multi = λ s p len n ms. (dxl_ok, [], s);
  bus_lock = λ s. (true, s);
  bus_unlock = λ s. s;
  baud_rate = λ s. 1000000;
  delay = λ s ms. s;
  rail_present = λ s. true;
}

abbrev quiet_bus : Bus Unit
quiet_bus = record { env = tt; sent = [] }

dxl_read_register_lem_example :
    ((dxl_read_register steady_hal quiet_bus 1 132 4 0).0 ≡ dxl_ok)
    × ((dxl_read_register steady_hal quiet_bus 1 132 4 0).1 ≡ 5)
unfolding value_bytes
dxl_read_register_lem_example =
    dxl_read_register_lem steady_hal quiet_bus 1 132 4 0 5 [] (omega arith) (omega arith) refl refl

-- An answer of servo 2 with all 21 bytes.
abbrev telemetry_answer : Packet
telemetry_answer = record { id = 2; instruction = 85; error = 0; params = replicate 21 7 }

sync_read_matching_example :
    let rs = store_answers (telemetry_answer ∷ []) (map no_answer (1 ∷ 2 ∷ [])) in
    (ids_of rs ≡ 1 ∷ 2 ∷ []) × All (λ r. r.valid ≡ true → Answered r (telemetry_answer ∷ [])) rs
sync_read_matching_example = sync_read_matching (telemetry_answer ∷ []) (1 ∷ 2 ∷ [])
