-- ===== src/Dynamixel/Packet.antt =====
-- `dxl_build_packet` and `dxl_parse_packet` of firmware/src/dynamixel/dynamixel_protocol.c, with the
-- types of dynamixel_protocol.h. A packet's `params` are the first `param_count` entries of the C
-- array. `x & 0xFF` and `x >> 8` are `% 256` and `/ 256`, and `|` of two bytes at different places
-- is their sum.
pub mod Roundtrip
pub mod Errors
use creature_controller.Common.{
  ℕ, ◌+◌, ◌-◌, ◌*◌, ◌/◌, ◌%◌, Bool, true, false, not, ◌&&◌, ◌||◌, List, [], ◌∷◌, ◌++◌, ltb, ◌==◌,
  if◌then◌else◌, length, get_or, take, drop,
}
use creature_controller.Dynamixel.Crc.{dxl_crc16}
use creature_controller.Dynamixel.Stuffing.{stuffed_size, stuff, Unstuffed, all, overflow, unstuff}

-- `dxl_result_t`.
pub data DxlResult : Type 0 where
  dxl_ok timeout invalid_packet crc_mismatch servo_error tx_fail buffer_overflow torque_enabled :
      DxlResult

-- `dxl_packet_t`.
pub record Packet : Type 0 where
  pub id : ℕ
  pub instruction : ℕ
  pub error : ℕ
  pub params : List ℕ

-- `DXL_INST_STATUS`.
abbrev pub dxl_inst_status : ℕ
dxl_inst_status = 0x55

-- The length field: instruction, stuffed parameters and CRC, in 16 bits.
unfoldable pub wire_length : Packet → ℕ
wire_length p = (1 + stuffed_size [] p.params % 65536 + 2) % 65536

-- What is written before the CRC.
unfoldable pub wire_body : Packet → List ℕ
wire_body p =
    0xff
    ∷ 0xff
    ∷ 0xfd
    ∷ 0x00
    ∷ p.id
    ∷ (wire_length p % 256)
    ∷ (wire_length p / 256 % 256)
    ∷ p.instruction
    ∷ stuff [] p.params

-- A 16-bit value as two bytes, the low one first.
unfoldable pub le_bytes : ℕ → List ℕ
le_bytes v = (v % 256) ∷ (v / 256 % 256) ∷ []

-- `dxl_build_packet` with a buffer of `out_buf_size` bytes: the result, and the `*out_length` bytes
-- written. Where the buffer is too small nothing is written.
unfoldable pub dxl_build_packet : Packet → ℕ → DxlResult × List ℕ
dxl_build_packet p out_buf_size =
    if ltb out_buf_size (7 + wire_length p)
    then (buffer_overflow, [])
    else (dxl_ok, wire_body p ++ le_bytes (dxl_crc16 (wire_body p)))

-- Two bytes at `i`, the low one first.
unfoldable pub le_at : List ℕ → ℕ → ℕ
le_at bytes i = get_or bytes i 0 + get_or bytes (i + 1) 0 * 256

-- Where the CRC begins, by the length field: `expected_total - 2`.
unfoldable pub crc_offset : List ℕ → ℕ
crc_offset bytes = 7 + le_at bytes 5 - 2

unfoldable pub has_packet_start : List ℕ → Bool
has_packet_start bytes =
    (get_or bytes 0 0 == 0xff)
    && (get_or bytes 1 0 == 0xff)
    && (get_or bytes 2 0 == 0xfd)
    && (get_or bytes 3 0 == 0x00)

-- The parameters between the offsets `raw_start` and `raw_end` are unstuffed into `p`. On an
-- overflow `param_count` stays as it was, over an array that has been filled.
unfoldable pub read_params : Packet → ℕ → ℕ → List ℕ → DxlResult × Packet
read_params p raw_start raw_end bytes =
    elim (unstuff [] false (take (raw_end - raw_start) (drop raw_start bytes))) [
      | all ps ↦ (if p.error == 0 then dxl_ok else servo_error, record p { params = ps })
      | overflow ps ↦ (buffer_overflow, record p { params = take (length p.params) ps })
    ]

-- The part of `dxl_parse_packet` behind the CRC check.
unfoldable pub read_payload : Packet → List ℕ → DxlResult × Packet
read_payload p bytes =
    if get_or bytes 7 0 == dxl_inst_status
    then read_params (record p { instruction = get_or bytes 7 0; error = get_or bytes 8 0 }) 9
        (crc_offset bytes) bytes
    else read_params (record p { instruction = get_or bytes 7 0; error = 0 }) 8 (crc_offset bytes)
        bytes

-- `dxl_parse_packet` of the `length` bytes into `*pkt`, which held `p` before: the result, and what
-- `*pkt` holds afterwards.
unfoldable pub dxl_parse_packet : List ℕ → Packet → DxlResult × Packet
dxl_parse_packet bytes p =
    if ltb (length bytes) 10
    then (invalid_packet, p)
    else if not (has_packet_start bytes)
    then (invalid_packet, p)
    else let p' = record p { id = get_or bytes 4 0 } in
      if ltb (length bytes) (7 + le_at bytes 5)
      then (invalid_packet, p')
      else if le_at bytes (crc_offset bytes) == dxl_crc16 (take (crc_offset bytes) bytes)
      then read_payload p' bytes
      else (crc_mismatch, p')
