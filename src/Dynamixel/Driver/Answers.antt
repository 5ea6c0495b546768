-- ===== src/Dynamixel/Driver/Answers.antt =====
-- How `dxl_hal_txrx_multi` of firmware/src/dynamixel/dynamixel_hal.c takes the answers out of the bytes
-- it has received.
pub mod Laws
pub mod Stream
use creature_controller.Common.{
  ℕ, zero, suc, ◌+◌, ◌-◌, Bool, true, false, ◌&&◌, List, [], ◌∷◌, Option, none, some, ltb,
  if◌then◌else◌, length, get_or, set, take, drop,
}
use creature_controller.Dynamixel.Packet.{DxlResult, dxl_ok, servo_error, Packet, dxl_parse_packet}
use creature_controller.Dynamixel.Driver.{Metrics, count_noise, count_result}
use creature_controller.Dynamixel.Driver.Scan.{find_packet_header}

-- A packet of zeros, which stands in an array that has not been written.
abbrev pub blank : Packet
blank = record { id = 0; instruction = 0; error = 0; params = [] }

-- An answer counts even if it carries a servo's error.
abbrev pub is_answer : DxlResult → Bool
is_answer dxl_ok = true
is_answer servo_error = true
is_answer _ = false

-- The locals of the loop, with the array `rx_pkts` and the metrics.
pub record Reader : Type 0 where
  pub offset : ℕ
  pub count : ℕ
  pub rx_pkts : List Packet
  pub metrics : Metrics

-- The packet that the next round takes: its offset and its end, if there is a next round.
unfoldable pub next_answer : List ℕ → ℕ → Reader → Option (ℕ × ℕ)
next_answer bytes expected r =
    if ltb r.offset (length bytes) && ltb r.count expected
    then find_packet_header bytes (length bytes) r.offset (length bytes)
    else none

-- The rest of the round. Every caller gives an array with room for the answers it expects; a write behind
-- the end of the array does nothing here.
unfoldable pub take_answer : List ℕ → ℕ → ℕ → Reader → Reader
take_answer bytes at end r =
    let (res, p) =
      dxl_parse_packet (take (end - at) (drop at bytes)) (get_or r.rx_pkts r.count blank) in
    record {
      offset = end;
      count = if is_answer res then r.count + 1 else r.count;
      rx_pkts = set r.rx_pkts r.count p;
      metrics = count_result res (count_noise (at - r.offset) r.metrics);
    }

-- The loop ends, or goes on with this packet.
unfoldable pub follow : Option (ℕ × ℕ) → Reader → (ℕ → ℕ → Reader) → Reader
follow none r go_on = r
follow (some (at, end)) r go_on = go_on at end

-- The loop, with so many rounds allowed: the number of bytes is always enough.
unfoldable pub take_answers : ℕ → List ℕ → ℕ → Reader → Reader
take_answers zero bytes expected r = r
take_answers (suc left) bytes expected r =
    follow (next_answer bytes expected r) r
      (λ at end. take_answers left bytes expected (take_answer bytes at end r))
