-- ===== src/Dynamixel/Stuffing.antt =====
-- Byte stuffing of packet parameters: the loops of `dxl_build_packet` and `dxl_parse_packet` in
-- firmware/src/dynamixel/dynamixel_protocol.c.
pub mod Inverse
pub mod Header
use creature_controller.Common.{
  ℕ, ◌+◌, Bool, true, false, ◌&&◌, List, [], ◌∷◌, reverse, leb, ◌==◌, if◌then◌else◌, length, get_or,
}

-- `DXL_MAX_PARAMS`, which is `DXL_MAX_PACKET_SIZE - 10`.
abbrev pub dxl_max_params : ℕ
dxl_max_params = 246

-- The bytes so far, the latest first: do the last three read FF FF FD?
unfoldable pub completes_header : List ℕ → Bool
completes_header rev =
    leb 3 (length rev)
    && (get_or rev 2 0 == 0xff)
    && (get_or rev 1 0 == 0xff)
    && (get_or rev 0 0 == 0xfd)

-- The first pass of `dxl_build_packet`: how many bytes the parameters take on the wire. `rev` are
-- the parameters before, the latest first.
unfoldable pub stuffed_size : List ℕ → List ℕ → ℕ
stuffed_size rev [] = 0
stuffed_size rev (b ∷ rest) =
    (if completes_header (b ∷ rev) then 2 else 1) + stuffed_size (b ∷ rev) rest

-- The second pass: FF FF FD among the parameters is followed by one more FD.
unfoldable pub stuff : List ℕ → List ℕ → List ℕ
stuff rev [] = []
stuff rev (b ∷ rest) =
    let out = stuff (b ∷ rev) rest in if completes_header (b ∷ rev) then b ∷ 0xfd ∷ out else b ∷ out

-- What the loop of `dxl_parse_packet` ends with: the parameters, or the first `dxl_max_params` of
-- them where more follow (DXL_BUFFER_OVERFLOW).
pub data Unstuffed : Type 0 where
  all : List ℕ → Unstuffed
  overflow : List ℕ → Unstuffed

-- `rev` are the parameters written, the latest first. `skip` says that the last one completed
-- FF FF FD, so that an FD that follows is stuffing: the C code looks ahead for it, and skips it by
-- an `i++` before any other test.
unfoldable pub unstuff : List ℕ → Bool → List ℕ → Unstuffed
unstuff rev skip [] = all (reverse rev)
unstuff rev skip (b ∷ rest) = elim (skip && (b == 0xfd)) [
  | true ↦ unstuff rev false rest
  | false ↦ elim (leb dxl_max_params (length rev)) [
    | true ↦ overflow (reverse rev)
    | false ↦ unstuff (b ∷ rev) (completes_header (b ∷ rev)) rest
  ]
]
