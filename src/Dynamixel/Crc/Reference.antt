-- ===== src/Dynamixel/Crc/Reference.antt =====
-- The table-driven CRC computes the CRC-16 with polynomial 0x8005 bit by bit.
use native.Mathlib.Nat.{pow-suc, one-le-pow}
use creature_controller.Common.{
  ℕ, zero, suc, ◌*◌, ◌/◌, ◌%◌, ◌^◌, ◌<◌, bit_xor, ◌≡◌, refl, ap, true, List, [], ◌∷◌, arith, leb,
  ◌==◌, ==_iff, if◌then◌else◌, AllBytes, holds_from, holds_from_lem, bit_xor_fields, bit_xor-lt,
  bit_xor-zero, zero-bit_xor, bit_xor_comm, bit_xor_swap,
}
use creature_controller.Dynamixel.Crc.{table_at, crc_step, crc_from, dxl_crc16}

-- One step of the shift register: the bit shifted out at the top decides on the feedback.
shift_bit : ℕ → ℕ
shift_bit s = if leb 32768 s then bit_xor (s * 2 % 65536) 0x8005 else s * 2 % 65536

pub shift_bits : ℕ → ℕ → ℕ
shift_bits zero s = s
shift_bits (suc n) s = shift_bits n (shift_bit s)

-- The register after one byte: the byte enters at the top, then eight steps.
pub crc_by_bits : ℕ → List ℕ → ℕ
crc_by_bits s [] = s
crc_by_bits s (byte ∷ rest) = crc_by_bits (shift_bits 8 (bit_xor s (byte * 256))) rest

-- Every entry of the table is the register after its index and eight steps.
table_check : holds_from 0 256 (λ i. table_at i == shift_bits 8 (i * 256)) ≡ true
unfolding holds_from table_at shift_bits shift_bit
table_check = refl

pub table_at-shift_bits : (i : ℕ) → i < 256 → table_at i ≡ shift_bits 8 (i * 256)
table_at-shift_bits i h = (==_iff _ _).0 (holds_from_lem 256 _ i table_check h)

shift_bit-lt : (s : ℕ) → shift_bit s < 65536
unfolding shift_bit
shift_bit-lt s = ground (arith, bit_xor-lt 16 (s * 2 % 65536) 0x8005)

shift_bits-lt : (n s : ℕ) → s < 65536 → shift_bits n s < 65536
unfolding shift_bits
shift_bits-lt zero s h = h
shift_bits-lt (suc n) s h = shift_bits-lt n (shift_bit s) (shift_bit-lt s)

-- A step is linear while the second summand does not reach the top bit.
shift_bit-bit_xor :
    (a b : ℕ) → a < 65536 → b < 32768 → shift_bit (bit_xor a b) ≡ bit_xor (shift_bit a) (b * 2)
unfolding shift_bit
shift_bit-bit_xor a b ha hb = ground (
  arith,
  bit_xor_fields 15 (a / 32768) (a % 32768) 0 b,
  bit_xor-zero (a / 32768),
  bit_xor-lt 15 (a % 32768) b,
  bit_xor_fields 1 (a % 32768) 0 b 0,
  zero-bit_xor 0,
  bit_xor_swap (a * 2 % 65536) 0x8005 (b * 2),
)

twice : (n b : ℕ) → b * 2 ^ suc n ≡ b * 2 * 2 ^ n
twice n b = omega (arith, ap (λ (t : ℕ). b * t) (pow-suc 2 n))

below_half : (n b : ℕ) → b * 2 ^ suc n < 65536 → b < 32768
below_half n b h = grind (arith, one-le-pow n 2, twice n b)

shift_bits-bit_xor :
    (n a b : ℕ)
    → a < 65536
    → b * 2 ^ n < 65536
    → shift_bits n (bit_xor a b) ≡ bit_xor (shift_bits n a) (b * 2 ^ n)
unfolding shift_bits
shift_bits-bit_xor zero a b ha hb = ap (bit_xor a) (omega arith)
shift_bits-bit_xor (suc n) a b ha hb = ground (
  arith,
  shift_bit-bit_xor a b ha (below_half n b hb),
  shift_bits-bit_xor n (shift_bit a) (b * 2) (shift_bit-lt a) (omega (arith, twice n b)),
  twice n b,
)

pub crc_step-bits :
    (c byte : ℕ) → c < 65536 → byte < 256 → crc_step c byte ≡ shift_bits 8 (bit_xor c (byte * 256))
unfolding crc_step
crc_step-bits c byte hc hb = ground (
  arith,
  index_is_byte,
  table_at-shift_bits index,
  bit_xor_fields 8 (c / 256) (c % 256) byte 0,
  bit_xor-zero (c % 256),
  bit_xor_fields 8 index 0 0 (c % 256),
  bit_xor-zero index,
  zero-bit_xor (c % 256),
  shift_bits-bit_xor 8 (index * 256) (c % 256),
  bit_xor_fields 16 (c / 256) (c % 256 * 256) 0 (shift_bits 8 (index * 256)),
  bit_xor-zero (c / 256),
  bit_xor-lt 16 (c % 256 * 256) (shift_bits 8 (index * 256)),
  bit_xor_comm (c % 256 * 256) (shift_bits 8 (index * 256)),
  shift_bits-lt 8 (index * 256),
)
  where
    index : ℕ
    index = bit_xor (c / 256) byte

    index_is_byte : index < 256
    index_is_byte = bit_xor-lt 8 (c / 256) byte (omega arith) hb

pub crc_step-lt : (c byte : ℕ) → crc_step c byte < 65536
unfolding crc_step
crc_step-lt c byte = omega arith

crc_from-bits :
    (bytes : List ℕ) (c : ℕ) → c < 65536 → AllBytes bytes → crc_from c bytes ≡ crc_by_bits c bytes
unfolding crc_from crc_by_bits
crc_from-bits [] c hc hb = refl
crc_from-bits (b ∷ bytes) c hc hb =
    rw (← crc_step-bits c b hc hb.0) (crc_from-bits bytes (crc_step c b) (crc_step-lt c b) hb.1)

-- On bytes, `dxl_crc16` is the CRC-16 of polynomial 0x8005 and initial value 0, computed one bit at
-- a time, highest bit first.
pub dxl_crc16-bits : (bytes : List ℕ) → AllBytes bytes → dxl_crc16 bytes ≡ crc_by_bits 0 bytes
unfolding dxl_crc16
dxl_crc16-bits bytes h = crc_from-bits bytes 0 (omega arith) h

crc_from-lt : (bytes : List ℕ) (c : ℕ) → c < 65536 → crc_from c bytes < 65536
unfolding crc_from
crc_from-lt [] c h = h
crc_from-lt (b ∷ bytes) c h = crc_from-lt bytes (crc_step c b) (crc_step-lt c b)

pub dxl_crc16-lt : (bytes : List ℕ) → dxl_crc16 bytes < 65536
unfolding dxl_crc16
dxl_crc16-lt bytes = crc_from-lt bytes 0 (omega arith)
