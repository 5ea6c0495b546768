-- ===== src/Dynamixel/Crc/Detection.antt =====
-- The CRC tells apart any two byte sequences that differ in one byte: each round can be undone.
use creature_controller.Common.{
  ℕ, zero, suc, ◌+◌, ◌*◌, ◌/◌, ◌%◌, ◌<◌, bit_xor, ◌≡◌, refl, ap, ◌∙◌, true, List, [], ◌∷◌, ◌++◌,
  arith, ◌==◌, ==_iff, AllBytes, holds_from, holds_from_lem, if◌then◌else◌, bit_xor_fields,
  bit_xor-lt, bit_xor-zero, zero-bit_xor, bit_xor_cancel, bit_xor_comm,
}
use creature_controller.Dynamixel.Crc.{table_at, crc_step, crc_from, dxl_crc16}
use creature_controller.Dynamixel.Crc.Reference.{crc_step-lt}

-- The index below `n` whose entry has the low byte `low`.
index_of_low : ℕ → ℕ → ℕ
index_of_low zero low = 0
index_of_low (suc n) low =
    let below = index_of_low n low in if table_at n % 256 == low then n else below

low_bytes_differ : holds_from 0 256 (λ i. index_of_low 256 (table_at i % 256) == i) ≡ true
unfolding holds_from table_at index_of_low
low_bytes_differ = refl

index_found : (i : ℕ) → i < 256 → index_of_low 256 (table_at i % 256) ≡ i
index_found i h = (==_iff _ _).0 (holds_from_lem 256 _ i low_bytes_differ h)

entries_fit : holds_from 0 256 (λ i. table_at i / 65536 == 0) ≡ true
unfolding holds_from table_at
entries_fit = refl

table_at-lt : (i : ℕ) → i < 256 → table_at i < 65536
table_at-lt i h =
    omega (arith, (==_iff (table_at i / 65536) 0).0 (holds_from_lem 256 _ i entries_fit h))

module _ (c b : ℕ) (hc : c < 65536) (hb : b < 256) where
  index : ℕ
  index = bit_xor (c / 256) b

  index-lt : index < 256
  unfolding index
  index-lt = bit_xor-lt 8 (c / 256) b (omega arith) hb

  -- The two bytes of the register after a round.
  crc_step_bytes :
      (crc_step c b % 256 ≡ table_at index % 256)
      × (crc_step c b / 256 ≡ bit_xor (c % 256) (table_at index / 256))
  unfolding crc_step index
  crc_step_bytes = ground (
    arith,
    index-lt,
    table_at-lt index,
    bit_xor_fields 16 (c / 256) (c % 256 * 256) 0 (table_at index),
    bit_xor-zero (c / 256),
    bit_xor-lt 16 (c % 256 * 256) (table_at index),
    bit_xor_fields 8 (c % 256) 0 (table_at index / 256) (table_at index % 256),
    zero-bit_xor (table_at index % 256),
    bit_xor-lt 8 (c % 256) (table_at index / 256),
  )

  index_back : index_of_low 256 (crc_step c b % 256) ≡ index
  index_back = ap (index_of_low 256) crc_step_bytes.0 ∙ index_found index index-lt

  -- The register before a round, from the register after it and the byte.
  register_back : c ≡ bit_xor index b * 256 + bit_xor (crc_step c b / 256) (table_at index / 256)
  unfolding index
  register_back = ground (
    arith,
    crc_step_bytes.1,
    bit_xor_cancel (c / 256) b,
    bit_xor_cancel (c % 256) (table_at index / 256),
  )

-- A round loses nothing of the register.
crc_step_injective :
    (c d b : ℕ) → c < 65536 → d < 65536 → b < 256 → crc_step c b ≡ crc_step d b → c ≡ d
crc_step_injective c d b hc hd hb e = ground (
  arith,
  index_back c b hc hb,
  index_back d b hd hb,
  register_back c b hc hb,
  register_back d b hd hb,
)

-- Nor of the byte.
crc_step_byte_injective :
    (c b b' : ℕ) → c < 65536 → b < 256 → b' < 256 → crc_step c b ≡ crc_step c b' → b ≡ b'
unfolding index
crc_step_byte_injective c b b' hc hb hb' e = ground (
  arith,
  index_back c b hc hb,
  index_back c b' hc hb',
  bit_xor_cancel b (c / 256),
  bit_xor_cancel b' (c / 256),
  bit_xor_comm (c / 256) b,
  bit_xor_comm (c / 256) b',
)

crc_from_injective :
    (ys : List ℕ) (c d : ℕ)
    → AllBytes ys
    → c < 65536
    → d < 65536
    → crc_from c ys ≡ crc_from d ys
    → c ≡ d
unfolding crc_from
crc_from_injective [] c d h hc hd e = e
crc_from_injective (y ∷ ys) c d h hc hd e =
    crc_step_injective c d y hc hd h.0 (
      crc_from_injective ys (crc_step c y) (crc_step d y) h.1 (crc_step-lt c y) (crc_step-lt d y) e)

crc_from_detects :
    (xs ys : List ℕ) (b b' c : ℕ)
    → AllBytes xs
    → AllBytes ys
    → b < 256
    → b' < 256
    → c < 65536
    → crc_from c (xs ++ (b ∷ ys)) ≡ crc_from c (xs ++ (b' ∷ ys))
    → b ≡ b'
unfolding crc_from
crc_from_detects [] ys b b' c hx hy hb hb' hc e =
    crc_step_byte_injective c b b' hc hb hb' (
      crc_from_injective ys (crc_step c b) (crc_step c b') hy (crc_step-lt c b) (crc_step-lt c b')
        e)
crc_from_detects (x ∷ xs) ys b b' c hx hy hb hb' hc e =
    crc_from_detects xs ys b b' (crc_step c x) hx.1 hy hb hb' (crc_step-lt c x) e

-- Two sequences of bytes that differ in at most one byte have the same CRC only if that byte is
-- the same: the CRC detects every corruption of a single byte.
pub dxl_crc16_detects :
    (xs ys : List ℕ) (b b' : ℕ)
    → AllBytes xs
    → AllBytes ys
    → b < 256
    → b' < 256
    → dxl_crc16 (xs ++ (b ∷ ys)) ≡ dxl_crc16 (xs ++ (b' ∷ ys))
    → b ≡ b'
unfolding dxl_crc16
dxl_crc16_detects xs ys b b' hx hy hb hb' e =
    crc_from_detects xs ys b b' 0 hx hy hb hb' (omega arith) e
