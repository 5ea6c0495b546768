-- ===== src/Eeprom/Record.antt =====
-- A record of the odometer, firmware/src/device/eeprom_hours.c. `x << 8` is `x * 256`, and `|` of bytes at
-- different places is their sum.
use creature_controller.Common.{
  ℕ, zero, suc, ◌+◌, ◌*◌, ◌/◌, ◌%◌, ◌<◌, ◌≡◌, refl, true, not, List, [], ◌∷◌, ◌++◌, Option, none,
  some, arith, leb, ◌==◌, if◌then◌else◌, length, get_or, take, bit_xor,
}

-- `EEPROM_HOURS_MAGIC` and `EEPROM_HOURS_SLOT_SIZE`.
abbrev pub hours_magic : ℕ
hours_magic = 0x4852

abbrev pub slot_size : ℕ
slot_size = 16

-- The inner loop of `eeprom_hours_crc16`: one bit.
unfoldable pub crc_bit : ℕ → ℕ
crc_bit crc = if leb 0x8000 crc then bit_xor (crc * 2) 0x1021 % 65536 else crc * 2 % 65536

unfoldable pub crc_bits : ℕ → ℕ → ℕ
crc_bits zero crc = crc
crc_bits (suc n) crc = crc_bits n (crc_bit crc)

-- The outer loop.
unfoldable pub crc_bytes : ℕ → List ℕ → ℕ
crc_bytes crc [] = crc
crc_bytes crc (b ∷ bs) = crc_bytes (crc_bits 8 (bit_xor crc (b * 256))) bs

-- `eeprom_hours_crc16`.
unfoldable pub eeprom_hours_crc16 : List ℕ → ℕ
eeprom_hours_crc16 bytes = crc_bytes 0xffff bytes

-- `put_u16` and `put_u32`.
unfoldable pub put_u16 : ℕ → List ℕ
put_u16 v = (v / 256 % 256) ∷ (v % 256) ∷ []

unfoldable pub put_u32 : ℕ → List ℕ
put_u32 v = (v / 16777216 % 256) ∷ (v / 65536 % 256) ∷ (v / 256 % 256) ∷ (v % 256) ∷ []

-- `get_u16` and `get_u32` at an offset.
unfoldable pub get_u16 : List ℕ → ℕ → ℕ
get_u16 p i = get_or p i 0 * 256 + get_or p (i + 1) 0

unfoldable pub get_u32 : List ℕ → ℕ → ℕ
get_u32 p i =
    get_or p i 0 * 16777216
    + get_or p (i + 1) 0 * 65536
    + get_or p (i + 2) 0 * 256
    + get_or p (i + 3) 0

-- What a slot holds.
pub record Hours : Type 0 where
  pub seq : ℕ
  pub uptime_min : ℕ
  pub motor_min : ℕ

-- The values have 32 bits.
abbrev pub IsHours : Hours → Type 0
IsHours h = (h.seq < 4294967296) × (h.uptime_min < 4294967296) × (h.motor_min < 4294967296)

-- What is written in front of the checksum.
unfoldable pub hours_body : Hours → List ℕ
hours_body h =
    put_u16 hours_magic ++ (put_u32 h.seq ++ (put_u32 h.uptime_min ++ put_u32 h.motor_min))

-- `eeprom_hours_serialize`.
unfoldable pub eeprom_hours_serialize : Hours → List ℕ
eeprom_hours_serialize h = hours_body h ++ put_u16 (eeprom_hours_crc16 (hours_body h))

-- `eeprom_hours_deserialize` of the 16 bytes of a slot.
unfoldable pub eeprom_hours_deserialize : List ℕ → Option Hours
eeprom_hours_deserialize slot =
    if not (get_u16 slot 0 == hours_magic)
    then none
    else if not (get_u16 slot 14 == eeprom_hours_crc16 (take 14 slot))
    then none
    else some
        (record { seq = get_u32 slot 2; uptime_min = get_u32 slot 6; motor_min = get_u32 slot 10 })

crc_bit-lt : (crc : ℕ) → crc_bit crc < 65536
unfolding crc_bit
crc_bit-lt crc = ground arith

crc_bits-lt : (n crc : ℕ) → crc < 65536 → crc_bits n crc < 65536
unfolding crc_bits
crc_bits-lt zero crc h = h
crc_bits-lt (suc n) crc h = crc_bits-lt n (crc_bit crc) (crc_bit-lt crc)

crc_bytes-lt : (bytes : List ℕ) (crc : ℕ) → crc < 65536 → crc_bytes crc bytes < 65536
unfolding crc_bytes crc_bits
crc_bytes-lt [] crc h = h
crc_bytes-lt (b ∷ bs) crc h =
    crc_bytes-lt bs (crc_bits 8 (bit_xor crc (b * 256)))
      (crc_bits-lt 7 (crc_bit (bit_xor crc (b * 256))) (crc_bit-lt (bit_xor crc (b * 256))))

u16_bytes : (c : ℕ) → c < 65536 → (c / 256 % 256 * 256 + c % 256 == c) ≡ true
u16_bytes c h = ground arith

u32_bytes :
    (v : ℕ)
    → v < 4294967296
    → v / 16777216 % 256 * 16777216 + v / 65536 % 256 * 65536 + v / 256 % 256 * 256 + v % 256 ≡ v
u32_bytes v h = omega arith

-- A record that is serialized takes 16 bytes and is read back as it was.
pub deserialize-serialize :
    (h : Hours)
    → IsHours h
    → (length (eeprom_hours_serialize h) ≡ slot_size)
      × (eeprom_hours_deserialize (eeprom_hours_serialize h) ≡ some h)
unfolding eeprom_hours_serialize eeprom_hours_deserialize hours_body put_u16 put_u32 get_u16 get_u32
deserialize-serialize h v = (
  refl,
  rw
      (
        u16_bytes (eeprom_hours_crc16 (hours_body h))
            (unfold eeprom_hours_crc16 in crc_bytes-lt (hours_body h) 0xffff (omega arith)),
        u32_bytes h.seq v.0,
        u32_bytes h.uptime_min v.1,
        u32_bytes h.motor_min v.2,
      )
      refl,
)
