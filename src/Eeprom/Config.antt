-- ===== src/Eeprom/Config.antt =====
-- The USB configuration in the EEPROM, `parse_eeprom_data` and `extract_string` of
-- firmware/src/device/eeprom.c. A string variable is its bytes up to the terminator.
use creature_controller.Common.{
  ℕ, zero, suc, ◌+◌, ◌*◌, ◌/◌, ◌%◌, ◌<◌, ◌≡◌, refl, sym, ap, ◌∙◌, ◌||◌, ◌&&◌, Bool, true, false,
  not, List, [], ◌∷◌, ◌++◌, Option, none, some, arith, ltb, leb, ◌==◌, if◌then◌else◌, length,
  get_or, take, drop, AllBytes, get_or-lt, length-append, take-append, drop-append,
}

-- The variables that the parser sets.
pub record UsbConfig : Type 0 where
  pub usb_vid : ℕ
  pub usb_pid : ℕ
  pub usb_serial : List ℕ
  pub usb_product : List ℕ
  pub usb_manufacturer : List ℕ
  pub configured_logging_level : ℕ

-- `extract_string` at an offset, into a buffer of that size: the offset behind the string and the string,
-- or nothing for -1.
unfoldable pub extract_string : List ℕ → ℕ → ℕ → Option (ℕ × List ℕ)
extract_string bytes offset bufsize =
    let str_len = get_or bytes offset 0 in
    let start = offset + 1 in
    if leb (length bytes) offset
    then none
    else if str_len == 255
    then some (start, [])
    else if ltb (length bytes) (start + str_len)
    then none
    else if leb bufsize str_len
    then none
    else some (start + str_len, take str_len (drop start bytes))

-- The early return of the caller, or the rest of it.
unfoldable pub or_return :
    UsbConfig → Option (ℕ × List ℕ) → (ℕ → List ℕ → Bool × UsbConfig) → Bool × UsbConfig
or_return config none rest = (false, config)
or_return config (some (offset, string)) rest = rest offset string

-- The loop over the custom strings, with so many rounds: nothing for -1. Each round moves the offset on.
unfoldable pub custom_strings : ℕ → List ℕ → ℕ → Bool
custom_strings zero bytes offset = true
custom_strings (suc left) bytes offset =
    let custom_len = get_or bytes offset 0 in
    let start = offset + 1 in
    let after_erased = custom_strings left bytes start in
    let after_string = custom_strings left bytes (start + custom_len) in
    if leb (length bytes) offset
    then true
    else if custom_len == 255
    then after_erased
    else if ltb (length bytes) (start + custom_len)
    then true
    else if leb 256 custom_len
    then false
    else after_string

-- Are the first four bytes `MAGIC_WORD`, "HOP!"?
unfoldable pub is_magic : List ℕ → Bool
is_magic bytes =
    get_or bytes 0 0 == 72
    && get_or bytes 1 0 == 79
    && get_or bytes 2 0 == 80
    && get_or bytes 3 0 == 33

-- `parse_eeprom_data`: true stands for 0.
unfoldable pub parse_eeprom_data : List ℕ → UsbConfig → Bool × UsbConfig
parse_eeprom_data bytes config =
    let header = record config {
      usb_vid = get_or bytes 4 0 * 256 + get_or bytes 5 0;
      usb_pid = get_or bytes 6 0 * 256 + get_or bytes 7 0;
      configured_logging_level = get_or bytes 10 0;
    } in
    if ltb (length bytes) 11 || not (is_magic bytes)
    then (false, config)
    else or_return header (extract_string bytes 11 16) (λ after_serial serial.
      let with_serial = record header { usb_serial = serial } in
      or_return with_serial (extract_string bytes after_serial 16) (λ after_product product.
        let with_product = record with_serial { usb_product = product } in
        or_return with_product (extract_string bytes after_product 32)
          (λ after_manufacturer manufacturer.
            let whole = record with_product { usb_manufacturer = manufacturer } in
            (custom_strings (length bytes) bytes after_manufacturer, whole))))

-- What follows a list of bytes that starts at an offset.
split_at :
    (bytes : List ℕ) (offset b : ℕ) (rest : List ℕ)
    → drop offset bytes ≡ b ∷ rest
    → (get_or bytes offset 0 ≡ b)
      × (drop (offset + 1) bytes ≡ rest)
      × (length bytes ≡ offset + 1 + length rest)
split_at [] zero b rest e = absurd (cc)
split_at [] (suc offset) b rest e = absurd (cc)
split_at (x ∷ xs) zero b rest e = (cc, cc, omega (arith, ap length e))
split_at (x ∷ xs) (suc offset) b rest e =
    let r = split_at xs offset b rest e in
    let next : suc offset + 1 ≡ suc (offset + 1) = omega arith in
    (r.0, rw next r.1, omega (arith, r.2))

drop_none : (k : ℕ) → drop {A = ℕ} k [] ≡ []
drop_none zero = refl
drop_none (suc k) = refl

drop_more : (n k : ℕ) (bytes rest : List ℕ) → drop n bytes ≡ rest → drop (n + k) bytes ≡ drop k rest
drop_more zero k bytes rest e = let same : 0 + k ≡ k = omega arith in rw (same, e) refl
drop_more (suc n) k [] rest e =
    let next : suc n + k ≡ suc (n + k) = omega arith in rw (next, sym e) (sym (drop_none k))
drop_more (suc n) k (x ∷ xs) rest e =
    let next : suc n + k ≡ suc (n + k) = omega arith in rw next (drop_more n k xs rest e)

-- A string as the configuration tool writes it: its length, then its bytes.
abbrev pub pascal : List ℕ → List ℕ
pascal s = length s ∷ s

-- What stands at an offset as a string of less than 255 bytes that fits the buffer is extracted, and what
-- stands behind it is next.
extract_string-pascal :
    (bytes : List ℕ) (offset bufsize : ℕ) (s rest : List ℕ)
    → drop offset bytes ≡ length s ∷ (s ++ rest)
    → length s < bufsize
    → length s < 255
    → (extract_string bytes offset bufsize ≡ some (offset + 1 + length s, s))
      × (drop (offset + 1 + length s) bytes ≡ rest)
unfolding extract_string
extract_string-pascal bytes offset bufsize s rest e fits short = (
  rw (at.0, inside, used, enough, in_buffer, string) refl,
  drop_more (offset + 1) (length s) bytes (s ++ rest) at.1 ∙ drop-append (length s) s rest refl,
)
  where
    at :
        (get_or bytes offset 0 ≡ length s)
        × (drop (offset + 1) bytes ≡ s ++ rest)
        × (length bytes ≡ offset + 1 + length (s ++ rest))
    at = split_at bytes offset (length s) (s ++ rest) e

    room : length bytes ≡ offset + 1 + (length s + length rest)
    room = at.2 ∙ ap (λ n. offset + 1 + n) (length-append s rest)

    inside : leb (length bytes) offset ≡ false
    inside = ground (arith, room)

    used : (length s == 255) ≡ false
    used = ground arith

    enough : ltb (length bytes) (offset + 1 + length s) ≡ false
    enough = ground (arith, room)

    in_buffer : leb bufsize (length s) ≡ false
    in_buffer = ground arith

    string : take (length s) (drop (offset + 1) bytes) ≡ s
    string = ap (take (length s)) at.1 ∙ take-append (length s) s rest refl

-- On bytes, the loop over the custom strings never fails.
custom_strings_lem :
    (left : ℕ) (bytes : List ℕ) (offset : ℕ)
    → AllBytes bytes
    → custom_strings left bytes offset ≡ true
unfolding custom_strings
custom_strings_lem zero bytes offset h = refl
custom_strings_lem (suc left) bytes offset h =
    let custom_len = get_or bytes offset 0 in
    ground (
      arith,
      get_or-lt bytes offset h,
      custom_strings_lem left bytes (offset + 1) h,
      custom_strings_lem left bytes (offset + 1 + custom_len) h,
    )

-- The memory of a configuration: the header with a version, the three strings, and whatever follows.
abbrev pub image : UsbConfig → ℕ → List ℕ → List ℕ
image c version custom =
    72
    ∷ 79
    ∷ 80
    ∷ 33
    ∷ (c.usb_vid / 256)
    ∷ (c.usb_vid % 256)
    ∷ (c.usb_pid / 256)
    ∷ (c.usb_pid % 256)
    ∷ (version / 256)
    ∷ (version % 256)
    ∷ c.configured_logging_level
    ∷ length c.usb_serial
    ∷ (c.usb_serial
        ++ (length c.usb_product
            ∷ (c.usb_product ++ (length c.usb_manufacturer ∷ (c.usb_manufacturer ++ custom)))))

-- The strings fit their variables, with the terminator.
abbrev pub IsStorable : UsbConfig → Type 0
IsStorable c =
    (length c.usb_serial < 16) × (length c.usb_product < 16) × (length c.usb_manufacturer < 32)

-- A configuration whose strings fit, written as bytes with any version and any bytes behind it, is parsed
-- without an error into exactly that configuration, whatever the variables held before.
pub parse_eeprom_data-image :
    (c old : UsbConfig) (version : ℕ) (custom : List ℕ)
    → IsStorable c
    → AllBytes (image c version custom)
    → parse_eeprom_data (image c version custom) old ≡ (true, c)
unfolding parse_eeprom_data is_magic or_return
parse_eeprom_data-image c old version custom fits bytes =
    rw
      (
        long,
        serial.0,
        product.0,
        manufacturer,
        custom_strings_lem (length (image c version custom)) (image c version custom)
            (11
              + 1
              + length c.usb_serial
              + 1
              + length c.usb_product
              + 1
              + length c.usb_manufacturer)
            bytes,
        word c.usb_vid,
        word c.usb_pid,
      )
      refl
  where
    word : (v : ℕ) → v / 256 * 256 + v % 256 ≡ v
    word v = omega arith

    long : ltb (length (image c version custom)) 11 ≡ false
    long = ground arith

    behind_product : List ℕ
    behind_product = length c.usb_manufacturer ∷ (c.usb_manufacturer ++ custom)

    behind_serial : List ℕ
    behind_serial = length c.usb_product ∷ (c.usb_product ++ behind_product)

    serial :
        (extract_string (image c version custom) 11 16
          ≡ some (11 + 1 + length c.usb_serial, c.usb_serial))
        × (drop (11 + 1 + length c.usb_serial) (image c version custom) ≡ behind_serial)
    serial =
        extract_string-pascal (image c version custom) 11 16 c.usb_serial behind_serial refl fits.0
          (omega (arith, fits.0))

    product :
        (extract_string (image c version custom) (11 + 1 + length c.usb_serial) 16
          ≡ some (11 + 1 + length c.usb_serial + 1 + length c.usb_product, c.usb_product))
        × (drop (11 + 1 + length c.usb_serial + 1 + length c.usb_product) (image c version custom)
            ≡ behind_product)
    product =
        extract_string-pascal (image c version custom) (11 + 1 + length c.usb_serial) 16
          c.usb_product behind_product serial.1 fits.1 (omega (arith, fits.1))

    manufacturer :
        extract_string
          (image c version custom)
          (11 + 1 + length c.usb_serial + 1 + length c.usb_product)
          32
        ≡ some (
          11 + 1 + length c.usb_serial + 1 + length c.usb_product + 1 + length c.usb_manufacturer,
          c.usb_manufacturer,
        )
    manufacturer =
        (extract_string-pascal (image c version custom)
          (11 + 1 + length c.usb_serial + 1 + length c.usb_product) 32 c.usb_manufacturer custom
          product.1 fits.2 (omega (arith, fits.2))).0
