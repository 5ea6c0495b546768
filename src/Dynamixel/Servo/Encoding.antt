-- ===== src/Dynamixel/Servo/Encoding.antt =====
-- Register values on the wire.
use creature_controller.Common.{
  ℕ, zero, suc, ◌/◌, ◌^◌, ◌≤◌, ◌<◌, ◌≡◌, refl, ap, sym, List, ◌++◌, arith, length, take,
  take-append, AllBytes,
}
use native.Mathlib.Nat.{pow-suc}
use creature_controller.Dynamixel.Packet.{dxl_ok}
use creature_controller.Dynamixel.Bus.{Hal, Bus}
use creature_controller.Dynamixel.Servo.{
  value_bytes, bytes_value, read_packet, transact, dxl_read_register,
}
use creature_controller.Dynamixel.Servo.Registers.{default_timeout_ms}

pub length-value_bytes : (n v : ℕ) → length (value_bytes n v) ≡ n
unfolding value_bytes
length-value_bytes zero v = refl
length-value_bytes (suc n) v = ap suc (length-value_bytes n (v / 256))

pub value_bytes-AllBytes : (n v : ℕ) → AllBytes (value_bytes n v)
unfolding value_bytes
value_bytes-AllBytes zero v = tt
value_bytes-AllBytes (suc n) v = (omega arith, value_bytes-AllBytes n (v / 256))

-- The bytes of a value of n bytes stand for that value.
pub bytes_value-value_bytes : (n v : ℕ) → v < 256 ^ n → bytes_value (value_bytes n v) ≡ v
unfolding bytes_value value_bytes
bytes_value-value_bytes zero v h = omega arith
bytes_value-value_bytes (suc n) v h =
    omega (arith, bytes_value-value_bytes n (v / 256) (omega (arith, pow-suc 256 n)))

module _ {S : Type 0} (hal : Hal S) where
  -- For a length of at most 4 bytes, which fit the 32 bits of the result: if a servo answers a read with
  -- DXL_OK and with the bytes of a value of that length, perhaps with more behind them, then `dxl_read_register` returns DXL_OK and that value.
  pub dxl_read_register_lem :
      (b : Bus S) (id address len old v : ℕ) (more : List ℕ)
      → len ≤ 4
      → v < 256 ^ len
      → let (res, rx, env) = hal.txrx b.env (read_packet id address len) default_timeout_ms in
        res ≡ dxl_ok
        → rx.params ≡ value_bytes len v ++ more
        → ((dxl_read_register hal b id address len old).0 ≡ dxl_ok)
          × ((dxl_read_register hal b id address len old).1 ≡ v)
  unfolding dxl_read_register transact
  dxl_read_register_lem b id address len old v more short fits ok params = (
    ground (arith, ok),
    ground (
      arith,
      ok,
      ap (take len) params,
      take-append len (value_bytes len v) more (sym (length-value_bytes len v)),
      bytes_value-value_bytes len v fits,
    ),
  )
