-- ===== src/Dynamixel/Bus.antt =====
-- What the servo library uses of the bus driver, firmware/src/dynamixel/dynamixel_hal.c, and of the
-- tasks beside it: a parameter. `S` is everything that lies outside, the servos and the power rail
-- among it, and every operation may change it.
use creature_controller.Common.{ℕ, Bool, List}
use creature_controller.Dynamixel.Packet.{DxlResult, Packet}

pub record Hal (S : Type 0) : Type 0 where
  -- `dxl_hal_txrx`: sends a packet, and waits so many milliseconds for the answer.
  pub txrx : S → Packet → ℕ → DxlResult × Packet × S
  -- `dxl_hal_tx`: sends a packet.
  pub tx : S → Packet → DxlResult × S
  -- `dxl_hal_txrx_multi`: sends a packet, and waits for that many answers of that many parameters.
  pub txrx_multi : S → Packet → ℕ → ℕ → ℕ → DxlResult × List Packet × S
  -- `dxl_hal_bus_lock` and `dxl_hal_bus_unlock`.
  pub bus_lock : S → Bool × S
  pub bus_unlock : S → S
  -- `dxl_hal_get_baud_rate`.
  pub baud_rate : S → ℕ
  -- `vTaskDelay`, in milliseconds: meanwhile other tasks run.
  pub delay : S → ℕ → S
  -- `motor_power_rail_present`, which the sensor task writes.
  pub rail_present : S → Bool

-- The outside, with the packets sent so far, the latest first.
pub record Bus (S : Type 0) : Type 0 where
  pub env : S
  pub sent : List Packet
