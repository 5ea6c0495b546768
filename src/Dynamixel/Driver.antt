-- ===== src/Dynamixel/Driver.antt =====
-- The driver of the bus, firmware/src/dynamixel/dynamixel_hal.c: a half-duplex line on one pin, driven by
-- two PIO state machines and read by a DMA channel. What the registers, the DMA channel, the clock and
-- FreeRTOS do is a parameter; what the driver has switched is its own state.
pub mod Scan
pub mod Idle
pub mod Transfer
pub mod Answers
pub mod Multi
pub mod Init
pub mod Interface
mod Tests
use creature_controller.Common.{
  ℕ, zero, suc, ◌+◌, ◌*◌, ◌/◌, Bool, true, false, not, List, [], ◌∷◌, if◌then◌else◌, ltb, ◌==◌,
}
use creature_controller.Dynamixel.Packet.{
  DxlResult, dxl_ok, timeout, servo_error, crc_mismatch, Packet,
}

-- `DXL_MAX_PACKET_SIZE`, `DXL_MAX_MULTI_RESPONSES` and `DXL_MULTI_RX_BUF_SIZE`.
abbrev pub max_packet_size : ℕ
max_packet_size = 256

abbrev pub max_multi_responses : ℕ
max_multi_responses = 16

abbrev pub multi_rx_buf_size : ℕ
multi_rx_buf_size = max_packet_size * max_multi_responses

-- What the driver calls of the Pico SDK and of FreeRTOS, over everything outside it.
pub record Hardware (S : Type 0) : Type 0 where
  -- How often the loop that begins here gets round before its deadline.
  pub turns : S → ℕ
  -- `pio_sm_is_tx_fifo_full` and `pio_sm_is_tx_fifo_empty`, with the time until the next look.
  pub tx_full : S → Bool × S
  pub tx_empty : S → Bool × S
  -- `pio_sm_put` of a byte.
  pub put : S → ℕ → S
  -- `busy_wait_us_32`.
  pub busy_wait : S → ℕ → S
  -- `pio_sm_is_rx_fifo_empty` and `pio_sm_get`.
  pub rx_empty : S → Bool
  pub rx_get : S → S
  -- `dma_channel_configure` for so many bytes, and `dma_channel_abort`.
  pub dma_start : S → ℕ → S
  pub dma_abort : S → S
  -- The bytes that the channel has written since it was started; its transfer count is what is left.
  pub received : S → List ℕ
  -- `xSemaphoreTakeRecursive` and `xSemaphoreGiveRecursive` of the bus mutex.
  pub take_mutex : S → Bool × S
  pub give_mutex : S → S
  -- `alarm_pool_add_alarm_in_us`, whether it has found a slot, and `alarm_pool_cancel_alarm`.
  pub add_alarm : S → ℕ → Bool × S
  pub cancel_alarm : S → S
  -- The time from one alarm to the next, and `vTaskDelay(1)`.
  pub alarm_gap : S → S
  pub delay_tick : S → S

-- `dxl_metrics_t`; the counters have 64 bits.
pub record Metrics : Type 0 where
  pub tx_packets : ℕ
  pub rx_packets : ℕ
  pub servo_errors : ℕ
  pub crc_errors : ℕ
  pub timeouts : ℕ
  pub rx_noise_bytes : ℕ

-- `struct dxl_hal_context`: the baud rate, what is switched on, how often this task holds the bus lock,
-- the bytes put onto the line (the latest first), `last_servo_error`, and the metrics.
pub record Driver (S : Type 0) : Type 0 where
  pub env : S
  pub baud_rate : ℕ
  pub tx_enabled : Bool
  pub tx_drives : Bool
  pub rx_enabled : Bool
  pub held : ℕ
  pub line : List ℕ
  pub last_servo_error : ℕ
  pub metrics : Metrics

-- A parse result is counted, of an answer that begins with so many bytes of noise.
unfoldable pub count_noise : ℕ → Metrics → Metrics
count_noise noise m =
    if ltb 0 noise then record m { rx_noise_bytes = m.rx_noise_bytes + noise } else m

unfoldable pub count_result : DxlResult → Metrics → Metrics
count_result dxl_ok m = record m { rx_packets = m.rx_packets + 1 }
count_result servo_error m = record m {
  rx_packets = m.rx_packets + 1;
  servo_errors = m.servo_errors + 1;
}
count_result crc_mismatch m = record m { crc_errors = m.crc_errors + 1 }
count_result _ m = m

unfoldable pub count_timeout : Metrics → Metrics
count_timeout m = record m { timeouts = m.timeouts + 1 }

unfoldable pub count_sent : Metrics → Metrics
count_sent m = record m { tx_packets = m.tx_packets + 1 }
