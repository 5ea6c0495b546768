-- ===== src/Dynamixel/Driver/Interface.antt =====
-- The bus driver as the servo library sees it: the operations of `Hal`, filled by those of
-- firmware/src/dynamixel/dynamixel_hal.c.
use creature_controller.Common.{ℕ, Bool, replicate, take}
use creature_controller.Dynamixel.Bus.{Hal}
use creature_controller.Dynamixel.Driver.{Hardware, Driver, max_multi_responses}
use creature_controller.Dynamixel.Driver.Answers.{blank}
use creature_controller.Dynamixel.Driver.Transfer.{bus_lock, bus_unlock, dxl_hal_tx, dxl_hal_txrx}
use creature_controller.Dynamixel.Driver.Multi.{dxl_hal_txrx_multi}

-- `vTaskDelay` and `motor_power_rail_present` come from outside the driver.
unfoldable pub driver_hal : {S : Type 0} → Hardware S → (S → ℕ → S) → (S → Bool) → Hal (Driver S)
driver_hal hw delay rail_present = record {
  txrx = λ d p ms. dxl_hal_txrx hw p blank d;
  tx = λ d p. dxl_hal_tx hw p d;
  txrx_multi = λ d p len n ms.
      let (answers, d') = dxl_hal_txrx_multi hw p len n (replicate max_multi_responses blank) d in
      (answers.result, take answers.received_count answers.rx_pkts, d');
  bus_lock = λ d. bus_lock hw d;
  bus_unlock = λ d. bus_unlock hw d;
  baud_rate = λ d. d.baud_rate;
  delay = λ d ms. record d { env = delay d.env ms };
  rail_present = λ d. rail_present d.env;
}
