-- ===== src/Dynamixel/Driver/Transfer/Answered.antt =====
-- A whole transaction with a servo that answers, `dxl_hal_txrx` of
-- firmware/src/dynamixel/dynamixel_hal.c.
use creature_controller.Common.{◌+◌}
use creature_controller.Dynamixel.Packet.{DxlResult, Packet, dxl_build_packet}
use creature_controller.Dynamixel.Driver.{Hardware, Driver, max_packet_size}
use creature_controller.Dynamixel.Driver.Transfer.{flush_rx, transmit}

module _ {S : Type 0} (hw : Hardware S) where
  -- The request is built, and put onto the line.
  unfoldable pub send_request : Packet → Driver S → DxlResult × Driver S
  send_request p d =
      transmit hw (dxl_build_packet p max_packet_size).1
        (flush_rx hw (record d { last_servo_error = 0 }))

  -- The driver when it has taken the bus lock.
  abbrev pub locked : Driver S → Driver S
  locked d = record d { env = (hw.take_mutex d.env).1; held = d.held + 1 }

  -- The hardware when the driver begins to listen: the request is sent, and the DMA channel started.
  abbrev pub listening : Packet → Driver S → S
  listening p d = hw.dma_start (send_request p (locked d)).1.env max_packet_size
