-- ===== src/Controller.antt =====
-- The controller of the firmware, firmware/src/controller/controller.c, as it is built for hardware
-- version 4 (CC_VER3 and CC_VER4 defined): the PWM motors and their power, the life cycle, and the
-- Dynamixel servos.
pub mod Motors
pub mod Power
pub mod Isr
pub mod Servos
pub mod Lifecycle
pub mod Telemetry
pub mod Task
mod Tests
