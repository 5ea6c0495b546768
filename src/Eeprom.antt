-- ===== src/Eeprom.antt =====
-- The EEPROM of the board: firmware/src/device/eeprom.c, which reads the USB configuration and keeps the
-- odometer, and firmware/src/device/eeprom_hours.c, the records of the odometer.
pub mod Record
pub mod Slots
pub mod Memory
pub mod Odometer
pub mod Config
mod Tests
