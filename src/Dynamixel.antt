-- ===== src/Dynamixel.antt =====
-- The Dynamixel servo library, firmware/src/dynamixel: the CRC, the byte stuffing and the packets
-- of Protocol 2.0.
pub mod Crc
pub mod Stuffing
pub mod Packet
pub mod Bus
pub mod Driver
pub mod Servo
pub mod Sync
mod Tests
