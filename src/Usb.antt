-- ===== src/Usb.antt =====
-- The USB serial line: firmware/src/io/usb_serial.c, which cuts the bytes of the host into lines,
-- firmware/src/io/usb_workers.c, which hands the lines on, and the task of firmware/src/usb/usb.c, which
-- sends the messages of the board.
pub mod Receiver
pub mod Device
mod Tests
