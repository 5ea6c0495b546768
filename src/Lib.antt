-- ===== src/Lib.antt =====
-- The firmware of creature-controller (firmware/src): an RP2350 board that moves the servos of an
-- animatronic creature as a host computer tells it over a serial line. Modelled is a board of
-- hardware version 4, with CC_VER3 and CC_VER4 defined.
--
-- The parts, and the modules that model them:
--
-- Dynamixel: the packets of Dynamixel protocol 2.0 and the servo library.
-- Crc, Stuffing and Packet are firmware/src/dynamixel/dynamixel_protocol.c: `dxl_crc16`, the byte
-- stuffing, `dxl_build_packet` and `dxl_parse_packet`. Servo and Sync are dynamixel_servo.c: registers,
-- EEPROM writes behind the torque check, Sync Write and Sync Read. Bus is what these use of
-- dynamixel_hal.c, a record of functions over an arbitrary state that every theorem takes as a
-- parameter; a bus keeps the list of the packets sent. Driver is dynamixel_hal.c itself: Scan is
-- `find_packet_header`, Transfer are `dxl_hal_tx` and `dxl_hal_txrx`, Multi and Answers are
-- `dxl_hal_txrx_multi`, Idle is the alarm that finds the line idle, Init is `dxl_hal_init`, and Interface
-- fills the record of Bus with the driver.
-- Controller: firmware/src/controller/controller.c.
-- Motors is the map of the eight PWM motors with its limits; Power is
-- firmware/src/device/power_control.c; Isr is the PWM wrap interrupt with
-- firmware/src/watchdog/watchdog.c; Servos is the map of the Dynamixel servos, whose settings are
-- written, read back and compared before torque is allowed; Lifecycle is the state machine, the first
-- frame, the power rail and the outgoing queue; Telemetry is the sensor report; Task is a pass of
-- `dynamixel_controller_task`.
-- Messaging: firmware/src/messaging, firmware/src/util/string_utils.c and
-- firmware/src/io/message_processor.c. Text is what these use of the C library, with `stringToU16`;
-- Parser is `parseMessage`; Handlers are the four message processors; Processor is `processMessage`
-- and the task that calls it; Outgoing is the task that hands the messages of the board to the USB task.
-- Eeprom: firmware/src/device/eeprom_hours.c and firmware/src/device/eeprom.c.
-- Record and Slots are the records of the odometer and the choice of the newest; Memory is reading and
-- writing in pages; Odometer is the counting, persisting and restoring of hours; Config is the parser of
-- the USB configuration. The odometer is modelled as it is compiled with USE_POWER_HOURS 1. config.h sets
-- it to 0, since on the present CC_VER3 boards the write-protect pin is tied high: there the chip ignores
-- every write, which is the case of a chip that is not `writable`.
-- Usb: firmware/src/io/usb_serial.c, firmware/src/io/usb_workers.c and firmware/src/usb/usb.c. Receiver cuts
-- the bytes of the host into lines and hands them on; Device is the task that sends the messages.
-- System: all of the board but the EEPROM and the USB line, as one state that the tasks, the PWM
-- interrupt, the timers and the outside change in any order, one operation at a time (`Step`, and its
-- closure `Reach`).
--
-- How they interact: the message task parses a text and calls a handler, which changes the motor maps,
-- the flags and the requests of the board; the interrupt reads the PWM map; the Dynamixel task serves the
-- requests and talks to the servos. The two maps are updated under mutexes, so an operation on a map is
-- one step here. A step of System is a whole operation: a message handled, a pass of the Dynamixel task, an
-- interrupt, a timer. In the code these can overlap, since the tasks have different priorities and the
-- board runs two cores: a pass makes blocking transactions, and `firmware_configuration_received`,
-- `controller_connected` and `controller_disconnected` write the state and the permission to move one
-- after the other without a lock. What another task does in the middle of an operation is not modelled.
-- Within a pass the flags of other tasks are constant, while the power rail is read from the outside
-- wherever the code reads it. So an ESTOP taken in the middle of a pass, behind the pass's look at the
-- flag, is outside of the model; the pass may then still enable torque, until a later one switches it off.
--
-- Numbers are naturals with the wrap of their C type written out. A string is the list of its bytes in
-- front of the NUL. Most loops are structural recursions over their list, or over the number of rounds left
-- (3 attempts of a write, 28 tokens of a message, 512 reads of a flush), which are bounds of the code
-- itself. A loop of the bus driver that ends at a deadline makes the number of rounds that the clock gives
-- it, `turns` of the hardware, whatever that is. The loop over the answers of several servos and the loops
-- over the EEPROM have the number of bytes as their fuel: every round of them consumes at least one byte.
-- Counters of 64 bits are plain numbers, but for the time of the motors, which wraps. The metrics of the
-- bus driver are plain numbers too.
--
-- Parameters: the bus driver for the servo library and the board; for the driver, the PIO, the DMA,
-- the timers and the lock (`Hardware`); the EEPROM chip over I2C, with what its data sheet says of its
-- 32 KB, its write cycle and its write-protect pin as a hypothesis (`Chip`, `IsChip`); TinyUSB
-- (`Cdc`); the floating-point conversion of microseconds to counter ticks, the text that snprintf
-- makes of one entry of the sensor report, and the comparisons of voltages. Log messages and debug
-- output are left out.
--
-- Not modelled: the status lights and the sensors with their filter, which are floating-point code and
-- register input and output; the UART of older boards, the USB descriptors, logging and start-up, which
-- create tasks and queues; the bench tools, and the host's C++ program.
pub mod Common
pub mod Dynamixel
pub mod Controller
pub mod Messaging
pub mod System
pub mod Eeprom
pub mod Usb
