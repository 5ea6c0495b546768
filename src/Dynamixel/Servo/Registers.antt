-- ===== src/Dynamixel/Servo/Registers.antt =====
-- Constants of firmware/src/dynamixel/dynamixel_registers.h and dynamixel_servo.h.
use creature_controller.Common.{ℕ}

abbrev pub broadcast_id : ℕ
broadcast_id = 0xfe

abbrev pub max_id : ℕ
max_id = 0xfd

abbrev pub inst_ping : ℕ
inst_ping = 0x01

abbrev pub inst_read : ℕ
inst_read = 0x02

abbrev pub inst_write : ℕ
inst_write = 0x03

abbrev pub inst_factory_reset : ℕ
inst_factory_reset = 0x06

abbrev pub inst_reboot : ℕ
inst_reboot = 0x08

abbrev pub inst_sync_read : ℕ
inst_sync_read = 0x82

abbrev pub inst_sync_write : ℕ
inst_sync_write = 0x83

abbrev pub reg_id : ℕ
reg_id = 7

abbrev pub reg_baud_rate : ℕ
reg_baud_rate = 8

abbrev pub reg_torque_enable : ℕ
reg_torque_enable = 64

abbrev pub reg_led : ℕ
reg_led = 65

abbrev pub reg_hardware_error : ℕ
reg_hardware_error = 70

abbrev pub reg_profile_velocity : ℕ
reg_profile_velocity = 112

abbrev pub reg_goal_position : ℕ
reg_goal_position = 116

abbrev pub reg_moving : ℕ
reg_moving = 122

abbrev pub reg_present_load : ℕ
reg_present_load = 126

abbrev pub reg_present_position : ℕ
reg_present_position = 132

abbrev pub reg_present_input_volt : ℕ
reg_present_input_volt = 144

abbrev pub reg_present_temperature : ℕ
reg_present_temperature = 146

abbrev pub position_max : ℕ
position_max = 4095

abbrev pub default_timeout_ms : ℕ
default_timeout_ms = 100

abbrev pub scan_timeout_ms : ℕ
scan_timeout_ms = 10

abbrev pub max_sync_servos : ℕ
max_sync_servos = 16
