-- ===== src/Ps2.antt =====
-- lib/hid-8042: the commands and answers of PS/2 devices and of their controller.
pub mod Keyboard
pub mod Controller
pub mod Device
