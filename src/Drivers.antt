-- ===== src/Drivers.antt =====
-- drivers/: the terminal, its line discipline and the keyboard.
pub mod Keys
pub mod Line
pub mod Keyboard
pub mod Vesa
pub mod Bmp
