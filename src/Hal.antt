-- ===== src/Hal.antt =====
-- Constants of Android's system/graphics.h and hardware/gralloc.h, at their documented values: the
-- program compares with them, and they are part of the platform's binary interface.
pub mod Pixel
pub mod Usage
