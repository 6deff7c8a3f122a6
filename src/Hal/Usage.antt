-- ===== src/Hal/Usage.antt =====
-- `GRALLOC_USAGE_*` of hardware/gralloc.h.
use gralloc_gbm.Base.{ℕ}

abbrev pub sw_read_rarely : ℕ
sw_read_rarely = 0x2

abbrev pub sw_read_often : ℕ
sw_read_often = 0x3

abbrev pub sw_read_mask : ℕ
sw_read_mask = 0xf

abbrev pub sw_write_rarely : ℕ
sw_write_rarely = 0x20

abbrev pub sw_write_often : ℕ
sw_write_often = 0x30

abbrev pub sw_write_mask : ℕ
sw_write_mask = 0xf0

abbrev pub hw_texture : ℕ
hw_texture = 0x100

abbrev pub hw_render : ℕ
hw_render = 0x200

abbrev pub hw_2d : ℕ
hw_2d = 0x400

abbrev pub hw_composer : ℕ
hw_composer = 0x800

abbrev pub hw_fb : ℕ
hw_fb = 0x1000

abbrev pub external_disp : ℕ
external_disp = 0x2000

abbrev pub protected : ℕ
protected = 0x4000

abbrev pub cursor : ℕ
cursor = 0x8000
