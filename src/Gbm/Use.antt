-- ===== src/Gbm/Use.antt =====
-- `enum gbm_bo_flags` and `enum gbm_bo_transfer_flags` of include/gbm.h, and `GBM_BO_USE_NONE` of
-- include/gralloc_gbm_bo_ext.h.
use gralloc_gbm.Base.{ℕ, ◌^◌}

abbrev pub unused : ℕ
unused = 0

abbrev pub scanout : ℕ
scanout = 2 ^ 0

abbrev pub cursor : ℕ
cursor = 2 ^ 1

abbrev pub rendering : ℕ
rendering = 2 ^ 2

abbrev pub write : ℕ
write = 2 ^ 3

abbrev pub linear : ℕ
linear = 2 ^ 4

abbrev pub protected : ℕ
protected = 2 ^ 5

abbrev pub transfer_read : ℕ
transfer_read = 2 ^ 0

abbrev pub transfer_write : ℕ
transfer_write = 2 ^ 1
