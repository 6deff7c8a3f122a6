-- ===== src/Gbm.antt =====
-- Constants of include/gbm.h and include/gralloc_gbm_bo_ext.h: formats as four characters, and the
-- `GBM_BO_USE_*` and `GBM_BO_TRANSFER_*` bits.
pub mod Format
pub mod Use
