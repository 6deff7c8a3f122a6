-- ===== src/Mapper.antt =====
-- The mapper's backends (mapper_stablec/backend/).
pub mod DmaBuf
pub mod Tracked
pub mod Front
pub mod Imported
pub mod Gbm
pub mod Blobs
pub mod Standard
pub mod Metadata
pub mod Settings
pub mod Singletons
pub mod Life
