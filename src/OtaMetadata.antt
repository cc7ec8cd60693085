-- ===== src/OtaMetadata.antt =====
-- components/ota_manager/src/ota_metadata.c and inc/ota_partition.h: the two copies of the update
-- metadata in the flash. The `pota_metadata_*` functions, which
-- middleware/portable_ota_port/src/portable_ota_metadata_port.c passes on, are a library's: they are
-- the record `Pota`.
pub mod Partition
pub mod Metadata
pub mod Layout
pub mod Copies
pub mod Updates
pub mod Frame
pub mod StoreLoad
pub mod TestData
mod Tests
