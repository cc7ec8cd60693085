-- ===== src/SyncIo.antt =====
-- components/sync_io and components/sync_trigger/src/trigger_resource_map.c: the mode table, the
-- resources of the modes, and the sync clock.
pub mod Modes
pub mod Hardware
pub mod Clock
