-- ===== src/TriggerVector.antt =====
-- components/sync_trigger/inc/trigger_vector.h: the state and the events of the trigger.
pub mod Events
pub mod Fields
pub mod Codes
pub use Events.*
pub use Fields.*
