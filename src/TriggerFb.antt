-- ===== src/TriggerFb.antt =====
-- components/sync_trigger/src/trigger_fb.c: the state machine of the trigger.
pub mod Settings
pub mod World
pub mod Commands
pub mod Configure
pub mod Handlers
pub mod Rows
pub mod Table
pub mod Dispatch
pub mod Shares
pub mod Arbitration
pub mod Mild
pub mod Ownership
pub mod Arming
pub mod Init
pub mod Safety
pub mod Edges
pub mod Landing
pub mod Machine
pub mod Frozen
mod Tests
