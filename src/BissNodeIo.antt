-- ===== src/BissNodeIo.antt =====
-- components/sync_trigger/src/biss_node_io.c: the node that turns BiSS frames into trigger pulses.
-- The static `s_biss_node_io` is a `Node`. The callers pass the address of the trigger vector, which
-- is never NULL, so the guards against NULL are left out.
pub mod State
pub mod Position
pub mod Receive
pub mod Quiet
pub mod Fires
pub mod Hits
pub mod Words
