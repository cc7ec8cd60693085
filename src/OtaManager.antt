-- ===== src/OtaManager.antt =====
-- components/ota_manager/src/ota_fb.c, ota_ao.c and the session functions of
-- middleware/portable_ota_port/src/portable_ota_core_port.c: the update manager, which takes one
-- event from the bus at a time and drives the portable_ota library's session. The library's session
-- functions are the record `Session`.
pub mod Vector
pub mod Port
pub mod Fb
pub mod Ao
pub mod Lock
pub mod Gate
pub mod Reboot
pub mod Drain
mod Tests
