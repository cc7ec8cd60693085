-- ===== src/BissProtocol.antt =====
-- components/sync_trigger/src/biss_protocol.c: BiSS-C frames as words of up to 64 bits, their
-- fields, CRC, status bits, and when an encoder has passed a target position.
-- A profile pointer is an `Option`, `none` for NULL. An enum of the source that is cast from an
-- integer before it is checked is a number here.
pub mod Types
pub mod Fields
pub mod Crc
pub mod Crossing
pub mod Extract
pub mod Validate
pub mod Crc6
pub mod CrcRound
pub mod CrcErrors
mod Tests
