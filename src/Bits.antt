-- ===== src/Bits.antt =====
-- Bit sets in machine words: the digits of a number, and the laws of the masks that the firmware
-- builds from them.
mod Digits
mod Masks
unfoldable pub use Digits.*
pub use Masks.*
