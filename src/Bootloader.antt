-- ===== src/Bootloader.antt =====
-- bootloader/src/bootloader_main.c: what runs at reset, applies a pending update and jumps to an
-- application. The metadata that the C code changes through a pointer and the flash go together as
-- `Boot`. Only `bootloader_active_app_is_valid` is ever given a null pointer.
pub mod Images
pub mod Copy
pub mod Direct
pub mod Main
pub mod Spares
pub mod Steps
pub mod Frame
pub mod Copied
pub mod Jump
mod Tests
