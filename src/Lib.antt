-- ===== src/Lib.antt =====
-- HDRT100: the firmware of a trigger instrument on an RP2350. This library models the part that
-- decides who may use the hardware and when a trigger fires, and proves what makes it correct.
--
-- The parts and how they interact:
-- - ResourceArbiter (components/resource_arbiter/src/resource_arbiter.c) keeps who uses which shared
--   resource. Each function of the source is a function on `Context`, the static
--   `s_resource_arbiter`, of the same name without `resource_arbiter_`. A critical section makes it
--   one step. Loops, Invariant, Calls, Ownership, Cycle and Sharing hold its theorems.
-- - BissProtocol (components/sync_trigger/src/biss_protocol.c) takes BiSS-C frames apart: Types has
--   the profile and its check, Fields the fields, Crc the two CRC routines. A frame is a 64-bit
--   number, a NULL profile `none`. CrcRound and CrcErrors are about one round of the CRC and about
--   the errors that it detects.
-- - TriggerVector (components/sync_trigger/inc/trigger_vector.h) has the states, events and fields of
--   the trigger. The fields stand in groups (`io`, `seq`, `enc`, `biss`, `run`); the names are those
--   of the source.
-- - SyncIo: Modes has the mode table of components/sync_io/src/sync_io_mode.c and
--   components/sync_trigger/src/trigger_resource_map.c, Clock the sync clock of
--   components/sync_io/src/sync_io.c, and Hardware the interface to the drivers.
-- - BissNodeIo (components/sync_trigger/src/biss_node_io.c) puts frames together from the words of the
--   PIO, checks them and fires a pulse when the position crosses the target. Quiet,
--   Fires and Hits are about what it changes, Words about frames that come as two words.
-- - TriggerFb (components/sync_trigger/src/trigger_fb.c) is the state machine of the trigger. Each
--   handler is a function of its name without `fb_`. A handler works on a `World`: the vector, the
--   arbiter, the clock, the node and the hardware. World has what the handlers share, Settings and
--   Commands `fb_instant_cmd`, Configure the handlers that only write the vector, Handlers those that
--   use the hardware or the arbiter, Rows the rows of `s_ecc_table`, Table `trigger_fb_execute`, and
--   Init `trigger_fb_init`. Dispatch is about the search of the table. Shares, Arbitration, Mild,
--   Ownership, Arming and Safety are about who holds what; Edges, Landing and Machine about the state
--   machine; Frozen about the settings of an armed mode. The trigger calls the arbiter for every mode
--   that it arms, and takes what Sharing says of the calls of one owner among several.
-- - Flash (drivers/mcu/flash/src/drv_flash.c) reads, erases and programs the flash, a function from
--   offsets to bytes. The SDK's writes and the answers of the second core are the record `Port`.
--   Writes says what a successful write leaves, Frame what a write leaves alone.
-- - OtaMetadata (components/ota_manager/src/ota_metadata.c, inc/ota_metadata.h, inc/ota_partition.h)
--   keeps two copies of the update metadata: Partition has the slots, Metadata the record and the
--   portable_ota library as the record `Pota`, Layout the fields in their order with their bytes, Copies the load and the store, Updates the functions
--   that change the metadata. Frame and StoreLoad are its theorems, TestData a concrete library.
-- - Bootloader (bootloader/src/bootloader_main.c) works on a `Boot`, the flash with the metadata
--   that the source passes by pointer: Images checks slots, Copy moves the staged image, Direct takes
--   over a slot in place or goes back, Main is `main`. Spares, Steps and Frame are about what it
--   never writes, Copied about the copy, Jump about where it jumps.
-- - EventBus (components/event_bus/src/event_bus.c) is the ring of update events, with its slots as a
--   store that data pointers lead into. Fifo is the queue that it implements; Invariant, Refine and
--   Lifetime are its theorems.
-- - OtaManager: Vector (components/ota_manager/inc/ota_vector.h), Port
--   (middleware/portable_ota_port/src/portable_ota_core_port.c: the library's session as the record
--   `Session`, and the flash operations it is given, which take the flash from the arbiter), Fb
--   (ota_fb.c, each handler by its name without `ota_fb_`) and Ao (ota_ao.c, which takes events from
--   the bus). Lock, Gate, Reboot and Drain are its theorems.
-- - ProductConfig (components/product_config/src/product_config.c) keeps the USB mode in the flash;
--   Saved is about what a start finds, Names about the names of the modes.
-- - DistributedRefmem (components/distributed_refmem/src/distributed_refmem.c) is the table that the
--   nodes share: its header, its directory and the heads of its node slots. Layout and Published are
--   about what readers find, Checksum about the checksum of the header.
-- - Prelude and Bits are the shared helpers: Boolean tests, arrays, and numbers as rows of digits.
--
-- The Tests modules apply the theorems at concrete states, frames and events.
--
-- Numbers are natural numbers; a wrap-around of the source is written out (`% 2 ^ 32`). All loops of
-- the source have a bound (32 resources, the bits of a value, the rows of the table, the words that
-- the FIFO holds) and are recursion on it, so no fuel is needed, but for the copy of the bootloader:
-- each round of it copies a byte at least, and it gets the size of the image and one as fuel. The
-- metadata, 192 bytes, are one page, and their program loop goes round once.
--
-- Not modelled: the PIO and DMA drivers of components/sync_io, which program registers (every theorem
-- about the trigger is about all drivers of the interface `Hardware`, whose operations touch neither
-- the vector nor the arbiter); trace output; the guards against NULL that no caller meets; the
-- portable_ota library and the layout of records in memory, which are parameters; the fault injection
-- of the bootloader, which a build option turns on; the other components (storage, user interface,
-- SCPI commands, distributed configuration); third-party code.
pub mod Prelude
pub mod Bits
pub mod ResourceArbiter
pub mod BissProtocol
pub mod TriggerVector
pub mod SyncIo
pub mod BissNodeIo
pub mod TriggerFb
pub mod Flash
pub mod OtaMetadata
pub mod Bootloader
pub mod EventBus
pub mod OtaManager
pub mod ProductConfig
pub mod DistributedRefmem
