-- ===== src/DistributedRefmem.antt =====
-- components/distributed_refmem/src/distributed_refmem.c: the table that the nodes share. Its bytes
-- but for the header and the heads of the node slots are zero from `distributed_refmem_init` on, and
-- not modelled. Each function that changes the table does so in one critical section.
pub mod Layout
pub mod Checksum
pub mod Published
mod Tests
use hdrt.Prelude.{
  ℕ, ◌+◌, ◌*◌, ◌/◌, ◌%◌, ◌^◌, Bool, true, ◌&&◌, not, Option, none, some, List, [], ◌∷◌, leb, ◌==◌,
  if◌then◌else◌, bit_or, bit_xor, update,
}

abbrev pub owner_core0 : ℕ
owner_core0 = 0

abbrev pub owner_core1 : ℕ
owner_core1 = 1

abbrev pub owner_shared : ℕ
owner_shared = 2

abbrev pub node_count_max : ℕ
node_count_max = 8

abbrev pub local_node : ℕ
local_node = 0

abbrev pub refmem_table_size : ℕ
refmem_table_size = 65536

-- The sizes of the parts of `distributed_vector_table_t`, in the order of its fields, which is that
-- of the slot numbers.
abbrev pub part_sizes : List ℕ
part_sizes =
    1024
    ∷ 1024
    ∷ 2048
    ∷ 2048
    ∷ 4096
    ∷ 2048
    ∷ 8 * 512
    ∷ 8192
    ∷ 8192
    ∷ 8192
    ∷ 8192
    ∷ 4096
    ∷ 6144
    ∷ 2048
    ∷ 2048
    ∷ 2048
    ∷ []

-- `distributed_refmem_slot_dir_t`
pub record SlotDir : Type 0 where
  pub offset : ℕ
  pub size : ℕ

-- `distributed_refmem_header_slot_t`
pub record Header : Type 0 where
  pub magic : ℕ
  pub end_magic : ℕ
  pub layout_version : ℕ
  pub table_size : ℕ
  pub table_seq : ℕ
  pub local_node_id : ℕ
  pub node_count : ℕ
  pub header_size : ℕ
  pub slot_count : ℕ
  pub header_flags : ℕ
  pub table_owner : ℕ
  pub header_crc32 : ℕ
  pub header_stale : ℕ
  pub core_count : ℕ
  pub core0_vtor_owner : ℕ
  pub core1_vtor_owner : ℕ
  pub core0_irq_owner_mask : ℕ
  pub core1_irq_owner_mask : ℕ
  pub entry_table_owner : ℕ
  pub runtime_protection_flags : ℕ
  pub ram_resident_required : ℕ
  pub flash_lockout_supported : ℕ
  pub flash_lockout_online : ℕ
  pub flash_lockout_requested : ℕ
  pub flash_lockout_acknowledged : ℕ
  pub core1_park_state : ℕ
  pub slots : List SlotDir

-- `distributed_refmem_node_slot_t`
pub record NodeSlot : Type 0 where
  pub node_id : ℕ
  pub node_state : ℕ
  pub heartbeat : ℕ
  pub slot_version : ℕ
  pub last_update_ms : ℕ
  pub stale_count : ℕ
  pub fault_code : ℕ
  pub node_flags : ℕ
  pub node_type : ℕ

-- `distributed_refmem_status_t`
pub record Status : Type 0 where
  pub status_table_size : ℕ
  pub status_layout_version : ℕ
  pub status_table_seq : ℕ
  pub status_local_node_id : ℕ
  pub status_node_count : ℕ
  pub local_heartbeat : ℕ
  pub status_service_count : ℕ
  pub status_flags : ℕ

-- The static variables of the file.
pub record Refmem : Type 0 where
  pub header : Header
  pub nodes : ℕ → NodeSlot
  pub status : Status
  pub service_count : ℕ
  pub refmem_initialized : Bool

-- `drv_flash_lockout_status_t`, and the build's PROJECT_USE_MULTICORE
pub record Lockout : Type 0 where
  pub multicore : Bool
  pub supported : Bool
  pub online : Bool
  pub requested : Bool
  pub acknowledged : Bool

abbrev pub number_of : Bool → ℕ
number_of b = if b then 1 else 0

-- `offsetof` of each part: the parts have no padding between them.
unfoldable pub directory_from : ℕ → List ℕ → List SlotDir
directory_from o [] = []
directory_from o (n ∷ sizes) = record { offset = o; size = n } ∷ directory_from (o + n) sizes

unfoldable pub init_directory : Header → Header
init_directory h = record h { slots = directory_from 0 part_sizes }

-- one round of the loop of `distributed_refmem_fast_crc32`
unfoldable pub fast_crc32_byte : ℕ → ℕ → ℕ
fast_crc32_byte crc byte = bit_xor crc byte * 16777619 % 2 ^ 32

unfoldable pub fast_crc32_from : ℕ → List ℕ → ℕ
fast_crc32_from crc [] = crc
fast_crc32_from crc (b ∷ bytes) = fast_crc32_from (fast_crc32_byte crc b) bytes

unfoldable pub fast_crc32 : List ℕ → ℕ
fast_crc32 bytes = fast_crc32_from 2166136261 bytes

-- the bytes of words in memory, the lowest first
unfoldable pub bytes_of_words : List ℕ → List ℕ
bytes_of_words [] = []
bytes_of_words (w ∷ ws) =
    w % 2 ^ 8 ∷ w / 2 ^ 8 % 2 ^ 8 ∷ w / 2 ^ 16 % 2 ^ 8 ∷ w / 2 ^ 24 % 2 ^ 8 ∷ bytes_of_words ws

-- The words of the header that lie before `header_crc32`.
unfoldable pub guarded_words : Header → List ℕ
guarded_words h =
    h.magic ∷ h.end_magic ∷ h.layout_version ∷ h.table_size ∷ h.table_seq ∷ h.local_node_id
    ∷ h.node_count ∷ h.header_size ∷ h.slot_count ∷ h.header_flags ∷ h.table_owner ∷ []

unfoldable pub header_crc : Header → ℕ
header_crc h = fast_crc32 (bytes_of_words (guarded_words h))

unfoldable pub protection_flags : Header → ℕ
protection_flags h =
    let a = if not (h.ram_resident_required == 0) then 1 else 0 in
    let b =
      if not (h.flash_lockout_supported == 0) && not (h.flash_lockout_online == 0)
      then bit_or a 2
      else a in
    let c = if not (h.core1_park_state == 0) then bit_or b 4 else b in
    if h.entry_table_owner == owner_shared then bit_or c 8 else c

-- What `distributed_refmem_publish_runtime_locked` writes before the flags.
unfoldable pub runtime_fields : Lockout → Header → Header
runtime_fields l h = record h {
  core_count = if l.multicore then 2 else 1;
  core1_vtor_owner = if l.multicore then owner_core1 else owner_core0;
  core1_irq_owner_mask = if l.multicore then 0xf00 else 0;
  ram_resident_required = number_of l.multicore;
  core0_vtor_owner = owner_core0;
  core0_irq_owner_mask = 0x0f;
  entry_table_owner = owner_shared;
  flash_lockout_supported = number_of l.supported;
  flash_lockout_online = number_of l.online;
  flash_lockout_requested = number_of l.requested;
  flash_lockout_acknowledged = number_of l.acknowledged;
  core1_park_state = number_of l.acknowledged;
}

unfoldable pub publish_runtime : Lockout → Header → Header
publish_runtime l h =
    let a = runtime_fields l h in
    let b = record a {
      runtime_protection_flags = protection_flags a;
      table_owner = owner_shared;
      header_stale = 0;
    } in
    record b { header_crc32 = header_crc b }

unfoldable pub publish_status : Refmem → Refmem
publish_status r = record r {
  status = record {
    status_table_size = r.header.table_size;
    status_layout_version = r.header.layout_version;
    status_table_seq = r.header.table_seq;
    status_local_node_id = r.header.local_node_id;
    status_node_count = r.header.node_count;
    local_heartbeat = (r.nodes local_node).heartbeat;
    status_service_count = r.service_count;
    status_flags = r.header.header_flags;
  };
}

-- The header after `memset` and the assignments of `distributed_refmem_init`.
unfoldable pub initial_header : Header
initial_header = init_directory (record {
  magic = 0x44565431;
  end_magic = 0x454E4400;
  layout_version = 1;
  table_size = refmem_table_size;
  table_seq = 1;
  local_node_id = local_node;
  node_count = node_count_max;
  header_size = 1024;
  slot_count = 16;
  header_flags = 0;
  table_owner = owner_shared;
  header_crc32 = 0;
  header_stale = 0;
  core_count = 0;
  core0_vtor_owner = 0;
  core1_vtor_owner = 0;
  core0_irq_owner_mask = 0;
  core1_irq_owner_mask = 0;
  entry_table_owner = 0;
  runtime_protection_flags = 0;
  ram_resident_required = 0;
  flash_lockout_supported = 0;
  flash_lockout_online = 0;
  flash_lockout_requested = 0;
  flash_lockout_acknowledged = 0;
  core1_park_state = 0;
  slots = [];
})

-- A node as the loop of `distributed_refmem_init` leaves it: missing, a board.
unfoldable pub missing_node : ℕ → NodeSlot
missing_node i = record {
  node_id = i;
  node_state = 0;
  heartbeat = 0;
  slot_version = 0;
  last_update_ms = 0;
  stale_count = 0;
  fault_code = 0;
  node_flags = 0;
  node_type = 0;
}

-- `now` is `osal_tick_ms()`. The first call is the one that counts: what was there is cleared.
unfoldable pub refmem_init : Lockout → ℕ → Refmem → Refmem × Bool
refmem_init l now r =
    let own = record (missing_node local_node) {
      node_state = 1;
      slot_version = 1;
      last_update_ms = now;
    } in
    (
      publish_status (record r {
        header = publish_runtime l initial_header;
        nodes = update missing_node local_node own;
        service_count = 0;
        refmem_initialized = true;
      }),
      true,
    )

unfoldable pub next_count : ℕ → ℕ
next_count n = (n + 1) % 2 ^ 32

unfoldable pub refmem_service : Lockout → ℕ → Refmem → Refmem
refmem_service l now r =
    let own = r.nodes local_node in
    let header =
      publish_runtime l (record r.header { table_seq = next_count r.header.table_seq }) in
    let served = record own {
      heartbeat = next_count own.heartbeat;
      slot_version = next_count own.slot_version;
      last_update_ms = now;
      node_state = 1;
    } in
    if not r.refmem_initialized
    then r
    else publish_status (record r {
      header = header;
      nodes = update r.nodes local_node served;
      service_count = next_count r.service_count;
    })

-- `distributed_refmem_get_runtime_protection` publishes before it reads; what it hands out are
-- fields of the header that it leaves. The other getters only read.
unfoldable pub get_runtime_protection : Lockout → Refmem → Refmem × Header
get_runtime_protection l r =
    let t = record r { header = publish_runtime l r.header } in (t, t.header)

unfoldable pub get_node : ℕ → Refmem → Option NodeSlot
get_node id r = if leb node_count_max id then none else some (r.nodes id)
