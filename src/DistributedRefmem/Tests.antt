-- ===== src/DistributedRefmem/Tests.antt =====
-- The theorems about distributed_refmem.c at a concrete table.
use hdrt.Prelude.{ℕ, ◌≢◌, false, List, [], ◌∷◌, ◌++◌, arith}
use hdrt.DistributedRefmem.{Refmem, Lockout, fast_crc32, initial_header, missing_node, refmem_init}
use hdrt.DistributedRefmem.Checksum.{fast_crc32_one_byte}
use hdrt.DistributedRefmem.Published.{
  IsPublished, RefmemCall, refmem_calls, refmem_calls-IsPublished, service, protection,
}

abbrev one_core : Lockout
one_core = record {
  multicore = false;
  supported = false;
  online = false;
  requested = false;
  acknowledged = false;
}

abbrev before_start : Refmem
before_start = record {
  header = initial_header;
  nodes = missing_node;
  status = record {
    status_table_size = 0;
    status_layout_version = 0;
    status_table_seq = 0;
    status_local_node_id = 0;
    status_node_count = 0;
    local_heartbeat = 0;
    status_service_count = 0;
    status_flags = 0;
  };
  service_count = 0;
  refmem_initialized = false;
}

abbrev some_calls : List RefmemCall
some_calls = service one_core 10 ∷ protection one_core ∷ service one_core 20 ∷ []

refmem_calls-IsPublished_example :
    IsPublished (refmem_calls some_calls (refmem_init one_core 5 before_start).0)
refmem_calls-IsPublished_example = refmem_calls-IsPublished one_core 5 before_start some_calls

abbrev start_bytes : List ℕ
start_bytes = 49 ∷ 84 ∷ []

fast_crc32_one_byte_example :
    fast_crc32 (start_bytes ++ (7 ∷ start_bytes)) ≢ fast_crc32 (start_bytes ++ (8 ∷ start_bytes))
fast_crc32_one_byte_example =
    fast_crc32_one_byte start_bytes start_bytes 7 8 (omega arith, (omega arith, tt)) (omega arith)
      (omega arith) (λ e. omega (arith, e))
