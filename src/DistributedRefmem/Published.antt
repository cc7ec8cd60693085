-- ===== src/DistributedRefmem/Published.antt =====
-- components/distributed_refmem/src/distributed_refmem.c: what readers of the table may rely on.
use hdrt.Prelude.{ℕ, ◌≡◌, ◌≢◌, ◌∙◌, refl, sym, ap, true, not, List, [], ◌∷◌, arith, if_each}
use hdrt.DistributedRefmem.{
  local_node, refmem_table_size, Header, Refmem, Lockout, directory_from, init_directory,
  guarded_words, header_crc, runtime_fields, publish_runtime, publish_status, initial_header,
  missing_node, refmem_init, next_count, refmem_service, get_runtime_protection,
}
use hdrt.DistributedRefmem.Layout.{Tiles}

-- What holds between two critical sections: the checksum is that of the header, the slots tile the
-- table, the counters go together, and the local node is the one that is there.
pub record IsPublished (r : Refmem) : Type 0 where
  pub initialized : r.refmem_initialized ≡ true
  pub checksum : r.header.header_crc32 ≡ header_crc r.header
  pub tiled : Tiles 0 r.header.slots refmem_table_size
  pub table_count : r.header.table_seq ≡ next_count r.service_count
  pub beats : (r.nodes local_node).heartbeat ≡ r.service_count
  pub versions : (r.nodes local_node).slot_version ≡ next_count r.service_count
  pub local_ok : (r.nodes local_node).node_state ≡ 1
  pub others : (i : ℕ) → i ≢ local_node → r.nodes i ≡ missing_node i
  pub status_count : r.status.status_service_count ≡ r.service_count
  pub status_seq : r.status.status_table_seq ≡ r.header.table_seq

checksum-publish_runtime :
    (l : Lockout) (h : Header)
    → (publish_runtime l h).header_crc32 ≡ header_crc (publish_runtime l h)
unfolding publish_runtime header_crc guarded_words
checksum-publish_runtime l h = refl

slots-publish_runtime : (l : Lockout) (h : Header) → (publish_runtime l h).slots ≡ h.slots
unfolding publish_runtime runtime_fields
slots-publish_runtime l h = refl

table_seq-publish_runtime :
    (l : Lockout) (h : Header) → (publish_runtime l h).table_seq ≡ h.table_seq
unfolding publish_runtime runtime_fields
table_seq-publish_runtime l h = refl

pub refmem_init-IsPublished :
    (l : Lockout) (now : ℕ) (r : Refmem) → IsPublished (refmem_init l now r).0
unfolding refmem_init publish_status initial_header init_directory directory_from missing_node
    next_count
refmem_init-IsPublished l now r = record {
  initialized = refl;
  checksum = checksum-publish_runtime l initial_header;
  tiled = rw (slots-publish_runtime l initial_header) (omega arith);
  table_count = table_seq-publish_runtime l initial_header;
  beats = refl;
  versions = refl;
  local_ok = refl;
  others = λ i h. ground (arith, h);
  status_count = refl;
  status_seq = refl;
}

refmem_service-IsPublished :
    (l : Lockout) (now : ℕ) (r : Refmem) → IsPublished r → IsPublished (refmem_service l now r)
unfolding refmem_service publish_status
refmem_service-IsPublished l now r p =
    if_each IsPublished (not r.refmem_initialized) (λ e. p)
      λ e.
        let h = record r.header { table_seq = next_count r.header.table_seq } in
        record {
          initialized = p.initialized;
          checksum = checksum-publish_runtime l h;
          tiled = rw (slots-publish_runtime l h) p.tiled;
          table_count = table_seq-publish_runtime l h ∙ ap next_count p.table_count;
          beats = ap next_count p.beats;
          versions = ap next_count p.versions;
          local_ok = refl;
          others = λ i q. ground (arith, q, p.others i q);
          status_count = refl;
          status_seq = refl;
        }

get_runtime_protection-IsPublished :
    (l : Lockout) (r : Refmem) → IsPublished r → IsPublished (get_runtime_protection l r).0
unfolding get_runtime_protection
get_runtime_protection-IsPublished l r p = record {
  initialized = p.initialized;
  checksum = checksum-publish_runtime l r.header;
  tiled = rw (slots-publish_runtime l r.header) p.tiled;
  table_count = table_seq-publish_runtime l r.header ∙ p.table_count;
  beats = p.beats;
  versions = p.versions;
  local_ok = p.local_ok;
  others = p.others;
  status_count = p.status_count;
  status_seq = p.status_seq ∙ sym (table_seq-publish_runtime l r.header);
}

-- The calls that change the table after the start, with what they read.
pub data RefmemCall : Type 0 where
  service : Lockout → ℕ → RefmemCall
  protection : Lockout → RefmemCall

unfoldable pub refmem_calls : List RefmemCall → Refmem → Refmem
refmem_calls [] r = r
refmem_calls (service l now ∷ cs) r = refmem_calls cs (refmem_service l now r)
refmem_calls (protection l ∷ cs) r = refmem_calls cs (get_runtime_protection l r).0

calls-IsPublished :
    (cs : List RefmemCall) (r : Refmem) → IsPublished r → IsPublished (refmem_calls cs r)
unfolding refmem_calls
calls-IsPublished [] r p = p
calls-IsPublished (service l now ∷ cs) r p =
    calls-IsPublished cs (refmem_service l now r) (refmem_service-IsPublished l now r p)
calls-IsPublished (protection l ∷ cs) r p =
    calls-IsPublished cs (get_runtime_protection l r).0 (get_runtime_protection-IsPublished l r p)

-- After the start and any calls the checksum in the header is that of the header, the sixteen slots
-- lie one behind the other from byte 0 to byte 65536, the heartbeat of the local node is the count of
-- services, the sequence number of the table and the version of the node's slot are one more, the
-- local node is there and every other one is missing, and the status has the count and the number.
pub refmem_calls-IsPublished :
    (l : Lockout) (now : ℕ) (r : Refmem) (cs : List RefmemCall)
    → IsPublished (refmem_calls cs (refmem_init l now r).0)
refmem_calls-IsPublished l now r cs =
    calls-IsPublished cs (refmem_init l now r).0 (refmem_init-IsPublished l now r)
