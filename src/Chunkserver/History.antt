-- ===== src/Chunkserver/History.antt =====
-- Whole histories of one chunkserver process: any interleaving of the requests it serves and of the
-- fetches of its rounds. A fetch is two steps, since other coroutines run while it waits for the peer
-- (chunkserver/replication/chunk_anti_entropy_manager.py); every other handler is one step.
use redcloud_files.Chunkserver.Peers.Uploads.{TargetsOther, conclude_write-IsBuried}
use redcloud_files.Base.{
  ℕ, Bool, false, refl, inl, inr, Bool-cases, mem, if◌then◌else◌, str_eq, ◌≡◌, String, Option, none,
  some, List, [], ◌∷◌, ◌≢◌, arith, eq_iff, All,
}
use redcloud_files.Chunkserver.Storage.{Bytes, Fault}
use redcloud_files.Chunkserver.Index.{TombstoneEntry, is_tombstoned}
use redcloud_files.Chunkserver.Server.{
  Server, Outside, ChunkMetadata, WriteChunkRequest, handle_write_chunk, handle_delete_chunk,
  nothing_received, receive,
}
use redcloud_files.Chunkserver.Server.Intact.{
  IsIntact, IsClean, handle_write_chunk-IsIntact, handle_delete_chunk-IsIntact,
}
use redcloud_files.Chunkserver.Peers.{
  ChunkSummary, gossip_answer, apply_tombstones, handle_chunk_gossip, handle_push_tombstones,
  may_fetch, check_fetched,
}
use redcloud_files.Chunkserver.Peers.Intact.{apply_tombstones-IsIntact, check_fetched-IsIntact}
use redcloud_files.Chunkserver.Peers.Buried.{
  IsBuried, delete_one-IsBuried, apply_tombstones-IsBuried, check_fetched-IsBuried,
}

-- the process, with the ids of the chunks whose fetch waits for a peer
pub record Process : Type 0 where
  pub server : Server
  pub fetching : List String

-- `fetch_started` is a fetch up to its await, and `fetch_ended` what follows that
pub data Event : Type 0 where
  write : Option Fault → List (Option WriteChunkRequest) → Event
  delete_one : Bool → String → Event
  gossip : (String → Bool) → List ChunkSummary → List TombstoneEntry → Event
  push : (String → Bool) → List TombstoneEntry → Event
  fetch_started : String → Event
  fetch_ended : Option Fault → String → Option (Bytes × ChunkMetadata) → Event

unfoldable pub without : String → List String → List String
without id [] = []
without id (x ∷ xs) = if str_eq x id then xs else x ∷ without id xs

unfoldable pub start_fetch : String → Process → Process
start_fetch chunk_id self =
    if may_fetch chunk_id self.server
    then record self { fetching = chunk_id ∷ self.fetching }
    else self

unfoldable pub end_fetch :
    Outside → Option Fault → String → Option (Bytes × ChunkMetadata) → Process → Process
end_fetch outside fault chunk_id answer self =
    if mem chunk_id self.fetching
    then record {
      server = check_fetched outside fault chunk_id answer self.server;
      fetching = without chunk_id self.fetching;
    }
    else self

unfoldable pub serve : Outside → Event → Process → Process
serve outside (write fault requests) self = record self {
  server = (handle_write_chunk outside fault requests self.server).1;
}
serve outside (delete_one fails chunk_id) self = record self {
  server = (handle_delete_chunk outside fails chunk_id self.server).1;
}
serve outside (gossip fails summaries tombstones) self = record self {
  server = (handle_chunk_gossip outside fails summaries tombstones self.server).1;
}
serve outside (push fails tombstones) self = record self {
  server = (handle_push_tombstones outside fails tombstones self.server).1;
}
serve outside (fetch_started chunk_id) self = start_fetch chunk_id self
serve outside (fetch_ended fault chunk_id answer) self =
    end_fetch outside fault chunk_id answer self

unfoldable pub run : Outside → List Event → Process → Process
run outside [] self = self
run outside (event ∷ rest) self = run outside rest (serve outside event self)

gossip_answer-server :
    (summaries : List ChunkSummary) (p : Option ℕ × Server) → (gossip_answer summaries p).1 ≡ p.1
unfolding gossip_answer
gossip_answer-server summaries (none, next) = refl
gossip_answer-server summaries (some count, next) = refl

abbrev pub Clean : Event → Type 0
Clean (write fault requests) = IsClean fault
Clean (fetch_ended fault chunk_id answer) = IsClean fault
Clean _ = Unit

serve-IsIntact :
    (outside : Outside) (event : Event) (self : Process)
    → Clean event
    → IsIntact outside.sha256 self.server
    → IsIntact outside.sha256 (serve outside event self).server
unfolding serve handle_chunk_gossip handle_push_tombstones start_fetch end_fetch
serve-IsIntact outside (write fault requests) self clean h =
    handle_write_chunk-IsIntact outside fault requests self.server clean h
serve-IsIntact outside (delete_one fails chunk_id) self clean h =
    handle_delete_chunk-IsIntact outside fails chunk_id self.server h
serve-IsIntact outside (gossip fails summaries tombstones) self clean h =
    rw (gossip_answer-server summaries (apply_tombstones outside fails tombstones self.server))
      (apply_tombstones-IsIntact outside fails tombstones self.server h)
serve-IsIntact outside (push fails tombstones) self clean h =
    apply_tombstones-IsIntact outside fails tombstones self.server h
serve-IsIntact outside (fetch_started chunk_id) self clean h =
    elim (Bool-cases (may_fetch chunk_id self.server)) [ inl e ↦ rw e h | inr e ↦ rw e h ]
serve-IsIntact outside (fetch_ended fault chunk_id answer) self clean h =
    elim (Bool-cases (mem chunk_id self.fetching)) [
      | inl e ↦ rw e (check_fetched-IsIntact outside fault chunk_id answer self.server clean h)
      | inr e ↦ rw e h
    ]

-- Whatever requests and fetches follow, in whatever interleaving, each indexed chunk keeps data in its
-- file with the checksum of its entry, if it had at the start and no write fails after it opened its
-- file.
pub run-IsIntact :
    (outside : Outside) (events : List Event) (self : Process)
    → All Clean events
    → IsIntact outside.sha256 self.server
    → IsIntact outside.sha256 (run outside events self).server
unfolding run
run-IsIntact outside [] self clean h = h
run-IsIntact outside (event ∷ rest) self clean h =
    run-IsIntact outside rest (serve outside event self) clean.1
      (serve-IsIntact outside event self clean.0 h)

abbrev pub Spares : String → Event → Type 0
Spares chunk_id (write fault requests) = TargetsOther chunk_id (receive requests nothing_received)
Spares chunk_id _ = Unit

-- buried, and no fetch of it waits for a peer
pub record IsSettled (chunk_id : String) (self : Process) : Type 0 where
  pub buried : IsBuried chunk_id self.server.chunks
  pub quiet : mem chunk_id self.fetching ≡ false

start_fetch-IsSettled :
    (id chunk_id : String) (self : Process)
    → IsSettled chunk_id self
    → IsSettled chunk_id (start_fetch id self)
unfolding start_fetch may_fetch mem
start_fetch-IsSettled id chunk_id self h = elim (Bool-cases (is_tombstoned id self.server.chunks)) [
  | inl e ↦ rw e h
  | inr e ↦
      let tombstoned = h.buried.tombstoned in
      let quiet = h.quiet in
      rw e (record { buried = h.buried; quiet = ground (arith, eq_iff chunk_id id) })
]

mem-without :
    (id chunk_id : String) (ids : List String)
    → mem chunk_id ids ≡ false
    → mem chunk_id (without id ids) ≡ false
unfolding mem without
mem-without id chunk_id [] h = h
mem-without id chunk_id (x ∷ xs) h = ground (arith, h, mem-without id chunk_id xs)

end_fetch-IsSettled :
    (outside : Outside) (fault : Option Fault) (id : String)
    (answer : Option (Bytes × ChunkMetadata)) (chunk_id : String) (self : Process)
    → IsSettled chunk_id self
    → IsSettled chunk_id (end_fetch outside fault id answer self)
unfolding end_fetch
end_fetch-IsSettled outside fault id answer chunk_id self h =
    elim (Bool-cases (mem id self.fetching)) [
      | inl e ↦
          let other : id ≢ chunk_id = (λ same. let q = rw same at e in absurd (cc (h.quiet))) in
          rw e (record {
            buried =
                check_fetched-IsBuried outside fault chunk_id id answer self.server other h.buried;
            quiet = mem-without id chunk_id self.fetching h.quiet;
          })
      | inr e ↦ rw e h
    ]

serve-IsSettled :
    (outside : Outside) (event : Event) (chunk_id : String) (self : Process)
    → Spares chunk_id event
    → IsSettled chunk_id self
    → IsSettled chunk_id (serve outside event self)
unfolding serve handle_write_chunk handle_chunk_gossip handle_push_tombstones
serve-IsSettled outside (write fault requests) chunk_id self other h = record {
  buried =
      conclude_write-IsBuried outside fault chunk_id (receive requests nothing_received) self.server
        other h.buried;
  quiet = h.quiet;
}
serve-IsSettled outside (delete_one fails id) chunk_id self other h = record {
  buried = delete_one-IsBuried outside fails id chunk_id self.server h.buried;
  quiet = h.quiet;
}
serve-IsSettled outside (gossip fails summaries tombstones) chunk_id self other h = record {
  buried =
      rw (gossip_answer-server summaries (apply_tombstones outside fails tombstones self.server))
        (apply_tombstones-IsBuried outside fails tombstones chunk_id self.server h.buried);
  quiet = h.quiet;
}
serve-IsSettled outside (push fails tombstones) chunk_id self other h = record {
  buried = apply_tombstones-IsBuried outside fails tombstones chunk_id self.server h.buried;
  quiet = h.quiet;
}
serve-IsSettled outside (fetch_started id) chunk_id self other h =
    start_fetch-IsSettled id chunk_id self h
serve-IsSettled outside (fetch_ended fault id answer) chunk_id self other h =
    end_fetch-IsSettled outside fault id answer chunk_id self h

-- A deleted chunk of which no fetch waits for a peer stays out of the index and keeps its tombstone
-- through every interleaving of requests and fetches in which no client uploads that chunk again: no
-- fetch that starts after the deletion brings it back.
pub run-IsBuried :
    (outside : Outside) (events : List Event) (chunk_id : String) (self : Process)
    → All (Spares chunk_id) events
    → IsBuried chunk_id self.server.chunks
    → mem chunk_id self.fetching ≡ false
    → IsBuried chunk_id (run outside events self).server.chunks
unfolding run
run-IsBuried outside [] chunk_id self other b quiet = b
run-IsBuried outside (event ∷ rest) chunk_id self other b quiet =
    let next =
      serve-IsSettled outside event chunk_id self other.0 (record { buried = b; quiet = quiet }) in
    run-IsBuried outside rest chunk_id (serve outside event self) other.1 next.buried next.quiet
