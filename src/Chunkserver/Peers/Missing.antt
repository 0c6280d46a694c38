-- ===== src/Chunkserver/Peers/Missing.antt =====
-- Which chunks the answer to a ChunkGossip of chunk_replication_service.py asks for.
use redcloud_files.Base.{
  ℕ, ◌+◌, Bool, String, false, some, List, [], ◌∷◌, ◌≡◌, refl, arith, eq_iff, eq_comm, str_eq, not,
  ◌&&◌, ◌||◌, mem, select, set_of, difference, mem-select, mem-set_of, mem-keys, Bool-cases, inl,
  inr,
}
use redcloud_files.Base.Dict
use redcloud_files.Base.Dict.{Dict}
use redcloud_files.Chunkserver.Storage.{unlink_raises}
use redcloud_files.Chunkserver.Index.{
  ChunkIndex, TombstoneEntry, add_tombstone, chunk_exists, is_tombstoned, get_all_chunk_ids,
}
use redcloud_files.Chunkserver.Server.{Server, Outside}
use redcloud_files.Chunkserver.Peers.{
  ChunkSummary, add_new, add_count, after_tombstone, gossip_answer, apply_tombstone,
  apply_tombstones, handle_chunk_gossip, missing_chunk_ids, summary_ids,
}

mem-missing :
    (x : String) (summaries : List ChunkSummary) (index : ChunkIndex)
    → mem x (missing_chunk_ids summaries index) ≡ (
        (mem x (summary_ids summaries) && not (chunk_exists x index))
        && not (is_tombstoned x index))
unfolding missing_chunk_ids difference chunk_exists get_all_chunk_ids
mem-missing x summaries index = ground (
  arith,
  mem-select (λ cid. not (is_tombstoned cid index)) x
      (select (λ y. not (mem y (Dict.keys index.index))) (set_of (summary_ids summaries))),
  mem-select (λ y. not (mem y (Dict.keys index.index))) x (set_of (summary_ids summaries)),
  mem-set_of x (summary_ids summaries),
  mem-keys x index.index,
)

add_new-is_tombstoned :
    (outside : Outside) (tombstone : TombstoneEntry) (x : String) (self : Server)
    → is_tombstoned x (add_new outside tombstone self).chunks
      ≡ (str_eq tombstone.chunk_id x || is_tombstoned x self.chunks)
unfolding add_new add_tombstone is_tombstoned
add_new-is_tombstoned outside tombstone x self = ground (
  arith,
  eq_iff tombstone.chunk_id x,
  Dict.has_key-insert tombstone.chunk_id x
      (record {
        chunk_id = tombstone.chunk_id;
        deleted_at = outside.now;
        checksum = tombstone.checksum;
      })
      self.chunks.tombstones,
)

abbrev pub tombstone_ids : List TombstoneEntry → List String
tombstone_ids [] = []
tombstone_ids (t ∷ rest) = t.chunk_id ∷ tombstone_ids rest

abbrev pub removes : String → Bool
removes id = false

-- where no removal of a file raises, a tombstone is applied and the next one follows
apply_tombstone_done :
    (outside : Outside) (t : TombstoneEntry) (self : Server)
    → (one : ℕ) × (next : Server) × (apply_tombstone outside removes t self ≡ (some one, next))
      × ((x : String)
          → is_tombstoned x next.chunks ≡ (str_eq t.chunk_id x || is_tombstoned x self.chunks))
unfolding apply_tombstone unlink_raises
apply_tombstone_done outside t self = elim (Bool-cases (is_tombstoned t.chunk_id self.chunks)) [
  | inl e ↦ (0, self, rw e refl, λ x. ground (arith, e, eq_iff t.chunk_id x))
  | inr e ↦
      (1, add_new outside t self, ground (arith, e), λ x. add_new-is_tombstoned outside t x self)
]

-- what a loop that does not raise answers, and leaves
abbrev pub Applied : Outside → List TombstoneEntry → Server → Type 0
Applied outside ts self =
    (count : ℕ) × (last : Server) × (apply_tombstones outside removes ts self ≡ (some count, last))
    × ((x : String)
        → is_tombstoned x last.chunks ≡ (mem x (tombstone_ids ts) || is_tombstoned x self.chunks))

pub apply_tombstones_done :
    (outside : Outside) (ts : List TombstoneEntry) (self : Server) → Applied outside ts self
unfolding apply_tombstones after_tombstone add_count mem
apply_tombstones_done outside [] self = (0, self, refl, λ x. refl)
apply_tombstones_done outside (t ∷ rest) self =
    let (one, next, e, now) = apply_tombstone_done outside t self in
    let (count, last, e', later) = apply_tombstones_done outside rest next in
    (one + count, last, rw (e, e') refl, λ x. ground (arith, now x, later x, eq_comm x t.chunk_id))

-- Where no removal of a file raises, ChunkGossip answers; a chunk is then tombstoned exactly when
-- it was or the message deletes it, and the answer asks for exactly the chunks of the message that
-- are neither held nor tombstoned then.
pub handle_chunk_gossip-missing :
    (outside : Outside) (fails : String → Bool) (summaries : List ChunkSummary)
    (tombstones : List TombstoneEntry) (x : String) (self : Server)
    → ((id : String) → fails id ≡ false)
    → (missing : List String) × (next : Server) × (handle_chunk_gossip outside fails summaries
          tombstones self
        ≡ (some missing, next))
      × (is_tombstoned x next.chunks
          ≡ (mem x (tombstone_ids tombstones) || is_tombstoned x self.chunks))
      × (mem x missing ≡ (
          (mem x (summary_ids summaries) && not (chunk_exists x next.chunks))
          && not (is_tombstoned x next.chunks)))
unfolding handle_chunk_gossip gossip_answer
handle_chunk_gossip-missing outside fails summaries tombstones x self h =
    let same : fails ≡ removes = (λ i id. h id i) in
    let (count, last, e, buried) = apply_tombstones_done outside tombstones self in
    (
      missing_chunk_ids summaries last.chunks,
      last,
      rw (same, e) refl,
      buried x,
      mem-missing x summaries last.chunks,
    )
