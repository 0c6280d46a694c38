-- ===== src/FileService/Cleanup.antt =====
-- _cleanup_chunks: when no chunk is forgotten, and when each is deleted.
use redcloud_files.Base.{
  zero, suc, ℕ, String, Bool, true, false, Option, none, some, List, [], ◌∷◌, ◌≡◌, ◌⊎◌, inl, inr,
  refl, arith, All, All-map, str_eq, eq_refl, eq_comm, Bool-cases, mem,
}
use redcloud_files.Base.Dict
use redcloud_files.Base.Dict.{Dict}
use redcloud_files.Chunkserver.Server.{Server}
use redcloud_files.Chunkserver.Peers.Buried.{
  IsBuried, handle_delete_chunk-IsBuried, delete_one-IsBuried,
}
use redcloud_files.ChunkClient.{
  Net, Link, Fate, answered, raising, lost, cut, Answer, answer, raises, next_fate, call_delete,
  delete_chunk,
}
use redcloud_files.Replication.ChunkGc.{ChunkLiveness, LivenessRow, marked_row}
use redcloud_files.FileService.{
  World, after_delete, with_failure, try_delete, delete_each, mark_each, mark_chunks_for_gc,
  cleanup_chunks,
}

abbrev pub IsMarked : String → ChunkLiveness → Type 0
IsMarked chunk_id table =
    (row : LivenessRow) × (Dict.lookup chunk_id table ≡ some row) × (row.marked_for_gc ≡ 1)

abbrev Gone : String → Link → Type 0
Gone chunk_id link = IsBuried chunk_id link.server.chunks

-- A call of delete_chunk: an answer comes with the chunk buried, and no chunk is dug up.
call_delete-Gone :
    (net : Net) (chunk_id : String) (fate : Fate) (fates : List Fate) (server : Server)
    (old : String)
    → IsBuried old server.chunks
    → Gone old (call_delete net chunk_id fate fates server).1
unfolding call_delete
call_delete-Gone net chunk_id (answered fault) fates server old b =
    delete_one-IsBuried net.outside false chunk_id old server b
call_delete-Gone net chunk_id (raising n) fates server old b =
    delete_one-IsBuried net.outside true chunk_id old server b
call_delete-Gone net chunk_id (lost code) fates server old b = b
call_delete-Gone net chunk_id (cut n code) fates server old b =
    delete_one-IsBuried net.outside false chunk_id old server b

-- the chunkserver does not fail to remove a file
abbrev pub IsRemoval : Fate → Type 0
IsRemoval (raising n) = ⊥
IsRemoval _ = Unit

abbrev pub Removing : Link → Type 0
Removing link = All IsRemoval link.fates

abbrev Settles : String → Answer Bool × Link → Type 0
Settles chunk_id (answer b, link) = Gone chunk_id link × Removing link
Settles chunk_id (raises e, link) = Removing link

call_delete-Settles :
    (net : Net) (chunk_id : String) (fate : Fate) (fates : List Fate) (server : Server)
    → IsRemoval fate
    → All IsRemoval fates
    → Settles chunk_id (call_delete net chunk_id fate fates server)
unfolding call_delete
call_delete-Settles net chunk_id (answered fault) fates server r rs =
    (handle_delete_chunk-IsBuried net.outside chunk_id server, rs)
call_delete-Settles net chunk_id (raising n) fates server r rs = absurd r
call_delete-Settles net chunk_id (lost code) fates server r rs = rs
call_delete-Settles net chunk_id (cut n code) fates server r rs = rs

delete_chunk-Settles :
    (net : Net) (chunk_id : String) (fates : List Fate) (server : Server)
    → All IsRemoval fates
    → Settles chunk_id (delete_chunk net chunk_id (record { server = server; fates = fates }))
unfolding delete_chunk next_fate
delete_chunk-Settles net chunk_id [] server rs =
    call_delete-Settles net chunk_id (answered none) [] server tt tt
delete_chunk-Settles net chunk_id (fate ∷ fates) server rs =
    call_delete-Settles net chunk_id fate fates server rs.0 rs.1

after_delete-Gone :
    (old : String) (again : Link → Bool × Link) (p : Answer Bool × Link)
    → ((link : Link) → Gone old link → Gone old (again link).1)
    → Gone old p.1
    → Gone old (after_delete again p).1
unfolding after_delete
after_delete-Gone old again (answer b, link) k h = h
after_delete-Gone old again (raises e, link) k h = k link h

abbrev Done : String → Bool × Link → Type 0
Done chunk_id (true, link) = Gone chunk_id link × Removing link
Done chunk_id (false, link) = Removing link

after_delete-Done :
    (chunk_id : String) (again : Link → Bool × Link) (p : Answer Bool × Link)
    → ((link : Link) → Removing link → Done chunk_id (again link))
    → Settles chunk_id p
    → Done chunk_id (after_delete again p)
unfolding after_delete
after_delete-Done chunk_id again (answer b, link) k h = h
after_delete-Done chunk_id again (raises e, link) k h = k link h

module _ (net : Net) where
  try_delete-Gone :
      (left : ℕ) (chunk_id old : String) (link : Link)
      → Gone old link
      → Gone old (try_delete net left chunk_id link).1
  unfolding try_delete delete_chunk next_fate
  try_delete-Gone zero chunk_id old link b = b
  try_delete-Gone (suc left) chunk_id old link b =
      after_delete-Gone old (try_delete net left chunk_id) _ (try_delete-Gone left chunk_id old)
        (call_delete-Gone net chunk_id _ _ link.server old b)

  try_delete-Done :
      (left : ℕ) (chunk_id : String) (link : Link)
      → Removing link
      → Done chunk_id (try_delete net left chunk_id link)
  unfolding try_delete
  try_delete-Done zero chunk_id link rs = rs
  try_delete-Done (suc left) chunk_id link rs =
      after_delete-Done chunk_id (try_delete net left chunk_id) _ (try_delete-Done left chunk_id)
        (delete_chunk-Settles net chunk_id link.fates link.server rs)

-- deleted, or among the ids whose deletion failed
abbrev Accounted : List String → Link → String → Type 0
Accounted failed link chunk_id = Gone chunk_id link ⊎ (mem chunk_id failed ≡ true)

abbrev AllGone : List String → List String × Link → Type 0
AllGone ids (failed, link) = All (Accounted failed link) ids

one_more :
    (c : String) (ids failed : List String) (link : Link)
    → All (Accounted failed link) ids
    → All (Accounted (c ∷ failed) link) ids
unfolding mem
one_more c ids failed link =
    All-map ids λ x h. elim h [ inl g ↦ inl g | inr m ↦ inr (ground arith) ]

with_failure-Gone :
    (c old : String) (rest : Link → List String × Link) (p : Bool × Link)
    → ((link : Link) → Gone old link → Gone old (rest link).1)
    → Gone old p.1
    → Gone old (with_failure c rest p).1
unfolding with_failure
with_failure-Gone c old rest (true, link) k h = k link h
with_failure-Gone c old rest (false, link) k h = k link h

with_failure-AllGone :
    (c : String) (ids : List String) (rest : Link → List String × Link) (p : Bool × Link)
    → ((link : Link) → Gone c link → Gone c (rest link).1)
    → ((link : Link) → Removing link → AllGone ids (rest link))
    → Done c p
    → AllGone (c ∷ ids) (with_failure c rest p)
unfolding with_failure mem
with_failure-AllGone c ids rest (true, link) keep k h = (inl (keep link h.0), k link h.1)
with_failure-AllGone c ids rest (false, link) keep k h =
    (inr (ground (arith, eq_refl c)), one_more c ids (rest link).0 (rest link).1 (k link h))

marked_row-flag : (now : String) (old : Option LivenessRow) → (marked_row now old).marked_for_gc ≡ 1
unfolding marked_row
marked_row-flag now none = refl
marked_row-flag now (some row) = refl

mark_one :
    (now id c : String) (failed : List String) (table : ChunkLiveness)
    → IsMarked id table ⊎ (mem id (c ∷ failed) ≡ true)
    → IsMarked id (Dict.insert c (marked_row now (Dict.lookup c table)) table)
      ⊎ (mem id failed ≡ true)
unfolding mem
mark_one now id c failed table h =
    let put = Dict.lookup-insert c id (marked_row now (Dict.lookup c table)) table in
    elim (Bool-cases (str_eq c id)) [
      | inl e ↦ inl (
        marked_row now (Dict.lookup c table),
        ground (arith, put),
        marked_row-flag now (Dict.lookup c table),
      )
      | inr e ↦ elim h [
        | inl m ↦ inl (m.0, ground (arith, put, m.1), m.2)
        | inr m ↦ inr (ground (arith, eq_comm c id))
      ]
    ]

IsMarked-IsMarked :
    (now id : String) (failed : List String) (table : ChunkLiveness)
    → IsMarked id table ⊎ (mem id failed ≡ true)
    → IsMarked id (mark_each now failed table)
unfolding mark_each mem
IsMarked-IsMarked now id [] table (inl h) = h
IsMarked-IsMarked now id [] table (inr h) = absurd (cc)
IsMarked-IsMarked now id (c ∷ failed) table h =
    IsMarked-IsMarked now id failed _ (mark_one now id c failed table h)

module _ (net : Net) where
  delete_each-Gone :
      (ids : List String) (old : String) (link : Link)
      → Gone old link
      → Gone old (delete_each net ids link).1
  unfolding delete_each
  delete_each-Gone [] old link h = h
  delete_each-Gone (c ∷ ids) old link h =
      with_failure-Gone c old (delete_each net ids) _ (delete_each-Gone ids old)
        (try_delete-Gone net 3 c old link h)

  delete_each-AllGone :
      (ids : List String) (link : Link) → Removing link → AllGone ids (delete_each net ids link)
  unfolding delete_each
  delete_each-AllGone [] link rs = tt
  delete_each-AllGone (c ∷ ids) link rs =
      with_failure-AllGone c ids (delete_each net ids) _ (delete_each-Gone ids c)
        (delete_each-AllGone ids) (try_delete-Done net 3 c link rs)

  -- the tables but chunk_liveness, whatever fails
  pub cleanup_chunks-db :
      (now : String) (ids : List String) (w : World) → (cleanup_chunks net now ids w).db ≡ w.db
  unfolding cleanup_chunks
  cleanup_chunks-db now ids w = refl

  -- Where the chunkserver removes the files that it is asked to and marking does not fail,
  -- _cleanup_chunks leaves each of the chunks deleted on the chunkserver or marked for garbage
  -- collection, whatever becomes of the calls.
  pub cleanup_chunks_complete :
      (now : String) (ids : List String) (w : World)
      → Removing w.link
      → w.marking_fails ≡ false
      → All
          (λ id.
            IsBuried id (cleanup_chunks net now ids w).link.server.chunks
            ⊎ IsMarked id (cleanup_chunks net now ids w).liveness)
          ids
  unfolding cleanup_chunks mark_chunks_for_gc
  cleanup_chunks_complete now ids w rs m = rw m (
      All-map ids
        (λ id h. elim h [
          | inl g ↦ inl g
          | inr f ↦ inr (IsMarked-IsMarked now id _ w.liveness (inr f))
        ])
        (delete_each-AllGone ids w.link rs))
