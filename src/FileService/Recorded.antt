-- ===== src/FileService/Recorded.antt =====
-- What the transaction of an upload leaves in the tables, where it breaks no constraint.
use redcloud_files.Base.{
  subst, String, false, ◌||◌, Option, none, some, List, [], ◌∷◌, ◌++◌, ◌≡◌, refl, ap, ◌∙◌, arith,
  All, str_eq, eq_refl, eq_comm, find, exists, exists-append, Bool-cases, inl, inr,
}
use redcloud_files.Replication.Operation.{Payload, file_created, chunks_created}
use redcloud_files.Replication.Database.{Db, File, Chunk, Result, ok, err, ◌>>=◌}
use redcloud_files.Replication.Log.{insert_operation}
use redcloud_files.Replication.Files.{is_file, is_file_at, insert_tags}
use redcloud_files.Replication.Emitter.{
  Emission, emit, emit_file_created, emit_chunks_created, with_id, get_and_increment_vector_clock,
}
use redcloud_files.Repositories
use redcloud_files.Repositories.{create_file, create_chunks, clashes, chunk_of}
use redcloud_files.FileService.{
  Fresh, Upload, file_of, drop_existing, with_chunks, record_upload, file_payload,
  chunks_created_payload,
}
use redcloud_files.FileService.Sending.{Distinct, append_assoc, append_nil}

>>=-ok :
    {A B : Type 0} (step : Result A) (rest : A → Result B) {done : B}
    → (step >>= rest) ≡ ok done
    → (a : A) × (step ≡ ok a) × (rest a ≡ ok done)
>>=-ok (ok a) rest h = (a, refl, h)
>>=-ok (err e) rest h = cc

ok-injective : {A : Type 0} {a b : A} → ok a ≡ ok b → a ≡ b
ok-injective h = cc

emit_rows :
    (e : Emission) (p : Payload) (user_id : String) (db : Db) {i : String} {next : Db}
    → emit e p user_id db ≡ ok (i, next)
    → (next.files ≡ db.files) × (next.chunks ≡ db.chunks) × (next.tags ≡ db.tags)
unfolding emit with_id insert_operation get_and_increment_vector_clock
emit_rows e p user_id db h = ground arith

-- no row of the list has the id of the chunk
abbrev pub IsNew : List Chunk → Chunk → Type 0
IsNew rows c = exists (λ row. str_eq row.chunk_id c.chunk_id) rows ≡ false

apart :
    (c : Chunk) (rows : List Chunk) (chunks : List Chunk)
    → All (IsNew (rows ++ c ∷ [])) chunks
    → All (λ d. str_eq d.chunk_id c.chunk_id ≡ false) chunks × All (IsNew rows) chunks
unfolding exists
apart c rows [] h = (tt, tt)
apart c rows (d ∷ rest) h =
    let later = apart c rows rest h.1 in
    let both = exists-append (λ (row : Chunk). str_eq row.chunk_id d.chunk_id) rows (c ∷ []) in
    (
      (ground (arith, h.0, both, eq_comm c.chunk_id d.chunk_id), later.0),
      (ground (arith, h.0, both), later.1),
    )

not_clashes : (c : Chunk) (rows : List Chunk) → exists (clashes c) rows ≡ false → IsNew rows c
unfolding exists
not_clashes c [] h = refl
not_clashes c (row ∷ rows) h = ground (arith, not_clashes c rows)

pub create_chunks-ok :
    (chunks rows : List Chunk) {next : List Chunk}
    → create_chunks chunks rows ≡ ok next
    → (next ≡ rows ++ chunks) × Distinct chunks × All (IsNew rows) chunks
unfolding create_chunks
create_chunks-ok [] rows h = (ground (arith, append_nil rows), tt, tt)
create_chunks-ok (c ∷ rest) rows {next} h = elim (Bool-cases (exists (clashes c) rows)) [
  | inl e ↦ absurd (cc (rw e at h))
  | inr e ↦
      let later = create_chunks-ok rest (rows ++ c ∷ []) (rw e at h) in
      let far = apart c rows rest later.2 in
      (later.0 ∙ append_assoc rows (c ∷ []) rest, (far.0, later.1), (not_clashes c rows e, far.1))
]

find_new :
    (file : File) (files : List File)
    → exists (λ f. is_file file.file_id f || is_file_at file.owner_id file.name f) files ≡ false
    → find (is_file file.file_id) (files ++ file ∷ []) ≡ some file
unfolding exists find
find_new file [] h = ground (arith, eq_refl file.file_id)
find_new file (f ∷ files) h = ground (arith, find_new file files)

create_file-ok :
    (file : File) (db : Db) {next : Db}
    → create_file file db ≡ ok next
    → (find (is_file file.file_id) next.files ≡ some file)
      × (next.chunks ≡ db.chunks)
      × (next.tags ≡ db.tags)
unfolding create_file
create_file-ok file db {next} h =
    elim (Bool-cases
      (exists (λ f. is_file file.file_id f || is_file_at file.owner_id file.name f) db.files)) [
        | inl e ↦ absurd (cc (rw e at h))
        | inr e ↦
            let whole = find_new file db.files e in
            subst
              (λ (n : Db).
                (find (is_file file.file_id) n.files ≡ some file)
                × (n.chunks ≡ db.chunks)
                × (n.tags ≡ db.tags))
              (ok-injective (rw e at h)) (whole, refl, refl)
      ]

drop_existing_rows :
    (existing : Option File) (db : Db)
    → ((drop_existing existing db).chunks ≡ db.chunks)
      × ((drop_existing existing db).tags ≡ db.tags)
unfolding drop_existing Repositories.delete_file
drop_existing_rows none db = (refl, refl)
drop_existing_rows (some f) db = (refl, refl)

with_chunks-ok :
    (chunks : List Chunk) (db : Db) {next : Db}
    → with_chunks chunks db ≡ ok next
    → (next.files ≡ db.files)
      × (next.tags ≡ db.tags)
      × (create_chunks chunks db.chunks ≡ ok next.chunks)
unfolding with_chunks
with_chunks-ok chunks db h =
    let (rows, stored, e) = >>=-ok (create_chunks chunks db.chunks) _ h in
    subst
      (λ (n : Db).
        (n.files ≡ db.files) × (n.tags ≡ db.tags) × (create_chunks chunks db.chunks ≡ ok n.chunks))
      (ok-injective e) (refl, refl, stored)

-- what is left of an upload in the tables
pub record IsRecorded (file : File) (tags : List String) (chunks : List Chunk) (before after : Db)
    : Type 0 where
  pub found : find (is_file file.file_id) after.files ≡ some file
  pub tagged : after.tags ≡ insert_tags file.file_id tags before.tags
  pub rows : after.chunks ≡ before.chunks ++ chunks
  pub distinct : Distinct chunks
  pub new : All (IsNew before.chunks) chunks

step-ok :
    {A : Type 0} {P : Type 0} (m : Result A) (f : A → Result Db) {next : Db}
    → ((a : A) → m ≡ ok a → f a ≡ ok next → P)
    → (m >>= f) ≡ ok next
    → P
step-ok (ok a) f k h = k a refl h
step-ok (err e) f k h = absurd (cc)

-- the four statements, one after the other
assembled :
    (fresh : Fresh) (u : Upload) (chunks : List Chunk) (existing : Option File)
    (db created stored emitted last : Db)
    → create_file (file_of fresh u) (drop_existing existing db) ≡ ok created
    → with_chunks chunks (record created { tags = insert_tags fresh.file_id u.tags created.tags })
      ≡ ok stored
    → (emitted.files ≡ stored.files)
      × (emitted.chunks ≡ stored.chunks)
      × (emitted.tags ≡ stored.tags)
    → (last.files ≡ emitted.files) × (last.chunks ≡ emitted.chunks) × (last.tags ≡ emitted.tags)
    → IsRecorded (file_of fresh u) u.tags chunks db last
unfolding file_of
assembled fresh u chunks existing db created stored emitted last c s first second =
    let dropped = drop_existing_rows existing db in
    let made = create_file-ok (file_of fresh u) (drop_existing existing db) c in
    let put =
      with_chunks-ok chunks
        (record created { tags = insert_tags fresh.file_id u.tags created.tags }) s in
    let same : created.chunks ≡ db.chunks = made.1 ∙ dropped.0 in
    let rows =
      create_chunks-ok chunks db.chunks
        (subst (λ (r : List Chunk). create_chunks chunks r ≡ ok stored.chunks) same put.2) in
    record {
      found = ap (find (is_file fresh.file_id)) (second.0 ∙ first.0 ∙ put.0) ∙ made.0;
      tagged =
          second.2 ∙ first.2 ∙ put.1 ∙ ap (insert_tags fresh.file_id u.tags) (made.2 ∙ dropped.1);
      rows = second.1 ∙ first.1 ∙ rows.0;
      distinct = rows.1;
      new = rows.2;
    }

pub record_upload-IsRecorded :
    (fresh : Fresh) (u : Upload) (chunks : List Chunk) (existing : Option File) (db : Db)
    {next : Db}
    → record_upload fresh u chunks existing db ≡ ok next
    → IsRecorded (file_of fresh u) u.tags chunks db next
unfolding record_upload emit_file_created emit_chunks_created
record_upload-IsRecorded fresh u chunks existing db {next} = step-ok _ _ λ created c.
    step-ok _ _ λ stored s.
      step-ok (emit_file_created fresh.file_emission (file_payload fresh u existing) stored) _
        λ emitted e.
          step-ok
            (emit_chunks_created fresh.chunks_emission (chunks_created_payload fresh u chunks)
              emitted.1)
            _
            λ last l h.
              subst (λ (n : Db). IsRecorded (file_of fresh u) u.tags chunks db n) (ok-injective h)
                (assembled fresh u chunks existing db created stored emitted.1 last.1 c s
                  (emit_rows fresh.file_emission (file_created (file_payload fresh u existing))
                    u.owner_id stored e)
                  (emit_rows fresh.chunks_emission
                    (chunks_created (chunks_created_payload fresh u chunks)) u.owner_id emitted.1
                    l))
