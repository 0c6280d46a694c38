-- ===== src/Replication/Files/Ordering.antt =====
-- A file's creation and its deletion, delivered in either order.
use redcloud_files.Base.{
  String, Bool, true, false, not, ◌||◌, some, none, [], ◌∷◌, ◌++◌, ◌≡◌, arith, eq_iff, str_eq,
  str_lt, exists, find, delete, exists-append, exists-delete, delete-append, exists_none,
  exists_weaken, find-none, Bool-cases, inl, inr,
}
use redcloud_files.Replication.Operation.{Operation, Payload, FileCreated, FileDeleted}
use redcloud_files.Replication.Database.{Db, File, Tombstone, ok}
use redcloud_files.Replication.Log.{mark_operation_applied, merge_vector_clock}
use redcloud_files.Replication.Log.Marks.{find-snoc}
use redcloud_files.Replication.Users.{finish, skip}
use redcloud_files.Replication.Files.{
  Created, is_file, is_file_at, is_tombstone_at, insert_file, insert_tags, put_tombstone,
  apply_file_created, apply_file_deleted,
}

-- the test of the constraints on a new file
abbrev pub clashes : FileCreated → File → Bool
clashes p f = is_file p.file_id f || is_file_at p.owner_id p.name f

-- a file has the name
abbrev pub is_present : FileCreated → Db → Bool
is_present p db = exists (is_file_at p.owner_id p.name) db.files

-- the deletion that names the created file
abbrev pub deletion : FileCreated → String → String → FileDeleted
deletion p deleted_at controller_id = record {
  file_id = p.file_id;
  name = p.name;
  owner_id = p.owner_id;
  deleted_at = deleted_at;
  deleted_by_controller_id = controller_id;
  chunk_ids = [];
}

module _ (now : String) (likes : String → Payload → Bool) (creation removal : Operation)
    (p : FileCreated) (deleted_at controller_id : String) (db : Db)
    (fresh : exists (clashes p) db.files ≡ false)
    (no_tombstone : find (is_tombstone_at p.owner_id p.name) db.file_tombstones ≡ none) where
  abbrev row : File
  row = record {
    file_id = p.file_id;
    name = p.name;
    size = p.size;
    owner_id = p.owner_id;
    created_at = p.created_at;
  }

  no_file : exists (is_file_at p.owner_id p.name) db.files ≡ false
  no_file = exists_weaken _ (clashes p) db.files (λ f h. ground arith) fresh

  row_gone :
      exists (is_file_at p.owner_id p.name) (delete (is_file p.file_id) (db.files ++ row ∷ []))
      ≡ false
  unfolding delete exists
  row_gone = ground (
    arith,
    delete-append (is_file p.file_id) db.files (row ∷ []),
    exists-append (is_file_at p.owner_id p.name) (delete (is_file p.file_id) db.files)
        (delete (is_file p.file_id) (row ∷ [])),
    exists-delete (is_file_at p.owner_id p.name) (is_file p.file_id) db.files no_file,
    eq_iff p.file_id p.file_id,
  )

  row_there : exists (is_file_at p.owner_id p.name) (db.files ++ row ∷ []) ≡ true
  unfolding exists
  row_there = ground (
    arith,
    exists-append (is_file_at p.owner_id p.name) db.files (row ∷ []),
    eq_iff p.owner_id p.owner_id,
    eq_iff p.name p.name,
  )

  abbrev created_db : Db
  created_db = mark_operation_applied creation.operation_id (
      merge_vector_clock now creation.vector_clock
        (record db { files = db.files ++ row ∷ []; tags = insert_tags p.file_id p.tags db.tags }))

  abbrev created : Created
  created = record { success = true; db = created_db; lost = none }

  -- the tables after a deletion that is not skipped, from those without the file
  abbrev with_tombstone : Db → Db
  with_tombstone base = mark_operation_applied removal.operation_id (
      merge_vector_clock now removal.vector_clock
        (put_tombstone removal (deletion p deleted_at controller_id) base))

  create_first : apply_file_created now likes creation p db ≡ ok created
  unfolding apply_file_created insert_file finish
  create_first = ground (arith, no_tombstone, exists_none _ db.files no_file, fresh)

  found_row : find (is_file_at p.owner_id p.name) (db.files ++ row ∷ []) ≡ some row
  found_row =
      find-snoc _ db.files row (ground (arith, eq_iff p.owner_id p.owner_id, eq_iff p.name p.name))
        (exists_none _ db.files no_file)

  -- Where no file and no tombstone has the name and no file the id, neither the creation nor the
  -- deletion after it raises, and the file is there after both exactly when the deletion is older
  -- than the creation.
  pub created_then_deleted :
      (c : Created) × (b : Bool) × (db' : Db) × (apply_file_created now likes creation p db ≡ ok c)
      × (apply_file_deleted now removal (deletion p deleted_at controller_id) c.db ≡ ok (b, db'))
      × (is_present p db' ≡ str_lt deleted_at p.created_at)
  unfolding apply_file_deleted put_tombstone finish skip mark_operation_applied merge_vector_clock
  created_then_deleted = elim (Bool-cases (str_lt deleted_at p.created_at)) [
    | inl older ↦ (
      created,
      false,
      mark_operation_applied removal.operation_id created_db,
      create_first,
      rw (found_row, older),
      rw older row_there,
    )
    | inr newer ↦ (
      created,
      true,
      with_tombstone
          (record created_db { files = delete (is_file p.file_id) (db.files ++ row ∷ []) }),
      create_first,
      rw (found_row, newer),
      rw newer row_gone,
    )
  ]

  abbrev tombstone : Tombstone
  tombstone = record {
    file_id = p.file_id;
    owner_id = p.owner_id;
    name = p.name;
    deleted_at = deleted_at;
    deleted_by_controller_id = controller_id;
    operation_id = removal.operation_id;
  }

  found_tombstone :
      find
        (is_tombstone_at p.owner_id p.name)
        (delete (λ t. str_eq t.file_id p.file_id) db.file_tombstones ++ tombstone ∷ [])
      ≡ some tombstone
  found_tombstone =
      find-snoc _ _ tombstone (ground (arith, eq_iff p.owner_id p.owner_id, eq_iff p.name p.name)) (
        exists_none _ _
          (exists-delete _ _ db.file_tombstones (find-none _ db.file_tombstones no_tombstone)))

  -- the tables after a creation that the tombstone does not stop
  abbrev revived : Db
  revived = mark_operation_applied creation.operation_id (
      merge_vector_clock now creation.vector_clock (record (with_tombstone db) {
        files = db.files ++ row ∷ [];
        tags = insert_tags p.file_id p.tags db.tags;
        file_tombstones =
            delete (is_tombstone_at p.owner_id p.name) (with_tombstone db).file_tombstones;
      }))

  -- Where no file and no tombstone has the name and no file the id, the deletion and then the
  -- creation succeed, and the file is there after both exactly when the deletion is not newer.
  pub deleted_then_created :
      (db' : Db) × (c : Created) × (apply_file_deleted now removal
          (deletion p deleted_at controller_id)
          db
        ≡ ok (true, db'))
      × (apply_file_created now likes creation p db' ≡ ok c)
      × (is_present p c.db ≡ not (str_lt p.created_at deleted_at))
  unfolding apply_file_created apply_file_deleted insert_file put_tombstone finish skip
      mark_operation_applied merge_vector_clock
  deleted_then_created = elim (Bool-cases (str_lt p.created_at deleted_at)) [
    | inl newer ↦ (
      with_tombstone db,
      record {
        success = false;
        db = mark_operation_applied creation.operation_id (with_tombstone db);
        lost = none;
      },
      rw (exists_none _ db.files no_file),
      rw (found_tombstone, newer),
      rw newer no_file,
    )
    | inr older ↦ (
      with_tombstone db,
      record { success = true; db = revived; lost = none },
      rw (exists_none _ db.files no_file),
      rw (found_tombstone, older, exists_none _ db.files no_file, fresh),
      rw older row_there,
    )
  ]
