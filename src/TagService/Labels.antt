-- ===== src/TagService/Labels.antt =====
-- A removal leaves a tag on every file that had one, and does what its replica does elsewhere.
use redcloud_files.Base.{
  ◌≤◌, String, true, not, List, [], ◌∷◌, ◌==◌, ◌≡◌, refl, sym, subst, arith, eq_iff, str_eq, mem,
  select, delete, exists, Bool-cases, inl, inr, ◌∙◌,
}
use redcloud_files.Replication.Operation.{TagsChanged}
use redcloud_files.Replication.Database.{Db, Tag, Result, ok, err}
use redcloud_files.Replication.Log.{insert_operation}
use redcloud_files.Replication.Files.{is_tag}
use redcloud_files.Replication.Files.Labels.{has_tag}
use redcloud_files.Replication.Tags
use redcloud_files.Replication.Tags.{has_remaining}
use redcloud_files.Replication.Tags.Labels.{delete_tags-other, delete_tags_self}
use redcloud_files.Replication.Emitter.{
  Emission, emit, emit_tags_removed, with_id, get_and_increment_vector_clock,
}
use redcloud_files.Queries.{query_files_by_tags}
use redcloud_files.TagService.{
  Removal, delete_tags, total_tags, removed_tags, would_become_tagless, committed, continue_removal,
  remove_from_files, remove_tags_from_files,
}

-- the rows of the file that stay are those that the two counts differ by
counts :
    (file_id : String) (tags : List String) (rows : List Tag)
    → (removed_tags file_id tags rows ≤ total_tags file_id rows)
      × (has_remaining file_id tags rows
          ≡ not (total_tags file_id rows == removed_tags file_id tags rows))
unfolding total_tags removed_tags has_remaining select exists
counts file_id tags [] = ground arith
counts file_id tags (row ∷ rows) = ground (arith, counts file_id tags rows)

delete-in :
    (file_id tag : String) (tags : List String) (rows : List Tag)
    → delete_tags file_id (tag ∷ tags) rows
      ≡ delete_tags file_id tags (delete (is_tag file_id tag) rows)
unfolding delete_tags delete mem
delete-in file_id tag tags [] = refl
delete-in file_id tag tags (row ∷ rows) =
    ground (arith, delete-in file_id tag tags rows, eq_iff row.tag tag)

delete_nothing : (file_id : String) (rows : List Tag) → delete_tags file_id [] rows ≡ rows
unfolding delete_tags delete mem
delete_nothing file_id [] = refl
delete_nothing file_id (row ∷ rows) = ground (arith, delete_nothing file_id rows)

delete_tags_replica :
    (file_id : String) (tags : List String) (rows : List Tag)
    → delete_tags file_id tags rows ≡ Tags.delete_tags file_id tags rows
unfolding Tags.delete_tags
delete_tags_replica file_id [] rows = delete_nothing file_id rows
delete_tags_replica file_id (tag ∷ tags) rows =
    delete-in file_id tag tags rows
    ∙ delete_tags_replica file_id tags (delete (is_tag file_id tag) rows)

-- The service refuses a removal exactly when the handler of TAGS_REMOVED would skip it on the same
-- rows, and otherwise deletes the rows that the handler deletes.
pub would_become_tagless_replica :
    (file_id : String) (tags : List String) (rows : List Tag)
    → (would_become_tagless file_id tags rows ≡ not (has_remaining file_id tags rows))
      × (delete_tags file_id tags rows ≡ Tags.delete_tags file_id tags rows)
unfolding would_become_tagless
would_become_tagless_replica file_id tags rows =
    (ground (arith, counts file_id tags rows), delete_tags_replica file_id tags rows)

kept-has_tag :
    (file_id id : String) (tags : List String) (rows : List Tag)
    → has_remaining file_id tags rows ≡ true
    → has_tag id rows ≡ true
    → has_tag id (delete_tags file_id tags rows) ≡ true
kept-has_tag file_id id tags rows r h =
    let same = would_become_tagless_replica file_id tags rows in
    elim (Bool-cases (str_eq file_id id)) [
      | inl e ↦ ground (arith, same.1, eq_iff file_id id, delete_tags_self file_id tags rows r)
      | inr e ↦ ground (arith, same.1, delete_tags-other file_id tags id rows e h)
    ]

abbrev Keeps : Db → Db → Type 0
Keeps before after = (id : String) → has_tag id before.tags ≡ true → has_tag id after.tags ≡ true

emit-tags :
    (e : Emission) (p : TagsChanged) (db : Db) {i : String} {db' : Db}
    → emit_tags_removed e p db ≡ ok (i, db')
    → db'.tags ≡ db.tags
unfolding emit_tags_removed emit with_id insert_operation get_and_increment_vector_clock
emit-tags e p db {i} {db'} h = ground arith

abbrev KeepsIn : Db → Result (Removal × Db) → Type 0
KeepsIn before (ok (r, after)) = Keeps before after
KeepsIn before (err e) = Unit {0}

continue_removal-KeepsIn :
    (before : Db) (rest : Removal → Db → Result (Removal × Db)) (r : Removal)
    (o : Result (String × Db))
    → ((i : String) (db' : Db) → o ≡ ok (i, db') → KeepsIn before (rest r db'))
    → KeepsIn before (continue_removal rest r o)
unfolding continue_removal
continue_removal-KeepsIn before rest r (ok (i, db')) k = k i db' refl
continue_removal-KeepsIn before rest r (err e) k = tt

module _ (emissions : String → Emission) (start : Db) (tags : List String) (user_id : String) where
  remove_from_files-KeepsIn :
      (before : Db) (ids : List String) (r : Removal) (db : Db)
      → Keeps before db
      → KeepsIn before (remove_from_files emissions start tags user_id ids r db)
  unfolding remove_from_files
  remove_from_files-KeepsIn before [] r db k = k
  remove_from_files-KeepsIn before (file_id ∷ rest) r db k =
      elim (Bool-cases (would_become_tagless file_id tags db.tags)) [
        | inl e ↦ rw e (remove_from_files-KeepsIn before rest _ db k)
        | inr e ↦ rw e (
            continue_removal-KeepsIn before _ _ _ (λ i db' h.
              remove_from_files-KeepsIn before rest _ db' (λ id t.
                subst (λ (rows : List Tag). has_tag id rows ≡ true)
                  (sym (emit-tags (emissions file_id) _ _ h))
                  (kept-has_tag file_id id tags db.tags
                    (ground (arith, e, (would_become_tagless_replica file_id tags db.tags).0))
                    (k id t)))))
      ]

committed-Keeps :
    (before : Db) (o : Result (Removal × Db))
    → KeepsIn before o
    → Keeps before (committed before o).1
unfolding committed
committed-Keeps before (ok (r, after)) k = k
committed-Keeps before (err e) k = λ id t. t

-- Whatever the removal of tags answers or raises, every file that had a tag has one afterwards.
pub remove_tags_from_files_keeps :
    (emissions : String → Emission) (query_tags tags_to_remove : List String) (user_id : String)
    (db : Db) (id : String)
    → has_tag id db.tags ≡ true
    → has_tag id (remove_tags_from_files emissions query_tags tags_to_remove user_id db).1.tags
      ≡ true
unfolding remove_tags_from_files
remove_tags_from_files_keeps emissions [] ts user_id db id h = h
remove_tags_from_files_keeps emissions (q ∷ qs) [] user_id db id h = h
remove_tags_from_files_keeps emissions (q ∷ qs) (t ∷ ts) user_id db id h =
    committed-Keeps db _
      (remove_from_files-KeepsIn emissions db (t ∷ ts) user_id db
        (query_files_by_tags (q ∷ qs) user_id db)
        (record { updated_file_ids = []; skipped_files = [] }) db (λ i t'. t'))
      id h
