-- ===== src/TagService/Additions.antt =====
-- What adding tags leaves: the new tags on the files that it answers, and every other row as it was.
use redcloud_files.Base.{
  String, true, false, ◌&&◌, ◌||◌, List, [], ◌∷◌, ◌≡◌, refl, arith, eq_iff, str_eq, mem, exists,
  exists-append, ap, subst, Bool-cases, inl, inr,
}
use redcloud_files.Replication.Operation.{TagsChanged}
use redcloud_files.Replication.Database.{Db, Tag, Result, ok, err}
use redcloud_files.Replication.Log.{insert_operation}
use redcloud_files.Replication.Files.{is_tag, insert_tags}
use redcloud_files.Replication.Emitter.{
  Emission, emit, emit_tags_added, with_id, get_and_increment_vector_clock,
}
use redcloud_files.Queries.{query_files_by_tags}
use redcloud_files.TagService.{
  Reply, invalid_tag_query, raised, replied, committed, with_answer, continue_with, add_to_files,
  add_tags_to_files,
}

abbrev added : String → String → List Tag → List Tag
added f tag rows = insert_tags f (tag ∷ []) rows

insert_tag_self :
    (f tag : String) (rows : List Tag) → exists (is_tag f tag) (added f tag rows) ≡ true
unfolding insert_tags exists
insert_tag_self f tag rows = ground (
  arith,
  exists-append (is_tag f tag) rows (record { file_id = f; tag = tag } ∷ []),
  eq_iff f f,
  eq_iff tag tag,
)

insert_tag_other :
    (f tag id t : String) (rows : List Tag)
    → (str_eq f id && str_eq tag t) ≡ false
    → exists (is_tag id t) (added f tag rows) ≡ exists (is_tag id t) rows
unfolding insert_tags exists
insert_tag_other f tag id t rows h =
    ground (arith, exists-append (is_tag id t) rows (record { file_id = f; tag = tag } ∷ []))

insert_tag_has :
    (f tag id t : String) (rows : List Tag)
    → exists (is_tag id t) (added f tag rows)
      ≡ (exists (is_tag id t) rows || (str_eq f id && str_eq tag t))
insert_tag_has f tag id t rows = elim (Bool-cases (str_eq f id && str_eq tag t)) [
  | inl e ↦
      let same : (f ≡ id) × (tag ≡ t) = ground (arith, eq_iff f id, eq_iff tag t) in
      let self : exists (is_tag id t) (added f tag rows) ≡ true =
        subst (λ i. exists (is_tag i t) (added f tag rows) ≡ true) same.0
          (subst (λ u. exists (is_tag f u) (added f tag rows) ≡ true) same.1
            (insert_tag_self f tag rows)) in
      ground (arith, self)
  | inr e ↦ ground (arith, insert_tag_other f tag id t rows e)
]

insert_tags_has :
    (f id t : String) (tags : List String) (rows : List Tag)
    → exists (is_tag id t) (insert_tags f tags rows)
      ≡ (exists (is_tag id t) rows || (str_eq f id && mem t tags))
unfolding insert_tags mem
insert_tags_has f id t [] rows = ground arith
insert_tags_has f id t (tag ∷ tags) rows = ground (
  arith,
  insert_tag_has f tag id t rows,
  insert_tags_has f id t tags (insert_tags f (tag ∷ []) rows),
  eq_iff tag t,
  eq_iff t tag,
)

abbrev HasAdded : List String → List String → Db → Result Db → Type 0
HasAdded tags ids before (ok after) =
    (id t : String)
    → exists (is_tag id t) after.tags
      ≡ (exists (is_tag id t) before.tags || (mem id ids && mem t tags))
HasAdded tags ids before (err e) = Unit {0}

emit-tags :
    (e : Emission) (p : TagsChanged) (db : Db) {i : String} {db' : Db}
    → emit_tags_added e p db ≡ ok (i, db')
    → db'.tags ≡ db.tags
unfolding emit_tags_added emit with_id insert_operation get_and_increment_vector_clock
emit-tags e p db {i} {db'} h = ground arith

more-HasAdded :
    (tags : List String) (file_id : String) (ids : List String) (before next : Db) (o : Result Db)
    → next.tags ≡ insert_tags file_id tags before.tags
    → HasAdded tags ids next o
    → HasAdded tags (file_id ∷ ids) before o
unfolding mem
more-HasAdded tags file_id ids before next (ok after) s k = λ id t. ground (
  arith,
  k id t,
  ap (λ rows. exists (is_tag id t) rows) s,
  insert_tags_has file_id id t tags before.tags,
  eq_iff file_id id,
  eq_iff id file_id,
)
more-HasAdded tags file_id ids before next (err e) s k = tt

continue_with-HasAdded :
    (tags : List String) (file_id : String) (ids : List String) (before : Db)
    (rest : Db → Result Db) (o : Result (String × Db))
    → ((i : String) (db' : Db) → o ≡ ok (i, db') → db'.tags ≡ insert_tags file_id tags before.tags)
    → ((db' : Db) → HasAdded tags ids db' (rest db'))
    → HasAdded tags (file_id ∷ ids) before (continue_with rest o)
unfolding continue_with
continue_with-HasAdded tags file_id ids before rest (ok (i, db')) s k =
    more-HasAdded tags file_id ids before db' (rest db') (s i db' refl) (k db')
continue_with-HasAdded tags file_id ids before rest (err e) s k = tt

add_to_files-HasAdded :
    (emissions : String → Emission) (tags : List String) (user_id : String) (ids : List String)
    (db : Db)
    → HasAdded tags ids db (add_to_files emissions tags user_id ids db)
unfolding add_to_files mem
add_to_files-HasAdded emissions tags user_id [] db = λ id t. ground arith
add_to_files-HasAdded emissions tags user_id (file_id ∷ ids) db =
    continue_with-HasAdded tags file_id ids db _ _ (λ i db' e. emit-tags _ _ _ e)
      (λ db'. add_to_files-HasAdded emissions tags user_id ids db')

-- the files that an answer names, none where the call raised
abbrev pub answered : Reply (List String) → List String
answered invalid_tag_query = []
answered (raised e) = []
answered (replied ids) = ids

committed-Added :
    (tags ids : List String) (before : Db) (o : Result Db) (id t : String)
    → HasAdded tags ids before o
    → exists (is_tag id t) (committed before (with_answer ids o)).1.tags ≡ (
        exists (is_tag id t) before.tags
        || (mem id (answered (committed before (with_answer ids o)).0) && mem t tags))
unfolding committed with_answer mem
committed-Added tags ids before (ok after) id t k = k id t
committed-Added tags ids before (err e) id t k = ground arith

-- After add_tags_to_files a file has a tag exactly when it had it, or the answer names the file and
-- the tag is a new one; a call that raises adds none.
pub add_tags_to_files_adds :
    (emissions : String → Emission) (query_tags new_tags : List String) (user_id : String) (db : Db)
    (id t : String)
    → exists (is_tag id t) (add_tags_to_files emissions query_tags new_tags user_id db).1.tags ≡ (
        exists (is_tag id t) db.tags
        || (mem id (answered (add_tags_to_files emissions query_tags new_tags user_id db).0)
            && mem t new_tags))
unfolding add_tags_to_files mem
add_tags_to_files_adds emissions [] ts user_id db id t = ground arith
add_tags_to_files_adds emissions (q ∷ qs) [] user_id db id t = ground arith
add_tags_to_files_adds emissions (q ∷ qs) (n ∷ ns) user_id db id t =
    committed-Added (n ∷ ns) _ db _ id t (
      add_to_files-HasAdded emissions (n ∷ ns) user_id (query_files_by_tags (q ∷ qs) user_id db) db)
