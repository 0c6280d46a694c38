-- ===== src/Replication/Files/Labels.antt =====
-- The tags of a file after rows of the `tags` table are inserted or deleted.
use redcloud_files.Base.{
  String, Bool, true, false, List, [], ◌∷◌, ◌≡◌, ◌≢◌, refl, arith, eq_iff, str_eq, if◌then◌else◌,
  exists, exists-append, delete,
}
use redcloud_files.Replication.Database.{Tag}
use redcloud_files.Replication.Files.{tag_of, is_tag, insert_tags}

abbrev pub has_tag : String → List Tag → Bool
has_tag file_id rows = exists (tag_of file_id) rows

has_tag_of_is_tag :
    (f tag : String) (rows : List Tag) → exists (is_tag f tag) rows ≡ true → has_tag f rows ≡ true
unfolding exists
has_tag_of_is_tag f tag [] h = cc
has_tag_of_is_tag f tag (r ∷ rows) h = ground (arith, has_tag_of_is_tag f tag rows)

pub insert_tags_mono :
    (f : String) (tags : List String) (id : String) (rows : List Tag)
    → has_tag id rows ≡ true
    → has_tag id (insert_tags f tags rows) ≡ true
unfolding insert_tags
insert_tags_mono f [] id rows h = h
insert_tags_mono f (tag ∷ tags) id rows h =
    insert_tags_mono f tags id _
      (ground (arith, exists-append (tag_of id) rows (record { file_id = f; tag = tag } ∷ [])))

pub insert_tags_some :
    (f : String) (tags : List String) (rows : List Tag)
    → tags ≢ []
    → has_tag f (insert_tags f tags rows) ≡ true
unfolding insert_tags exists
insert_tags_some f [] rows h = absurd (h refl)
insert_tags_some f (tag ∷ tags) rows h = insert_tags_mono f tags f _ (
    ground (
      arith,
      exists-append (tag_of f) rows (record { file_id = f; tag = tag } ∷ []),
      eq_iff f f,
      has_tag_of_is_tag f tag rows,
    ))

pub has_tag-delete :
    (f id : String) (rows : List Tag)
    → has_tag id (delete (tag_of f) rows) ≡ (if str_eq f id then false else has_tag id rows)
unfolding exists delete
has_tag-delete f id [] = ground arith
has_tag-delete f id (r ∷ rows) =
    ground (arith, has_tag-delete f id rows, eq_iff r.file_id f, eq_iff r.file_id id, eq_iff f id)
