-- ===== src/Replication/Tags/Labels.antt =====
-- The tags of a file after TAGS_REMOVED.
use redcloud_files.Base.{
  String, true, false, List, [], ◌∷◌, ◌≡◌, arith, eq_iff, str_eq, exists, delete, mem,
}
use redcloud_files.Replication.Database.{Tag}
use redcloud_files.Replication.Files.{is_tag}
use redcloud_files.Replication.Files.Labels.{has_tag}
use redcloud_files.Replication.Tags.{delete_tags, has_remaining}

delete-keeps :
    (f tag id : String) (rows : List Tag)
    → str_eq f id ≡ false
    → has_tag id rows ≡ true
    → has_tag id (delete (is_tag f tag) rows) ≡ true
unfolding exists delete
delete-keeps f tag id [] ne h = cc
delete-keeps f tag id (r ∷ rows) ne h =
    ground (arith, delete-keeps f tag id rows, eq_iff r.file_id f, eq_iff r.file_id id, eq_iff f id)

pub delete_tags-other :
    (f : String) (tags : List String) (id : String) (rows : List Tag)
    → str_eq f id ≡ false
    → has_tag id rows ≡ true
    → has_tag id (delete_tags f tags rows) ≡ true
unfolding delete_tags
delete_tags-other f [] id rows ne h = h
delete_tags-other f (tag ∷ tags) id rows ne h =
    delete_tags-other f tags id _ ne (delete-keeps f tag id rows ne h)

remaining-step :
    (f tag : String) (tags : List String) (rows : List Tag)
    → has_remaining f (tag ∷ tags) rows ≡ true
    → has_remaining f tags (delete (is_tag f tag) rows) ≡ true
unfolding has_remaining exists delete mem
remaining-step f tag tags [] h = cc
remaining-step f tag tags (r ∷ rows) h = ground (arith, remaining-step f tag tags rows)

remaining-tag :
    (f : String) (rows : List Tag) → has_remaining f [] rows ≡ true → has_tag f rows ≡ true
unfolding has_remaining exists mem
remaining-tag f [] h = cc
remaining-tag f (r ∷ rows) h = ground (arith, remaining-tag f rows)

pub delete_tags_self :
    (f : String) (tags : List String) (rows : List Tag)
    → has_remaining f tags rows ≡ true
    → has_tag f (delete_tags f tags rows) ≡ true
unfolding delete_tags
delete_tags_self f [] rows h = remaining-tag f rows h
delete_tags_self f (tag ∷ tags) rows h =
    delete_tags_self f tags _ (remaining-step f tag tags rows h)
