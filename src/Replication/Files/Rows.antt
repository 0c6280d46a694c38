-- ===== src/Replication/Files/Rows.antt =====
-- The unique constraints of the `files` table: `file_id`, and the pair of `owner_id` and `name`.
use redcloud_files.Base.{
  String, Bool, true, false, not, ◌&&◌, ◌||◌, List, [], ◌∷◌, ◌++◌, ◌≡◌, ◌≢◌, refl, subst, arith,
  eq_iff, str_eq, exists, exists-append, exists-delete, find, update, update-none, delete, some,
  All, Bool-cases, inl, inr,
}
use redcloud_files.Replication.Operation.{FileCreated}
use redcloud_files.Replication.Database.{File, Tag}
use redcloud_files.Replication.Files.{is_file, is_file_at, tag_of, insert_tags, overwritten}
use redcloud_files.Replication.Files.Labels.{
  has_tag, insert_tags_some, insert_tags_mono, has_tag-delete,
}

abbrev pub IsDistinct : List File → Type 0
IsDistinct [] = Unit
IsDistinct (f ∷ fs) =
    (exists (is_file f.file_id) fs ≡ false)
    × (exists (is_file_at f.owner_id f.name) fs ≡ false)
    × IsDistinct fs

pub IsDistinct-snoc :
    (f : File) (fs : List File)
    → exists (λ g. is_file f.file_id g || is_file_at f.owner_id f.name g) fs ≡ false
    → IsDistinct fs
    → IsDistinct (fs ++ f ∷ [])
unfolding exists
IsDistinct-snoc f [] h d = (refl, refl, tt)
IsDistinct-snoc f (g ∷ gs) h d = ground (
  arith,
  IsDistinct-snoc f gs,
  exists-append (is_file g.file_id) gs (f ∷ []),
  exists-append (is_file_at g.owner_id g.name) gs (f ∷ []),
  eq_iff g.file_id f.file_id,
  eq_iff f.file_id g.file_id,
  eq_iff g.owner_id f.owner_id,
  eq_iff f.owner_id g.owner_id,
  eq_iff f.name g.name,
  eq_iff g.name f.name,
)

pub IsDistinct-delete :
    (q : File → Bool) (fs : List File) → IsDistinct fs → IsDistinct (delete q fs)
unfolding delete
IsDistinct-delete q [] d = tt
IsDistinct-delete q (f ∷ fs) d = ground (
  arith,
  IsDistinct-delete q fs,
  exists-delete (is_file f.file_id) q fs,
  exists-delete (is_file_at f.owner_id f.name) q fs,
)

-- every file has a tag
abbrev pub AllTagged : List Tag → List File → Type 0
AllTagged tags = All (λ f. has_tag f.file_id tags ≡ true)

module _ (p : FileCreated) where
  abbrev pub is_target : File → Bool
  is_target = is_file_at p.owner_id p.name

  -- another file has the new `file_id`
  abbrev pub is_clash : File → Bool
  is_clash f = not (is_file_at p.owner_id p.name f) && is_file p.file_id f

  names-update :
      (a b : String) (fs : List File)
      → exists (is_file_at a b) (update is_target (overwritten p) fs) ≡ exists (is_file_at a b) fs
  unfolding exists update
  names-update a b [] = refl
  names-update a b (f ∷ fs) = ground (arith, names-update a b fs)

  ids-update :
      (i : String) (fs : List File)
      → exists (is_file i) fs ≡ false
      → str_eq p.file_id i ≡ false
      → exists (is_file i) (update is_target (overwritten p) fs) ≡ false
  unfolding exists update
  ids-update i [] h ne = refl
  ids-update i (f ∷ fs) h ne = ground (arith, ids-update i fs)

  no_other :
      (fs : List File)
      → exists is_clash fs ≡ false
      → exists is_target fs ≡ false
      → exists (is_file p.file_id) fs ≡ false
  unfolding exists
  no_other [] h g = refl
  no_other (f ∷ fs) h g = ground (arith, no_other fs)

  -- a row with the target's name has no other such row behind it
  target_once :
      (f : File) (fs : List File)
      → exists (is_file_at f.owner_id f.name) fs ≡ false
      → is_target f ≡ true
      → exists is_target fs ≡ false
  unfolding exists
  target_once f [] h t = refl
  target_once f (g ∷ gs) h t =
      ground (arith, target_once f gs, eq_iff f.owner_id p.owner_id, eq_iff f.name p.name)

  pub IsDistinct-update :
      (fs : List File)
      → exists is_clash fs ≡ false
      → IsDistinct fs
      → IsDistinct (update is_target (overwritten p) fs)
  unfolding exists update
  IsDistinct-update [] h d = tt
  IsDistinct-update (f ∷ fs) h d = ground (
    arith,
    IsDistinct-update fs,
    target_once f fs,
    no_other fs,
    update-none is_target (overwritten p) fs,
    ids-update f.file_id fs,
    names-update f.owner_id f.name fs,
    eq_iff p.file_id f.file_id,
    eq_iff f.file_id p.file_id,
  )

  find-id :
      (fs : List File) {e : File}
      → find is_target fs ≡ some e
      → exists (is_file e.file_id) fs ≡ true
  unfolding find exists
  find-id [] h = cc
  find-id (f ∷ fs) {e} h = ground (arith, find-id fs {e = e}, eq_iff e.file_id e.file_id)

  module _ (e : File) (tags : List Tag) (some_tag : p.tags ≢ []) where
    abbrev pub retagged : List Tag
    retagged = insert_tags p.file_id p.tags (delete (tag_of e.file_id) tags)

    kept_tag :
        (id : String)
        → str_eq id e.file_id ≡ false
        → has_tag id tags ≡ true
        → has_tag id retagged ≡ true
    kept_tag id ne h =
        insert_tags_mono p.file_id p.tags id _ (
          ground
            (arith, has_tag-delete e.file_id id tags, eq_iff e.file_id id, eq_iff id e.file_id))

    rest_tagged :
        (fs : List File)
        → exists (is_file e.file_id) fs ≡ false
        → AllTagged tags fs
        → AllTagged retagged fs
    unfolding exists
    rest_tagged [] h t = tt
    rest_tagged (f ∷ fs) h t =
        (kept_tag f.file_id (ground arith) t.0, rest_tagged fs (ground arith) t.1)

    pub AllTagged-update :
        (fs : List File)
        → find is_target fs ≡ some e
        → IsDistinct fs
        → AllTagged tags fs
        → AllTagged retagged (update is_target (overwritten p) fs)
    unfolding find update exists
    AllTagged-update [] h d t = tt
    AllTagged-update (f ∷ fs) h d t = elim (Bool-cases (is_target f)) [
      | inl at ↦
          let same : f ≡ e = ground arith in
          rw (at, update-none is_target (overwritten p) fs (target_once f fs d.1 at))
            (
              insert_tags_some p.file_id p.tags _ some_tag,
              rest_tagged fs (subst (λ x. exists (is_file x.file_id) fs ≡ false) same d.0) t.1,
            )
      | inr other ↦
          let found : find is_target fs ≡ some e = ground arith in
          let ne : str_eq f.file_id e.file_id ≡ false =
            ground (arith, find-id fs {e = e} found, d.0, eq_iff f.file_id e.file_id) in
          rw other (kept_tag f.file_id ne t.0, AllTagged-update fs found d.2 t.1)
    ]
