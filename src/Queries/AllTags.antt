-- ===== src/Queries/AllTags.antt =====
-- A tag query finds the files of the owner that have every tag of the query.
use redcloud_files.Base.{
  ℕ, ◌+◌, ◌≤◌, String, Bool, true, false, ◌&&◌, List, [], ◌∷◌, length, ◌==◌, ◌≡◌, refl, arith,
  eq_iff, eq_comm, str_eq, mem, set_of, mem-set_of, select, Bool-cases, inl, inr, exists,
}
use redcloud_files.Replication.Database.{Db, File, Tag}
use redcloud_files.Replication.Files.{is_tag}
use redcloud_files.Queries.{tags_among, has_all, query_by_tags_and_owner}

-- no tag stands twice
abbrev pub IsTagSet : List String → Type 0
IsTagSet [] = Unit
IsTagSet (t ∷ ts) = (mem t ts ≡ false) × IsTagSet ts

abbrev pub has_each : List String → List Tag → File → Bool
has_each [] rows f = true
has_each (t ∷ ts) rows f = exists (is_tag f.file_id t) rows && has_each ts rows f

mem-tags_among :
    (x file_id : String) (tags : List String) (rows : List Tag)
    → mem x (tags_among file_id tags rows) ≡ (exists (is_tag file_id x) rows && mem x tags)
unfolding mem tags_among exists
mem-tags_among x file_id tags [] = refl
mem-tags_among x file_id tags (row ∷ rows) =
    ground (arith, mem-tags_among x file_id tags rows, eq_iff x row.tag, eq_comm x row.tag)

abbrev one_if : Bool → ℕ
one_if true = 1
one_if false = 0

-- one tag more in the query counts once if the file has it
count-cons :
    (file_id t : String) (ts : List String) (rows : List Tag)
    → mem t ts ≡ false
    → length (set_of (tags_among file_id (t ∷ ts) rows))
      ≡ one_if (exists (is_tag file_id t) rows) + length (set_of (tags_among file_id ts rows))
unfolding tags_among set_of mem exists
count-cons file_id t ts [] h = refl
count-cons file_id t ts (row ∷ rows) h = ground (
  arith,
  count-cons file_id t ts rows h,
  eq_iff row.tag t,
  mem-set_of row.tag (tags_among file_id (t ∷ ts) rows),
  mem-set_of row.tag (tags_among file_id ts rows),
  mem-tags_among row.tag file_id (t ∷ ts) rows,
  mem-tags_among row.tag file_id ts rows,
)

tags_among-nil : (file_id : String) (rows : List Tag) → tags_among file_id [] rows ≡ []
unfolding tags_among mem
tags_among-nil file_id [] = refl
tags_among-nil file_id (row ∷ rows) = ground (arith, tags_among-nil file_id rows)

count-has_each :
    (f : File) (tags : List String) (rows : List Tag)
    → IsTagSet tags
    → (length (set_of (tags_among f.file_id tags rows)) ≤ length tags)
      × (has_each tags rows f ≡ (length (set_of (tags_among f.file_id tags rows)) == length tags))
unfolding set_of
count-has_each f [] rows h = ground (arith, tags_among-nil f.file_id rows)
count-has_each f (t ∷ ts) rows h =
    ground (arith, count-has_each f ts rows h.1, count-cons f.file_id t ts rows h.0)

select-same :
    (p q : File → Bool) (files : List File)
    → ((f : File) → p f ≡ q f)
    → select p files ≡ select q files
unfolding select
select-same p q [] h = refl
select-same p q (f ∷ files) h = ground (arith, h f, select-same p q files h)

-- With no tag twice and at least one, the query finds the files of the owner that have each of the
-- tags.
pub query_by_tags_and_owner-has_each :
    (tag : String) (tags : List String) (owner_id : String) (db : Db)
    → IsTagSet (tag ∷ tags)
    → query_by_tags_and_owner (tag ∷ tags) owner_id db
      ≡ select (λ f. str_eq f.owner_id owner_id && has_each (tag ∷ tags) db.tags f) db.files
unfolding query_by_tags_and_owner has_all
query_by_tags_and_owner-has_each tag tags owner_id db h =
    select-same
      (λ f.
        str_eq f.owner_id owner_id
        && length (set_of (tags_among f.file_id (tag ∷ tags) db.tags)) == length (tag ∷ tags))
      (λ f. str_eq f.owner_id owner_id && has_each (tag ∷ tags) db.tags f) db.files
      (λ f. ground (arith, (count-has_each f (tag ∷ tags) db.tags h).1))

tags_among-repeated :
    (file_id t : String) (ts : List String) (rows : List Tag)
    → mem t ts ≡ true
    → tags_among file_id (t ∷ ts) rows ≡ tags_among file_id ts rows
unfolding tags_among mem
tags_among-repeated file_id t ts [] h = refl
tags_among-repeated file_id t ts (row ∷ rows) h =
    ground (arith, tags_among-repeated file_id t ts rows h, eq_iff row.tag t)

count_bounded :
    (file_id : String) (tags : List String) (rows : List Tag)
    → length (set_of (tags_among file_id tags rows)) ≤ length tags
unfolding set_of
count_bounded file_id [] rows = ground (arith, tags_among-nil file_id rows)
count_bounded file_id (t ∷ ts) rows = elim (Bool-cases (mem t ts)) [
  | inl e ↦ ground (arith, tags_among-repeated file_id t ts rows e, count_bounded file_id ts rows)
  | inr e ↦ ground (arith, count-cons file_id t ts rows e, count_bounded file_id ts rows)
]

select-nothing :
    (p : File → Bool) (files : List File) → ((f : File) → p f ≡ false) → select p files ≡ []
unfolding select
select-nothing p [] h = refl
select-nothing p (f ∷ files) h = ground (arith, h f, select-nothing p files h)

-- A query whose first tag stands in it again finds nothing, whatever the tables hold.
pub query_by_tags_and_owner_repeated :
    (tag : String) (tags : List String) (owner_id : String) (db : Db)
    → mem tag tags ≡ true
    → query_by_tags_and_owner (tag ∷ tags) owner_id db ≡ []
unfolding query_by_tags_and_owner has_all
query_by_tags_and_owner_repeated tag tags owner_id db h =
    select-nothing
      (λ f.
        str_eq f.owner_id owner_id
        && length (set_of (tags_among f.file_id (tag ∷ tags) db.tags)) == length (tag ∷ tags))
      db.files
      (λ f. ground (
        arith,
        tags_among-repeated f.file_id tag tags db.tags h,
        count_bounded f.file_id tags db.tags,
      ))
