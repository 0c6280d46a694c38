-- ===== src/CleanupTask.antt =====
-- controller/cleanup_task.py: a cycle of OrphanedChunkCleaner.
use redcloud_files.Base.{
  Bool, true, false, String, Option, none, some, List, [], ◌∷◌, if◌then◌else◌, str_eq,
}
use redcloud_files.ChunkClient.{Net, Link, Answer, answer, delete_chunk}

-- an entry of the log, with its `chunk_id` if it has one
abbrev pub Entry : Type 0
Entry = Option String

-- orphaned_chunks.json: it is not there, it cannot be read, or it has these entries
pub data Log : Type 0 where
  no_log unreadable : Log
  entries : List Entry → Log

-- an entry that stays, in front of those that stay after it
unfoldable pub after_deletion :
    Entry → (Link → List Entry × Link) → Answer Bool × Link → List Entry × Link
after_deletion entry rest (answer true, next) = rest next
after_deletion entry rest (_, next) = let (remaining, last) = rest next in (entry ∷ remaining, last)

module _ (net : Net) where
  -- `remaining_orphans`; an entry with no chunk id, or the empty one, is dropped
  unfoldable pub clean_each : List Entry → Link → List Entry × Link
  clean_each [] link = ([], link)
  clean_each (none ∷ rest) link = clean_each rest link
  clean_each (some chunk_id ∷ rest) link =
      if str_eq chunk_id ""
      then clean_each rest link
      else after_deletion (some chunk_id) (clean_each rest) (delete_chunk net chunk_id link)

-- The log after the cycle; `fails` is whether it cannot be written or removed, which leaves it. A
-- write that breaks off is left out.
unfoldable pub written : Bool → Log → List Entry → Log
written true log remaining = log
written false log [] = no_log
written false log (entry ∷ remaining) = entries (entry ∷ remaining)

module _ (net : Net) where
  unfoldable pub cleanup_cycle : Bool → Log → Link → Log × Link
  cleanup_cycle fails no_log link = (no_log, link)
  cleanup_cycle fails unreadable link = (unreadable, link)
  cleanup_cycle fails (entries []) link = (entries [], link)
  cleanup_cycle fails (entries (entry ∷ rest)) link =
      let (remaining, next) = clean_each net (entry ∷ rest) link in
      (written fails (entries (entry ∷ rest)) remaining, next)
