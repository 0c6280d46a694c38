-- ===== src/Replication/Log/Clock.antt =====
-- `_merge_vector_clock` on the table does what `VectorClock.merge` does on the dict.
use redcloud_files.Base.{ℕ, ◌≤◌, max, String, [], ◌∷◌, ◌≡◌, arith, eq_iff, str_eq, if◌then◌else◌}
use redcloud_files.Base.Dict
use redcloud_files.Base.Dict.{Dict}
use redcloud_files.VectorClock.{VectorClock, at, merge, merge_items}
use redcloud_files.VectorClock.Merge.{at-insert}
use redcloud_files.Replication.Database.{Db, ClockRow}
use redcloud_files.Replication.Log.{sequence_of, merge_clock_rows, merge_vector_clock}

pub sequence_of-insert :
    (i k : String) (row : ClockRow) (table : Dict ClockRow)
    → sequence_of (Dict.insert i row table) k
      ≡ (if str_eq i k then row.sequence else sequence_of table k)
unfolding sequence_of
sequence_of-insert i k row table = ground (arith, Dict.lookup-insert i k row table)

rows_follow :
    (now : String) (other : Dict ℕ) (table : Dict ClockRow) (clocks : Dict ℕ)
    → ((k : String) → sequence_of table k ≡ at clocks k)
    → (k : String)
    → sequence_of (merge_clock_rows now other table) k ≡ at (merge_items clocks other) k
unfolding merge_clock_rows merge_items
rows_follow now [] table clocks h k = h k
rows_follow now ((i, seq) ∷ rest) table clocks h k =
    rows_follow now rest _ _
      (λ j. ground (
        arith,
        h i,
        h j,
        at-insert i j (max (at clocks i) seq) clocks,
        sequence_of-insert i j
            (record { sequence = max (sequence_of table i) seq; last_seen_at = now }) table,
      ))
      k

-- Where the table holds the entries of a clock, merging a remote clock into it leaves the entries of
-- the merged clock.
pub merge_vector_clock-merge :
    (now : String) (self other : VectorClock) (db : Db)
    → ((k : String) → sequence_of db.vector_clock_state k ≡ at self.clocks k)
    → (k : String)
    → sequence_of (merge_vector_clock now other.clocks db).vector_clock_state k
      ≡ at (merge self other).clocks k
unfolding merge_vector_clock merge
merge_vector_clock-merge now self other db =
    rows_follow now other.clocks db.vector_clock_state self.clocks

pub merge_clock_rows_grows :
    (now : String) (other : Dict ℕ) (table : Dict ClockRow) (k : String)
    → (sequence_of table k ≤ sequence_of (merge_clock_rows now other table) k)
      × (at other k ≤ sequence_of (merge_clock_rows now other table) k)
unfolding merge_clock_rows Dict.lookup at
merge_clock_rows_grows now [] table k = (omega arith, omega arith)
merge_clock_rows_grows now ((i, seq) ∷ rest) table k =
    let row : ClockRow = record { sequence = max (sequence_of table i) seq; last_seen_at = now } in
    ground (
      arith,
      merge_clock_rows_grows now rest (Dict.insert i row table) k,
      sequence_of-insert i k row table,
      eq_iff i k,
    )
