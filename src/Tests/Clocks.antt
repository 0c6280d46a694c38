-- ===== src/Tests/Clocks.antt =====
-- Vector clocks of two controllers.
use redcloud_files.Base.{String, true, false, [], ◌∷◌, ◌≡◌, ◌↔◌, refl, arith}
use redcloud_files.Base.Dict
use redcloud_files.VectorClock.{VectorClock, at, merge, happens_before, is_concurrent}
use redcloud_files.VectorClock.Order.{IsClock, Below, Same, happens_before_iff}
use redcloud_files.Replication.Database.{Db, empty}
use redcloud_files.Replication.Log.{merge_vector_clock, sequence_of}
use redcloud_files.Replication.Log.Clock.{merge_vector_clock-merge}

abbrev one : VectorClock
one = record { clocks = ("c1", 1) ∷ [] }

abbrev two : VectorClock
two = record { clocks = ("c1", 1) ∷ ("c2", 3) ∷ [] }

abbrev three : VectorClock
three = record { clocks = ("c2", 3) ∷ ("c1", 2) ∷ [] }

abbrev other : VectorClock
other = record { clocks = ("c2", 5) ∷ [] }

two-IsClock : IsClock two
unfolding Dict.has_key
two-IsClock = record { distinct = (refl, (refl, tt)); positive = (omega arith, (omega arith, tt)) }

three-IsClock : IsClock three
unfolding Dict.has_key
three-IsClock = record {
  distinct = (refl, (refl, tt));
  positive = (omega arith, (omega arith, tt));
}

happens_before_iff_example :
    (happens_before two three ≡ true)
    ↔ (Below two.clocks three.clocks × (¬ Same two.clocks three.clocks))
happens_before_iff_example = happens_before_iff two three two-IsClock three-IsClock

-- the table of a controller that has seen the clock `one`
abbrev table : Db
table = record empty {
  vector_clock_state = ("c1", record { sequence = 1; last_seen_at = "t" }) ∷ [];
}

table_holds : (k : String) → sequence_of table.vector_clock_state k ≡ at one.clocks k
unfolding sequence_of at Dict.lookup
table_holds k = ground arith

merge_vector_clock-merge_example :
    sequence_of (merge_vector_clock "t" two.clocks table).vector_clock_state "c2"
    ≡ at (merge one two).clocks "c2"
merge_vector_clock-merge_example = merge_vector_clock-merge "t" one two table table_holds "c2"

runs :
    (happens_before two three ≡ true)
    × (is_concurrent one other ≡ true)
    × (happens_before three two ≡ false)
unfolding happens_before is_concurrent at Dict.lookup
runs = (refl, refl, refl)
