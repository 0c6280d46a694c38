-- ===== src/VectorClock.antt =====
-- controller/replication/vector_clock.py: the clocks that order operations causally.
pub mod Order
pub mod Merge
use redcloud_files.Base.{
  ℕ, zero, suc, ◌+◌, ◌<◌, max, String, Option, none, some, Bool, true, false, not, ◌&&◌, [], ◌∷◌,
  ltb, ◌==◌, if◌then◌else◌,
}
use redcloud_files.Base.Dict
use redcloud_files.Base.Dict.{Dict}

pub record VectorClock : Type 0 where
  pub clocks : Dict ℕ

-- `clocks.get(controller_id, 0)`
unfoldable pub at : Dict ℕ → String → ℕ
at clocks controller_id = elim (Dict.lookup controller_id clocks) [ none ↦ 0 | some seq ↦ seq ]

unfoldable pub increment : VectorClock → String → VectorClock
increment self controller_id = record {
  clocks = Dict.insert controller_id (at self.clocks controller_id + 1) self.clocks;
}

-- the loop of `merge` over `other.clocks.items()`
unfoldable pub merge_items : Dict ℕ → Dict ℕ → Dict ℕ
merge_items clocks [] = clocks
merge_items clocks ((controller_id, seq) ∷ rest) =
    merge_items (Dict.insert controller_id (max (at clocks controller_id) seq) clocks) rest

unfoldable pub merge : VectorClock → VectorClock → VectorClock
merge self other = record { clocks = merge_items self.clocks other.clocks }

holds : Option ℕ → ℕ → Bool
holds none seq = false
holds (some found) seq = found == seq

-- every pair of the first stands in the second
included : Dict ℕ → Dict ℕ → Bool
unfolding holds
included [] other = true
included ((controller_id, seq) ∷ rest) other =
    holds (Dict.lookup controller_id other) seq && included rest other

-- `==` of two dicts, `__eq__` of two clocks: the same pairs, in any order
pub equal : Dict ℕ → Dict ℕ → Bool
unfolding included
equal a b = included a b && included b a

-- the loop of `happens_before`, which returns False at the first greater entry
none_greater : Dict ℕ → Dict ℕ → Bool
none_greater [] other = true
none_greater ((controller_id, seq) ∷ rest) other =
    if ltb (at other controller_id) seq then false else none_greater rest other

unfoldable pub happens_before : VectorClock → VectorClock → Bool
unfolding equal none_greater
happens_before self other =
    if equal self.clocks other.clocks then false else none_greater self.clocks other.clocks

unfoldable pub is_concurrent : VectorClock → VectorClock → Bool
is_concurrent self other = not (happens_before self other) && not (happens_before other self)
