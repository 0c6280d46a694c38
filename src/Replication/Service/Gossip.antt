-- ===== src/Replication/Service/Gossip.antt =====
-- What gossip makes of the vector clock table and what it asks for.
use redcloud_files.Base.{
  ℕ, max, String, not, ◌&&◌, List, [], ◌∷◌, map, ◌≡◌, refl, arith, eq_iff, if◌then◌else◌, mem,
  exists, mem-difference, mem-set_of, set_of,
}
use redcloud_files.Base.Dict
use redcloud_files.Base.Dict.{Dict, IsDict}
use redcloud_files.VectorClock.{at, merge, merge_items}
use redcloud_files.VectorClock.Order.{at-cons, at-absent}
use redcloud_files.VectorClock.Merge.{at-merge_items}
use redcloud_files.Replication.Operation.{Operation}
use redcloud_files.Replication.Database.{Db, ClockRow}
use redcloud_files.Replication.Log.{OperationSummary, sequence_of, has_id, get_all_operation_ids}
use redcloud_files.Replication.Service.{
  clock_of_rows, get_current_vector_clock, put_rows, update_vector_clock, handle_gossip,
}
use redcloud_files.Replication.AntiEntropy.Converges.{mem-ids}

pub at-clock_of_rows :
    (table : Dict ClockRow) (k : String) → at (clock_of_rows table) k ≡ sequence_of table k
unfolding clock_of_rows at sequence_of Dict.lookup
at-clock_of_rows [] k = refl
at-clock_of_rows ((i, row) ∷ rest) k = ground (arith, at-clock_of_rows rest k)

has_key-clock_of_rows :
    (table : Dict ClockRow) (k : String)
    → Dict.has_key k (clock_of_rows table) ≡ Dict.has_key k table
unfolding clock_of_rows Dict.has_key
has_key-clock_of_rows [] k = refl
has_key-clock_of_rows ((i, row) ∷ rest) k = ground (arith, has_key-clock_of_rows rest k)

pub clock_of_rows-IsDict : (table : Dict ClockRow) → IsDict table → IsDict (clock_of_rows table)
unfolding clock_of_rows
clock_of_rows-IsDict [] h = tt
clock_of_rows-IsDict ((i, row) ∷ rest) h =
    ground (arith, has_key-clock_of_rows rest i, clock_of_rows-IsDict rest h.1)

merge_items-IsDict : (b a : Dict ℕ) → IsDict a → IsDict (merge_items a b)
unfolding merge_items
merge_items-IsDict [] a h = h
merge_items-IsDict ((i, seq) ∷ rest) a h =
    merge_items-IsDict rest (Dict.insert i (max (at a i) seq) a)
      (Dict.insert-IsDict i (max (at a i) seq) a h)

sequence_of-put_rows :
    (now : String) (clock : Dict ℕ) (table : Dict ClockRow) (k : String)
    → IsDict clock
    → sequence_of (put_rows now clock table) k
      ≡ (if Dict.has_key k clock then at clock k else sequence_of table k)
unfolding put_rows sequence_of Dict.has_key
sequence_of-put_rows now [] table k d = refl
sequence_of-put_rows now ((i, seq) ∷ rest) table k d = ground (
  arith,
  eq_iff i k,
  at-cons i k seq rest,
  sequence_of-put_rows now rest
      (Dict.insert i (record { sequence = seq; last_seen_at = now }) table) k d.1,
  Dict.lookup-insert i k (record { sequence = seq; last_seen_at = now }) table,
)

-- After gossip each entry of the clock table is the greater of the old one and the sender's, the
-- answer carries that clock, and it asks for exactly the operations of the message that are not in
-- the log, where no controller stands twice in the table or in the sender's clock.
pub handle_gossip_merges :
    (now : String) (vector_clock : Dict ℕ) (summaries : List OperationSummary) (db : Db)
    (k : String) (id : String)
    → IsDict db.vector_clock_state
    → IsDict vector_clock
    → (sequence_of (handle_gossip now vector_clock summaries db).1.vector_clock_state k
        ≡ max (sequence_of db.vector_clock_state k) (at vector_clock k))
      × (at (handle_gossip now vector_clock summaries db).0.vector_clock k
          ≡ max (sequence_of db.vector_clock_state k) (at vector_clock k))
      × (mem id (handle_gossip now vector_clock summaries db).0.missing_operation_ids ≡ (
          mem id (map (λ op. op.operation_id) summaries) && not (exists (has_id id) db.operations)))
unfolding handle_gossip update_vector_clock get_current_vector_clock merge get_all_operation_ids
handle_gossip_merges now vector_clock summaries db k id dt dc =
    let mine = clock_of_rows db.vector_clock_state in
    let merged = merge_items mine vector_clock in
    let value = at-merge_items mine vector_clock k dc in
    let theirs = map (λ (op : OperationSummary). op.operation_id) summaries in
    let log = map (λ (op : Operation). op.operation_id) db.operations in
    (
      ground (
        arith,
        value,
        at-clock_of_rows db.vector_clock_state k,
        at-absent k merged,
        sequence_of-put_rows now merged db.vector_clock_state k
            (merge_items-IsDict vector_clock mine (clock_of_rows-IsDict db.vector_clock_state dt)),
      ),
      ground (arith, value, at-clock_of_rows db.vector_clock_state k),
      ground (
        arith,
        mem-difference id (set_of theirs) log,
        mem-set_of id theirs,
        mem-ids id db.operations,
      ),
    )
