-- ===== src/RoutingTable.antt =====
-- crates/librtbit-dht/src/routing_table.rs: the nodes of the DHT in a tree of buckets, with the parts of
-- crates/librtbit-core/src/hash_id.rs that it calls. An `Id20` is the number below 2 ^ 160 whose bytes
-- it holds, the first byte foremost, so that the order of the ids is that of the numbers. An instant is a
-- number of nanoseconds, an address any number. `none` is a panic.
pub mod Tree
pub mod Table
pub mod Run
pub mod Status
pub mod Tests
use Prim.Native.Nat.{bit_xor}
use rust_torrent.Prelude.{
  ℕ, ◌+◌, ◌-◌, ◌/◌, ◌%◌, ◌^◌, Bool, true, false, ◌&&◌, ◌||◌, Option, none, some, List, [], ◌∷◌, ltb,
  leb, ◌==◌, if◌then◌else◌, ◌>>=◌,
}

-- 15 minutes
abbrev pub inactivity_timeout : ℕ
inactivity_timeout = 900000000000

-- `Id::distance`
unfoldable pub distance : ℕ → ℕ → ℕ
distance id other = bit_xor id other

-- `Id::set_bit`: bit 0 is the foremost; one behind the last byte is out of bounds.
unfoldable pub set_bit : ℕ → ℕ → Bool → Option ℕ
set_bit id bit value =
    let weight = 2 ^ (159 - bit) in
    let is_set = id / weight % 2 == 1 in
    if leb 160 bit
    then none
    else some (
        if value
        then (if is_set then id else id + weight)
        else (if is_set then id - weight else id))

unfoldable pub compute_split_start_end : ℕ → ℕ → ℕ → Option ((ℕ × ℕ) × (ℕ × ℕ))
compute_split_start_end start end_inclusive bits =
    let changing_bit = 160 - bits in
    set_bit end_inclusive changing_bit false >>= λ new_left_end.
    set_bit start changing_bit true >>= λ new_right_start.
    if ltb start new_left_end
      && (ltb new_left_end new_right_start && ltb new_right_start end_inclusive)
    then some ((start, new_left_end), (new_right_start, end_inclusive))
    else none

pub record RoutingTableNode : Type 0 where
  pub id : ℕ
  pub addr : ℕ
  pub last_request : Option ℕ
  pub last_response : Option ℕ
  pub last_query : Option ℕ
  pub errors_in_a_row : ℕ

pub data NodeStatus : Type 0 where
  good questionable bad unknown : NodeStatus

abbrev pub is_some : Option ℕ → Bool
is_some none = false
is_some (some t) = true

abbrev recent : ℕ → Option ℕ → Bool
recent now none = false
recent now (some t) = ltb (now - t) inactivity_timeout

abbrev long_ago : ℕ → Option ℕ → Bool
long_ago now none = false
long_ago now (some t) = ltb inactivity_timeout (now - t)

abbrev none_or_long_ago : ℕ → Option ℕ → Bool
none_or_long_ago now none = true
none_or_long_ago now (some t) = ltb inactivity_timeout (now - t)

unfoldable pub status : ℕ → RoutingTableNode → NodeStatus
status now n =
    if is_some n.last_request && leb 2 n.errors_in_a_row
    then bad
    else if is_some n.last_request
        && (is_some n.last_response && (recent now n.last_response || recent now n.last_query))
    then good
    else if (long_ago now n.last_query || long_ago now n.last_response)
        && none_or_long_ago now n.last_request
    then questionable
    else unknown

abbrev pub is_bad : NodeStatus → Bool
is_bad bad = true
is_bad good = false
is_bad questionable = false
is_bad unknown = false

unfoldable pub mark_outgoing_request : ℕ → RoutingTableNode → RoutingTableNode
mark_outgoing_request now n = record n { last_request = some now }

unfoldable pub mark_last_query : ℕ → RoutingTableNode → RoutingTableNode
mark_last_query now n = record n { last_query = some now }

unfoldable pub mark_response : ℕ → RoutingTableNode → RoutingTableNode
mark_response now n = record n {
  last_response = some now;
  last_request = if is_some n.last_request then n.last_request else some now;
  errors_in_a_row = 0;
}

unfoldable pub mark_error : RoutingTableNode → RoutingTableNode
mark_error n = record n { errors_in_a_row = n.errors_in_a_row + 1 }

pub record LeafBucket : Type 0 where
  pub nodes : List RoutingTableNode
  pub last_refreshed : ℕ

pub data BucketTreeNodeData : Type 0 where
  leaf : LeafBucket → BucketTreeNodeData
  left_right : ℕ → ℕ → BucketTreeNodeData

pub record BucketTreeNode : Type 0 where
  pub bits : ℕ
  pub start : ℕ
  pub end_inclusive : ℕ
  pub data_of : BucketTreeNodeData

pub record BucketTree : Type 0 where
  pub arena : List BucketTreeNode
  pub size : ℕ
  pub max_size : ℕ

pub data InsertResult : Type 0 where
  was_existing : InsertResult
  replaced_bad : RoutingTableNode → InsertResult
  added ignored : InsertResult

pub record RoutingTable : Type 0 where
  pub id : ℕ
  pub size : ℕ
  pub buckets : BucketTree
