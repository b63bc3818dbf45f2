-- ===== src/MutableItems.antt =====
-- crates/librtbit-dht/src/mutable_item_store.rs: the mutable items of the DHT by their targets. Bytes and
-- times are numbers.
pub mod Oldest
pub mod Store
pub mod Tests
use rust_torrent.Prelude.{
  ℕ, zero, suc, Bool, true, false, not, ◌&&◌, Option, none, some, List, [], ◌∷◌, length, ltb, leb,
  if◌then◌else◌,
}
use rust_torrent.Prelude.HashMap.{find, contains_key, remove, insert}
use rust_torrent.Integers.{ℤ, le_int}

pub record StoredMutableItem : Type 0 where
  pub k : List ℕ
  pub sig : List ℕ
  pub seq : ℤ
  pub v : List ℕ
  pub salt : Option (List ℕ)
  pub last_updated : ℕ

pub record MutableItemStore : Type 0 where
  pub items : List (ℕ × StoredMutableItem)
  pub max_items : ℕ

unfoldable pub new : ℕ → MutableItemStore
new max_items = record { items = []; max_items = max_items }

-- The key of the least `last_updated`, the first one of several.
abbrev pub oldest_key_from : ℕ → ℕ → List (ℕ × StoredMutableItem) → ℕ
oldest_key_from key time [] = key
oldest_key_from key time ((j, item) ∷ m) =
    if ltb item.last_updated time
    then oldest_key_from j item.last_updated m
    else oldest_key_from key time m

unfoldable pub evict_oldest : List (ℕ × StoredMutableItem) → List (ℕ × StoredMutableItem)
evict_oldest [] = []
evict_oldest ((key, item) ∷ m) = remove (oldest_key_from key item.last_updated m) ((key, item) ∷ m)

-- Whether an item is there whose sequence number is not below.
abbrev pub is_outdated : ℕ → StoredMutableItem → List (ℕ × StoredMutableItem) → Bool
is_outdated target item items = elim (find target items) [
  | none ↦ false
  | some existing ↦ le_int item.seq existing.seq
]

unfoldable pub store : ℕ → StoredMutableItem → MutableItemStore → Bool × MutableItemStore
store target item s =
    if is_outdated target item s.items
    then (false, s)
    else (let items =
          if not (contains_key target s.items) && leb s.max_items (length s.items)
          then evict_oldest s.items
          else s.items in
        (true, record s { items = insert target item items }))

-- The `while` loop, in at most as many rounds as there are items.
unfoldable pub collect_loop : ℕ → ℕ → List (ℕ × StoredMutableItem) → List (ℕ × StoredMutableItem)
collect_loop zero max_items items = items
collect_loop (suc fuel) max_items items =
    let rest = collect_loop fuel max_items (evict_oldest items) in
    if ltb max_items (length items) then rest else items

unfoldable pub garbage_collect : MutableItemStore → MutableItemStore
garbage_collect s = record s { items = collect_loop (length s.items) s.max_items s.items }
