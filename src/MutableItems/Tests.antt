-- ===== src/MutableItems/Tests.antt =====
-- A store for two items, and a third one.
use rust_torrent.Prelude.{ℕ, ◌≡◌, refl, ◌⊎◌, true, false, none, [], ◌∷◌, arith}
use rust_torrent.Integers.{pos}
use rust_torrent.MutableItems.{StoredMutableItem, MutableItemStore, is_outdated, store}
use rust_torrent.MutableItems.Store.{IsSound, IsStored, store_lem}

abbrev item_of : ℕ → ℕ → StoredMutableItem
item_of seq time = record {
  k = 170 ∷ [];
  sig = 187 ∷ [];
  seq = pos seq;
  v = [];
  salt = none;
  last_updated = time;
}

abbrev full_store : MutableItemStore
full_store = record { items = (1, item_of 1 30) ∷ (2, item_of 4 20) ∷ []; max_items = 2 }

full_store-IsSound : IsSound full_store
full_store-IsSound = record { unique = (refl, (refl, tt)); few = omega arith; room = omega arith }

store_lem_example :
    ((is_outdated 3 (item_of 1 50) full_store.items ≡ true)
      × ((store 3 (item_of 1 50) full_store).0 ≡ false)
      × ((store 3 (item_of 1 50) full_store).1 ≡ full_store))
    ⊎ ((is_outdated 3 (item_of 1 50) full_store.items ≡ false)
        × ((store 3 (item_of 1 50) full_store).0 ≡ true)
        × IsStored 3 (item_of 1 50) full_store (store 3 (item_of 1 50) full_store).1)
store_lem_example = store_lem 3 (item_of 1 50) full_store full_store-IsSound

abbrev over_full : MutableItemStore
over_full = record { items = full_store.items; max_items = 1 }
