-- ===== src/MutableItems/Store.antt =====
-- What a store of mutable items keeps.
use rust_torrent.Prelude.{
  ℕ, suc, ◌+◌, ◌≤◌, ◌<◌, ◌≡◌, refl, ◌∙◌, ap, inl, inr, ◌⊎◌, true, false, not, ◌&&◌, Bool-cases,
  none, some, List, [], ◌∷◌, length, leb, ◌==◌, ==_refl, if◌then◌else◌, arith,
}
use rust_torrent.Prelude.HashMap.{
  find, contains_key, remove, replace_value, insert, find-remove, find-insert, UniqueKeys,
  remove-UniqueKeys, insert-UniqueKeys,
}
use rust_torrent.MutableItems.{
  StoredMutableItem, MutableItemStore, is_outdated, evict_oldest, store, garbage_collect,
}
use rust_torrent.MutableItems.Oldest.{
  IsOldest, evict_oldest-IsOldest, length-remove_found, IsKept, collect_loop-IsKept,
}

pub record IsSound (s : MutableItemStore) : Type 0 where
  pub unique : UniqueKeys s.items
  pub few : length s.items ≤ s.max_items
  pub room : 0 < s.max_items

length-replace_value :
    {A : Type 0} (k : ℕ) (v : A) (m : List (ℕ × A)) → length (replace_value k v m) ≡ length m
length-replace_value k v [] = refl
length-replace_value k v ((j, x) ∷ m) = elim (Bool-cases (j == k)) [
  | inl t ↦ rw t refl
  | inr f ↦ rw f (ap suc (length-replace_value k v m))
]

length-insert :
    {A : Type 0} (k : ℕ) (v : A) (m : List (ℕ × A))
    → length (insert k v m) ≡ (if contains_key k m then length m else length m + 1)
length-insert k v m = elim (Bool-cases (contains_key k m)) [
  | inl t ↦ rw t (length-replace_value k v m)
  | inr f ↦ rw f (omega arith)
]

-- The other items stay.
abbrev Keeps : ℕ → List (ℕ × StoredMutableItem) → List (ℕ × StoredMutableItem) → Type 0
Keeps target before after = (k : ℕ) → (target == k) ≡ false → find k after ≡ find k before

-- An oldest item makes room in a store that is full.
abbrev Evicts : ℕ → ℕ → List (ℕ × StoredMutableItem) → List (ℕ × StoredMutableItem) → Type 0
Evicts target max before after =
    (contains_key target before ≡ false)
    × (length before ≡ max)
    × (o : ℕ) × (w : StoredMutableItem) × (find o before ≡ some w)
    × IsOldest w before
    × ((k : ℕ) → (target == k) ≡ false → find k after ≡ (if o == k then none else find k before))

pub record IsStored (target : ℕ) (item : StoredMutableItem) (s s' : MutableItemStore) : Type 0 where
  pub sound : IsSound s'
  pub found : find target s'.items ≡ some item
  pub max_eq : s'.max_items ≡ s.max_items
  pub others : Keeps target s.items s'.items ⊎ Evicts target s.max_items s.items s'.items

find-insert_self :
    (k : ℕ) (v : StoredMutableItem) (m : List (ℕ × StoredMutableItem))
    → find k (insert k v m) ≡ some v
find-insert_self k v m = find-insert k k v m ∙ rw (==_refl k) refl

insert-Keeps :
    (k : ℕ) (v : StoredMutableItem) (m : List (ℕ × StoredMutableItem)) → Keeps k m (insert k v m)
insert-Keeps k v m j apart = find-insert k j v m ∙ rw apart refl

-- With room for the item.
kept-IsStored :
    (target : ℕ) (item : StoredMutableItem) (s : MutableItemStore)
    → IsSound s
    → (not (contains_key target s.items) && leb s.max_items (length s.items)) ≡ false
    → IsStored target item s (record s { items = insert target item s.items })
kept-IsStored target item s v room = record {
  sound = record {
    unique = insert-UniqueKeys target item s.items v.unique;
    few = ground (arith, length-insert target item s.items, room, v.few);
    room = v.room;
  };
  found = find-insert_self target item s.items;
  max_eq = refl;
  others = inl (insert-Keeps target item s.items);
}

-- In the place of the oldest item.
evicted-IsStored :
    (target : ℕ) (item : StoredMutableItem) (s : MutableItemStore)
    → IsSound s
    → contains_key target s.items ≡ false
    → s.max_items ≤ length s.items
    → IsStored target item s (record s { items = insert target item (evict_oldest s.items) })
evicted-IsStored target item s v new_target full =
    let (o, w, found, oldest, eq) =
      evict_oldest-IsOldest s.items v.unique (omega (arith, full, v.room)) in
    let rest = remove o s.items in
    let len = length-remove_found o s.items v.unique found in
    let added = length-insert target item rest in
    rw eq (record {
      sound = record {
        unique = insert-UniqueKeys target item rest (remove-UniqueKeys o s.items v.unique);
        few = ground (arith, added, len, v.few);
        room = v.room;
      };
      found = find-insert_self target item rest;
      max_eq = refl;
      others = inr (
        new_target,
        omega (arith, full, v.few),
        o,
        w,
        found,
        oldest,
        λ k apart. insert-Keeps target item rest k apart ∙ find-remove o k s.items,
      );
    })

-- In a store of mutable items with room for at least one, not more items than its maximum and no
-- target twice, `store` answers false and changes nothing exactly if an item of the target has a
-- sequence number that is not below the new one. Otherwise it answers true, keeps these conditions,
-- and finds the item under its target, with all others as they were; or, if the target is new and
-- the store full, without one of them, which is there and than which none is older.
pub store_lem :
    (target : ℕ) (item : StoredMutableItem) (s : MutableItemStore)
    → IsSound s
    → let r = store target item s in
      ((is_outdated target item s.items ≡ true) × (r.0 ≡ false) × (r.1 ≡ s))
      ⊎ ((is_outdated target item s.items ≡ false) × (r.0 ≡ true) × IsStored target item s r.1)
unfolding store
store_lem target item s v = elim (Bool-cases (is_outdated target item s.items)) [
  | inl old ↦ inl (old, rw (store, old) refl, rw (store, old) refl)
  | inr fresh ↦
      elim (Bool-cases (not (contains_key target s.items) && leb s.max_items (length s.items))) [
        | inr room ↦ inr (
          fresh,
          rw (store, fresh) refl,
          rw (store, fresh, room) (kept-IsStored target item s v room),
        )
        | inl full ↦ inr (
          fresh,
          rw (store, fresh) refl,
          rw (store, fresh, full)
              (evicted-IsStored target item s v (ground (arith, full)) (ground (arith, full))),
        )
      ]
]

-- In a store of mutable items where no target occurs twice, `garbage_collect` leaves the items that
-- it has, or as many as the maximum if those are more. Each was there under its target, none occurs
-- twice, and none of the removed ones is newer than one that stays.
pub garbage_collect-IsKept :
    (s : MutableItemStore)
    → UniqueKeys s.items
    → IsKept s.max_items s.items (garbage_collect s).items
unfolding garbage_collect
garbage_collect-IsKept s u =
    collect_loop-IsKept (length s.items) s.max_items s.items u (omega arith)
