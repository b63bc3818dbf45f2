-- ===== src/PeerStore/Tests.antt =====
-- Two peers of one info hash, of which the first is old.
use rust_torrent.Prelude.{ℕ, ◌≡◌, refl, ◌⊎◌, true, false, not, ◌||◌, List, [], ◌∷◌}
use rust_torrent.Prelude.Sort.{sort_by, insert_by}
use rust_torrent.RoutingTable.{distance}
use rust_torrent.PeerStore.{
  AnnouncePeer, PeerStore, v4, new_store, gen_token_for, has_token, store_entry, store_peer,
  get_for_info_hash, clean, clean_all, empty_hashes, remove_all, cleaned, entries_with_oldest,
  evict_from, evict_loop, capped, garbage_collect_peers,
}
use rust_torrent.Addresses.{SocketAddr}
use rust_torrent.PeerStore.Store.{Stores, Refuses, too_far, is_full, store_peer_lem}
use rust_torrent.PeerStore.Run.{
  IsSound, Call, gen_token, announce, collect, serve, serve_all, serve_all-IsSound,
}

abbrev addr_at : ℕ → SocketAddr
addr_at port = record { is_ipv6 = false; ip = 2130706433; port = port }

abbrev some_announce : AnnouncePeer
some_announce = record {
  id = 1;
  implied_port = 0;
  info_hash = 6;
  port = 6882;
  token = 1 ∷ 2 ∷ 3 ∷ 4 ∷ [];
}

abbrev some_calls : List (ℕ × Call)
some_calls =
    (10, gen_token (1 ∷ 2 ∷ 3 ∷ 4 ∷ []) 1 (addr_at 6881))
    ∷ (20, announce some_announce (addr_at 6881))
    ∷ (30, collect)
    ∷ []

serve_all-IsSound_example : IsSound (serve_all some_calls (new_store 5))
serve_all-IsSound_example = serve_all-IsSound 5 some_calls

stored_example : get_for_info_hash 6 v4 (serve_all some_calls (new_store 5)) ≡ addr_at 6882 ∷ []
unfolding serve_all serve new_store gen_token_for store_peer store_entry distance
    garbage_collect_peers cleaned clean_all clean empty_hashes remove_all capped get_for_info_hash
stored_example = refl

-- Three peers where one may be remembered; the second is from long ago.
abbrev crowded : PeerStore
crowded = record {
  self_id = 5;
  max_remembered_tokens = 2;
  max_remembered_peers = 1;
  max_distance = 100;
  tokens = [];
  peers =
      (6, record { addr = addr_at 1; time = 2000000 } ∷ record { addr = addr_at 2; time = 7 } ∷ [])
      ∷ (7, record { addr = addr_at 3; time = 1900000 } ∷ [])
      ∷ [];
  peers_len = 3;
}

collected_example :
    (garbage_collect_peers 2000001 crowded).peers
    ≡ (6, record { addr = addr_at 1; time = 2000000 } ∷ []) ∷ []
unfolding garbage_collect_peers cleaned clean_all clean empty_hashes remove_all capped
    entries_with_oldest evict_loop evict_from sort_by insert_by
collected_example = refl

-- The same with more room, after a token was given out.
abbrev asked : PeerStore
asked = record crowded {
  max_remembered_peers = 9;
  tokens =
      record { token = 1 ∷ 2 ∷ 3 ∷ 4 ∷ []; node_id = 1; addr = addr_at 6881; time = 2000000 } ∷ [];
}

store_peer_example :
    let r = store_peer 20 some_announce (addr_at 6881) asked in
    let refused =
      too_far some_announce asked
      || (not (has_token some_announce (addr_at 6881) asked.tokens)
          || is_full some_announce (addr_at 6881) asked) in
    ((refused ≡ false) × Stores 6 (addr_at 6882) asked r) ⊎ ((refused ≡ true) × Refuses asked r)
store_peer_example = store_peer_lem 20 some_announce (addr_at 6881) asked

taken_example : (store_peer 20 some_announce (addr_at 6881) asked).0 ≡ true
unfolding store_peer store_entry distance
taken_example = refl
