-- ===== src/PeerStore.antt =====
-- crates/librtbit-dht/src/peer_store.rs: the peers that others announced to this node of the DHT, and the
-- tokens that it gave out. A time is a number of milliseconds, and one reading of the clock serves a
-- call. The random token of `gen_token_for` is an argument.
pub mod Announce
pub mod Store
pub mod Evict
pub mod Newest
pub mod EvictAll
pub mod Order
pub mod Clear
pub mod Collect
pub mod Run
pub mod Tests
use rust_torrent.Prelude.{
  same_bool, ℕ, zero, suc, ◌+◌, ◌-◌, ◌^◌, Bool, true, false, not, ◌&&◌, ◌||◌, Option, none, some,
  List, [], ◌∷◌, ◌++◌, length, take, drop, map, ltb, leb, ◌==◌, if◌then◌else◌, keep_if, add_u32,
  as_u32,
}
use rust_torrent.Prelude.Sort.{sort_by, sum_by}
use rust_torrent.Prelude.HashMap.{find, remove, replace_value}
use rust_torrent.Addresses.{SocketAddr, same_addr}
use rust_torrent.Bytes.{same_bytes}
use rust_torrent.RoutingTable.{distance}

pub record StoredToken : Type 0 where
  pub token : List ℕ
  pub node_id : ℕ
  pub addr : SocketAddr
  pub time : ℕ

pub record StoredPeer : Type 0 where
  pub addr : SocketAddr
  pub time : ℕ

pub record AnnouncePeer : Type 0 where
  pub id : ℕ
  pub implied_port : ℕ
  pub info_hash : ℕ
  pub port : ℕ
  pub token : List ℕ

pub data Want : Type 0 where
  v4 v6 both neither : Want

pub record PeerStore : Type 0 where
  pub self_id : ℕ
  pub max_remembered_tokens : ℕ
  pub max_remembered_peers : ℕ
  pub max_distance : ℕ
  pub tokens : List StoredToken
  pub peers : List (ℕ × List StoredPeer)
  pub peers_len : ℕ

-- 10 and 15 minutes
abbrev pub token_ttl : ℕ
token_ttl = 600000

abbrev pub peer_ttl : ℕ
peer_ttl = 900000

abbrev pub max_peers_per_info_hash : ℕ
max_peers_per_info_hash = 100

unfoldable pub new_store : ℕ → PeerStore
new_store self_id = record {
  self_id = self_id;
  max_remembered_tokens = 1000;
  max_remembered_peers = 1000;
  max_distance = 2 ^ 140 - 1;
  tokens = [];
  peers = [];
  peers_len = 0;
}

unfoldable pub gen_token_for : ℕ → List ℕ → ℕ → SocketAddr → PeerStore → List ℕ × PeerStore
gen_token_for now token node_id addr ps =
    let tokens =
      ps.tokens ++ (record { token = token; node_id = node_id; addr = addr; time = now } ∷ []) in
    (
      token,
      record ps {
        tokens = if ltb ps.max_remembered_tokens (length tokens) then drop 1 tokens else tokens;
      },
    )

abbrev pub has_token : AnnouncePeer → SocketAddr → List StoredToken → Bool
has_token announce addr [] = false
has_token announce addr (t ∷ ts) =
    same_bytes t.token announce.token && (same_addr t.addr addr && t.node_id == announce.id)
    || has_token announce addr ts

abbrev pub has_addr : SocketAddr → List StoredPeer → Bool
has_addr addr [] = false
has_addr addr (p ∷ ps) = same_addr p.addr addr || has_addr addr ps

-- A new time for the first peer of an address.
abbrev pub refresh : ℕ → SocketAddr → List StoredPeer → List StoredPeer
refresh now addr [] = []
refresh now addr (p ∷ ps) =
    if same_addr p.addr addr then record p { time = now } ∷ ps else p ∷ refresh now addr ps

abbrev pub peer_addr : AnnouncePeer → SocketAddr → SocketAddr
peer_addr announce addr =
    if announce.implied_port == 0 then record addr { port = announce.port } else addr

-- The two arms of the `match` on the entry of the info hash.
unfoldable pub store_entry : ℕ → ℕ → SocketAddr → PeerStore → Bool × PeerStore
store_entry now info_hash addr ps =
    let new_peer : StoredPeer = record { addr = addr; time = now } in
    let stored : List (ℕ × List StoredPeer) → Bool × PeerStore =
      λ peers. (true, record ps { peers = peers; peers_len = add_u32 ps.peers_len 1 }) in
    elim (find info_hash ps.peers) [
      | some old ↦
          if has_addr addr old
          then (true, record ps { peers = replace_value info_hash (refresh now addr old) ps.peers })
          else if leb ps.max_remembered_peers ps.peers_len
          then (false, ps)
          else stored (replace_value info_hash (old ++ (new_peer ∷ [])) ps.peers)
      | none ↦
          if leb ps.max_remembered_peers ps.peers_len
          then (false, ps)
          else stored ((info_hash, new_peer ∷ []) ∷ ps.peers)
    ]

unfoldable pub store_peer : ℕ → AnnouncePeer → SocketAddr → PeerStore → Bool × PeerStore
store_peer now announce addr ps =
    if ltb ps.max_distance (distance announce.info_hash ps.self_id)
    then (false, ps)
    else if not (has_token announce addr ps.tokens)
    then (false, ps)
    else store_entry now announce.info_hash (peer_addr announce addr) ps

abbrev pub wanted : Want → SocketAddr → Bool
wanted v4 a = not a.is_ipv6
wanted v6 a = a.is_ipv6
wanted both a = true
wanted neither a = false

unfoldable pub get_for_info_hash : ℕ → Want → PeerStore → List SocketAddr
get_for_info_hash info_hash want ps = elim (find info_hash ps.peers) [
  | some peers ↦
      map (λ (p : StoredPeer). p.addr) (keep_if (λ (p : StoredPeer). wanted want p.addr) peers)
  | none ↦ []
]

-- `time > now - ttl`
abbrev pub fresh_peer : ℕ → StoredPeer → Bool
fresh_peer now p = ltb now (p.time + peer_ttl)

abbrev pub fresh_token : ℕ → StoredToken → Bool
fresh_token now t = ltb now (t.time + token_ttl)

abbrev pub newest_first : StoredPeer → StoredPeer → Bool
newest_first a b = leb b.time a.time

abbrev pub oldest_first : StoredPeer → StoredPeer → Bool
oldest_first a b = leb a.time b.time

-- The peers of an info hash without the old ones, and the newest of them if there are too many.
unfoldable pub clean : ℕ → List StoredPeer → List StoredPeer
clean now peers =
    let kept = keep_if (fresh_peer now) peers in
    if ltb max_peers_per_info_hash (length kept)
    then take max_peers_per_info_hash (sort_by newest_first kept)
    else kept

unfoldable pub clean_all : ℕ → List (ℕ × List StoredPeer) → List (ℕ × List StoredPeer)
clean_all now [] = []
clean_all now ((hash, peers) ∷ m) = (hash, clean now peers) ∷ clean_all now m

abbrev pub is_empty : List StoredPeer → Bool
is_empty [] = true
is_empty (p ∷ ps) = false

unfoldable pub empty_hashes : List (ℕ × List StoredPeer) → List ℕ
empty_hashes [] = []
empty_hashes ((hash, peers) ∷ m) = if is_empty peers then hash ∷ empty_hashes m else empty_hashes m

unfoldable pub remove_all : List ℕ → List (ℕ × List StoredPeer) → List (ℕ × List StoredPeer)
remove_all [] m = m
remove_all (hash ∷ hashes) m = remove_all hashes (remove hash m)

abbrev pub total_len : List (ℕ × List StoredPeer) → ℕ
total_len m = sum_by (λ e. length e.1) m

-- The least time, of a list that is not empty.
abbrev pub oldest_from : ℕ → List StoredPeer → ℕ
oldest_from t [] = t
oldest_from t (p ∷ ps) = oldest_from (if ltb p.time t then p.time else t) ps

unfoldable pub entries_with_oldest : List (ℕ × List StoredPeer) → List (ℕ × ℕ)
entries_with_oldest [] = []
entries_with_oldest ((hash, []) ∷ m) = entries_with_oldest m
entries_with_oldest ((hash, p ∷ ps) ∷ m) = (hash, oldest_from p.time ps) ∷ entries_with_oldest m

abbrev pub by_oldest : ℕ × ℕ → ℕ × ℕ → Bool
by_oldest a b = leb a.1 b.1

-- The `while` loop: how many are evicted then, and the peers that stay.
unfoldable pub evict_from : ℕ → List StoredPeer → ℕ → ℕ × List StoredPeer
evict_from to_evict [] evicted = (evicted, [])
evict_from to_evict (p ∷ ps) evicted =
    let rest = evict_from to_evict ps (evicted + 1) in
    if ltb evicted to_evict then rest else (evicted, p ∷ ps)

unfoldable pub evict_loop :
    ℕ → List (ℕ × ℕ) → ℕ → List (ℕ × List StoredPeer) → List (ℕ × List StoredPeer)
evict_loop to_evict [] evicted m = m
evict_loop to_evict ((hash, oldest) ∷ entries) evicted m =
    if leb to_evict evicted then m else elim (find hash m) [
      | none ↦ evict_loop to_evict entries evicted m
      | some peers ↦
          let result = evict_from to_evict (sort_by oldest_first peers) evicted in
          evict_loop to_evict entries result.0
            (if is_empty result.1 then remove hash m else replace_value hash result.1 m)
    ]

-- The steps on the peers of `garbage_collect_peers`.
unfoldable pub cleaned : ℕ → List (ℕ × List StoredPeer) → List (ℕ × List StoredPeer)
cleaned now m = let m' = clean_all now m in remove_all (empty_hashes m') m'

unfoldable pub capped : ℕ → List (ℕ × List StoredPeer) → List (ℕ × List StoredPeer)
capped max m =
    let actual_count = as_u32 (total_len m) in
    if ltb max actual_count
    then evict_loop (actual_count - max) (sort_by by_oldest (entries_with_oldest m)) 0 m
    else m

unfoldable pub garbage_collect_peers : ℕ → PeerStore → PeerStore
garbage_collect_peers now ps =
    let peers = capped ps.max_remembered_peers (cleaned now ps.peers) in
    record ps {
      tokens = keep_if (fresh_token now) ps.tokens;
      peers = peers;
      peers_len = as_u32 (total_len peers);
    }
