-- ===== src/PeerStore/Run.antt =====
-- Any sequence of calls of the peer store.
use rust_torrent.Prelude.{
  ℕ, ◌-◌, ◌≤◌, ◌<◌, ◌≡◌, refl, sym, subst, ◌⊎◌, inl, inr, Bool-cases, ◌==◌, ==→eq, List, [], ◌∷◌,
  ◌++◌, length, length-append, drop, ltb, if◌then◌else◌, u32_mod, arith,
}
use rust_torrent.Prelude.Sort.{sum_by, length-sum_by}
use rust_torrent.Prelude.HashMap.{UniqueKeys}
use rust_torrent.PeerStore.{
  StoredToken, AnnouncePeer, PeerStore, new_store, gen_token_for, total_len, store_peer,
  garbage_collect_peers,
}
use rust_torrent.Addresses.{SocketAddr}
use rust_torrent.PeerStore.Evict.{peers_at}
use rust_torrent.PeerStore.Announce.{at_addr, IsStored}
use rust_torrent.PeerStore.Store.{IsCounted, store_peer_lem}
use rust_torrent.PeerStore.Collect.{garbage_collect_peers-IsCollected}

-- No hash and no address of a hash occurs twice, the count is right, and neither the peers nor the tokens
-- are more than the store may remember.
pub record IsSound (ps : PeerStore) : Type 0 where
  pub unique : UniqueKeys ps.peers
  pub once : (k : ℕ) (a : SocketAddr) → sum_by (at_addr a) (peers_at k ps.peers) ≤ 1
  pub counted : ps.peers_len ≡ total_len ps.peers
  pub bounded : total_len ps.peers ≤ ps.max_remembered_peers
  pub few_tokens : length ps.tokens ≤ ps.max_remembered_tokens
  pub small : ps.max_remembered_peers < u32_mod

length-drop_one : {A : Type 0} (xs : List A) → length (drop 1 xs) ≡ length xs - 1
length-drop_one [] = omega arith
length-drop_one (x ∷ xs) = omega arith

gen_token_for-IsSound :
    (now : ℕ) (token : List ℕ) (node_id : ℕ) (addr : SocketAddr) (ps : PeerStore)
    → IsSound ps
    → IsSound (gen_token_for now token node_id addr ps).1
unfolding gen_token_for
gen_token_for-IsSound now token node_id addr ps v =
    let new : StoredToken = record { token = token; node_id = node_id; addr = addr; time = now } in
    let longer = ps.tokens ++ (new ∷ []) in
    let len = length-append ps.tokens (new ∷ []) in
    let few : length
          (if ltb ps.max_remembered_tokens (length longer) then drop 1 longer else longer)
        ≤ ps.max_remembered_tokens =
      elim (Bool-cases (ltb ps.max_remembered_tokens (length longer))) [
        | inl t ↦ rw t (omega (arith, length-drop_one longer, len, v.few_tokens))
        | inr f ↦ rw f (ground (arith, f))
      ] in
    record {
      unique = v.unique;
      once = v.once;
      counted = v.counted;
      bounded = v.bounded;
      few_tokens = few;
      small = v.small;
    }

stored-IsSound :
    (info_hash : ℕ) (addr : SocketAddr) (n : ℕ) (ps ps' : PeerStore)
    → IsSound ps
    → IsStored info_hash addr n ps ps'
    → IsCounted n ps ps'
    → IsSound ps'
stored-IsSound info_hash addr n ps ps' v s c = record {
  unique = s.unique v.unique;
  once = λ k a. elim (Bool-cases (info_hash == k)) [
    | inl t ↦ ap_once (==→eq info_hash k t) a (s.once (v.once info_hash) a)
    | inr f ↦ rw (s.others k f) (v.once k a)
  ];
  counted = count c.room;
  bounded = bound c.room;
  few_tokens = rw (c.tokens_eq, c.max_tokens_eq) v.few_tokens;
  small = omega (arith, c.max_eq, v.small);
}
  where
    ap_once :
        {k : ℕ}
        → info_hash ≡ k
        → (a : SocketAddr) → sum_by (at_addr a) (peers_at info_hash ps'.peers) ≤ 1
        → sum_by (at_addr a) (peers_at k ps'.peers) ≤ 1
    ap_once e a h = subst (λ (i : ℕ). sum_by (at_addr a) (peers_at i ps'.peers) ≤ 1) e h

    count :
        (n ≡ 0) ⊎ ((n ≡ 1) × (ps.peers_len < ps.max_remembered_peers))
        → ps'.peers_len ≡ total_len ps'.peers
    count (inl z) = ground (arith, c.len_eq, z, v.counted, s.total)
    count (inr (o, room)) = ground (arith, c.len_eq, o, v.counted, s.total, v.small, room)

    bound :
        (n ≡ 0) ⊎ ((n ≡ 1) × (ps.peers_len < ps.max_remembered_peers))
        → total_len ps'.peers ≤ ps'.max_remembered_peers
    bound (inl z) = omega (arith, z, s.total, v.bounded, c.max_eq)
    bound (inr (o, room)) = omega (arith, o, s.total, room, v.counted, c.max_eq)

store_peer-IsSound :
    (now : ℕ) (announce : AnnouncePeer) (addr : SocketAddr) (ps : PeerStore)
    → IsSound ps
    → IsSound (store_peer now announce addr ps).1
store_peer-IsSound now announce addr ps v = elim (store_peer_lem now announce addr ps) [
  | inl (taken, (t, n, s, c)) ↦ stored-IsSound announce.info_hash _ n ps _ v s c
  | inr (refused, (f, same)) ↦ subst IsSound (sym same) v
]

garbage_collect_peers-IsSound :
    (now : ℕ) (ps : PeerStore) → IsSound ps → IsSound (garbage_collect_peers now ps)
unfolding garbage_collect_peers
garbage_collect_peers-IsSound now ps v =
    let ps' = garbage_collect_peers now ps in
    let c = garbage_collect_peers-IsCollected now ps v.unique (omega (arith, v.bounded, v.small)) in
    record {
      unique = c.unique;
      once = λ k a. omega (arith, c.fewer k (at_addr a), v.once k a);
      counted = c.counted;
      bounded = omega (arith, c.total);
      few_tokens = omega (
        arith,
        c.tokens_fewer (λ t. 1),
        v.few_tokens,
        length-sum_by ps.tokens,
        length-sum_by ps'.tokens,
      );
      small = v.small;
    }

pub data Call : Type 0 where
  -- the random bytes, the node and its address
  gen_token : List ℕ → ℕ → SocketAddr → Call
  announce : AnnouncePeer → SocketAddr → Call
  collect : Call

unfoldable pub serve : ℕ → Call → PeerStore → PeerStore
serve now (gen_token token node_id addr) ps = (gen_token_for now token node_id addr ps).1
serve now (announce a addr) ps = (store_peer now a addr ps).1
serve now collect ps = garbage_collect_peers now ps

unfoldable pub serve_all : List (ℕ × Call) → PeerStore → PeerStore
serve_all [] ps = ps
serve_all ((now, c) ∷ cs) ps = serve_all cs (serve now c ps)

serve-IsSound : (now : ℕ) (c : Call) (ps : PeerStore) → IsSound ps → IsSound (serve now c ps)
unfolding serve
serve-IsSound now (gen_token token node_id addr) ps v =
    gen_token_for-IsSound now token node_id addr ps v
serve-IsSound now (announce a addr) ps v = store_peer-IsSound now a addr ps v
serve-IsSound now collect ps v = garbage_collect_peers-IsSound now ps v

serve_all-from : (cs : List (ℕ × Call)) (ps : PeerStore) → IsSound ps → IsSound (serve_all cs ps)
unfolding serve_all
serve_all-from [] ps v = v
serve_all-from ((now, c) ∷ cs) ps v = serve_all-from cs (serve now c ps) (serve-IsSound now c ps v)

-- From a new peer store, after any sequence of calls of `gen_token_for`, `store_peer` and
-- `garbage_collect_peers`, no info hash and no address of an info hash occurs twice, `peers_len` is
-- the number of the stored peers and not above `max_remembered_peers`, and there are not more
-- tokens than `max_remembered_tokens`.
pub serve_all-IsSound :
    (self_id : ℕ) (cs : List (ℕ × Call)) → IsSound (serve_all cs (new_store self_id))
unfolding new_store
serve_all-IsSound self_id cs = serve_all-from cs (new_store self_id) (record {
  unique = tt;
  once = λ k a. omega arith;
  counted = refl;
  bounded = omega arith;
  few_tokens = omega arith;
  small = omega arith;
})
