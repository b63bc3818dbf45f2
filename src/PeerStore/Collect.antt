-- ===== src/PeerStore/Collect.antt =====
-- What `garbage_collect_peers` leaves.
use rust_torrent.Prelude.{
  ℕ, min, ◌≤◌, ◌<◌, ◌≡◌, List, [], length, if◌then◌else◌, keep_if, u32_mod, arith,
}
use rust_torrent.Prelude.Sort.{sum_by, sum_by-keep_if, length-sum_by}
use rust_torrent.Prelude.HashMap.{UniqueKeys}
use rust_torrent.PeerStore.{
  StoredPeer, StoredToken, PeerStore, fresh_peer, fresh_token, clean_all, empty_hashes, total_len,
  cleaned, capped, garbage_collect_peers,
}
use rust_torrent.PeerStore.Evict.{Fewer, peers_at}
use rust_torrent.PeerStore.EvictAll.{capped-IsCapped}
use rust_torrent.PeerStore.Order.{capped-Ordered}
use rust_torrent.PeerStore.Newest.{before, Newest, Newest-trans}
use rust_torrent.PeerStore.Clear.{
  stale, stale_token, IsCleared, tokens_kept_lem, kept_tokens-fresh, cleaned-IsCleared,
  total_len-remove_all, total_len-clean_all,
}

-- What a collection leaves, by way of the table without the stale peers: of that, as much as the store
-- may remember, and under each hash the newest peers; the count is right.
pub record IsCollected (now : ℕ) (ps ps' : PeerStore) : Type 0 where
  pub unique : UniqueKeys ps'.peers
  pub fewer : (k : ℕ) → Fewer (peers_at k ps'.peers) (peers_at k ps.peers)
  pub few : (k : ℕ) → length (peers_at k ps'.peers) ≤ 100
  pub fresh : (k : ℕ) → sum_by (stale now) (peers_at k ps'.peers) ≡ 0
  pub newest :
      (k : ℕ) → Newest (peers_at k ps'.peers) (keep_if (fresh_peer now) (peers_at k ps.peers))
  pub cleared : List (ℕ × List StoredPeer)
  pub cleared_of : IsCleared now ps.peers cleared
  pub among_cleared : (k : ℕ) → Fewer (peers_at k ps'.peers) (peers_at k cleared)
  pub total : total_len ps'.peers ≡ min (total_len cleared) ps.max_remembered_peers
  pub ordered :
      (j k t : ℕ)
      → 0 < sum_by (before t) (peers_at j cleared)
      → sum_by (before t) (peers_at k cleared) ≡ 0
      → length (peers_at k ps'.peers) < length (peers_at k cleared)
      → peers_at j ps'.peers ≡ []
  pub counted : ps'.peers_len ≡ total_len ps'.peers
  pub tokens_fewer : (f : StoredToken → ℕ) → sum_by f ps'.tokens ≤ sum_by f ps.tokens
  pub tokens_kept :
      (f : StoredToken → ℕ)
      → sum_by f ps'.tokens ≡ sum_by (λ t. if fresh_token now t then f t else 0) ps.tokens
  pub tokens_fresh : sum_by (stale_token now) ps'.tokens ≡ 0

pub garbage_collect_peers-IsCollected :
    (now : ℕ) (ps : PeerStore)
    → UniqueKeys ps.peers
    → total_len ps.peers < u32_mod
    → IsCollected now ps (garbage_collect_peers now ps)
unfolding garbage_collect_peers cleaned
garbage_collect_peers-IsCollected now ps u small =
    let m' = clean_all now ps.peers in
    let m = cleaned now ps.peers in
    let one = cleaned-IsCleared now ps.peers u in
    let less : total_len m ≤ total_len ps.peers =
      omega (arith, total_len-remove_all (empty_hashes m') m', total_len-clean_all now ps.peers) in
    let c = capped-IsCapped ps.max_remembered_peers m one.unique (omega (arith, less, small)) in
    record {
      unique = c.unique;
      fewer = λ k f. omega (arith, c.fewer k f, one.fewer k f);
      few = λ k. omega (
        arith,
        c.fewer k (λ p. 1),
        one.count k,
        length-sum_by (peers_at k m),
        length-sum_by (peers_at k (capped ps.max_remembered_peers m)),
      );
      fresh = λ k. omega (arith, c.fewer k (stale now), one.fresh k);
      newest = λ k.
          Newest-trans (peers_at k (capped ps.max_remembered_peers m)) (peers_at k m)
            (keep_if (fresh_peer now) (peers_at k ps.peers)) (c.fewer k) (c.newest k)
            (one.newest k);
      cleared = m;
      cleared_of = one;
      among_cleared = c.fewer;
      total = c.total;
      ordered = capped-Ordered ps.max_remembered_peers m one.unique (omega (arith, less, small));
      counted = omega (arith, c.total, less, small);
      tokens_fewer = λ f. sum_by-keep_if f (fresh_token now) ps.tokens;
      tokens_kept = λ f. tokens_kept_lem now f ps.tokens;
      tokens_fresh = kept_tokens-fresh now ps.tokens;
    }
