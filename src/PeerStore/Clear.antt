-- ===== src/PeerStore/Clear.antt =====
-- The steps of `garbage_collect_peers` before the cap.
use rust_torrent.Prelude.{
  take, ℕ, min, ◌≤◌, ◌≡◌, refl, sym, ◌∙◌, ap, true, false, Bool-cases, inl, inr, none, List, [],
  ◌∷◌, length, ltb, ◌==◌, ==→eq, if◌then◌else◌, keep_if, arith,
}
use rust_torrent.Prelude.Sort.{
  sort_by, sum_by, sum_by-sort_by, sum_by-keep_if, sum_by-take, length-take, length-sum_by,
}
use rust_torrent.Prelude.HashMap.{find, remove, UniqueKeys, remove-UniqueKeys}
use rust_torrent.Prelude.Members.{member}
use rust_torrent.PeerStore.{
  StoredPeer, StoredToken, fresh_peer, fresh_token, newest_first, clean, clean_all, is_empty,
  empty_hashes, remove_all, total_len, cleaned,
}
use rust_torrent.PeerStore.Evict.{Fewer, peers_at, peers_at-remove}
use rust_torrent.PeerStore.Newest.{Newest, Newest-sort_by, take-Newest, sort_by-IsDescending}

-- Counts the peers that were not seen for 15 minutes.
abbrev pub stale : ℕ → StoredPeer → ℕ
stale now p = if fresh_peer now p then 0 else 1

abbrev pub stale_token : ℕ → StoredToken → ℕ
stale_token now t = if fresh_token now t then 0 else 1

kept-fresh : (now : ℕ) (ps : List StoredPeer) → sum_by (stale now) (keep_if (fresh_peer now) ps) ≡ 0
kept-fresh now [] = refl
kept-fresh now (p ∷ ps) = elim (Bool-cases (fresh_peer now p)) [
  | inl t ↦ rw (t, t) (omega (arith, kept-fresh now ps))
  | inr f ↦ rw f (kept-fresh now ps)
]

-- The fresh tokens are kept.
pub tokens_kept_lem :
    (now : ℕ) (f : StoredToken → ℕ) (ts : List StoredToken)
    → sum_by f (keep_if (fresh_token now) ts)
      ≡ sum_by (λ t. if fresh_token now t then f t else 0) ts
tokens_kept_lem now f [] = refl
tokens_kept_lem now f (t ∷ ts) = elim (Bool-cases (fresh_token now t)) [
  | inl y ↦ rw y (omega (arith, tokens_kept_lem now f ts))
  | inr n ↦ rw n (omega (arith, tokens_kept_lem now f ts))
]

pub kept_tokens-fresh :
    (now : ℕ) (ts : List StoredToken) → sum_by (stale_token now) (keep_if (fresh_token now) ts) ≡ 0
kept_tokens-fresh now [] = refl
kept_tokens-fresh now (t ∷ ts) = elim (Bool-cases (fresh_token now t)) [
  | inl y ↦ rw (y, y) (omega (arith, kept_tokens-fresh now ts))
  | inr n ↦ rw n (kept_tokens-fresh now ts)
]

-- The peers of a hash after the cleaning.
record IsCleaned (now : ℕ) (ps ps' : List StoredPeer) : Type 0 where
  fewer : Fewer ps' ps
  count : length ps' ≡ min 100 (length (keep_if (fresh_peer now) ps))
  fresh : sum_by (stale now) ps' ≡ 0
  newest : Newest ps' (keep_if (fresh_peer now) ps)

clean-IsCleaned : (now : ℕ) (ps : List StoredPeer) → IsCleaned now ps (clean now ps)
unfolding clean
clean-IsCleaned now ps =
    let kept = keep_if (fresh_peer now) ps in
    let sorted = sort_by newest_first kept in
    elim (Bool-cases (ltb 100 (length kept))) [
      | inl many ↦ rw many (record {
        fewer = λ f. omega (
          arith,
          sum_by-take f 100 sorted,
          sum_by-sort_by f newest_first kept,
          sum_by-keep_if f (fresh_peer now) ps,
        );
        count = ground (
          arith,
          length-take 100 sorted,
          length-sum_by sorted,
          sum_by-sort_by (λ (p : StoredPeer). 1) newest_first kept,
          length-sum_by kept,
          many,
        );
        newest =
            Newest-sort_by newest_first (take 100 sorted) kept
              (take-Newest 100 sorted (sort_by-IsDescending kept));
        fresh = omega (
          arith,
          sum_by-take (stale now) 100 sorted,
          sum_by-sort_by (stale now) newest_first kept,
          kept-fresh now ps,
        );
      })
      | inr few ↦ rw few (record {
        fewer = λ f. sum_by-keep_if f (fresh_peer now) ps;
        count = ground (arith, few);
        newest = λ f t h. refl;
        fresh = kept-fresh now ps;
      })
    ]

find-clean_all :
    (now k : ℕ) (m : List (ℕ × List StoredPeer)) → find k m ≡ none → find k (clean_all now m) ≡ none
unfolding clean_all
find-clean_all now k [] h = refl
find-clean_all now k ((j, ps) ∷ m) h = elim (Bool-cases (j == k)) [
  | inl t ↦ cc (rw t at h)
  | inr f ↦ rw f (find-clean_all now k m (rw f at h))
]

clean_all-UniqueKeys :
    (now : ℕ) (m : List (ℕ × List StoredPeer)) → UniqueKeys m → UniqueKeys (clean_all now m)
unfolding clean_all
clean_all-UniqueKeys now [] u = tt
clean_all-UniqueKeys now ((j, ps) ∷ m) u =
    (find-clean_all now j m u.0, clean_all-UniqueKeys now m u.1)

peers_at-clean_all :
    (now k : ℕ) (m : List (ℕ × List StoredPeer))
    → peers_at k (clean_all now m) ≡ clean now (peers_at k m)
unfolding clean_all clean
peers_at-clean_all now k [] = refl
peers_at-clean_all now k ((j, ps) ∷ m) = elim (Bool-cases (j == k)) [
  | inl t ↦ rw (peers_at, t) refl
  | inr f ↦ rw (peers_at, f) (peers_at-clean_all now k m)
]

pub total_len-clean_all :
    (now : ℕ) (m : List (ℕ × List StoredPeer)) → total_len (clean_all now m) ≤ total_len m
unfolding clean_all
total_len-clean_all now [] = omega arith
total_len-clean_all now ((j, ps) ∷ m) = omega (
  arith,
  (clean-IsCleaned now ps).fewer (λ p. 1),
  length-sum_by ps,
  length-sum_by (clean now ps),
  total_len-clean_all now m,
)

total_len-remove_le :
    (k : ℕ) (m : List (ℕ × List StoredPeer)) → total_len (remove k m) ≤ total_len m
total_len-remove_le k [] = omega arith
total_len-remove_le k ((j, ps) ∷ m) = elim (Bool-cases (j == k)) [
  | inl t ↦ rw t (omega (arith, total_len-remove_le k m))
  | inr f ↦ rw f (omega (arith, total_len-remove_le k m))
]

remove_all-UniqueKeys :
    (ks : List ℕ) (m : List (ℕ × List StoredPeer)) → UniqueKeys m → UniqueKeys (remove_all ks m)
unfolding remove_all
remove_all-UniqueKeys [] m u = u
remove_all-UniqueKeys (k ∷ ks) m u = remove_all-UniqueKeys ks (remove k m) (remove-UniqueKeys k m u)

pub total_len-remove_all :
    (ks : List ℕ) (m : List (ℕ × List StoredPeer)) → total_len (remove_all ks m) ≤ total_len m
unfolding remove_all
total_len-remove_all [] m = omega arith
total_len-remove_all (k ∷ ks) m =
    omega (arith, total_len-remove_all ks (remove k m), total_len-remove_le k m)

peers_at-remove_all :
    (ks : List ℕ) (j : ℕ) (m : List (ℕ × List StoredPeer))
    → peers_at j (remove_all ks m) ≡ (if member j ks then [] else peers_at j m)
unfolding remove_all
peers_at-remove_all [] j m = refl
peers_at-remove_all (k ∷ ks) j m =
    peers_at-remove_all ks j (remove k m) ∙ rw (peers_at-remove k j m) (ground arith)

absent_not_member :
    (k : ℕ) (m : List (ℕ × List StoredPeer)) → find k m ≡ none → member k (empty_hashes m) ≡ false
unfolding empty_hashes
absent_not_member k [] h = refl
absent_not_member k ((j, ps) ∷ m) h = elim (Bool-cases (j == k)) [
  | inl t ↦ cc (rw t at h)
  | inr f ↦
      let rest = absent_not_member k m (rw f at h) in
      elim (Bool-cases (is_empty ps)) [ inl e ↦ rw e (ground (arith, f, rest)) | inr n ↦ rw n rest ]
]

is_empty→eq : (ps : List StoredPeer) → is_empty ps ≡ true → ps ≡ []
is_empty→eq [] h = refl
is_empty→eq (p ∷ ps) h = cc

-- The hashes that are removed have no peers.
empty_hash :
    (k : ℕ) (m : List (ℕ × List StoredPeer))
    → UniqueKeys m
    → member k (empty_hashes m) ≡ true
    → peers_at k m ≡ []
unfolding empty_hashes
empty_hash k [] u h = refl
empty_hash k ((j, ps) ∷ m) u h = elim (Bool-cases (j == k)) [
  | inl t ↦
      let absent = absent_not_member k m (ap (λ (i : ℕ). find i m) (sym (==→eq j k t)) ∙ u.0) in
      elim (Bool-cases (is_empty ps)) [
        | inl e ↦ rw (peers_at, t) (is_empty→eq ps e)
        | inr n ↦ cc (absent, rw n at h)
      ]
  | inr f ↦
      let other : (k == j) ≡ false = ground (arith, f) in
      elim (Bool-cases (is_empty ps)) [
        | inl e ↦ rw (peers_at, f) (empty_hash k m u.1 (rw (e, other) at h))
        | inr n ↦ rw (peers_at, f) (empty_hash k m u.1 (rw n at h))
      ]
]

peers_at-cleaned :
    (now k : ℕ) (m : List (ℕ × List StoredPeer))
    → UniqueKeys m
    → peers_at k (cleaned now m) ≡ clean now (peers_at k m)
unfolding cleaned
peers_at-cleaned now k m u =
    let m' = clean_all now m in
    elim (Bool-cases (member k (empty_hashes m'))) [
      | inl t ↦
          rw (peers_at-remove_all (empty_hashes m') k m', t)
            (sym (empty_hash k m' (clean_all-UniqueKeys now m u) t) ∙ peers_at-clean_all now k m)
      | inr f ↦ rw (peers_at-remove_all (empty_hashes m') k m', f) (peers_at-clean_all now k m)
    ]

-- The table without the stale peers, and under each hash with the newest hundred of the others.
pub record IsCleared (now : ℕ) (before_all m : List (ℕ × List StoredPeer)) : Type 0 where
  pub unique : UniqueKeys m
  pub fewer : (k : ℕ) → Fewer (peers_at k m) (peers_at k before_all)
  pub count :
      (k : ℕ)
      → length (peers_at k m) ≡ min 100 (length (keep_if (fresh_peer now) (peers_at k before_all)))
  pub fresh : (k : ℕ) → sum_by (stale now) (peers_at k m) ≡ 0
  pub newest : (k : ℕ) → Newest (peers_at k m) (keep_if (fresh_peer now) (peers_at k before_all))

pub cleaned-IsCleared :
    (now : ℕ) (m : List (ℕ × List StoredPeer)) → UniqueKeys m → IsCleared now m (cleaned now m)
unfolding cleaned
cleaned-IsCleared now m u =
    let m' = clean_all now m in
    let at = λ (k : ℕ). peers_at-cleaned now k m u in
    let one = λ (k : ℕ). clean-IsCleaned now (peers_at k m) in
    record {
      unique = remove_all-UniqueKeys (empty_hashes m') m' (clean_all-UniqueKeys now m u);
      fewer = λ k. rw (at k) ((one k).fewer);
      count = λ k. rw (at k) ((one k).count);
      fresh = λ k. rw (at k) ((one k).fresh);
      newest = λ k. rw (at k) ((one k).newest);
    }
