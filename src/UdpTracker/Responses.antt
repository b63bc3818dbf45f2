-- ===== src/UdpTracker/Responses.antt =====
-- A response that is laid out as in the protocol is parsed.
use mathlib.Core.List.{append-nil}
use rust_torrent.Prelude.{
  ℕ, zero, suc, ◌*◌, ◌%◌, ◌^◌, ◌≤◌, ◌<◌, ◌≡◌, refl, sym, ◌∙◌, ap, Bool, true, false, not, ◌||◌,
  some, List, [], ◌∷◌, ◌++◌, length, length-append, ◌==◌, arith,
}
use rust_torrent.Bytes.{to_be_bytes, length-to_be_bytes}
use rust_torrent.Addresses.{SocketAddr}
use rust_torrent.UdpTracker.{
  AnnounceResponse, ScrapeStats, Response, connected, announced, scraped, error, unknown, parse_num,
  ip_bytes, parse_addrs, parse_stats, from_bytes_with_nul, error_text, parse_connect,
  parse_announce, parse_scrape, parse_response, parse,
}
use rust_torrent.Prelude.Results.{ok, ◌>>=◌}
use rust_torrent.UdpTracker.Fields.{
  parse_num-front, concat, slices, sizes, sum, AllFit, length-concat-slices,
}
use rust_torrent.UdpTracker.Layout.{
  addr_fields, stats_fields, body, action, text, encode, SameFamily, NoZero, CanAnswer,
}

-- A buffer that is not empty.
parse_addrs-step :
    (fuel : ℕ) (v : Bool) (buf : List ℕ)
    → 0 < length buf
    → parse_addrs (suc fuel) v buf ≡ (
        parse_num (ip_bytes v) buf >>= λ (ip, b₂). parse_num 2 b₂ >>= λ (port, b₃).
        parse_addrs fuel v b₃ >>= λ addrs.
        ok ((record { is_ipv6 = v; ip = ip; port = port }) ∷ addrs))
unfolding parse_addrs
parse_addrs-step fuel v [] h = absurd (omega arith)
parse_addrs-step fuel v (b ∷ bs) h = refl

parse_addrs-back :
    (addrs : List SocketAddr) (fuel : ℕ) (v : Bool)
    → AllFit (addr_fields v addrs)
    → SameFamily v addrs
    → length addrs ≤ fuel
    → parse_addrs fuel v (concat (slices (addr_fields v addrs))) ≡ ok addrs
unfolding parse_addrs
parse_addrs-back [] zero v f s h = refl
parse_addrs-back [] (suc fuel) v f s h = refl
parse_addrs-back (a ∷ addrs) zero v f s h = absurd (omega arith)
parse_addrs-back (a ∷ addrs) (suc fuel) v f s h =
    let rest = concat (slices (addr_fields v addrs)) in
    let behind = to_be_bytes 2 a.port ++ rest in
    let some_bytes : 0 < length (to_be_bytes (ip_bytes v) a.ip ++ behind) = omega (
      arith,
      length-append (to_be_bytes (ip_bytes v) a.ip) behind,
      length-append (to_be_bytes 2 a.port) rest,
      length-to_be_bytes 2 a.port,
    ) in
    parse_addrs-step fuel v (to_be_bytes (ip_bytes v) a.ip ++ behind) some_bytes
    ∙ rw
        (
          parse_num-front (ip_bytes v) a.ip behind f.0,
          parse_num-front 2 a.port rest f.1.0,
          parse_addrs-back addrs fuel v f.1.1 s.1 (omega (arith, h)),
        )
        (ap (λ (b : Bool). ok ((record { is_ipv6 = b; ip = a.ip; port = a.port }) ∷ addrs))
          (sym s.0))

parse_stats-step :
    (fuel : ℕ) (buf : List ℕ)
    → 0 < length buf
    → parse_stats (suc fuel) buf ≡ (
        parse_num 4 buf >>= λ (seeders, b₂). parse_num 4 b₂ >>= λ (completed, b₃).
        parse_num 4 b₃ >>= λ (leechers, b₄). parse_stats fuel b₄ >>= λ stats.
        ok ((record { seeders = seeders; completed = completed; leechers = leechers }) ∷ stats))
unfolding parse_stats
parse_stats-step fuel [] h = absurd (omega arith)
parse_stats-step fuel (b ∷ bs) h = refl

parse_stats-back :
    (ss : List ScrapeStats) (fuel : ℕ)
    → AllFit (stats_fields ss)
    → length ss ≤ fuel
    → parse_stats fuel (concat (slices (stats_fields ss))) ≡ ok ss
unfolding parse_stats
parse_stats-back [] zero f h = refl
parse_stats-back [] (suc fuel) f h = refl
parse_stats-back (s ∷ ss) zero f h = absurd (omega arith)
parse_stats-back (s ∷ ss) (suc fuel) f h =
    let rest = concat (slices (stats_fields ss)) in
    let third = to_be_bytes 4 s.leechers ++ rest in
    let second = to_be_bytes 4 s.completed ++ third in
    let some_bytes : 0 < length (to_be_bytes 4 s.seeders ++ second) =
      omega
        (arith, length-append (to_be_bytes 4 s.seeders) second, length-to_be_bytes 4 s.seeders) in
    parse_stats-step fuel (to_be_bytes 4 s.seeders ++ second) some_bytes
    ∙ rw
        (
          parse_num-front 4 s.seeders second f.0,
          parse_num-front 4 s.completed third f.1.0,
          parse_num-front 4 s.leechers rest f.1.1.0,
          parse_stats-back ss fuel f.1.1.1 (omega (arith, h)),
        )
        refl

length-addrs :
    (v : Bool) (addrs : List SocketAddr)
    → length addrs ≤ length (concat (slices (addr_fields v addrs)))
length-addrs v [] = omega arith
length-addrs v (a ∷ addrs) =
    let rest = concat (slices (addr_fields v addrs)) in
    omega (
      arith,
      length-addrs v addrs,
      length-append (to_be_bytes (ip_bytes v) a.ip) (to_be_bytes 2 a.port ++ rest),
      length-append (to_be_bytes 2 a.port) rest,
      length-to_be_bytes 2 a.port,
    )

sum-stats_fields : (ss : List ScrapeStats) → sum (sizes (stats_fields ss)) ≡ 12 * length ss
sum-stats_fields [] = refl
sum-stats_fields (s ∷ ss) = omega (arith, sum-stats_fields ss)

from_bytes_with_nul-back :
    (msg : List ℕ) → NoZero msg → from_bytes_with_nul (msg ++ (0 ∷ [])) ≡ some msg
from_bytes_with_nul-back [] h = refl
from_bytes_with_nul-back (b ∷ bs) h = rw (h.0, from_bytes_with_nul-back bs h.1) refl

module _ (is_utf8 : List ℕ → Bool) (v : Bool) where
  connected-back :
      (id : ℕ) → id < 256 ^ 8 → parse_connect is_utf8 (to_be_bytes 8 id ++ []) ≡ ok (connected id)
  unfolding parse_connect
  connected-back id h = rw (parse_num-front 8 id [] h) refl

  announced-back :
      (r : AnnounceResponse)
      → AllFit (body v (announced r))
      → SameFamily v r.addrs
      → parse_announce is_utf8 v (concat (slices (body v (announced r)))) ≡ ok (announced r)
  unfolding parse_announce
  announced-back r f s =
      let rest = concat (slices (addr_fields v r.addrs)) in
      let third = to_be_bytes 4 r.seeders ++ rest in
      let second = to_be_bytes 4 r.leechers ++ third in
      rw
        (
          parse_num-front 4 r.interval second f.0,
          parse_num-front 4 r.leechers third f.1.0,
          parse_num-front 4 r.seeders rest f.1.1.0,
          parse_addrs-back r.addrs (length rest) v f.1.1.1 s (length-addrs v r.addrs),
        )
        refl

  scraped-back :
      (stats : List ScrapeStats)
      → AllFit (stats_fields stats)
      → 0 < length stats
      → parse_scrape is_utf8 (concat (slices (stats_fields stats))) ≡ ok (scraped stats)
  unfolding parse_scrape
  scraped-back stats f some_stats =
      let buf = concat (slices (stats_fields stats)) in
      let len = length-concat-slices (stats_fields stats) ∙ sum-stats_fields stats in
      let rest : length buf % 12 ≡ 0 = omega (arith, len) in
      let right : (length buf == 0 || not (length buf % 12 == 0)) ≡ false =
        ground (arith, rest, len, some_stats) in
      rw (right, parse_stats-back stats (length buf) f (omega (arith, len))) refl

  error-back :
      (msg : List ℕ) → is_utf8 msg ≡ true → NoZero msg → error_text is_utf8 (msg ++ (0 ∷ [])) ≡ msg
  unfolding error_text
  error-back msg u z = rw (error_text, from_bytes_with_nul-back msg z, u) refl

  body-back :
      (r : Response)
      → CanAnswer is_utf8 v r
      → parse_response is_utf8 (action r) v (concat (slices (body v r)) ++ text r) ≡ ok r
  unfolding parse_response
  body-back (connected id) h = rw (append-nil (to_be_bytes 8 id ++ [])) (connected-back id h.0)
  body-back (announced r) h =
      rw (append-nil (concat (slices (body v (announced r))))) (announced-back r h.0 h.1)
  body-back (scraped stats) h =
      rw (append-nil (concat (slices (stats_fields stats)))) (scraped-back stats h.0 h.1)
  body-back (error msg) h = ap (λ (m : List ℕ). ok (error m)) (error-back msg h.0 h.1)
  body-back unknown h = absurd h

  action-small : (r : Response) → action r < 256 ^ 4
  action-small (connected id) = omega arith
  action-small (announced r) = omega arith
  action-small (scraped stats) = omega arith
  action-small (error msg) = omega arith
  action-small unknown = omega arith

  -- A response that is laid out as in the protocol is parsed back with its transaction: a
  -- connection id, an announcement with addresses of one family, the numbers of at least one
  -- scraped torrent, all of them within their sizes, or a text of valid UTF-8 without a zero byte,
  -- with one behind it. The transaction has 32 bits. This holds for any test of UTF-8.
  pub parse-encode :
      (tid : ℕ) (r : Response)
      → tid < 2 ^ 32
      → CanAnswer is_utf8 v r
      → parse is_utf8 (encode v tid r) v ≡ ok (tid, r)
  unfolding parse
  parse-encode tid r small h =
      let rest = concat (slices (body v r)) ++ text r in
      rw
        (
          parse_num-front 4 (action r) (to_be_bytes 4 tid ++ rest) (action-small r),
          parse_num-front 4 tid rest (omega (arith, small)),
          body-back r h,
        )
        refl
