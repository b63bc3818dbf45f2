-- ===== src/UdpTracker/Layout.antt =====
-- How the protocol lays out a response, and what a tracker can answer.
use rust_torrent.Prelude.{ℕ, ◌<◌, ◌≡◌, Bool, true, false, List, [], ◌∷◌, ◌++◌, length, ◌==◌}
use rust_torrent.Bytes.{to_be_bytes}
use rust_torrent.Addresses.{SocketAddr}
use rust_torrent.UdpTracker.{
  ScrapeStats, Response, connected, announced, scraped, error, unknown, ip_bytes,
}
use rust_torrent.UdpTracker.Fields.{concat, slices, AllFit}

abbrev pub addr_fields : Bool → List SocketAddr → List (ℕ × ℕ)
addr_fields v [] = []
addr_fields v (a ∷ addrs) = (ip_bytes v, a.ip) ∷ (2, a.port) ∷ addr_fields v addrs

abbrev pub stats_fields : List ScrapeStats → List (ℕ × ℕ)
stats_fields [] = []
stats_fields (s ∷ ss) = (4, s.seeders) ∷ (4, s.completed) ∷ (4, s.leechers) ∷ stats_fields ss

-- The fields of a response behind its action and transaction.
abbrev pub body : Bool → Response → List (ℕ × ℕ)
body v (connected id) = (8, id) ∷ []
body v (announced r) = (4, r.interval) ∷ (4, r.leechers) ∷ (4, r.seeders) ∷ addr_fields v r.addrs
body v (scraped stats) = stats_fields stats
body v (error msg) = []
body v unknown = []

abbrev pub action : Response → ℕ
action (connected id) = 0
action (announced r) = 1
action (scraped stats) = 2
action (error msg) = 3
action unknown = 4

abbrev pub text : Response → List ℕ
text (connected id) = []
text (announced r) = []
text (scraped stats) = []
text (error msg) = msg ++ (0 ∷ [])
text unknown = []

abbrev pub encode : Bool → ℕ → Response → List ℕ
encode v tid r =
    to_be_bytes 4 (action r) ++ (to_be_bytes 4 tid ++ (concat (slices (body v r)) ++ text r))

abbrev pub SameFamily : Bool → List SocketAddr → Type 0
SameFamily v [] = Unit
SameFamily v (a ∷ addrs) = (a.is_ipv6 ≡ v) × SameFamily v addrs

abbrev pub NoZero : List ℕ → Type 0
NoZero [] = Unit
NoZero (b ∷ bs) = ((b == 0) ≡ false) × NoZero bs

-- What a tracker can answer.
abbrev pub CanAnswer : (List ℕ → Bool) → Bool → Response → Type 0
CanAnswer is_utf8 v (connected id) = AllFit (body v (connected id))
CanAnswer is_utf8 v (announced r) = AllFit (body v (announced r)) × SameFamily v r.addrs
CanAnswer is_utf8 v (scraped stats) = AllFit (body v (scraped stats)) × (0 < length stats)
CanAnswer is_utf8 v (error msg) = (is_utf8 msg ≡ true) × NoZero msg
CanAnswer is_utf8 v unknown = ⊥
