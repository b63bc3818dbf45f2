-- ===== src/UdpTracker/Tests.antt =====
-- Requests and responses of a tracker.
use rust_torrent.Prelude.{
  ℕ, ◌≤◌, ◌<◌, ◌≡◌, refl, ◌⊎◌, Bool, true, false, ◌&&◌, List, [], ◌∷◌, length, replicate, ltb,
  arith,
}
use rust_torrent.UdpTracker.{
  Request, announce, scrape, Response, announced, expected_bytes, not_enough_space,
  number_of_hashes, serialize, write_buf_len, parse,
}
use rust_torrent.Prelude.Results.{ok, err}
use rust_torrent.UdpTracker.Requests.{
  is_allowed, request_len, Written, serialize_lem, serialize-write_buf_len,
}
use rust_torrent.UdpTracker.Layout.{encode}
use rust_torrent.UdpTracker.Responses.{parse-encode}
use rust_torrent.UdpTracker.Total.{parse-total}

abbrev an_announce : Request
an_announce = announce 17 (record {
  info_hash = 5;
  peer_id = 6;
  downloaded = 100;
  left = 200;
  uploaded = 300;
  event = 2;
  key = 9;
  port = 6881;
})

serialize_lem_example :
    ((is_allowed an_announce ≡ true) × Written an_announce 77 1024 (serialize an_announce 77 1024))
    ⊎ ((is_allowed an_announce ≡ true)
        × (1024 < request_len an_announce)
        × (serialize an_announce 77 1024 ≡ err not_enough_space))
    ⊎ ((is_allowed an_announce ≡ false) × (serialize an_announce 77 1024 ≡ err number_of_hashes))
serialize_lem_example = serialize_lem an_announce 77 1024 (
  omega arith,
  (
    omega arith,
    (
      omega arith,
      (
        omega arith,
        (
          omega arith,
          (
            omega arith,
            (
              omega arith,
              (
                omega arith,
                (omega arith, (omega arith, (omega arith, (omega arith, (omega arith, tt))))),
              ),
            ),
          ),
        ),
      ),
    ),
  ),
)

serialize-write_buf_len_example :
    serialize (scrape 17 (replicate 51 5)) 77 write_buf_len ≡ err not_enough_space
serialize-write_buf_len_example =
    serialize-write_buf_len 17 77 (replicate 51 5) (omega arith) (omega arith)

abbrev is_ascii : List ℕ → Bool
is_ascii [] = true
is_ascii (b ∷ bs) = ltb b 128 && is_ascii bs

abbrev two_peers : Response
two_peers = announced (record {
  interval = 1800;
  leechers = 3;
  seeders = 4;
  addrs =
      (record { is_ipv6 = false; ip = 16909060; port = 6881 })
      ∷ (record { is_ipv6 = false; ip = 84281096; port = 80 })
      ∷ [];
})

parse-encode_example : parse is_ascii (encode false 77 two_peers) false ≡ ok (77, two_peers)
parse-encode_example = parse-encode is_ascii false 77 two_peers (omega arith) (
  (
    omega arith,
    (omega arith, (omega arith, (omega arith, (omega arith, (omega arith, (omega arith, tt)))))),
  ),
  (refl, (refl, tt)),
)

abbrev seven_bytes : List ℕ
seven_bytes = replicate 7 0

parse-total_example :
    ((length seven_bytes < 8) × (parse is_ascii seven_bytes true ≡ err (expected_bytes 4)))
    ⊎ ((8 ≤ length seven_bytes)
        × (tid : ℕ) × (r : Response) × (parse is_ascii seven_bytes true ≡ ok (tid, r)))
parse-total_example = parse-total is_ascii true seven_bytes
