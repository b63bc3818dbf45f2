-- ===== src/UdpTracker.antt =====
-- crates/librtbit-tracker-comms/src/tracker_comms_udp.rs: the requests to a UDP tracker and how they are
-- written, and the responses and how they are parsed. Bytes are numbers, and an id of 20 bytes is the
-- number that they write. What is written is the front of the buffer.
pub mod Fields
pub mod Requests
pub mod Layout
pub mod Responses
pub mod Total
pub mod Tests
use rust_torrent.Prelude.Results.{Result, ok, err, out_of_fuel, ◌>>=◌}
use rust_torrent.Prelude.{
  ℕ, zero, suc, ◌+◌, ◌*◌, ◌-◌, ◌^◌, ◌%◌, Bool, true, false, not, ◌&&◌, ◌||◌, Option, none, some,
  List, [], ◌∷◌, ◌++◌, length, take, drop, map, ltb, leb, ◌==◌, if◌then◌else◌,
}
use rust_torrent.Bytes.{to_be_bytes, from_be_bytes}
use rust_torrent.Addresses.{SocketAddr}

abbrev pub action_connect : ℕ
action_connect = 0

abbrev pub action_announce : ℕ
action_announce = 1

abbrev pub action_scrape : ℕ
action_scrape = 2

abbrev pub action_error : ℕ
action_error = 3

-- 0x41727101980
abbrev pub connection_id_magic : ℕ
connection_id_magic = 4497486125440

pub record AnnounceFields : Type 0 where
  pub info_hash : ℕ
  pub peer_id : ℕ
  pub downloaded : ℕ
  pub left : ℕ
  pub uploaded : ℕ
  pub event : ℕ
  pub key : ℕ
  pub port : ℕ

pub data Request : Type 0 where
  connect : Request
  announce : ℕ → AnnounceFields → Request
  scrape : ℕ → List ℕ → Request

-- The errors are texts in the program.
pub data Error : Type 0 where
  not_enough_space number_of_hashes unsupported_action : Error
  expected_bytes scrape_length bytes_remaining : ℕ → Error

-- What is written so far, in a buffer of `space` bytes.
unfoldable pub extend_from_slice : ℕ → List ℕ → List ℕ → Result Error (List ℕ)
extend_from_slice space s w =
    if ltb space (length w + length s) then err not_enough_space else ok (w ++ s)

-- One call after the other.
unfoldable pub extend_all : ℕ → List (List ℕ) → List ℕ → Result Error (List ℕ)
extend_all space [] w = ok w
extend_all space (s ∷ ss) w = extend_from_slice space s w >>= λ w'. extend_all space ss w'

unfoldable pub serialize : Request → ℕ → ℕ → Result Error (List ℕ)
serialize connect transaction_id space =
    extend_all space
      (to_be_bytes 8 connection_id_magic
        ∷ to_be_bytes 4 action_connect
        ∷ to_be_bytes 4 transaction_id
        ∷ [])
      []
serialize (announce connection_id fields) transaction_id space =
    extend_all space
      (to_be_bytes 8 connection_id
        ∷ to_be_bytes 4 action_announce
        ∷ to_be_bytes 4 transaction_id
        ∷ to_be_bytes 20 fields.info_hash
        ∷ to_be_bytes 20 fields.peer_id
        ∷ to_be_bytes 8 fields.downloaded
        ∷ to_be_bytes 8 fields.left
        ∷ to_be_bytes 8 fields.uploaded
        ∷ to_be_bytes 4 fields.event
        ∷ to_be_bytes 4 0
        ∷ to_be_bytes 4 fields.key
        ∷ to_be_bytes 4 (2 ^ 32 - 1)
        ∷ to_be_bytes 2 fields.port
        ∷ [])
      []
serialize (scrape connection_id info_hashes) transaction_id space =
    if length info_hashes == 0 || ltb 74 (length info_hashes)
    then err number_of_hashes
    else extend_all space
        (to_be_bytes 8 connection_id
          ∷ to_be_bytes 4 action_scrape
          ∷ to_be_bytes 4 transaction_id
          ∷ map (to_be_bytes 20) info_hashes)
        []

-- The size of `write_buf`.
abbrev pub write_buf_len : ℕ
write_buf_len = 1024

pub record AnnounceResponse : Type 0 where
  pub interval : ℕ
  pub leechers : ℕ
  pub seeders : ℕ
  pub addrs : List SocketAddr

pub record ScrapeStats : Type 0 where
  pub seeders : ℕ
  pub completed : ℕ
  pub leechers : ℕ

pub data Response : Type 0 where
  connected : ℕ → Response
  announced : AnnounceResponse → Response
  scraped : List ScrapeStats → Response
  error : List ℕ → Response
  unknown : Response

abbrev pub split_slice : List ℕ → ℕ → Option (List ℕ × List ℕ)
split_slice s first_len =
    if ltb (length s) first_len then none else some (take first_len s, drop first_len s)

-- `parse_num` of the type with that many bytes.
unfoldable pub parse_num : ℕ → List ℕ → Result Error (ℕ × List ℕ)
parse_num size buf = elim (split_slice buf size) [
  | none ↦ err (expected_bytes size)
  | some (bytes, rest) ↦ ok (from_be_bytes bytes, rest)
]

abbrev pub ip_bytes : Bool → ℕ
ip_bytes true = 16
ip_bytes false = 4

-- The loop over the addresses.
unfoldable pub parse_addrs : ℕ → Bool → List ℕ → Result Error (List SocketAddr)
parse_addrs fuel is_ipv6 [] = ok []
parse_addrs zero is_ipv6 (b ∷ bs) = out_of_fuel
parse_addrs (suc fuel) is_ipv6 (b ∷ bs) = parse_num (ip_bytes is_ipv6) (b ∷ bs) >>= λ (ip, b₂).
    parse_num 2 b₂ >>= λ (port, b₃). parse_addrs fuel is_ipv6 b₃ >>= λ addrs.
    ok ((record { is_ipv6 = is_ipv6; ip = ip; port = port }) ∷ addrs)

-- The loop over the numbers of a scrape.
unfoldable pub parse_stats : ℕ → List ℕ → Result Error (List ScrapeStats)
parse_stats fuel [] = ok []
parse_stats zero (b ∷ bs) = out_of_fuel
parse_stats (suc fuel) (b ∷ bs) = parse_num 4 (b ∷ bs) >>= λ (seeders, b₂).
    parse_num 4 b₂ >>= λ (completed, b₃). parse_num 4 b₃ >>= λ (leechers, b₄).
    parse_stats fuel b₄ >>= λ stats.
    ok ((record { seeders = seeders; completed = completed; leechers = leechers }) ∷ stats)

-- `CStr::from_bytes_with_nul`: the bytes before the only zero, which is the last byte.
abbrev pub from_bytes_with_nul : List ℕ → Option (List ℕ)
from_bytes_with_nul [] = none
from_bytes_with_nul (b ∷ bs) =
    let rest = from_bytes_with_nul bs in
    if b == 0
    then (if length bs == 0 then some [] else none)
    else elim rest [ none ↦ none | some s ↦ some (b ∷ s) ]

-- `<invalid UTF-8>`
abbrev pub invalid_text : List ℕ
invalid_text = 60 ∷ 105 ∷ 110 ∷ 118 ∷ 97 ∷ 108 ∷ 105 ∷ 100 ∷ 32 ∷ 85 ∷ 84 ∷ 70 ∷ 45 ∷ 56 ∷ 62 ∷ []

-- A response that is not understood is unknown.
abbrev pub or_unknown : Result Error Response → Result Error Response
or_unknown (ok r) = ok r
or_unknown (err e) = ok unknown
or_unknown out_of_fuel = out_of_fuel

-- `is_utf8` is the test of `str::from_utf8`.
module _ (is_utf8 : List ℕ → Bool) where
  abbrev pub from_utf8 : List ℕ → List ℕ
  from_utf8 buf = if is_utf8 buf then buf else invalid_text

  unfoldable pub error_text : List ℕ → List ℕ
  error_text buf = elim (from_bytes_with_nul buf) [
    | none ↦ from_utf8 buf
    | some s ↦ if is_utf8 s then s else from_utf8 buf
  ]

  unfoldable pub parse_connect : List ℕ → Result Error Response
  parse_connect buf = parse_num 8 buf >>= λ (connection_id, rest).
      if ltb 0 (length rest)
      then err (bytes_remaining (length rest))
      else ok (connected connection_id)

  unfoldable pub parse_announce : Bool → List ℕ → Result Error Response
  parse_announce is_ipv6 buf = parse_num 4 buf >>= λ (interval, b).
      parse_num 4 b >>= λ (leechers, b₂). parse_num 4 b₂ >>= λ (seeders, b₃).
      parse_addrs (length b₃) is_ipv6 b₃ >>= λ addrs. ok (
        announced
          (record { interval = interval; leechers = leechers; seeders = seeders; addrs = addrs }))

  unfoldable pub parse_scrape : List ℕ → Result Error Response
  parse_scrape buf =
      if length buf == 0 || not (length buf % 12 == 0)
      then err (scrape_length (length buf))
      else parse_stats (length buf) buf >>= λ stats. ok (scraped stats)

  unfoldable pub parse_response : ℕ → Bool → List ℕ → Result Error Response
  parse_response action is_ipv6 buf =
      if action == action_connect
      then parse_connect buf
      else if action == action_announce
      then parse_announce is_ipv6 buf
      else if action == action_scrape
      then parse_scrape buf
      else if action == action_error
      then ok (error (error_text buf))
      else err unsupported_action

  unfoldable pub parse : List ℕ → Bool → Result Error (ℕ × Response)
  parse buf is_ipv6 = parse_num 4 buf >>= λ (action, b). parse_num 4 b >>= λ (tid, b₂).
      or_unknown (parse_response action is_ipv6 b₂) >>= λ response. ok (tid, response)
