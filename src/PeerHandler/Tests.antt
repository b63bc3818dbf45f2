-- ===== src/PeerHandler/Tests.antt =====
-- A torrent of two pieces, of which the first is there: a peer takes the second one and dies.
use rust_torrent.Prelude.{
  ◌||◌, ℕ, ◌*◌, ◌≤◌, ◌≡◌, refl, Bool, true, false, none, some, List, [], ◌∷◌, replicate, arith,
}
use rust_torrent.Prelude.Members.{member}
use rust_torrent.Prelude.HashMap.{find}
use rust_torrent.Outcome.{ok}
use rust_torrent.Lengths.Tests.{two_pieces, two_pieces-IsValid}
use rust_torrent.Bits.Example.{list_bits}
use rust_torrent.ChunkTracker
use rust_torrent.ChunkTracker.{ChunkTracker, PieceMessage}
use rust_torrent.ChunkTracker.Tests.{
  one_file, half_there, no_bits, first_there, first_there-len, both, both-len,
}
use rust_torrent.PieceTracker.{InflightPiece, PieceTracker, AcquireRequest}
use rust_torrent.PeerHandler.{ReceivedResult, on_received_piece, acquire_next_piece, mark_checked}
use rust_torrent.PeerHandler.Receive.{IsHandled, on_received_piece_lem}
use rust_torrent.PieceTracker.Yields.{IsOffered}
use rust_torrent.PeerHandler.System.{
  Live, acquire, receive, check_failed, died, handle, Reach, here, next,
}
use rust_torrent.PeerHandler.Settled.{IsSettled, is_somewhere}
use rust_torrent.PeerHandler.Download.{
  download-lost, start_live, download-IsSettled, download-handled, download-progress,
}
use rust_torrent.PeerHandler.Lost.{acquire_next_piece-twice}

abbrev plain : ℕ → ℕ → ℕ
plain avg threshold = avg * threshold

built : ChunkTracker.new first_there both two_pieces one_file ≡ ok half_there
unfolding ChunkTracker.new ChunkTracker.compute_queued_pieces ChunkTracker.compute_chunk_have_status
    ChunkTracker.have_status_loop ChunkTracker.recalculate_per_file_bytes
    ChunkTracker.file_have_bytes ChunkTracker.calc_hns ChunkTracker.hns_loop
    rust_torrent.Lengths.total_pieces rust_torrent.Lengths.iter_piece_infos
    rust_torrent.Lengths.chunks_per_piece rust_torrent.Lengths.chunk_bitfield_bytes
    rust_torrent.Lengths.size_of_piece_in_file rust_torrent.Lengths.piece_bitfield_bytes
built = refl

abbrev ask : AcquireRequest
ask = record {
  peer = 9;
  peer_avg_time = none;
  priority_pieces = [];
  file_priorities = 0 ∷ [];
  file_infos = one_file;
  peer_has_piece = λ p. true;
  can_steal = λ p. true;
}

-- The second piece is in flight for peer 9.
abbrev taken_live : Live (List Bool)
taken_live = record {
  pieces = record {
    chunks = record half_there { queue_pieces = false ∷ false ∷ no_bits };
    inflight = (1, record { peer = 9; started = 5 }) ∷ [];
  };
  checking = [];
  completing = [];
  failed = [];
}

abbrev start : Live (List Bool)
start =
    start_live plain two_pieces-IsValid first_there both one_file first_there-len both-len
      (omega arith, tt) half_there

takes : handle plain one_file (acquire 5 false ask) start ≡ ok taken_live
unfolding handle acquire_next_piece rust_torrent.PieceTracker.acquire_piece
    rust_torrent.PieceTracker.try_steal rust_torrent.PieceTracker.find_priority
    rust_torrent.PieceTracker.acquire_queued rust_torrent.ChunkTracker.Methods.iter_queued_pieces
    rust_torrent.ChunkTracker.Methods.unfinished_file rust_torrent.PieceTracker.new
    rust_torrent.ChunkTracker.Methods.filter_queued rust_torrent.FileInfo.iter_piece_priorities
    rust_torrent.PieceTracker.find_queued rust_torrent.ChunkTracker.Methods.filter_valid
    rust_torrent.Lengths.validate_piece_index rust_torrent.PieceTracker.reserve_piece
    rust_torrent.ChunkTracker.Methods.reserve_needed_piece
takes = refl

nothing_asked : (p : ℕ) → member p [] ≡ true → (p ≤ 1) × (false ≡ false)
nothing_asked p m = cc

taken-Reach : Reach plain one_file start taken_live
unfolding rust_torrent.PieceTracker.new
taken-Reach = next here (acquire 5 false ask) (refl, nothing_asked) takes

download-IsSettled_example :
    IsSettled half_there taken_live
    × ((p : ℕ)
        → p ≤ 1
        → list_bits.get both p ≡ true
        → (is_somewhere taken_live p || member p []) ≡ true)
download-IsSettled_example =
    download-IsSettled plain two_pieces-IsValid first_there both one_file first_there-len both-len
      (omega arith, tt) half_there built taken_live taken-Reach

download-handled_example :
    (l : Live (List Bool)) × (handle plain one_file (died 9 true) taken_live ≡ ok l)
    × Reach plain one_file start l
download-handled_example =
    download-handled plain two_pieces-IsValid first_there both one_file first_there-len both-len
      (omega arith, tt) half_there built taken_live taken-Reach (died 9 true) tt

offered : IsOffered start.pieces.chunks one_file 0 1
unfolding rust_torrent.PieceTracker.new
offered = record {
  file = record {
    relative_filename = "a";
    offset_in_torrent = 0;
    piece_range = record { start = 0; end = 2 };
    padding = false;
    len = 40000;
  };
  known = refl;
  have_bytes = 32768;
  slot = refl;
  open_file = refl;
  from = omega arith;
  before = omega arith;
  inside = omega arith;
  queued = refl;
}

download-progress_example :
    (l : Live (List Bool)) × (q : ℕ) × (acquire_next_piece plain 5 false ask start.pieces
      ≡ ok (l.pieces, some q))
    × (find q l.pieces.inflight ≡ some (record { peer = 9; started = 5 }))
    × Reach plain one_file start l
unfolding rust_torrent.PieceTracker.new
download-progress_example =
    download-progress plain two_pieces-IsValid first_there both one_file first_there-len both-len
      (omega arith, tt) half_there built start here 5 ask (refl, nothing_asked) 0 1 refl offered
      refl

-- The block of the second piece.
abbrev block : PieceMessage
block = record { index = 1; begin = 0; len = 7232 }

on_received_piece_lem_example :
    (pt : PieceTracker (List Bool)) × (r : ReceivedResult) × (on_received_piece 8 9
        (λ c. true)
        true
        block
        taken_live.pieces
      ≡ ok (pt, r))
    × IsHandled 8 9 1 taken_live.pieces pt r
on_received_piece_lem_example =
    on_received_piece_lem (download-IsSettled_example.0.apart) 8 9 (λ c. true) true block

-- All of the second piece has come, and its hash is being checked.
abbrev checked_live : Live (List Bool)
checked_live = record {
  pieces = record {
    chunks = record half_there {
      queue_pieces = false ∷ false ∷ no_bits;
      chunk_status = true ∷ true ∷ true ∷ replicate 5 false;
    };
    inflight = [];
  };
  checking = 1 ∷ [];
  completing = [];
  failed = [];
}

received : handle plain one_file (receive 8 9 (λ c. true) true block) taken_live ≡ ok checked_live
unfolding handle on_received_piece rust_torrent.Lengths.validate_piece_index
    rust_torrent.Lengths.chunk_info_from_received_data rust_torrent.PeerHandler.write_to_disk
    rust_torrent.PeerHandler.mark_written rust_torrent.PieceTracker.mark_chunk_downloaded
    rust_torrent.ChunkTracker.Methods.mark_chunk_downloaded
    rust_torrent.ChunkTracker.Methods.mark_chunk rust_torrent.Lengths.chunk_range
    rust_torrent.PieceTracker.take_inflight
received = refl

checked-Reach : Reach plain one_file start checked_live
checked-Reach = next taken-Reach (receive 8 9 (λ c. true) true block) tt received

checked-IsSettled : IsSettled half_there checked_live
checked-IsSettled =
    (download-IsSettled plain two_pieces-IsValid first_there both one_file first_there-len both-len
      (omega arith, tt) half_there built checked_live checked-Reach).0

-- The check failed with an error.
abbrev lost_live : Live (List Bool)
lost_live = record checked_live { checking = []; failed = 1 ∷ [] }

loses : handle plain one_file (check_failed 1) checked_live ≡ ok lost_live
unfolding handle
loses = refl

dies : handle plain one_file (died 9 false) lost_live ≡ ok lost_live
unfolding handle rust_torrent.PeerHandler.on_peer_died
dies = refl

download-lost_example : is_somewhere lost_live 1 ≡ false
download-lost_example =
    download-lost plain two_pieces-IsValid first_there both one_file first_there-len both-len
      (omega arith, tt) half_there built 1 checked_live lost_live lost_live checked-Reach refl loses
      (next here (died 9 false) tt dies) (tt, refl)

acquire_next_piece-twice_example :
    (pt : PieceTracker (List Bool)) × (acquire_next_piece plain 9 false
        (record ask { priority_pieces = 1 ∷ [] })
        checked_live.pieces
      ≡ ok (pt, some 1))
    × (pt' : PieceTracker (List Bool)) × (mark_checked 1 true pt ≡ ok pt')
    × (find 1 pt'.inflight ≡ some (record { peer = 9; started = 9 }))
    × (list_bits.get pt'.chunks.have 1 ≡ true)
acquire_next_piece-twice_example =
    acquire_next_piece-twice checked-IsSettled 1 refl plain 9
      (record ask { priority_pieces = 1 ∷ [] }) [] refl refl refl
