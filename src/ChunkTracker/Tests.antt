-- ===== src/ChunkTracker/Tests.antt =====
-- The tracker at a torrent of two pieces, the first of which is there, in one file.
use rust_torrent.Prelude.{
  ℕ, ◌*◌, ◌/◌, ◌≤◌, ◌<◌, ◌≡◌, refl, List, [], ◌∷◌, length, replicate, Bool, true, false, not, ◌&&◌,
  ◌||◌, ltb, leb, ◌==◌, if◌then◌else◌, some, none, arith,
}
use rust_torrent.Outcome.{ok}
use rust_torrent.Lengths.{
  ChunkInfo, piece_length, chunk_range, piece_bitfield_bytes, chunk_bitfield_bytes, total_chunks,
  chunk_info_from_received_data,
}
use rust_torrent.Lengths.Tests.{two_pieces, two_pieces-IsValid}
use rust_torrent.Bits.Example.{list_bits}
use rust_torrent.ChunkTracker.{
  ChunkTracker, HaveNeededSelected, ChunkMarkingResult, completed, FileInfos, PieceMessage,
  compute_chunk_have_status, calc_hns, compute_selected_pieces,
}
use rust_torrent.ChunkTracker
use rust_torrent.ChunkTracker.Valid.{IsValid}
use rust_torrent.ChunkTracker.Start.{new_lem}
use rust_torrent.ChunkTracker.Methods.{
  mark_piece_broken_if_not_have, mark_piece_downloaded, mark_chunk_downloaded, update_only_files,
}
use rust_torrent.ChunkTracker.Marks.{mark_piece_broken_lem, mark_piece_downloaded_lem}
use rust_torrent.ChunkTracker.Received.{Marked, mark_chunk_downloaded_lem}
use rust_torrent.ChunkTracker.OnlyFiles.{update_only_files_lem}

abbrev pub no_bits : List Bool
no_bits = replicate 6 false

-- The first piece is there, and both are selected.
abbrev pub first_there : List Bool
first_there = true ∷ false ∷ no_bits

abbrev pub both : List Bool
both = true ∷ true ∷ no_bits

abbrev pub one_file : FileInfos
one_file =
    record {
      relative_filename = "a";
      offset_in_torrent = 0;
      piece_range = record { start = 0; end = 2 };
      padding = false;
      len = 40000;
    }
    ∷ []

abbrev pub half_there : ChunkTracker (List Bool)
half_there = record {
  queue_pieces = false ∷ true ∷ no_bits;
  chunk_status = true ∷ true ∷ no_bits;
  have = first_there;
  selected = both;
  per_file_bytes = 32768 ∷ [];
  lengths = two_pieces;
  hns = record { have_bytes = 32768; needed_bytes = 7232; selected_bytes = 40000 };
}

piece_bits-two : piece_bitfield_bytes two_pieces ≡ 1
unfolding piece_bitfield_bytes
piece_bits-two = refl

chunk_bits-two : chunk_bitfield_bytes two_pieces ≡ 1
unfolding chunk_bitfield_bytes
chunk_bits-two = refl

pub half_there-IsValid : IsValid half_there
unfolding piece_bitfield_bytes chunk_bitfield_bytes piece_length
half_there-IsValid = record {
  shaped = record {
    lengths_valid = two_pieces-IsValid;
    queue_len = refl;
    have_len = refl;
    selected_len = refl;
    chunk_len = refl;
  };
  synced = refl;
}

pub both-len : length both ≡ piece_bitfield_bytes two_pieces * 8
unfolding piece_bitfield_bytes
both-len = refl

pub first_there-len : length first_there ≡ piece_bitfield_bytes two_pieces * 8
unfolding piece_bitfield_bytes
first_there-len = refl

new_lem_example :
    (ct : ChunkTracker (List Bool)) × (ChunkTracker.new first_there both two_pieces one_file
      ≡ ok ct)
    × IsValid ct
    × (ct.have ≡ first_there)
    × (ct.selected ≡ both)
    × (ct.lengths ≡ two_pieces)
    × (length ct.per_file_bytes ≡ 1)
    × ((j : ℕ)
        → j ≤ 1
        → list_bits.get ct.queue_pieces j
          ≡ (not (list_bits.get first_there j) && list_bits.get both j))
    × ((c : ℕ)
        → c < total_chunks two_pieces
        → list_bits.get ct.chunk_status c ≡ list_bits.get first_there (c / 2))
new_lem_example =
    new_lem two_pieces-IsValid first_there both one_file first_there-len both-len (omega arith, tt)

mark_piece_broken_example :
    (ct' : ChunkTracker (List Bool)) × (mark_piece_broken_if_not_have half_there 1 ≡ ok ct')
    × IsValid ct'
    × (ct' ≡ record half_there { queue_pieces = ct'.queue_pieces; chunk_status = ct'.chunk_status })
    × ((j : ℕ)
        → list_bits.get ct'.queue_pieces j
          ≡ (if j == 1 && true then true else list_bits.get half_there.queue_pieces j))
    × ((c : ℕ)
        → list_bits.get ct'.chunk_status c ≡ (
            let r = chunk_range two_pieces 1 in
            if true && (leb r.start c && ltb c r.end)
            then false
            else list_bits.get half_there.chunk_status c))
mark_piece_broken_example = mark_piece_broken_lem half_there-IsValid 1 (omega arith)

mark_piece_downloaded_example :
    (ct' : ChunkTracker (List Bool)) × (mark_piece_downloaded half_there 1 ≡ ok ct')
    × IsValid ct'
    × (ct' ≡ record half_there { have = ct'.have; hns = ct'.hns })
    × ((j : ℕ)
        → list_bits.get ct'.have j ≡ (if j == 1 then true else list_bits.get half_there.have j))
mark_piece_downloaded_example = mark_piece_downloaded_lem half_there-IsValid 1 (omega arith)

-- The only chunk of the second piece.
abbrev last_chunk : ChunkInfo
last_chunk = record {
  piece_index = 1;
  chunk_index = 0;
  absolute_index = 2;
  size = 7232;
  offset = 0;
}

abbrev last_message : PieceMessage
last_message = record { index = 1; begin = 0; len = 7232 }

last_message-received : chunk_info_from_received_data two_pieces 1 0 7232 ≡ some last_chunk
unfolding chunk_info_from_received_data
last_message-received = refl

mark_chunk_downloaded_example :
    (ct' : ChunkTracker (List Bool)) × (r : ChunkMarkingResult) × (mark_chunk_downloaded half_there
        last_message
      ≡ ok (ct', some r))
    × Marked half_there last_chunk ct' r
mark_chunk_downloaded_example =
    mark_chunk_downloaded_lem half_there-IsValid last_message (omega arith) {c = last_chunk}
      (omega arith) last_message-received

-- A block that is too long.
abbrev long_message : PieceMessage
long_message = record { index = 1; begin = 0; len = 7233 }

long_message-unknown : chunk_info_from_received_data two_pieces 1 0 7233 ≡ none
unfolding chunk_info_from_received_data
long_message-unknown = refl

-- No file is selected any more.
update_only_files_example :
    (ct' : ChunkTracker (List Bool)) × (update_only_files half_there one_file (λ i. false)
      ≡ ok (ct', ct'.hns))
    × IsValid ct'
    × (ct'.selected ≡ compute_selected_pieces two_pieces (λ i. false) one_file)
    × (ct'.have ≡ first_there)
    × (ct'.lengths ≡ two_pieces)
    × ((j : ℕ)
        → j ≤ 1
        → list_bits.get ct'.queue_pieces j ≡ (
            (list_bits.get ct'.selected j || list_bits.get first_there j)
            && (list_bits.get half_there.queue_pieces j
                || (list_bits.get ct'.selected j
                    && (not (list_bits.get both j) && not (list_bits.get first_there j))))))
update_only_files_example = update_only_files_lem half_there-IsValid one_file (λ i. false)
