-- ===== src/PieceTracker/Tests.antt =====
-- The piece tracker at a torrent of two pieces, the first of which is there.
use rust_torrent.Prelude.{
  ℕ, ◌≤◌, ◌≡◌, refl, List, [], ◌∷◌, true, some, arith, Bool, false, none, ◌*◌, zero, suc, subst,
  ◌||◌, ◌==◌, ==→eq, if◌then◌else◌, Bool-cases, inl, inr, length,
}
use rust_torrent.Prelude.HashMap.{find}
use rust_torrent.Prelude.Members.{member}
use rust_torrent.Outcome.{ok}
use rust_torrent.Bits.Example.{list_bits, get-replicate}
use rust_torrent.ChunkTracker.Methods.{iter_queued_pieces}
use rust_torrent.ChunkTracker.Tests.{one_file, half_there, half_there-IsValid, no_bits, first_there}
use rust_torrent.PieceTracker.{
  InflightPiece, Inflight, slowest, slowest_from, PieceTracker, AcquireRequest, AcquireResult,
  acquire_piece, owned_by, release_pieces_owned_by, update_only_files,
}
use rust_torrent.Lengths.{piece_length, piece_bitfield_bytes}
use rust_torrent.Lengths.Tests.{two_pieces, two_pieces-IsValid}
use rust_torrent.ChunkTracker.{ChunkTracker, compute_selected_pieces, select_loop}
use rust_torrent.ChunkTracker.Valid.{IsValid}
use rust_torrent.PieceTracker.Apart.{IsApart}
use rust_torrent.PieceTracker.TrySteal.{Acquired}
use rust_torrent.PieceTracker.Acquire.{acquire_piece_lem}
use rust_torrent.PieceTracker.Release.{Requeued, is_owned, release_pieces_owned_by_lem}
use rust_torrent.PieceTracker.OnlyFiles.{update_only_files_requeues}
use rust_torrent.PieceTracker.Queue.{iter_queued_pieces-total}

abbrev started_at : ℕ → InflightPiece
started_at t = record { peer = 7; started = t }

abbrev three_inflight : Inflight
three_inflight = (0, started_at 5) ∷ (1, started_at 2) ∷ (2, started_at 4) ∷ []

slowest_example : slowest 10 three_inflight ≡ some (1, started_at 2)
unfolding slowest slowest_from
slowest_example = refl

iter_queued_pieces_example :
    (out : List ℕ) × (iter_queued_pieces half_there (0 ∷ 7 ∷ []) one_file ≡ ok out)
    × ((p : ℕ) → member p out ≡ true → (list_bits.get half_there.queue_pieces p ≡ true) × (p ≤ 1))
iter_queued_pieces_example =
    iter_queued_pieces-total half_there-IsValid.shaped one_file (0 ∷ 7 ∷ []) (omega arith, tt)
      (omega arith)

-- The second piece is queued.
abbrev idle : PieceTracker (List Bool)
idle = record { chunks = half_there; inflight = [] }

queued-missing :
    (p : ℕ)
    → p ≤ 1
    → list_bits.get half_there.queue_pieces p ≡ true
    → list_bits.get first_there p ≡ false
queued-missing zero h q = cc
queued-missing (suc zero) h q = refl
queued-missing (suc (suc p)) h q = absurd (omega arith)

idle-IsApart : IsApart idle
idle-IsApart = record {
  chunks_valid = half_there-IsValid;
  unique = tt;
  inflight_apart = λ p info h. cc;
  queue_apart = queued-missing;
}

-- The second piece is in flight, or about to be checked.
abbrev busy_chunks : ChunkTracker (List Bool)
busy_chunks = record half_there { queue_pieces = false ∷ false ∷ no_bits }

busy_chunks-IsValid : IsValid busy_chunks
unfolding piece_bitfield_bytes
busy_chunks-IsValid = record {
  shaped = record {
    lengths_valid = two_pieces-IsValid;
    queue_len = refl;
    have_len = refl;
    selected_len = refl;
    chunk_len = half_there-IsValid.chunk_len;
  };
  synced = half_there-IsValid.synced;
}

abbrev second_inflight : Inflight
second_inflight = (1, started_at 5) ∷ []

abbrev busy : PieceTracker (List Bool)
busy = record { chunks = busy_chunks; inflight = second_inflight }

abbrev checking : PieceTracker (List Bool)
checking = record { chunks = busy_chunks; inflight = [] }

only_second : (p : ℕ) (info : InflightPiece) → find p second_inflight ≡ some info → 1 ≡ p
only_second p info h = elim (Bool-cases (1 == p)) [ inl t ↦ ==→eq 1 p t | inr f ↦ cc (rw f at h) ]

none_queued :
    (p : ℕ) → list_bits.get busy_chunks.queue_pieces p ≡ true → list_bits.get first_there p ≡ false
none_queued p h = cc (get-replicate 8 p, h)

busy-IsApart : IsApart busy
busy-IsApart = record {
  chunks_valid = busy_chunks-IsValid;
  unique = (refl, tt);
  inflight_apart = λ p info h.
      subst
        (λ (k : ℕ).
          (k ≤ 1)
          × (list_bits.get busy_chunks.queue_pieces k ≡ false)
          × (list_bits.get first_there k ≡ false))
        (only_second p info h) (omega arith, refl, refl);
  queue_apart = λ p h. none_queued p;
}

checking-IsApart : IsApart checking
checking-IsApart = record {
  chunks_valid = busy_chunks-IsValid;
  unique = tt;
  inflight_apart = λ p info h. cc;
  queue_apart = λ p h. none_queued p;
}

abbrev request : AcquireRequest
request = record {
  peer = 9;
  peer_avg_time = some 1;
  priority_pieces = 0 ∷ [];
  file_priorities = 0 ∷ [];
  file_infos = one_file;
  peer_has_piece = λ p. true;
  can_steal = λ p. true;
}

first_small : (q : ℕ) → member q (0 ∷ []) ≡ true → q ≤ 1
first_small q m = ground arith

acquire_piece_example :
    (pt' : PieceTracker (List Bool)) × (r : AcquireResult) × (acquire_piece ◌*◌ 10 idle request
      ≡ ok (pt', r))
    × IsApart pt'
    × Acquired 10 idle request pt' r
acquire_piece_example =
    acquire_piece_lem idle-IsApart 10 request ◌*◌ first_small (omega arith, tt) (omega arith)

release_pieces_owned_by_example :
    (pt' : PieceTracker (List Bool)) × (release_pieces_owned_by busy 7
      ≡ ok (pt', length (owned_by 7 second_inflight)))
    × IsApart pt'
    × (pt'.chunks.have ≡ first_there)
    × ((q : ℕ)
        → find q pt'.inflight
          ≡ (if is_owned 7 (find q second_inflight) then none else find q second_inflight))
    × ((q : ℕ)
        → list_bits.get pt'.chunks.queue_pieces q
          ≡ (is_owned 7 (find q second_inflight) || list_bits.get busy_chunks.queue_pieces q))
    × Requeued busy.chunks pt'.chunks
release_pieces_owned_by_example = release_pieces_owned_by_lem busy-IsApart 7

-- The second piece is in flight, and its file is not selected any more.
abbrev deselected : PieceTracker (List Bool)
deselected = record busy {
  chunks = record busy_chunks {
    selected = first_there;
    hns = record { have_bytes = 32768; needed_bytes = 0; selected_bytes = 32768 };
  };
}

deselected-IsApart : IsApart deselected
unfolding piece_bitfield_bytes piece_length
deselected-IsApart = record {
  chunks_valid = record {
    shaped = record {
      lengths_valid = two_pieces-IsValid;
      queue_len = refl;
      have_len = refl;
      selected_len = refl;
      chunk_len = half_there-IsValid.chunk_len;
    };
    synced = refl;
  };
  unique = (refl, tt);
  inflight_apart = busy-IsApart.inflight_apart;
  queue_apart = busy-IsApart.queue_apart;
}

chosen_again :
    let chosen : List Bool = compute_selected_pieces two_pieces (λ i. true) one_file in
    list_bits.get chosen 1 ≡ true
unfolding compute_selected_pieces select_loop piece_bitfield_bytes
chosen_again = refl

update_requeues_example :
    (pt' : PieceTracker (List Bool)) × (update_only_files deselected one_file (λ i. true)
      ≡ ok (pt', pt'.chunks.hns))
    × (find 1 pt'.inflight ≡ some (started_at 5))
    × (list_bits.get pt'.chunks.queue_pieces 1 ≡ true)
update_requeues_example =
    update_only_files_requeues deselected-IsApart one_file (λ i. true) 1 {info = started_at 5} refl
      refl chosen_again
