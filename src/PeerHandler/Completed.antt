-- ===== src/PeerHandler/Completed.antt =====
-- What `on_piece_completed` changes.
use rust_torrent.Prelude.{
  subst, ℕ, ◌+◌, ◌≤◌, ◌<◌, ◌≡◌, refl, sym, ◌∙◌, ap, not, Bool-cases, inl, inr, List, [], ◌∷◌,
  length, length-set, set, ◌==◌, add_u64, lt→ltb, arith,
}
use rust_torrent.Prelude.Members.{member-keep_if}
use rust_torrent.Prelude.HashMap.{find, UniqueKeys}
use rust_torrent.Outcome.{ok}
use rust_torrent.Lengths.{size_of_piece_in_file}
use rust_torrent.Bits.{Bits}
use rust_torrent.FileInfo.{FileInfo}
use rust_torrent.ChunkTracker.{ChunkTracker, FileInfos}
use rust_torrent.ChunkTracker.Methods.{is_finished}
use rust_torrent.ChunkTracker.Methods
use rust_torrent.ChunkTracker.Valid.{IsValid, piece_bits}
use rust_torrent.PieceTracker.{PieceTracker, update_file_have_on_piece_completed}
use rust_torrent.PieceTracker.Apart.{IsApart}
use rust_torrent.PieceTracker.Queue.{get_elem?-some}
use rust_torrent.PeerHandler.{
  contains, take_files, files_from, files_of, update_files, on_piece_completed,
}
use rust_torrent.PeerHandler.System.{Live, drop_piece}
use rust_torrent.PeerHandler.Settled.{still-IsCompleting, IsSettled, IsMoved}

-- All numbers of files are below a bound.
abbrev Below : ℕ → List (ℕ × FileInfo) → Type 0
Below n [] = Unit
Below n ((idx, fi) ∷ files) = (idx < n) × Below n files

take_files-Below :
    (id idx n : ℕ) (files : FileInfos) → idx + length files ≤ n → Below n (take_files id idx files)
take_files-Below id idx n [] h = tt
take_files-Below id idx n (fi ∷ files) h = elim (Bool-cases (contains id fi)) [
  | inl t ↦ rw t (omega arith, take_files-Below id (idx + 1) n files (omega arith))
  | inr f ↦ rw f tt
]

files_from-Below :
    (id idx n : ℕ) (files : FileInfos) → idx + length files ≤ n → Below n (files_from id idx files)
files_from-Below id idx n [] h = tt
files_from-Below id idx n (fi ∷ files) h = elim (Bool-cases (contains id fi)) [
  | inl t ↦ rw t (omega arith, take_files-Below id (idx + 1) n files (omega arith))
  | inr f ↦ rw f (files_from-Below id (idx + 1) n files (omega arith))
]

module _ {BF : Type 0} ⦃bits : Bits BF⦄ where
  -- Nothing but the byte counts of the files changes, and there are as many.
  pub record IsCounted (pt pt' : PieceTracker BF) : Type 0 where
    pub inflight_eq : pt'.inflight ≡ pt.inflight
    pub only : pt'.chunks ≡ record pt.chunks { per_file_bytes = pt'.chunks.per_file_bytes }
    pub slots : length pt'.chunks.per_file_bytes ≡ length pt.chunks.per_file_bytes

  update_files-IsCounted :
      (id : ℕ) (files : List (ℕ × FileInfo)) (pt : PieceTracker BF)
      → Below (length pt.chunks.per_file_bytes) files
      → (pt' : PieceTracker BF) × (update_files id files pt ≡ ok pt') × IsCounted pt pt'
  unfolding update_files update_file_have_on_piece_completed
      Methods.update_file_have_on_piece_completed
  update_files-IsCounted id [] pt b =
      (pt, refl, record { inflight_eq = refl; only = refl; slots = refl })
  update_files-IsCounted id ((idx, fi) ∷ files) pt b =
      let (n, slot) = get_elem?-some pt.chunks.per_file_bytes idx b.0 in
      let counts =
        set pt.chunks.per_file_bytes idx
          (add_u64 n (size_of_piece_in_file pt.chunks.lengths id fi.offset_in_torrent fi.len)) in
      let same =
        length-set pt.chunks.per_file_bytes idx
          (add_u64 n (size_of_piece_in_file pt.chunks.lengths id fi.offset_in_torrent fi.len)) in
      let (pt', eq, k) =
        update_files-IsCounted id files
          (record pt { chunks = record pt.chunks { per_file_bytes = counts } })
          (subst (λ (m : ℕ). Below m files) (sym same) b.1) in
      (
        pt',
        rw (slot, eq) refl,
        record { inflight_eq = k.inflight_eq; only = k.only; slots = k.slots ∙ same },
      )

  pub on_piece_completed-IsCounted :
      (files : FileInfos) (pt : PieceTracker BF)
      → IsApart pt
      → length files ≤ length pt.chunks.per_file_bytes
      → (id : ℕ) → id ≤ pt.chunks.lengths.last_piece_id
      → (pt' : PieceTracker BF) × (on_piece_completed files id pt ≡ ok pt') × IsCounted pt pt'
  unfolding on_piece_completed
  on_piece_completed-IsCounted files pt a slots id le =
      let (pt', eq, k) =
        update_files-IsCounted id (files_of id files) pt
          (files_from-Below id 0 (length pt.chunks.per_file_bytes) files (omega (arith, slots))) in
      let inside : id < bits.len pt'.chunks.selected = omega (
        arith,
        le,
        a.chunks_valid.selected_len,
        piece_bits a.chunks_valid.lengths_valid,
        ap (λ (t : ChunkTracker BF). bits.len t.selected) k.only,
      ) in
      (
        pt',
        elim (Bool-cases (is_finished pt'.chunks)) [
          | inl t ↦
              rw (on_piece_completed, eq, t, lt→ltb id (bits.len pt'.chunks.selected) inside) refl
          | inr f ↦ rw (on_piece_completed, eq, f) refl
        ],
        k,
      )

  counted-IsApart : (pt pt' : PieceTracker BF) → IsApart pt → IsCounted pt pt' → IsApart pt'
  counted-IsApart pt pt' a k =
      let last = ap (λ (t : ChunkTracker BF). t.lengths.last_piece_id) k.only in
      let queue_at = λ (q : ℕ). ap (λ (t : ChunkTracker BF). bits.get t.queue_pieces q) k.only in
      let have_at = λ (q : ℕ). ap (λ (t : ChunkTracker BF). bits.get t.have q) k.only in
      record {
        chunks_valid = subst IsValid (sym k.only) (record {
          shaped = record {
            lengths_valid = a.chunks_valid.lengths_valid;
            queue_len = a.chunks_valid.queue_len;
            have_len = a.chunks_valid.have_len;
            selected_len = a.chunks_valid.selected_len;
            chunk_len = a.chunks_valid.chunk_len;
          };
          synced = a.chunks_valid.synced;
        });
        unique = subst UniqueKeys (sym k.inflight_eq) a.unique;
        inflight_apart = λ q i h.
            let r = a.inflight_apart q i (ap (find q) (sym k.inflight_eq) ∙ h) in
            (omega (arith, r.0, last), queue_at q ∙ r.1, have_at q ∙ r.2);
        queue_apart = λ q h queued.
            have_at q ∙ a.queue_apart q (omega (arith, h, last)) (sym (queue_at q) ∙ queued);
      }

  module _ (start : ChunkTracker BF) (l : Live BF) (s : IsSettled start l) where
    pub counted-IsMoved :
        (p : ℕ) (pt' : PieceTracker BF)
        → IsCounted l.pieces pt'
        → IsMoved [] l (record l { pieces = pt'; completing = drop_piece p l.completing })
    counted-IsMoved p pt' k =
        let queue_at = λ (q : ℕ). ap (λ (t : ChunkTracker BF). bits.get t.queue_pieces q) k.only in
        let have_at = λ (q : ℕ). ap (λ (t : ChunkTracker BF). bits.get t.have q) k.only in
        let found_at = λ (q : ℕ). ap (find q) k.inflight_eq in
        record {
          apart = counted-IsApart l.pieces pt' s.apart k;
          lengths_eq = ap (λ (t : ChunkTracker BF). t.lengths) k.only;
          failed_eq = refl;
          slots_eq = k.slots;
          completing_there = λ q m.
              still-IsCompleting l pt' (ap (λ (t : ChunkTracker BF). t.lengths) k.only)
                (λ j h. have_at j ∙ h) s.completing_there q
                (ground (arith, member-keep_if (λ (j : ℕ). not (j == p)) q l.completing, m));
          checking_apart = λ q m.
              let c = s.checking_apart q m in
              (
                omega (arith, c.0, ap (λ (t : ChunkTracker BF). t.lengths.last_piece_id) k.only),
                queue_at q ∙ c.1,
                have_at q ∙ c.2,
                found_at q ∙ c.3,
              );
          kept = λ q h. rw (found_at q, queue_at q, have_at q) h;
          gone = λ q a h. rw (found_at q, queue_at q, have_at q) h;
          there = λ q h. have_at q ∙ h;
        }
