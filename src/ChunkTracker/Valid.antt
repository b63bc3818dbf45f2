-- ===== src/ChunkTracker/Valid.antt =====
-- The invariant of the chunk tracker: bit arrays of the right sizes, and statistics in step with them.
use rust_torrent.Prelude.{ℕ, ◌*◌, ◌≤◌, ◌<◌, ◌≡◌, arith}
use rust_torrent.Lengths.{
  Lengths, piece_bitfield_bytes, chunk_bitfield_bytes, total_chunks, chunk_range,
}
use rust_torrent.Lengths.Valid
use rust_torrent.Lengths.Pieces.{total_pieces-eq}
use rust_torrent.Lengths.Ranges.{chunk_range_inside}
use rust_torrent.Bits.{Bits}
use rust_torrent.ChunkTracker.{ChunkTracker}
use rust_torrent.ChunkTracker.Bytes.{hns_of}

module _ {BF : Type 0} ⦃bits : Bits BF⦄ where
  pub record IsShaped (ct : ChunkTracker BF) : Type 0 where
    pub lengths_valid : Valid.IsValid ct.lengths
    pub queue_len : bits.len ct.queue_pieces ≡ piece_bitfield_bytes ct.lengths * 8
    pub have_len : bits.len ct.have ≡ piece_bitfield_bytes ct.lengths * 8
    pub selected_len : bits.len ct.selected ≡ piece_bitfield_bytes ct.lengths * 8
    pub chunk_len : bits.len ct.chunk_status ≡ chunk_bitfield_bytes ct.lengths * 8

  pub record IsValid (ct : ChunkTracker BF) : Type 0 where
    pub shaped : IsShaped ct
    pub open shaped use *
    pub synced : ct.hns ≡ hns_of ct.lengths (bits.get ct.have) (bits.get ct.selected)

-- Every piece has its bit.
pub piece_bits : {l : Lengths} → Valid.IsValid l → l.last_piece_id < piece_bitfield_bytes l * 8
unfolding piece_bitfield_bytes
piece_bits {l} v = ground (arith, total_pieces-eq v)

pub chunk_bits : (l : Lengths) → total_chunks l ≤ chunk_bitfield_bytes l * 8
unfolding chunk_bitfield_bytes
chunk_bits l = ground arith

-- The chunks of a piece have their bits, and there is one at least.
pub chunk_range_bits :
    {l : Lengths}
    → Valid.IsValid l
    → (i : ℕ) → i ≤ l.last_piece_id
    → ((chunk_range l i).start < (chunk_range l i).end)
      × ((chunk_range l i).end ≤ chunk_bitfield_bytes l * 8)
chunk_range_bits {l} v i h = omega (arith, chunk_range_inside v i h, chunk_bits l)
