-- ===== src/FileInfo.antt =====
-- crates/librtbit/src/file_info.rs: a file of a torrent and the order in which its pieces are taken.
pub mod Order
pub mod Tests
use Prim.Native.String.{String}
use rust_torrent.Prelude.{
  ℕ, ◌-◌, ◌%◌, ◌+◌, Bool, List, [], ◌∷◌, u64_mod, add_u64, sub_u64, range_from, take, drop,
}
use rust_torrent.Lengths.{Range}

pub record FileInfo : Type 0 where
  pub relative_filename : String
  pub offset_in_torrent : ℕ
  pub piece_range : Range
  -- `attrs.padding`
  pub padding : Bool
  pub len : ℕ

-- The numbers of `start..end`; `usize` has 64 bits.
abbrev pub range_list : Range → List ℕ
range_list r = range_from r.start (r.end - r.start)

-- First, last, everything else from start to end.
unfoldable pub iter_piece_priorities : Range → List ℕ
iter_piece_priorities r =
    let n = r.end - r.start in
    let mid = take (sub_u64 n 2) (drop 1 (range_list r)) in
    take n (r.start ∷ add_u64 r.start (sub_u64 n 1) ∷ mid)
