-- ===== src/FileInfo/Tests.antt =====
-- The priority order of the pieces 3, 4, 5 and 6.
use rust_torrent.Prelude.{◌≡◌, refl, [], ◌∷◌, arith}
use rust_torrent.Lengths.{Range}
use rust_torrent.FileInfo.{iter_piece_priorities, range_list}
use rust_torrent.FileInfo.Order.{iter_piece_priorities-perm}
use mathlib.Core.List.{Perm}

abbrev four_pieces : Range
four_pieces = record { start = 3; end = 7 }

iter_piece_priorities_example : iter_piece_priorities four_pieces ≡ (3 ∷ 6 ∷ 4 ∷ 5 ∷ [])
unfolding iter_piece_priorities
iter_piece_priorities_example = refl

iter_piece_priorities-perm_example :
    Perm (iter_piece_priorities four_pieces) (range_list four_pieces)
iter_piece_priorities-perm_example =
    iter_piece_priorities-perm four_pieces (omega arith) (omega arith)
