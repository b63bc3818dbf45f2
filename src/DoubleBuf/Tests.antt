-- ===== src/DoubleBuf/Tests.antt =====
-- Reading across the two slices of a buffer.
use rust_torrent.Prelude.{◌≡◌, refl, [], ◌∷◌, length, take, drop}
use rust_torrent.DoubleBuf.{
  DoubleBuf, done, missing, consume, consume_across, consume_variable, advance, with_max_len, len,
}
use rust_torrent.DoubleBuf.Flat.{flat}
use rust_torrent.DoubleBuf.Refine.{read_flat, as_one, as_one_joined, double_buf_refines}

abbrev split_buf : DoubleBuf
split_buf = record { buf_0 = 1 ∷ 2 ∷ []; buf_1 = 3 ∷ 4 ∷ 5 ∷ [] }

across_example :
    consume 3 split_buf ≡ done (1 ∷ 2 ∷ 3 ∷ []) (record { buf_0 = []; buf_1 = 4 ∷ 5 ∷ [] })
unfolding consume consume_across
across_example = refl

missing_example : consume 7 split_buf ≡ missing 2
unfolding consume consume_across
missing_example = refl

double_buf_refines_example :
    (as_one (consume 3 split_buf) ≡ read_flat 3 (flat split_buf))
    × (as_one_joined (consume_variable 3 split_buf) ≡ read_flat 3 (flat split_buf))
    × (flat (advance 3 split_buf) ≡ drop 3 (flat split_buf))
    × (flat (with_max_len 3 split_buf) ≡ take 3 (flat split_buf))
    × (len split_buf ≡ length (flat split_buf))
double_buf_refines_example = double_buf_refines 3 split_buf
