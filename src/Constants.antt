-- ===== src/Constants.antt =====
-- crates/librtbit-core/src/constants.rs
use rust_torrent.Prelude.{ℕ}

-- `CHUNK_SIZE`: the bytes of a chunk, except for the last of a piece.
abbrev pub max_chunk_size : ℕ
max_chunk_size = 16384
