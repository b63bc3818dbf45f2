-- ===== src/Lengths/Chunks.antt =====
-- The chunks of a piece: `iter_chunk_infos` against a closed form.
use rust_torrent.Prelude.{
  ℕ, zero, suc, ◌+◌, ◌-◌, ◌*◌, ◌≤◌, ◌<◌, ◌≡◌, ◌∙◌, sym, min, some, Bool-cases, inl, inr, List, [],
  ◌∷◌, length, get_elem?, u32_mod, add_u32, div_ceil, arith, ◌==◌, ==→eq,
}
use rust_torrent.Constants.{max_chunk_size}
use rust_torrent.Lengths.{
  Lengths, ChunkInfo, chunk_infos_from, iter_chunk_infos, piece_length, chunks_per_piece,
}
use rust_torrent.Lengths.Valid.{IsValid}

-- The `k`-th chunk behind the first `idx`, which end at byte `offset`.
abbrev pub chunk_at : ℕ → ℕ → ℕ → ℕ → ℕ → ℕ → ChunkInfo
chunk_at index absolute remaining offset idx k = record {
  piece_index = index;
  chunk_index = idx + k;
  absolute_index = add_u32 absolute (idx + k);
  size = min (remaining - k * max_chunk_size) max_chunk_size;
  offset = offset + k * max_chunk_size;
}

pub get_elem?-chunk_infos_from :
    (fuel i a rem off idx k : ℕ)
    → rem ≤ fuel * max_chunk_size
    → off + rem < u32_mod
    → idx + rem < u32_mod
    → k * max_chunk_size < rem
    → get_elem? (chunk_infos_from fuel i a rem off idx) k ≡ some (chunk_at i a rem off idx k)
unfolding chunk_infos_from
get_elem?-chunk_infos_from zero i a rem off idx k f ob ib h = absurd (omega arith)
get_elem?-chunk_infos_from (suc fuel) i a rem off idx zero f ob ib h = ground arith
get_elem?-chunk_infos_from (suc fuel) i a rem off idx (suc k) f ob ib h = ground (
  arith,
  get_elem?-chunk_infos_from fuel i a (rem - min rem max_chunk_size)
      (add_u32 off (min rem max_chunk_size)) (add_u32 idx 1) k,
)

length-chunk_infos_from :
    (fuel i a rem off idx : ℕ)
    → rem ≤ fuel * max_chunk_size
    → length (chunk_infos_from fuel i a rem off idx) ≡ div_ceil rem max_chunk_size
unfolding chunk_infos_from
length-chunk_infos_from zero i a rem off idx f = ground arith
length-chunk_infos_from (suc fuel) i a rem off idx f =
    let s = min rem max_chunk_size in
    elim (Bool-cases (rem == 0)) [
      | inl t ↦ rw t (ground (arith, ==→eq rem 0 t))
      | inr more ↦ rw more (
          ground
            (arith, length-chunk_infos_from fuel i a (rem - s) (add_u32 off s) (add_u32 idx 1)))
    ]

abbrev pub sum_size : List ChunkInfo → ℕ
sum_size [] = 0
sum_size (c ∷ cs) = c.size + sum_size cs

sum_size-chunk_infos_from :
    (fuel i a rem off idx : ℕ)
    → rem ≤ fuel * max_chunk_size
    → sum_size (chunk_infos_from fuel i a rem off idx) ≡ rem
unfolding chunk_infos_from
sum_size-chunk_infos_from zero i a rem off idx f = omega arith
sum_size-chunk_infos_from (suc fuel) i a rem off idx f =
    let s = min rem max_chunk_size in
    elim (Bool-cases (rem == 0)) [
      | inl t ↦ rw t (ground (arith, ==→eq rem 0 t))
      | inr more ↦ rw more (
          ground
            (arith, sum_size-chunk_infos_from fuel i a (rem - s) (add_u32 off s) (add_u32 idx 1)))
    ]

-- The sizes of the chunks that `iter_chunk_infos` lists for a piece add up to the length of the
-- piece, for any lengths.
pub sum_size-iter_chunk_infos :
    (l : Lengths) (i : ℕ) → sum_size (iter_chunk_infos l i) ≡ piece_length l i
unfolding iter_chunk_infos
sum_size-iter_chunk_infos l i = sum_size-chunk_infos_from _ _ _ _ _ _ (omega arith)

pub chunks_per_piece-eq :
    {l : Lengths}
    → IsValid l
    → (i : ℕ) → chunks_per_piece l i ≡ div_ceil (piece_length l i) max_chunk_size
unfolding chunks_per_piece piece_length
chunks_per_piece-eq {l} v i = elim (Bool-cases (i == l.last_piece_id)) [
  | inl t ↦ rw t
  | inr f ↦ rw f v.chunks
]

-- In a well-formed torrent, `iter_chunk_infos` lists as many chunks for a piece as
-- `chunks_per_piece` says.
pub length-iter_chunk_infos :
    {l : Lengths} → IsValid l → (i : ℕ) → length (iter_chunk_infos l i) ≡ chunks_per_piece l i
unfolding iter_chunk_infos
length-iter_chunk_infos {l} v i =
    length-chunk_infos_from _ _ _ _ _ _ (omega arith) ∙ sym (chunks_per_piece-eq v i)
