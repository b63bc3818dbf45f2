-- ===== src/UdpTracker/Total.antt =====
-- Parsing a response comes to an end on every buffer, and fails on those without an action and a
-- transaction only.
use rust_torrent.Prelude.{
  length-drop, ℕ, zero, suc, ◌+◌, ◌%◌, ◌≤◌, ◌<◌, ◌≡◌, refl, ◌⊎◌, inl, inr, Bool, not, ◌||◌,
  Bool-cases, List, [], ◌∷◌, length, take, drop, ltb, ◌==◌, arith,
}
use rust_torrent.Bytes.{from_be_bytes}
use rust_torrent.UdpTracker.{
  expected_bytes, Response, unknown, parse_num, ip_bytes, parse_addrs, parse_stats, parse_connect,
  parse_announce, parse_scrape, parse_response, or_unknown, parse, Error,
}
use rust_torrent.Prelude.Results.{Result, ok, err, out_of_fuel, ◌>>=◌}

abbrev Ends {ℓ} : {A : Type ℓ} → Result Error A → Type 0
Ends (ok a) = Unit
Ends (err e) = Unit
Ends out_of_fuel = ⊥

bind-Ends {ℓ κ} :
    {A : Type ℓ} {B : Type κ} (r : Result Error A) (f : A → Result Error B)
    → Ends r
    → ((a : A) → Ends (f a))
    → Ends (r >>= f)
bind-Ends (ok a) f e g = g a
bind-Ends (err x) f e g = tt
bind-Ends out_of_fuel f e g = absurd e

-- There are too few bytes, or so many fewer are left.
parse_num-cases :
    (k : ℕ) (buf : List ℕ)
    → ((length buf < k) × (parse_num k buf ≡ err (expected_bytes k)))
      ⊎ ((n : ℕ) × (rest : List ℕ) × (parse_num k buf ≡ ok (n, rest))
          × (length rest + k ≡ length buf))
unfolding parse_num
parse_num-cases k buf = elim (Bool-cases (ltb (length buf) k)) [
  | inl few ↦ inl (ground (arith, few), rw (parse_num, few) refl)
  | inr enough ↦ inr (
    from_be_bytes (take k buf),
    drop k buf,
    rw (parse_num, enough) refl,
    ground (arith, enough, length-drop k buf),
  )
]

-- A parser of what stands behind a number.
parse_num-Ends {ℓ} :
    {B : Type ℓ} (k : ℕ) (buf : List ℕ) (f : ℕ × List ℕ → Result Error B)
    → ((n : ℕ) (rest : List ℕ) → length rest + k ≡ length buf → Ends (f (n, rest)))
    → Ends (parse_num k buf >>= f)
parse_num-Ends k buf f g = elim (parse_num-cases k buf) [
  | inl (few, eq) ↦ rw eq tt
  | inr (n, rest, eq, len) ↦ rw eq (g n rest len)
]

parse_addrs-Ends :
    (fuel : ℕ) (v : Bool) (buf : List ℕ) → length buf ≤ fuel → Ends (parse_addrs fuel v buf)
unfolding parse_addrs
parse_addrs-Ends zero v [] h = tt
parse_addrs-Ends (suc fuel) v [] h = tt
parse_addrs-Ends zero v (b ∷ bs) h = absurd (omega arith)
parse_addrs-Ends (suc fuel) v (b ∷ bs) h = parse_num-Ends (ip_bytes v) (b ∷ bs) _ (λ ip b₂ l.
    parse_num-Ends 2 b₂ _ (λ port b₃ l'.
      bind-Ends (parse_addrs fuel v b₃) _ (parse_addrs-Ends fuel v b₃ (omega (arith, h, l, l')))
        (λ addrs. tt)))

parse_stats-Ends : (fuel : ℕ) (buf : List ℕ) → length buf ≤ fuel → Ends (parse_stats fuel buf)
unfolding parse_stats
parse_stats-Ends zero [] h = tt
parse_stats-Ends (suc fuel) [] h = tt
parse_stats-Ends zero (b ∷ bs) h = absurd (omega arith)
parse_stats-Ends (suc fuel) (b ∷ bs) h = parse_num-Ends 4 (b ∷ bs) _ (λ seeders b₂ l.
    parse_num-Ends 4 b₂ _ (λ completed b₃ l'. parse_num-Ends 4 b₃ _ (λ leechers b₄ l''.
      bind-Ends (parse_stats fuel b₄) _ (parse_stats-Ends fuel b₄ (omega (arith, h, l, l', l'')))
        (λ stats. tt))))

module _ (is_utf8 : List ℕ → Bool) (v : Bool) where
  parse_connect-Ends : (buf : List ℕ) → Ends (parse_connect is_utf8 buf)
  unfolding parse_connect
  parse_connect-Ends buf =
      parse_num-Ends 8 buf _
        (λ id rest l. elim (Bool-cases (ltb 0 (length rest))) [ inl t ↦ rw t tt | inr f ↦ rw f tt ])

  parse_announce-Ends : (buf : List ℕ) → Ends (parse_announce is_utf8 v buf)
  unfolding parse_announce
  parse_announce-Ends buf = parse_num-Ends 4 buf _ (λ interval b l.
      parse_num-Ends 4 b _ (λ leechers b₂ l'. parse_num-Ends 4 b₂ _ (λ seeders b₃ l''.
        bind-Ends (parse_addrs (length b₃) v b₃) _ (parse_addrs-Ends (length b₃) v b₃ (omega arith))
          (λ addrs. tt))))

  parse_scrape-Ends : (buf : List ℕ) → Ends (parse_scrape is_utf8 buf)
  unfolding parse_scrape
  parse_scrape-Ends buf = elim (Bool-cases (length buf == 0 || not (length buf % 12 == 0))) [
    | inl bad ↦ rw bad tt
    | inr good ↦ rw good (
        bind-Ends (parse_stats (length buf) buf) _ (parse_stats-Ends (length buf) buf (omega arith))
          (λ stats. tt))
  ]

  parse_response-Ends : (action : ℕ) (buf : List ℕ) → Ends (parse_response is_utf8 action v buf)
  unfolding parse_response
  parse_response-Ends action buf = elim (Bool-cases (action == 0)) [
    | inl c ↦ rw (parse_response, c) (parse_connect-Ends buf)
    | inr nc ↦ elim (Bool-cases (action == 1)) [
      | inl a ↦ rw (parse_response, nc, a) (parse_announce-Ends buf)
      | inr na ↦ elim (Bool-cases (action == 2)) [
        | inl s ↦ rw (parse_response, nc, na, s) (parse_scrape-Ends buf)
        | inr ns ↦ elim (Bool-cases (action == 3)) [
          | inl e ↦ rw (parse_response, nc, na, ns, e) tt
          | inr ne ↦ rw (parse_response, nc, na, ns, ne) tt
        ]
      ]
    ]
  ]

  or_unknown-ok :
      (r : Result Error Response) → Ends r → (response : Response) × (or_unknown r ≡ ok response)
  or_unknown-ok (ok a) e = (a, refl)
  or_unknown-ok (err x) e = (unknown, refl)
  or_unknown-ok out_of_fuel e = absurd e

  -- On any buffer `parse` comes to an end. It fails exactly on those of fewer than 8 bytes, and
  -- returns a transaction and a response otherwise.
  pub parse-total :
      (buf : List ℕ)
      → ((length buf < 8) × (parse is_utf8 buf v ≡ err (expected_bytes 4)))
        ⊎ ((8 ≤ length buf) × (tid : ℕ) × (r : Response) × (parse is_utf8 buf v ≡ ok (tid, r)))
  unfolding parse
  parse-total buf = elim (parse_num-cases 4 buf) [
    | inl (few, eq) ↦ inl (omega (arith, few), rw eq refl)
    | inr (action, b, eq, len) ↦ elim (parse_num-cases 4 b) [
      | inl (few, eq') ↦ inl (omega (arith, few, len), rw (eq, eq') refl)
      | inr (tid, b₂, eq', len') ↦
          let (r, eq'') =
            or_unknown-ok (parse_response is_utf8 action v b₂) (parse_response-Ends action b₂) in
          inr (omega (arith, len, len'), tid, r, rw (eq, eq', eq'') refl)
    ]
  ]
