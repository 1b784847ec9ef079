-- ===== src/Sss/Joining.antt =====
-- The join of sss.c on shares of one split.
use qsafe.Base.{
  ℕ, ◌-◌, ◌≤◌, ◌<◌, ◌≡◌, ◌≢◌, refl, ◌∙◌, sym, ap, ap₂, true, false, ltb, le→ltb, some, List, [],
  ◌∷◌, ◌++◌, append-nil, append_assoc, length, length-take, take, map, All, IsByte, Bytes,
  bytes_eq_refl, arith,
}
use qsafe.Base.Alls.{All-extend}
use qsafe.Sss.Elements.{raw, lift_all, raw-lift_all, length-lift_all}
use qsafe.Sss.Share.{done, Calls, share_data, share_path}
use qsafe.Sss.Join.{
  Share, first_set, has_index, read_share, read_shares, basis_from, combine_all, reconstruct,
  join_shares,
}
use qsafe.Sss.Secret.{Row, raw_rows, body_of, combine_all-secret}
use qsafe.Sss.Files.{share_of, length-share_data}
use qsafe.Sss.Picks.{
  DistinctPicks, InRange, All-bytes, lifted-Distinct, take-All, take-DistinctPicks, take-map,
}
use qsafe.Sss.Splitting.{Drawn}

module _ (set_id : Bytes) (t : ℕ) (digest : Bytes) (polys : List Bytes) where
  abbrev pub share : ℕ → Share
  share i = share_of set_id t digest polys i

  map-index : (l : List ℕ) → map (λ (s : Share). s.index) (map share l) ≡ l
  map-index [] = refl
  map-index (i ∷ l) = ap (◌∷◌ i) (map-index l)

  map-body :
      (rows : List Row) (l : List ℕ) (h : All IsByte l)
      → polys ≡ raw_rows rows
      → map (λ (s : Share). s.body) (map share l) ≡ map (body_of rows) (lift_all l h)
  map-body rows [] h e = refl
  map-body rows (i ∷ l) h e = ap₂ ◌∷◌ (ap (λ p. share_data p i) e) (map-body rows l h.1 e)

  map-share_append : (a b : List ℕ) → map share (a ++ b) ≡ map share a ++ map share b
  map-share_append [] b = refl
  map-share_append (i ∷ a) b = ap (◌∷◌ (share i)) (map-share_append a b)

  -- The shares of one set belong together.
  first_set-share : (seen : List ℕ) (i : ℕ) → first_set (map share seen) (share i) ≡ true
  first_set-share [] i = refl
  first_set-share (k ∷ seen) i = ground (
    arith,
    bytes_eq_refl set_id,
    bytes_eq_refl digest,
    length-share_data polys i,
    length-share_data polys k,
  )

  has_index-share :
      (seen : List ℕ) (i : ℕ) → All (λ (k : ℕ). k ≢ i) seen → has_index (map share seen) i ≡ false
  unfolding has_index
  has_index-share [] i h = refl
  has_index-share (k ∷ seen) i h = ground (arith, h.0, has_index-share seen i h.1)

  pub read_shares-run :
      (c : Calls) (prefix : Bytes) (seen picks : List ℕ)
      → All (λ (i : ℕ). read_share c (share_path prefix i) ≡ done (share i)) picks
      → All (λ (i : ℕ). All (λ (k : ℕ). k ≢ i) seen) picks
      → DistinctPicks picks
      → read_shares c (map share seen) (map (share_path prefix) picks)
        ≡ done (map share (seen ++ picks))
  unfolding read_shares
  read_shares-run c prefix seen [] reads fresh distinct =
      ap (λ l. done (map share l)) (sym (append-nil seen))
  read_shares-run c prefix seen (i ∷ picks) reads fresh distinct =
      rw (reads.0, first_set-share seen i, has_index-share seen i fresh.0)
        (ap (λ l. read_shares c l (map (share_path prefix) picks))
            (sym (map-share_append seen (i ∷ [])))
          ∙ read_shares-run c prefix (seen ++ (i ∷ [])) picks reads.1
              (All-extend (λ (y r : ℕ). y ≢ r) i seen picks fresh.1 distinct.0) distinct.1
          ∙ ap (λ l. done (map share l)) (append_assoc seen (i ∷ []) picks))

  -- The reconstruction from enough shares.
  pub reconstruct-share :
      (n : ℕ) (secret : Bytes) (picks : List ℕ)
      → Drawn t secret polys
      → 1 ≤ t
      → n < 256
      → t ≤ length picks
      → InRange n picks
      → DistinctPicks picks
      → reconstruct t (length secret) (map share picks) ≡ secret
  unfolding reconstruct
  reconstruct-share n secret picks d low small enough range distinct =
      let tp = take t picks in
      let h : All IsByte tp =
        take-All (λ (i : ℕ). IsByte i) t picks (All-bytes n picks small range) in
      let els = lift_all tp h in
      let size : length els ≡ t = length-lift_all tp h ∙ length-take t picks enough in
      let taken : take t (map share picks) ≡ map share tp = take-map share t picks in
      let xs_are : map (λ (s : Share). s.index) (take t (map share picks)) ≡ raw els =
        ap (map (λ (s : Share). s.index)) taken ∙ map-index tp ∙ sym (raw-lift_all tp h) in
      let bodies_are : map (λ (s : Share). s.body) (take t (map share picks))
          ≡ map (body_of d.rows) els =
        ap (map (λ (s : Share). s.body)) taken ∙ map-body d.rows tp h d.polys_are in
      ap
        (λ (xs : Bytes).
          combine_all (length secret) 0 (map (λ (s : Share). s.body) (take t (map share picks)))
            (basis_from xs 0 xs))
        xs_are
      ∙ ap₂ (λ (k : ℕ) (b : List Bytes). combine_all k 0 b (basis_from (raw els) 0 (raw els)))
          (sym d.as_long) bodies_are
      ∙ combine_all-secret [] d.rows els
          (lifted-Distinct tp h (take-DistinctPicks t picks distinct)) (below d.rows d.degree size)
      ∙ d.secret_is
    where
      below :
          (rows : List Row) {m : ℕ}
          → All (λ (r : Row). length r.1 ≡ t - 1) rows
          → m ≡ t
          → All (λ (r : Row). length r.1 < m) rows
      below [] k e = tt
      below (r ∷ rows) k e = (omega (arith, k.0), below rows k.1 e)

  -- The rest of the join, on shares of one split.
  pub join_shares-share :
      (c : Calls) (n_paths : ℕ) (secret : Bytes) (picks : List ℕ)
      → t ≤ n_paths
      → 1 ≤ length picks
      → length polys ≡ length secret
      → reconstruct t (length secret) (map share picks) ≡ secret
      → c.sha256 secret ≡ some digest
      → join_shares c n_paths (map share picks) ≡ done secret
  unfolding join_shares
  join_shares-share c n_paths secret [] enough some_picks sizes same hashed = absurd (omega arith)
  join_shares-share c n_paths secret (i ∷ picks) enough some_picks sizes same hashed =
      let reads : ltb n_paths t ≡ false = le→ltb n_paths t enough in
      let size : length (share_data polys i) ≡ length secret = length-share_data polys i ∙ sizes in
      let rebuilt : reconstruct t (length (share_data polys i)) (map share (i ∷ picks)) ≡ secret =
        ap (λ k. reconstruct t k (map share (i ∷ picks))) size ∙ same in
      rw (reads, rebuilt, hashed, bytes_eq_refl digest) refl
