-- ===== src/Checksum/Strongest.antt =====
-- Server-advertised digests of src/checksum.rs: the strongest one that can be read is chosen.
use fast_downloader.Prelude.{
  ℕ, ◌≡◌, refl, sym, subst, ◌∙◌, ◌⊎◌, inl, inr, Option, none, some, List, [], ◌∷◌, ◌++◌, map, max,
  arith, ltb, Bool-cases,
}
use fast_downloader.Prelude.Text.{Text, split}
use fast_downloader.Checksum.{Checksum, md5, sha256, sha512}
use fast_downloader.Checksum.Advertised.{
  rank, Best, consider, nothing, parse_entry, consider_entries, parse_digest_list,
  parse_content_md5, consider_header, digest_from_parts,
}

-- How strong an optional checksum is: none, MD5, SHA-256, SHA-512.
pub strength : Option Checksum → ℕ
strength none = 0
strength (some (md5 a)) = 1
strength (some (sha256 a)) = 2
strength (some (sha512 a)) = 3

rank-strength : (c : Checksum) → rank c ≡ strength (some c)
unfolding rank strength
rank-strength (md5 a) = refl
rank-strength (sha256 a) = refl
rank-strength (sha512 a) = refl

-- The greatest strength in a list of candidates.
pub max_strength : List (Option Checksum) → ℕ
max_strength [] = 0
max_strength (c ∷ cs) = max (strength c) (max_strength cs)

abbrev pub Occurs : Option Checksum → List (Option Checksum) → Type 0
Occurs a [] = ⊥
Occurs a (x ∷ xs) = (a ≡ x) ⊎ Occurs a xs

-- `r` is the pick among `start` and the candidates: none of them is stronger.
pub record Picks (start : Option Checksum) (cs : List (Option Checksum)) (r : Best) : Type 0 where
  pub ranked : r.best_rank ≡ strength r.best
  pub strongest : strength r.best ≡ max (strength start) (max_strength cs)
  pub listed : (r.best ≡ start) ⊎ Occurs r.best cs

abbrev IsRanked : Best → Type 0
IsRanked b = b.best_rank ≡ strength b.best

consider-Picks :
    (b : Best) (c : Option Checksum) → IsRanked b → Picks b.best (c ∷ []) (consider b c)
unfolding consider strength max_strength
consider-Picks b none h = record { ranked = h; strongest = omega arith; listed = inl refl }
consider-Picks b (some c) h = elim (Bool-cases (ltb b.best_rank (rank c))) [
  | inl better ↦ rw better (record {
    ranked = rank-strength c;
    strongest = ground (arith, rank-strength c);
    listed = inr (inl refl);
  })
  | inr worse ↦
      rw worse
        (record { ranked = h; strongest = ground (arith, rank-strength c); listed = inl refl })
]

max_strength-append :
    (cs ds : List (Option Checksum))
    → max_strength (cs ++ ds) ≡ max (max_strength cs) (max_strength ds)
unfolding max_strength
max_strength-append [] ds = omega arith
max_strength-append (c ∷ cs) ds = omega (arith, max_strength-append cs ds)

Occurs-append_left :
    (a : Option Checksum) (cs ds : List (Option Checksum)) → Occurs a cs → Occurs a (cs ++ ds)
Occurs-append_left a [] ds h = absurd h
Occurs-append_left a (c ∷ cs) ds (inl e) = inl e
Occurs-append_left a (c ∷ cs) ds (inr h) = inr (Occurs-append_left a cs ds h)

Occurs-append_right :
    (a : Option Checksum) (cs ds : List (Option Checksum)) → Occurs a ds → Occurs a (cs ++ ds)
Occurs-append_right a [] ds h = h
Occurs-append_right a (c ∷ cs) ds h = inr (Occurs-append_right a cs ds h)

listed_trans :
    (s b r : Option Checksum) (cs ds : List (Option Checksum))
    → ((b ≡ s) ⊎ Occurs b cs)
    → ((r ≡ b) ⊎ Occurs r ds)
    → (r ≡ s) ⊎ Occurs r (cs ++ ds)
listed_trans s b r cs ds p (inr q) = inr (Occurs-append_right r cs ds q)
listed_trans s b r cs ds (inl p) (inl q) = inl (q ∙ p)
listed_trans s b r cs ds (inr p) (inl q) =
    inr (Occurs-append_left r cs ds (subst (λ x. Occurs x cs) (sym q) p))

-- Picks one after the other are a pick among all.
Picks-trans :
    (s : Option Checksum) (cs ds : List (Option Checksum)) (b r : Best)
    → Picks s cs b
    → Picks b.best ds r
    → Picks s (cs ++ ds) r
Picks-trans s cs ds b r p q = record {
  ranked = q.ranked;
  strongest = omega (arith, q.strongest, p.strongest, max_strength-append cs ds);
  listed = listed_trans s b.best r.best cs ds p.listed q.listed;
}

module _ (decode : Text → Option (List ℕ)) where
  consider_entries-Picks :
      (b : Best) (entries : List Text)
      → IsRanked b
      → Picks b.best (map (parse_entry decode) entries) (consider_entries decode b entries)
  unfolding consider_entries max_strength
  consider_entries-Picks b [] h = record { ranked = h; strongest = omega arith; listed = inl refl }
  consider_entries-Picks b (e ∷ es) h =
      let p = consider-Picks b (parse_entry decode e) h in
      Picks-trans b.best (parse_entry decode e ∷ []) (map (parse_entry decode) es)
        (consider b (parse_entry decode e)) _ p
        (consider_entries-Picks (consider b (parse_entry decode e)) es p.ranked)

  -- What the entries of a list header parse to; nothing where the header is missing.
  pub list_candidates : Option Text → List (Option Checksum)
  list_candidates none = []
  list_candidates (some value) = map (parse_entry decode) (split b',' value)

  pub md5_candidates : Option Text → List (Option Checksum)
  md5_candidates none = []
  md5_candidates (some value) = parse_content_md5 decode value ∷ []

  -- All that the three headers advertise.
  pub candidates : Option Text → Option Text → Option Text → List (Option Checksum)
  candidates repr_digest digest content_md5 =
      (list_candidates repr_digest ++ list_candidates digest) ++ md5_candidates content_md5

  -- Taking into account the pick of one header is taking into account all that it advertises.
  consider-pick :
      (b : Best) (o : Option Checksum) (cs : List (Option Checksum))
      → IsRanked b
      → strength o ≡ max_strength cs
      → (o ≡ none) ⊎ Occurs o cs
      → Picks b.best cs (consider b o)
  unfolding consider strength
  consider-pick b none cs h s l = record { ranked = h; strongest = omega arith; listed = inl refl }
  consider-pick b (some c) cs h s (inl e) = cc
  consider-pick b (some c) cs h s (inr l) = elim (Bool-cases (ltb b.best_rank (rank c))) [
    | inl better ↦ rw better (record {
      ranked = rank-strength c;
      strongest = ground (arith, rank-strength c);
      listed = inr l;
    })
    | inr worse ↦
        rw worse
          (record { ranked = h; strongest = ground (arith, rank-strength c); listed = inl refl })
  ]

  list_header-Picks :
      (b : Best) (header : Option Text)
      → IsRanked b
      → Picks b.best
          (list_candidates header)
          (consider_header decode (parse_digest_list decode) header b)
  unfolding consider_header list_candidates parse_digest_list max_strength nothing strength
  list_header-Picks b none h = record { ranked = h; strongest = omega arith; listed = inl refl }
  list_header-Picks b (some v) h =
      let p = consider_entries-Picks nothing (split b',' v) refl in
      consider-pick b _ _ h (omega (arith, p.strongest)) p.listed

  md5_header-Picks :
      (b : Best) (header : Option Text)
      → IsRanked b
      → Picks b.best
          (md5_candidates header)
          (consider_header decode (parse_content_md5 decode) header b)
  unfolding consider_header md5_candidates max_strength
  md5_header-Picks b none h = record { ranked = h; strongest = omega arith; listed = inl refl }
  md5_header-Picks b (some v) h = consider-Picks b (parse_content_md5 decode v) h

  -- The digest taken from the three headers is as strong as the strongest that can be read in any
  -- entry of them (SHA-512 before SHA-256 before MD5), is none only where nothing can be read, and otherwise is one that they
  -- advertise.
  pub digest_from_parts-strongest :
      (repr_digest digest content_md5 : Option Text)
      → (strength (digest_from_parts decode repr_digest digest content_md5)
          ≡ max_strength (candidates repr_digest digest content_md5))
        × ((digest_from_parts decode repr_digest digest content_md5 ≡ none)
            ⊎ Occurs
                (digest_from_parts decode repr_digest digest content_md5)
                (candidates repr_digest digest content_md5))
  unfolding digest_from_parts candidates nothing strength
  digest_from_parts-strongest r d m =
      let p1 = list_header-Picks nothing r refl in
      let b1 = consider_header decode (parse_digest_list decode) r nothing in
      let p2 = list_header-Picks b1 d p1.ranked in
      let b2 = consider_header decode (parse_digest_list decode) d b1 in
      let p3 = md5_header-Picks b2 m p2.ranked in
      let p = Picks-trans none _ _ b2 _ (Picks-trans none _ _ b1 b2 p1 p2) p3 in
      (omega (arith, p.strongest), p.listed)
