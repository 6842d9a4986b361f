-- ===== src/Engine/Fusion/Tracks.antt =====
-- The candidates that the fusion of crates/sealstack-engine/src/retrieval.rs keeps in its map.
use mathlib.Core.Path.{subst}
use mathlib.Core.List.{Memᴰ}
use sealstack.Prelude.{
  ◌≡◌, refl, sym, ap, ◌∙◌, true, false, Bool-cases, inl, inr, ◌⊎◌, Option, none, some, List, [],
  ◌∷◌, ◌++◌, if◌then◌else◌, arith,
}
use sealstack.Bytes.{Bytes, bytes_eq, bytes_eq_refl, eq_of_bytes_eq}
use sealstack.Engine.Fusion.{RawCandidate, or_insert}
use mathlib.Core.List.Memᴰ

module _ {F : Type 0} where
  -- The first hit with an id.
  abbrev pub first_hit : List (RawCandidate F) → Bytes → Option (RawCandidate F)
  first_hit [] id = none
  first_hit (c ∷ hits) id = if bytes_eq c.id id then some c else first_hit hits id

  -- No entry has the id.
  abbrev pub Absent : Bytes → List (Bytes × RawCandidate F) → Type 0
  Absent id [] = Unit
  Absent id ((x, c) ∷ rest) = (bytes_eq x id ≡ false) × Absent id rest

  -- Every entry is the first of the hits with its id.
  abbrev pub Firsts : List (RawCandidate F) → List (Bytes × RawCandidate F) → Type 0
  Firsts hits [] = Unit
  Firsts hits ((x, c) ∷ rest) = (first_hit hits x ≡ some c) × Firsts hits rest

  first_hit-append :
      (hits : List (RawCandidate F)) (c x : RawCandidate F) (id : Bytes)
      → first_hit hits id ≡ some x
      → first_hit (hits ++ c ∷ []) id ≡ some x
  first_hit-append [] c x id h = cc
  first_hit-append (y ∷ hits) c x id h = ground (arith, first_hit-append hits c x id)

  first_hit-new :
      (hits : List (RawCandidate F)) (c : RawCandidate F) (id : Bytes)
      → first_hit hits id ≡ none
      → first_hit (hits ++ c ∷ []) id ≡ first_hit (c ∷ []) id
  first_hit-new [] c id h = refl
  first_hit-new (y ∷ hits) c id h = elim (Bool-cases (bytes_eq y.id id)) [
    | inl same ↦ ground arith
    | inr other ↦ rw other (first_hit-new hits c id (ground arith))
  ]

  Firsts-append :
      (hits : List (RawCandidate F)) (c : RawCandidate F) (m : List (Bytes × RawCandidate F))
      → Firsts hits m
      → Firsts (hits ++ c ∷ []) m
  Firsts-append hits c [] f = tt
  Firsts-append hits c ((x, y) ∷ m) (f, fs) =
      (first_hit-append hits c y x f, Firsts-append hits c m fs)

  -- Either the candidate's id is new, or the entries stay as they are.
  or_insert-cases :
      (c : RawCandidate F) (m : List (Bytes × RawCandidate F))
      → (Absent c.id m × (or_insert c m ≡ m ++ (c.id, c) ∷ []))
        ⊎ ((Absent c.id m → ⊥) × (or_insert c m ≡ m))
  unfolding or_insert
  or_insert-cases c [] = inl (tt, refl)
  or_insert-cases c ((x, y) ∷ m) = elim (Bool-cases (bytes_eq x c.id)) [
    | inl same ↦ inr ((λ (differs, _). cc), rw same refl)
    | inr other ↦ elim (or_insert-cases c m) [
      | inl (absent, e) ↦ inl ((other, absent), rw other (ap (◌∷◌ (x, y)) e))
      | inr (present, e) ↦ inr ((λ (_, absent). present absent), rw other (ap (◌∷◌ (x, y)) e))
    ]
  ]

  -- The entries are the first hits with their ids, and no id of a hit is missing.
  pub record Tracks (hits : List (RawCandidate F)) (m : List (Bytes × RawCandidate F))
      : Type 0 where
    pub firsts : Firsts hits m
    pub covers : (id : Bytes) → Absent id m → first_hit hits id ≡ none

  Firsts-snoc :
      (hits : List (RawCandidate F)) (m : List (Bytes × RawCandidate F)) (c : RawCandidate F)
      → Firsts hits m
      → first_hit hits c.id ≡ some c
      → Firsts hits (m ++ (c.id, c) ∷ [])
  Firsts-snoc hits [] c f e = (e, tt)
  Firsts-snoc hits ((x, y) ∷ m) c (f, fs) e = (f, Firsts-snoc hits m c fs e)

  Absent-snoc :
      (id : Bytes) (m : List (Bytes × RawCandidate F)) (c : RawCandidate F)
      → Absent id (m ++ (c.id, c) ∷ [])
      → Absent id m × (bytes_eq c.id id ≡ false)
  Absent-snoc id [] c (e, _) = (tt, e)
  Absent-snoc id ((x, y) ∷ m) c (e, a) =
      let (there, last) = Absent-snoc id m c a in ((e, there), last)

  pub Tracks-or_insert :
      (hits : List (RawCandidate F)) (c : RawCandidate F) (m : List (Bytes × RawCandidate F))
      → Tracks hits m
      → Tracks (hits ++ c ∷ []) (or_insert c m)
  Tracks-or_insert hits c m t = elim (or_insert-cases c m) [
    | inl (absent, e) ↦ rw e record {
      firsts =
          Firsts-snoc (hits ++ c ∷ []) m c (Firsts-append hits c m t.firsts)
            (first_hit-new hits c c.id (t.covers c.id absent) ∙ rw (bytes_eq_refl c.id) refl);
      covers = λ id a.
          let (there, last) = Absent-snoc id m c a in
          first_hit-new hits c id (t.covers id there) ∙ rw last refl;
    }
    | inr (present, e) ↦ rw e record {
      firsts = Firsts-append hits c m t.firsts;
      covers = λ id a.
          first_hit-new hits c id (t.covers id a) ∙ elim (Bool-cases (bytes_eq c.id id)) [
            | inl same ↦
                absurd (present (subst (λ x. Absent x m) (sym (eq_of_bytes_eq c.id id same)) a))
            | inr other ↦ rw other refl
          ];
    }
  ]

  pub first_hit-id :
      (hits : List (RawCandidate F)) (id : Bytes) {c : RawCandidate F}
      → first_hit hits id ≡ some c
      → c.id ≡ id
  first_hit-id [] id h = cc
  first_hit-id (y ∷ hits) id {c} h = elim (Bool-cases (bytes_eq y.id id)) [
    | inl same ↦
        let here : y ≡ c = ground arith in ap (λ z. z.id) (sym here) ∙ eq_of_bytes_eq y.id id same
    | inr other ↦ first_hit-id hits id {c = c} (ground arith)
  ]

  pub Firsts-Memᴰ :
      (hits : List (RawCandidate F)) (m : List (Bytes × RawCandidate F))
      → Firsts hits m
      → (p : Bytes × RawCandidate F) → Memᴰ p m
      → first_hit hits p.0 ≡ some p.1
  Firsts-Memᴰ hits [] fs p there = absurd (Memᴰ.not-nil there)
  Firsts-Memᴰ hits ((x, y) ∷ m) (f, fs) p (Memᴰ.head e) =
      ap (first_hit hits) (ap (λ q. q.0) e) ∙ f ∙ ap (λ q. some q.1) (sym e)
  Firsts-Memᴰ hits ((x, y) ∷ m) (f, fs) p (Memᴰ.tail there) = Firsts-Memᴰ hits m fs p there

  pub entry_of :
      (id : Bytes) (m : List (Bytes × RawCandidate F))
      → Absent id m ⊎ ((p : Bytes × RawCandidate F) × Memᴰ p m × (p.0 ≡ id))
  entry_of id [] = inl tt
  entry_of id ((x, c) ∷ m) = elim (Bool-cases (bytes_eq x id)) [
    | inl same ↦ inr ((x, c), Memᴰ.head refl, eq_of_bytes_eq x id same)
    | inr other ↦ elim (entry_of id m) [
      | inl absent ↦ inl (other, absent)
      | inr (p, there, e) ↦ inr (p, Memᴰ.tail there, e)
    ]
  ]

  pub hit_found :
      (hits : List (RawCandidate F)) (hit : RawCandidate F)
      → Memᴰ hit hits
      → first_hit hits hit.id ≡ none
      → ⊥
  hit_found [] hit there h = absurd (Memᴰ.not-nil there)
  hit_found (c ∷ hits) hit (Memᴰ.head e) h =
      let same : bytes_eq c.id hit.id ≡ true =
        subst (λ x. bytes_eq x.id hit.id ≡ true) e (bytes_eq_refl hit.id) in
      ground arith
  hit_found (c ∷ hits) hit (Memᴰ.tail there) h = hit_found hits hit there (ground arith)
