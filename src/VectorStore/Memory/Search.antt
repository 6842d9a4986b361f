-- ===== src/VectorStore/Memory/Search.antt =====
-- What a search returns.
use mathlib.Core.Path.{subst}
use mathlib.Core.List.{Memᴰ}
use sealstack.Prelude.{
  arith, ℕ, suc, ◌≤◌, ◌≡◌, refl, ap, sym, Bool, true, false, not, Option, some, List, [], ◌∷◌, map,
  if◌then◌else◌, ◌==◌, Bool-cases, inl, inr, length, take, ok, err, >>=-eq-ok, ok_or-eq-ok, ok_inj,
  ok_or, none, ◌∙◌, length-take_le, Memᴰ-map, Memᴰ-take,
}
use sealstack.Bytes.{Bytes}
use sealstack.Json.{Value}
use sealstack.VectorStore.Filter.{FilterResult, Filter, matches, from_json}
use sealstack.VectorStore.Memory.{
  accepted, Chunk, CollectionState, SearchResult, Store, StoreError, Floats, lookup, passes,
  typed_filter, scored, score_of, hit, search, search_with,
}
use mathlib.Core.List.Memᴰ

module _ {A B : Type 0} (f : A → B) where
  length-map : (xs : List A) → length (map f xs) ≡ length xs
  length-map [] = refl
  length-map (x ∷ xs) = ap suc (length-map xs)

-- The end of `search`: hits come from the branch where the dimensions agree.
returned :
    {A : Type 0} (agree : Bool) (a : A) {b : A}
    → (if not agree then err StoreError.validation else ok a) ≡ ok b
    → a ≡ b
returned true a h = ok_inj h
returned false a h = cc

module _ {F : Type 0} (floats : Floats F) (value_eq : Value → Value → Bool) where
  -- A scored chunk is in the collection, passes the filter, and has the collection's score.
  abbrev pub Scored :
      CollectionState F → List F → Option Filter → List (Chunk F) → F × Chunk F → Type 0
  Scored state q f cs (s, c) =
      Memᴰ c cs × (passes value_eq f c ≡ true) × (s ≡ score_of floats state.distance q c.embedding)

  Scored-tail :
      (state : CollectionState F) (q : List F) (f : Option Filter) (c : Chunk F)
      (cs : List (Chunk F)) (p : F × Chunk F)
      → Scored state q f cs p
      → Scored state q f (c ∷ cs) p
  Scored-tail state q f c cs p (there, pass, s) = (Memᴰ.tail there, pass, s)

  scored-first :
      (state : CollectionState F) (q : List F) (f : Option Filter) (c : Chunk F)
      (cs : List (Chunk F)) (p : F × Chunk F)
      → passes value_eq f c ≡ true
      → (Memᴰ p (scored floats value_eq state q f cs) → Scored state q f cs p)
      → Memᴰ p
          ((score_of floats state.distance q c.embedding, c) ∷ scored floats value_eq state q f cs)
      → Scored state q f (c ∷ cs) p
  scored-first state q f c cs p pass later (Memᴰ.head e) =
      subst (Scored state q f (c ∷ cs)) (sym e) (Memᴰ.head refl, pass, refl)
  scored-first state q f c cs p pass later (Memᴰ.tail m) = Scored-tail state q f c cs p (later m)

  scored_sound :
      (state : CollectionState F) (q : List F) (f : Option Filter) (cs : List (Chunk F))
      (p : F × Chunk F)
      → Memᴰ p (scored floats value_eq state q f cs)
      → Scored state q f cs p
  unfolding scored
  scored_sound state q f [] p m = absurd (Memᴰ.not-nil m)
  scored_sound state q f (c ∷ cs) p m = elim (Bool-cases (passes value_eq f c)) [
    | inl pass ↦ scored-first state q f c cs p pass (scored_sound state q f cs p) (rw pass at m)
    | inr skip ↦ Scored-tail state q f c cs p (scored_sound state q f cs p (rw skip at m))
  ]

  -- A filter that the parser accepts holds of the chunk's metadata.
  abbrev pub MeetsParsed : FilterResult Filter → Chunk F → Type 0
  MeetsParsed (ok f) c = matches value_eq f c.metadata ≡ true
  MeetsParsed (err e) c = Unit

  abbrev pub Meets : Option Value → Chunk F → Type 0
  Meets none c = Unit
  Meets (some v) c = MeetsParsed (from_json v) c

  MeetsParsed-passes :
      (r : FilterResult Filter) (c : Chunk F)
      → passes value_eq (accepted r) c ≡ true
      → MeetsParsed r c
  unfolding accepted passes matches
  MeetsParsed-passes (ok Filter.all) c h = refl
  MeetsParsed-passes (ok f) c h = h
  MeetsParsed-passes (err e) c h = tt

  Meets-passes :
      (filter : Option Value) (c : Chunk F)
      → passes value_eq (typed_filter filter) c ≡ true
      → Meets filter c
  unfolding typed_filter
  Meets-passes none c h = tt
  Meets-passes (some v) c h = MeetsParsed-passes (from_json v) c h

  -- What a hit comes from: a chunk of the collection that meets the filter, with its score.
  pub record Source (state : CollectionState F) (q : List F) (filter : Option Value)
      (h : SearchResult F) : Type 0 where
    pub chunk : Chunk F
    pub stored : Memᴰ chunk state.chunks
    pub meets : Meets filter chunk
    pub is_hit : h ≡ hit (score_of floats state.distance q chunk.embedding, chunk)

  -- A search that succeeds returns at most `top_k` hits, and each hit is that of a chunk of the
  -- collection, with the chunk's score; where a filter is given and the parser accepts it, the filter
  -- holds of the chunk's metadata. The sort returns nothing but what it was given.
  pub search_sound :
      (sort_by_score : List (F × Chunk F) → List (F × Chunk F))
      → ((xs : List (F × Chunk F)) (x : F × Chunk F) → Memᴰ x (sort_by_score xs) → Memᴰ x xs)
      → (store : Store F) (name : Bytes) (q : List F) (top_k : ℕ) (filter : Option Value)
        {hits : List (SearchResult F)} (h : SearchResult F)
      → search floats value_eq sort_by_score store name q top_k filter ≡ ok hits
      → Memᴰ h hits
      → (length hits ≤ top_k)
        × ((state : CollectionState F) × (lookup store name ≡ some state) × Source state q filter h)
  unfolding search search_with
  search_sound sort_by_score sorted store name q top_k filter h found m =
      let (state, present, h₁) =
        >>=-eq-ok (ok_or (lookup store name) StoreError.not_found) _ found in
      let all_scored = scored floats value_eq state q (typed_filter filter) state.chunks in
      let best = take top_k (sort_by_score all_scored) in
      let same = returned (length q == state.dims) (map hit best) h₁ in
      let (p, there, e) = Memᴰ-map hit best h (subst (Memᴰ h) (sym same) m) in
      let s =
        scored_sound state q (typed_filter filter) state.chunks p
          (sorted all_scored p (Memᴰ-take top_k (sort_by_score all_scored) p there)) in
      (
        subst (λ k. length k ≤ top_k) same
            (omega (arith, length-map hit best, length-take_le top_k (sort_by_score all_scored))),
        (
          state,
          ok_or-eq-ok (lookup store name) StoreError.not_found present,
          record {
            chunk = p.1;
            stored = s.0;
            meets = Meets-passes filter p.1 s.1;
            is_hit = e ∙ ap (λ x. hit (x, p.1)) s.2;
          },
        ),
      )
