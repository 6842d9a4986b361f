-- ===== src/VectorStore/Memory/Invariant.antt =====
-- The store after any sequence of operations.
use mathlib.Core.Path.{subst}
use sealstack.Prelude.{
  some_inj, ℕ, ◌≡◌, Bool, true, false, not, some, List, [], ◌∷◌, if◌then◌else◌, ◌==◌, Bool-cases,
  Option-cases, inl, inr,
}
use sealstack.Bytes.{Bytes, bytes_eq}
use sealstack.VectorStore.Memory.{
  Chunk, CollectionState, Distance, Store, StoreResult, ensure, lookup, insert, remove, upsert,
  delete, with_chunks,
}
use sealstack.VectorStore.Memory.Chunks.{Sound, upsert_chunks-Sound, retain-Sound}

-- The operations of the trait that change the store.
pub data Operation (F : Type 0) : Type 0 where
  ensure_collection : Bytes → ℕ → Distance → Operation F
  upsert_into : Bytes → List (Chunk F) → Operation F
  delete_from : Bytes → List ℕ → Operation F
  drop_collection : Bytes → Operation F

module _ {F : Type 0} where
  unfoldable pub apply : Store F → Operation F → Store F
  unfolding ensure upsert delete remove
  apply store (ensure_collection name dims distance) = (ensure store name dims distance).0
  apply store (upsert_into name chunks) = (upsert store name chunks).0
  apply store (delete_from name ids) = (delete store name ids).0
  apply store (drop_collection name) = remove store name

  unfoldable pub apply_all : Store F → List (Operation F) → Store F
  unfolding apply
  apply_all store [] = store
  apply_all store (o ∷ os) = apply_all (apply store o) os

  -- Every collection is sound.
  abbrev pub SoundStore : Store F → Type 0
  SoundStore [] = Unit
  SoundStore ((name, state) ∷ rest) = Sound state.dims state.chunks × SoundStore rest

  lookup-SoundStore :
      (store : Store F) (name : Bytes) {state : CollectionState F}
      → SoundStore store
      → lookup store name ≡ some state
      → Sound state.dims state.chunks
  unfolding lookup
  lookup-SoundStore ((k, s) ∷ rest) name (sound, others) h = elim (Bool-cases (bytes_eq k name)) [
    | inl same ↦
        subst (λ (st : CollectionState F). Sound st.dims st.chunks) (some_inj (rw same at h)) sound
    | inr differs ↦ lookup-SoundStore rest name others (rw differs at h)
  ]
  lookup-SoundStore [] name s h = cc

  insert-SoundStore :
      (store : Store F) (name : Bytes) (state : CollectionState F)
      → Sound state.dims state.chunks
      → SoundStore store
      → SoundStore (insert store name state)
  unfolding insert
  insert-SoundStore [] name state sound s = (sound, tt)
  insert-SoundStore ((k, old) ∷ rest) name state sound (s, others) =
      elim (Bool-cases (bytes_eq k name)) [
        | inl same ↦ rw same (sound, others)
        | inr differs ↦ rw differs (s, insert-SoundStore rest name state sound others)
      ]

  remove-SoundStore :
      (store : Store F) (name : Bytes) → SoundStore store → SoundStore (remove store name)
  unfolding remove
  remove-SoundStore [] name s = tt
  remove-SoundStore ((k, old) ∷ rest) name (s, others) = elim (Bool-cases (bytes_eq k name)) [
    | inl same ↦ rw same (remove-SoundStore rest name others)
    | inr differs ↦ rw differs (s, remove-SoundStore rest name others)
  ]

  same_store :
      (r₁ r₂ : StoreResult Unit) (b : Bool) (store : Store F)
      → SoundStore store
      → SoundStore (if◌then◌else◌ {A = Store F × StoreResult Unit} b (store, r₁) (store, r₂)).0
  same_store r₁ r₂ true store s = s
  same_store r₁ r₂ false store s = s

  apply-SoundStore :
      (store : Store F) (o : Operation F) → SoundStore store → SoundStore (apply store o)
  unfolding apply with_chunks
  apply-SoundStore store (ensure_collection name dims distance) s =
      elim (Option-cases (lookup store name)) [
        | inl missing ↦ rw (SoundStore, missing) (insert-SoundStore store name _ tt s)
        | inr (state, found) ↦
            rw (SoundStore, found) (same_store _ _ (not (state.dims == dims)) store s)
      ]
  apply-SoundStore store (upsert_into name chunks) s = elim (Option-cases (lookup store name)) [
    | inl missing ↦ rw (SoundStore, missing) s
    | inr (state, found) ↦
        rw (SoundStore, found)
          (insert-SoundStore store name _
            (upsert_chunks-Sound state.dims state.chunks chunks
              (lookup-SoundStore store name s found))
            s)
  ]
  apply-SoundStore store (delete_from name []) s = s
  apply-SoundStore store (delete_from name (i ∷ ids)) s = elim (Option-cases (lookup store name)) [
    | inl missing ↦ rw (SoundStore, missing) s
    | inr (state, found) ↦
        rw (SoundStore, found)
          (insert-SoundStore store name _
            (retain-Sound state.dims (i ∷ ids) state.chunks (lookup-SoundStore store name s found))
            s)
  ]
  apply-SoundStore store (drop_collection name) s = remove-SoundStore store name s

  apply_all-SoundStore :
      (store : Store F) (os : List (Operation F))
      → SoundStore store
      → SoundStore (apply_all store os)
  unfolding apply_all
  apply_all-SoundStore store [] s = s
  apply_all-SoundStore store (o ∷ os) s =
      apply_all-SoundStore (apply store o) os (apply-SoundStore store o s)

  -- After any sequence of operations from the empty store, successful or not, each collection holds
  -- chunks of its dimension only, no two with one id.
  pub reachable-SoundStore : (os : List (Operation F)) → SoundStore (apply_all [] os)
  reachable-SoundStore os = apply_all-SoundStore [] os tt
