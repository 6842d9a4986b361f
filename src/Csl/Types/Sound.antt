-- ===== src/Csl/Types/Sound.antt =====
-- What the type checker of crates/sealstack-csl/src/types.rs has checked.
use mathlib.Core.Path.{subst}
use sealstack.Prelude.{
  ℕ, suc, ◌+◌, ◌≡◌, refl, sym, ap, Bool, true, Bool-cases, ◌∙◌, inl, inr, some, List, [], ◌∷◌, ◌++◌,
  arith, if◌then◌else◌, ok, >>=-eq-ok, ok_inj, get_elem?,
}
use sealstack.Bytes.{Bytes, bytes_eq, eq_of_bytes_eq}
use sealstack.Csl.Ast.{TypeExpr, FieldDecl, SchemaDecl, File}
use sealstack.Csl.Types.{
  TypedSchema, TypedFile, contains, insert, keys, collect_refs, is_primary, primary_fields, refs_of,
  primary_index, index_files, empty_file, namespace_of, is_known, check_refs, check_schema,
  check_schemas, check_project,
}

-- How many fields are primary.
abbrev pub count_primary : List FieldDecl → ℕ
count_primary [] = 0
count_primary (f ∷ fs) = if is_primary f then suc (count_primary fs) else count_primary fs

-- `i` is the place of a primary field, and there is no other.
pub record Primary (fields : List FieldDecl) (i : ℕ) : Type 0 where
  pub field : FieldDecl
  pub at : get_elem? fields i ≡ some field
  pub primary : is_primary field ≡ true
  pub only : count_primary fields ≡ 1

-- `x` is the item at position `i`, counted from `n`.
record At (fields : List FieldDecl) (n i : ℕ) (f : FieldDecl) : Type 0 where
  offset : ℕ
  place : i ≡ n + offset
  at : get_elem? fields offset ≡ some f
  primary : is_primary f ≡ true

At-suc :
    {f g : FieldDecl} {fields : List FieldDecl} {n i : ℕ}
    → At fields (n + 1) i f
    → At (g ∷ fields) n i f
At-suc a = record {
  offset = suc a.offset;
  place = omega (arith, a.place);
  at = a.at;
  primary = a.primary;
}

none_counted :
    (n : ℕ) (fields : List FieldDecl) → primary_fields n fields ≡ [] → count_primary fields ≡ 0
unfolding primary_fields
none_counted n [] h = refl
none_counted n (f ∷ fields) h = ground (arith, none_counted (n + 1) fields)

one_counted :
    (n i : ℕ) (fields : List FieldDecl) (f : FieldDecl)
    → primary_fields n fields ≡ (i, f) ∷ []
    → At fields n i f × (count_primary fields ≡ 1)
unfolding primary_fields
one_counted n i [] f h = cc
one_counted n i (g ∷ fields) f h = elim (Bool-cases (is_primary g)) [
  | inl marked ↦
      let listed : (n, g) ∷ primary_fields (n + 1) fields ≡ (i, f) ∷ [] = ground arith in
      let same : g ≡ f = cc in
      let here : i ≡ n = cc in
      (
        record {
          offset = 0;
          place = omega (arith, here);
          at = ap some same;
          primary = ap is_primary (sym same) ∙ marked;
        },
        rw marked (ap suc (none_counted (n + 1) fields cc)),
      )
  | inr plain ↦
      let (a, n₁) = one_counted (n + 1) i fields f (ground arith) in (At-suc a, rw plain n₁)
]

Primary-At :
    {fields : List FieldDecl} {i : ℕ} {f : FieldDecl}
    → At fields 0 i f
    → count_primary fields ≡ 1
    → Primary fields i
Primary-At {fields = fields} {f = f} a only = record {
  field = f;
  at = ap (get_elem? fields) (a.place ∙ (omega arith)) ∙ a.at;
  primary = a.primary;
  only = only;
}

Primary-primary_index :
    (s : SchemaDecl) (ps : List (ℕ × FieldDecl)) (i : ℕ)
    → primary_fields 0 s.fields ≡ ps
    → primary_index s ps ≡ ok i
    → Primary s.fields i
unfolding primary_index
Primary-primary_index s [] i listed h = cc
Primary-primary_index s ((j, f) ∷ []) i listed h =
    let (a, only) = one_counted 0 j s.fields f listed in
    subst (Primary s.fields) (ok_inj h) (Primary-At a only)
Primary-primary_index s (p ∷ q ∷ ps) i listed h = cc

module _ (known : Bytes → Bool) where
  -- Every name that a type mentions is known.
  abbrev pub Resolves : TypeExpr → Type 0
  Resolves (TypeExpr.ref name span) = known name ≡ true
  Resolves (TypeExpr.named name span) = known name ≡ true
  Resolves (TypeExpr.list inner span) = Resolves inner
  Resolves (TypeExpr.optional inner span) = Resolves inner
  Resolves (TypeExpr.map k v span) = Resolves k × Resolves v
  Resolves (TypeExpr.primitive p span) = Unit
  Resolves (TypeExpr.vector n span) = Unit

  abbrev pub ResolveAll : List FieldDecl → Type 0
  ResolveAll [] = Unit
  ResolveAll (f ∷ fields) = Resolves f.ty × ResolveAll fields

  abbrev pub Known : List Bytes → Type 0
  Known [] = Unit
  Known (r ∷ rs) = (known r ≡ true) × Known rs

  Known-contains : (rs : List Bytes) (r : Bytes) → Known rs → contains rs r ≡ true → known r ≡ true
  unfolding contains
  Known-contains [] r k h = cc
  Known-contains (x ∷ rs) r (kx, k) h = elim (Bool-cases (bytes_eq x r)) [
    | inl same ↦ ap known (sym (eq_of_bytes_eq x r same)) ∙ kx
    | inr differ ↦ Known-contains rs r k (ground arith)
  ]

  Known-append : (rs : List Bytes) (r : Bytes) → Known (rs ++ r ∷ []) → Known rs × (known r ≡ true)
  Known-append [] r (k, _) = (tt, k)
  Known-append (x ∷ rs) r (kx, k) = let (ks, kr) = Known-append rs r k in ((kx, ks), kr)

  Known-insert : (r : Bytes) (rs : List Bytes) → Known (insert r rs) → Known rs × (known r ≡ true)
  unfolding insert
  Known-insert r rs k = elim (Bool-cases (contains rs r)) [
    | inl present ↦ let ks = subst Known (ground arith) k in (ks, Known-contains rs r ks present)
    | inr absent ↦ Known-append rs r (subst Known (ground arith) k)
  ]

  Known-collect_refs :
      (ty : TypeExpr) (out : List Bytes) → Known (collect_refs ty out) → Known out × Resolves ty
  unfolding collect_refs
  Known-collect_refs (TypeExpr.ref name span) out k = Known-insert name out k
  Known-collect_refs (TypeExpr.named name span) out k = Known-insert name out k
  Known-collect_refs (TypeExpr.list inner span) out k = Known-collect_refs inner out k
  Known-collect_refs (TypeExpr.optional inner span) out k = Known-collect_refs inner out k
  Known-collect_refs (TypeExpr.map key val span) out k =
      let (k', rv) = Known-collect_refs val (collect_refs key out) k in
      let (k'', rk) = Known-collect_refs key out k' in (k'', (rk, rv))
  Known-collect_refs (TypeExpr.primitive p span) out k = (k, tt)
  Known-collect_refs (TypeExpr.vector n span) out k = (k, tt)

  Known-refs_of :
      (fields : List FieldDecl) (out : List Bytes)
      → Known (refs_of fields out)
      → Known out × ResolveAll fields
  unfolding refs_of
  Known-refs_of [] out k = (k, tt)
  Known-refs_of (f ∷ fields) out k =
      let (k', rest) = Known-refs_of fields (collect_refs f.ty out) k in
      let (k'', r) = Known-collect_refs f.ty out k' in (k'', (r, rest))

module _ (schemas enums : List Bytes) where
  Known-check_refs :
      (s : SchemaDecl) (rs : List Bytes)
      → check_refs schemas enums s rs ≡ ok tt
      → Known (is_known schemas enums) rs
  unfolding check_refs
  Known-check_refs s [] h = tt
  Known-check_refs s (r ∷ rs) h = elim (Bool-cases (is_known schemas enums r)) [
    | inl known ↦ (known, Known-check_refs s rs (ground arith))
    | inr other ↦ ground arith
  ]

  -- What the checker has seen to in a schema: its primary field and the names its fields mention.
  pub record Sound (ts : TypedSchema) : Type 0 where
    pub primary : Primary ts.decl.fields ts.primary_idx
    pub resolved : ResolveAll (is_known schemas enums) ts.decl.fields

  pub check_schema-Sound :
      (ts ts' : TypedSchema) → check_schema schemas enums ts ≡ ok ts' → Sound ts'
  unfolding check_schema
  check_schema-Sound ts ts' h =
      let (i, first, h₁) =
        >>=-eq-ok (primary_index ts.decl (primary_fields 0 ts.decl.fields)) _ h in
      let (_, refs, h₂) =
        >>=-eq-ok (check_refs schemas enums ts.decl (refs_of ts.decl.fields ts.refs_to)) _ h₁ in
      subst Sound (ok_inj h₂) record {
        primary = Primary-primary_index ts.decl _ i refl first;
        resolved =
            (Known-refs_of (is_known schemas enums) ts.decl.fields ts.refs_to
              (Known-check_refs ts.decl (refs_of ts.decl.fields ts.refs_to) refs)).1;
      }

  abbrev pub AllSound : List (Bytes × TypedSchema) → Type 0
  AllSound [] = Unit
  AllSound ((name, ts) ∷ rest) = Sound ts × AllSound rest

  pub check_schemas-AllSound :
      (ss ss' : List (Bytes × TypedSchema))
      → check_schemas schemas enums ss ≡ ok ss'
      → AllSound ss' × (keys ss' ≡ keys ss)
  unfolding check_schemas keys
  check_schemas-AllSound [] ss' h = subst (λ l. AllSound l × (keys l ≡ [])) (ok_inj h) (tt, refl)
  check_schemas-AllSound ((name, ts) ∷ rest) ss' h =
      let (ts', checked, h₁) = >>=-eq-ok (check_schema schemas enums ts) _ h in
      let (rest', others, h₂) = >>=-eq-ok (check_schemas schemas enums rest) _ h₁ in
      let (sound, same) = check_schemas-AllSound rest rest' others in
      subst (λ l. AllSound l × (keys l ≡ name ∷ keys rest)) (ok_inj h₂)
        ((check_schema-Sound ts ts' checked, sound), ap (◌∷◌ name) same)

-- In a project that the type checker accepts, each schema has exactly one primary field, the one at
-- the index that the checker gives, and every name that the type of a field mentions is that of a
-- schema or an enum of the project.
pub check_project-AllSound :
    (files : List File) (typed : TypedFile)
    → check_project files ≡ ok typed
    → AllSound (keys typed.schemas) typed.enums typed.schemas
unfolding check_project
check_project-AllSound files typed h =
    let (indexed, _, h₁) = >>=-eq-ok (index_files (empty_file (namespace_of files)) files) _ h in
    let (ss, checked, h₂) =
      >>=-eq-ok (check_schemas (keys indexed.schemas) indexed.enums indexed.schemas) _ h₁ in
    let (sound, same) =
      check_schemas-AllSound (keys indexed.schemas) indexed.enums indexed.schemas ss checked in
    subst (λ t. AllSound (keys t.schemas) t.enums t.schemas) (ok_inj h₂)
      (subst (λ names. AllSound names indexed.enums ss) (sym same) sound)
