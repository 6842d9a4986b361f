-- ===== src/Csl/Types/Indexed.antt =====
-- The symbol table that crates/sealstack-csl/src/types.rs builds in its first pass.
use mathlib.Core.Path.{subst}
use sealstack.Prelude.{
  Bool, true, err, if◌then◌else◌, append-nil, append_assoc, ◌≡◌, refl, sym, ap, ◌∙◌, false,
  Bool-cases, inl, inr, List, [], ◌∷◌, ◌++◌, Result, ok, >>=-eq-ok, ok_inj, arith,
}
use sealstack.Bytes.{Bytes, bytes_eq, bytes_ne_comm}
use sealstack.Csl.Ast.{TopDecl, File}
use sealstack.Csl.Types.Sound.{check_schemas-AllSound}
use sealstack.Csl.Types.{
  insert, TypeError, TypedSchema, TypedFile, contains, keys, untyped, add_schema, index_decl,
  index_decls, index_files, empty_file, namespace_of, primary_index, primary_fields, check_refs,
  refs_of, check_schema, check_schemas, check_project,
}

-- No name stands twice in the list.
abbrev pub Distinct : List Bytes → Type 0
Distinct [] = Unit
Distinct (x ∷ xs) = (contains xs x ≡ false) × Distinct xs

-- Each key is the name of the schema it leads to.
abbrev pub Named : List (Bytes × TypedSchema) → Type 0
Named [] = Unit
Named ((name, ts) ∷ rest) = (name ≡ ts.decl.name) × Named rest

pub record WellIndexed (typed : TypedFile) : Type 0 where
  pub ordered : typed.decl_order ≡ keys typed.schemas
  pub distinct : Distinct (keys typed.schemas)
  pub named : Named typed.schemas

contains-append :
    (xs : List Bytes) (y z : Bytes)
    → contains xs z ≡ false
    → bytes_eq y z ≡ false
    → contains (xs ++ y ∷ []) z ≡ false
unfolding contains
contains-append [] y z h k = ground arith
contains-append (x ∷ xs) y z h k = ground (arith, contains-append xs y z)

Distinct-append :
    (xs : List Bytes) (y : Bytes) → contains xs y ≡ false → Distinct xs → Distinct (xs ++ y ∷ [])
unfolding contains
Distinct-append [] y h d = (refl, tt)
Distinct-append (x ∷ xs) y h (fresh, rest) =
    let apart : bytes_eq x y ≡ false = ground arith in
    let absent : contains xs y ≡ false = ground arith in
    (contains-append xs y x fresh (bytes_ne_comm x y apart), Distinct-append xs y absent rest)

keys-append :
    (ss : List (Bytes × TypedSchema)) (name : Bytes) (ts : TypedSchema)
    → keys (ss ++ (name, ts) ∷ []) ≡ keys ss ++ name ∷ []
unfolding keys
keys-append [] name ts = refl
keys-append ((x, s) ∷ ss) name ts = ap (◌∷◌ x) (keys-append ss name ts)

Named-append :
    (ss : List (Bytes × TypedSchema)) (name : Bytes) (ts : TypedSchema)
    → name ≡ ts.decl.name
    → Named ss
    → Named (ss ++ (name, ts) ∷ [])
Named-append [] name ts e n = (e, tt)
Named-append ((x, s) ∷ ss) name ts e (n, rest) = (n, Named-append ss name ts e rest)

WellIndexed-index_decl :
    (typed typed' : TypedFile) (decl : TopDecl)
    → index_decl typed decl ≡ ok typed'
    → WellIndexed typed
    → WellIndexed typed'
unfolding index_decl untyped
WellIndexed-index_decl typed typed' (TopDecl.schema s) h w =
    elim (Bool-cases (contains (keys typed.schemas) s.name)) [
      | inl again ↦ ground arith
      | inr fresh ↦
          let added : ◌≡◌ {A = Result TypeError TypedFile} (ok (add_schema typed s)) (ok typed') =
            ground arith in
          subst WellIndexed (ok_inj added) record {
            ordered =
                ap (λ l. l ++ s.name ∷ []) w.ordered
                ∙ sym (keys-append typed.schemas s.name (untyped s));
            distinct =
                subst Distinct (sym (keys-append typed.schemas s.name (untyped s)))
                  (Distinct-append (keys typed.schemas) s.name fresh w.distinct);
            named = Named-append typed.schemas s.name (untyped s) refl w.named;
          }
    ]
WellIndexed-index_decl typed typed' (TopDecl.enum name) h w =
    subst WellIndexed (ok_inj h)
      record { ordered = w.ordered; distinct = w.distinct; named = w.named }
WellIndexed-index_decl typed typed' TopDecl.policy h w = subst WellIndexed (ok_inj h) w
WellIndexed-index_decl typed typed' TopDecl.context_profile h w = subst WellIndexed (ok_inj h) w

WellIndexed-index_decls :
    (typed typed' : TypedFile) (decls : List TopDecl)
    → index_decls typed decls ≡ ok typed'
    → WellIndexed typed
    → WellIndexed typed'
unfolding index_decls
WellIndexed-index_decls typed typed' [] h w = subst WellIndexed (ok_inj h) w
WellIndexed-index_decls typed typed' (decl ∷ decls) h w =
    let (next, first, rest) = >>=-eq-ok (index_decl typed decl) _ h in
    WellIndexed-index_decls next typed' decls rest (WellIndexed-index_decl typed next decl first w)

WellIndexed-index_files :
    (typed typed' : TypedFile) (files : List File)
    → index_files typed files ≡ ok typed'
    → WellIndexed typed
    → WellIndexed typed'
unfolding index_files
WellIndexed-index_files typed typed' [] h w = subst WellIndexed (ok_inj h) w
WellIndexed-index_files typed typed' (file ∷ files) h w =
    let (next, first, rest) = >>=-eq-ok (index_decls typed file.decls) _ h in
    WellIndexed-index_files next typed' files rest
      (WellIndexed-index_decls typed next file.decls first w)

-- The names of the schemas that are declared, in the order of the source.
abbrev declared : List TopDecl → List Bytes
declared [] = []
declared (TopDecl.schema s ∷ decls) = s.name ∷ declared decls
declared (decl ∷ decls) = declared decls

abbrev pub declared_in : List File → List Bytes
declared_in [] = []
declared_in (file ∷ files) = declared file.decls ++ declared_in files

index_decls-declared :
    (typed typed' : TypedFile) (decls : List TopDecl)
    → index_decls typed decls ≡ ok typed'
    → typed'.decl_order ≡ typed.decl_order ++ declared decls
unfolding index_decls index_decl add_schema
index_decls-declared typed typed' [] h =
    ap (λ t. t.decl_order) (sym (ok_inj h)) ∙ sym (append-nil typed.decl_order)
index_decls-declared typed typed' (TopDecl.schema s ∷ decls) h =
    let (next, first, rest) = >>=-eq-ok (index_decl typed (TopDecl.schema s)) _ h in
    index_decls-declared next typed' decls rest
    ∙ ap (λ l. l ++ declared decls) (added (contains (keys typed.schemas) s.name) first)
    ∙ append_assoc typed.decl_order (s.name ∷ []) (declared decls)
  where
    added :
        {next : TypedFile} (b : Bool)
        → ◌≡◌ {A = Result TypeError TypedFile}
            (if b
              then err (TypeError.duplicate_schema s.name typed.namespace s.span)
              else ok (add_schema typed s))
            (ok next)
        → next.decl_order ≡ typed.decl_order ++ s.name ∷ []
    added true e = cc
    added false e = ap (λ t. t.decl_order) (sym (ok_inj e))
index_decls-declared typed typed' (TopDecl.enum name ∷ decls) h =
    index_decls-declared (record typed { enums = insert name typed.enums }) typed' decls h
index_decls-declared typed typed' (TopDecl.policy ∷ decls) h =
    index_decls-declared typed typed' decls h
index_decls-declared typed typed' (TopDecl.context_profile ∷ decls) h =
    index_decls-declared typed typed' decls h

index_files-declared :
    (typed typed' : TypedFile) (files : List File)
    → index_files typed files ≡ ok typed'
    → typed'.decl_order ≡ typed.decl_order ++ declared_in files
unfolding index_files
index_files-declared typed typed' [] h =
    ap (λ t. t.decl_order) (sym (ok_inj h)) ∙ sym (append-nil typed.decl_order)
index_files-declared typed typed' (file ∷ files) h =
    let (next, first, rest) = >>=-eq-ok (index_decls typed file.decls) _ h in
    index_files-declared next typed' files rest
    ∙ ap (λ l. l ++ declared_in files) (index_decls-declared typed next file.decls first)
    ∙ append_assoc typed.decl_order (declared file.decls) (declared_in files)

module _ (schemas enums : List Bytes) where
  pub check_schema-name :
      (ts ts' : TypedSchema) → check_schema schemas enums ts ≡ ok ts' → ts'.decl ≡ ts.decl
  unfolding check_schema
  check_schema-name ts ts' h =
      let (_, _, h₁) = >>=-eq-ok (primary_index ts.decl (primary_fields 0 ts.decl.fields)) _ h in
      let (_, _, h₂) =
        >>=-eq-ok (check_refs schemas enums ts.decl (refs_of ts.decl.fields ts.refs_to)) _ h₁ in
      ap (λ t. t.decl) (sym (ok_inj h₂))

  Named-check_schemas :
      (ss ss' : List (Bytes × TypedSchema))
      → check_schemas schemas enums ss ≡ ok ss'
      → Named ss
      → Named ss'
  unfolding check_schemas
  Named-check_schemas [] ss' h n = subst Named (ok_inj h) tt
  Named-check_schemas ((name, ts) ∷ rest) ss' h (e, n) =
      let (ts', checked, h₁) = >>=-eq-ok (check_schema schemas enums ts) _ h in
      let (rest', others, h₂) = >>=-eq-ok (check_schemas schemas enums rest) _ h₁ in
      subst Named (ok_inj h₂) (
        e ∙ ap (λ decl. decl.name) (sym (check_schema-name ts ts' checked)),
        Named-check_schemas rest rest' others n,
      )

-- In a project that the type checker accepts, `decl_order` is the names of the schemas in the order in
-- which the files declare them, no name stands twice among them, and the index has these names for its
-- keys, each with the schema of that name.
pub check_project-WellIndexed :
    (files : List File) (typed : TypedFile)
    → check_project files ≡ ok typed
    → (typed.decl_order ≡ declared_in files) × WellIndexed typed
unfolding check_project keys
check_project-WellIndexed files typed h =
    let (indexed, first, h₁) =
      >>=-eq-ok (index_files (empty_file (namespace_of files)) files) _ h in
    let (ss, checked, h₂) =
      >>=-eq-ok (check_schemas (keys indexed.schemas) indexed.enums indexed.schemas) _ h₁ in
    let w =
      WellIndexed-index_files (empty_file (namespace_of files)) indexed files first
        record { ordered = refl; distinct = tt; named = tt } in
    let (_, same) =
      check_schemas-AllSound (keys indexed.schemas) indexed.enums indexed.schemas ss checked in
    (
      ap (λ t. t.decl_order) (sym (ok_inj h₂))
          ∙ index_files-declared (empty_file (namespace_of files)) indexed files first,
      subst WellIndexed (ok_inj h₂) record {
        ordered = w.ordered ∙ sym same;
        distinct = subst Distinct (sym same) w.distinct;
        named =
            Named-check_schemas (keys indexed.schemas) indexed.enums indexed.schemas ss checked
              w.named;
      },
    )
