-- ===== src/Csl/Types.antt =====
-- crates/sealstack-csl/src/types.rs: the type checker. A map is an association list in the order of
-- insertion, a set a list without repetitions; where the code goes over one in an order that the
-- standard library leaves open, the model goes over the list. The errors name what is wrong and where,
-- without the sources.
pub mod Sound
pub mod Indexed
mod Complete
mod Tests
use sealstack.Prelude.{
  ℕ, ◌+◌, ◌-◌, ◌/◌, ap, Bool, false, ◌||◌, Option, none, some, List, [], ◌∷◌, ◌++◌, map,
  if◌then◌else◌, Result, ok, err, ◌>>=◌,
}
use sealstack.Bytes.{Bytes, codes, bytes_eq}
use sealstack.Csl.Ast.{
  Span, DottedPath, joined, TypeExpr, Decorator, is_decorator, FieldDecl, SchemaDecl, TopDecl, File,
}

pub data TypeError : Type 0 where
  duplicate_schema : Bytes → Bytes → Span → TypeError
  missing_primary_key : Bytes → Span → TypeError
  duplicate_primary_key : Bytes → List Bytes → Span → TypeError
  unknown_ref_target : Bytes → Span → TypeError

pub record TypedSchema : Type 0 where
  pub decl : SchemaDecl
  pub primary_idx : ℕ
  pub refs_to : List Bytes
  pub field_decorator_index : List (List Bytes)

pub record TypedFile : Type 0 where
  pub namespace : Bytes
  pub schemas : List (Bytes × TypedSchema)
  pub enums : List Bytes
  pub decl_order : List Bytes

unfoldable pub contains : List Bytes → Bytes → Bool
contains [] name = false
contains (x ∷ xs) name = bytes_eq x name || contains xs name

-- `HashSet::insert`
unfoldable pub insert : Bytes → List Bytes → List Bytes
unfolding contains
insert name names = if contains names name then names else names ++ name ∷ []

unfoldable pub keys : List (Bytes × TypedSchema) → List Bytes
keys [] = []
keys ((name, ts) ∷ rest) = name ∷ keys rest

unfoldable pub collect_refs : TypeExpr → List Bytes → List Bytes
unfolding insert
collect_refs (TypeExpr.ref name span) out = insert name out
collect_refs (TypeExpr.named name span) out = insert name out
collect_refs (TypeExpr.list inner span) out = collect_refs inner out
collect_refs (TypeExpr.optional inner span) out = collect_refs inner out
collect_refs (TypeExpr.map k v span) out = collect_refs v (collect_refs k out)
collect_refs (TypeExpr.primitive p span) out = out
collect_refs (TypeExpr.vector n span) out = out

abbrev or_else : Option Span → Option Span → Option Span
or_else none o = o
or_else (some s) o = some s

unfoldable pub find_ref_span : TypeExpr → Bytes → Option Span
find_ref_span (TypeExpr.ref name span) target = if bytes_eq name target then some span else none
find_ref_span (TypeExpr.named name span) target = if bytes_eq name target then some span else none
find_ref_span (TypeExpr.list inner span) target = find_ref_span inner target
find_ref_span (TypeExpr.optional inner span) target = find_ref_span inner target
find_ref_span (TypeExpr.map k v span) target =
    or_else (find_ref_span k target) (find_ref_span v target)
find_ref_span (TypeExpr.primitive p span) target = none
find_ref_span (TypeExpr.vector n span) target = none

-- `f.decorators.iter().any(|d| d.is("primary"))`
any_primary : List Decorator → Bool
any_primary [] = false
any_primary (d ∷ ds) = is_decorator (codes "primary") d || any_primary ds

unfoldable pub is_primary : FieldDecl → Bool
unfolding any_primary
is_primary f = any_primary f.decorators

-- The primary fields and their positions, counted from `i`.
unfoldable pub primary_fields : ℕ → List FieldDecl → List (ℕ × FieldDecl)
unfolding is_primary
primary_fields i [] = []
primary_fields i (f ∷ fs) =
    let rest = primary_fields (i + 1) fs in if is_primary f then (i, f) ∷ rest else rest

unfoldable pub refs_of : List FieldDecl → List Bytes → List Bytes
unfolding collect_refs
refs_of [] out = out
refs_of (f ∷ fs) out = refs_of fs (collect_refs f.ty out)

unfoldable pub first_ref_span : List FieldDecl → Bytes → Option Span
unfolding find_ref_span
first_ref_span [] target = none
first_ref_span (f ∷ fs) target = or_else (find_ref_span f.ty target) (first_ref_span fs target)

abbrev field_names : List (ℕ × FieldDecl) → List Bytes
field_names [] = []
field_names ((i, f) ∷ rest) = f.name ∷ field_names rest

unfoldable pub primary_index : SchemaDecl → List (ℕ × FieldDecl) → Result TypeError ℕ
primary_index schema [] = err (missing_primary_key schema.name schema.span)
primary_index schema ((i, f) ∷ []) = ok i
primary_index schema (p ∷ q ∷ rest) =
    err (duplicate_primary_key schema.name (field_names (p ∷ q ∷ rest)) schema.span)

abbrev span_or : Option Span → Span → Span
span_or none s = s
span_or (some s) _ = s

module _ (schema_names enum_names : List Bytes) where
  abbrev pub is_known : Bytes → Bool
  is_known r = contains schema_names r || contains enum_names r

  unfoldable pub check_refs : SchemaDecl → List Bytes → Result TypeError (Unit {0})
  unfolding contains first_ref_span
  check_refs schema [] = ok tt
  check_refs schema (r ∷ rs) =
      let rest = check_refs schema rs in
      if is_known r
      then rest
      else err (unknown_ref_target r (span_or (first_ref_span schema.fields r) schema.span))

  decorator_names : List Decorator → List Bytes
  unfolding joined insert
  decorator_names [] = []
  decorator_names (d ∷ ds) = insert (joined d.path) (decorator_names ds)

  decorator_index : List FieldDecl → List (List Bytes)
  unfolding decorator_names
  decorator_index [] = []
  decorator_index (f ∷ fs) = decorator_names f.decorators ∷ decorator_index fs

  -- The body of the second pass's loop.
  unfoldable pub check_schema : TypedSchema → Result TypeError TypedSchema
  unfolding primary_index primary_fields refs_of check_refs decorator_index
  check_schema ts = do
    i ← primary_index ts.decl (primary_fields 0 ts.decl.fields)
    _ ← check_refs ts.decl (refs_of ts.decl.fields ts.refs_to)
    ok (record {
      decl = ts.decl;
      primary_idx = i;
      refs_to = refs_of ts.decl.fields ts.refs_to;
      field_decorator_index = decorator_index ts.decl.fields;
    })

  unfoldable pub check_schemas :
      List (Bytes × TypedSchema) → Result TypeError (List (Bytes × TypedSchema))
  unfolding check_schema
  check_schemas [] = ok []
  check_schemas ((name, ts) ∷ rest) = do
    ts' ← check_schema ts
    rest' ← check_schemas rest
    ok ((name, ts') ∷ rest')

unfoldable pub untyped : SchemaDecl → TypedSchema
untyped s = record { decl = s; primary_idx = 0; refs_to = []; field_decorator_index = [] }

abbrev pub add_schema : TypedFile → SchemaDecl → TypedFile
unfolding untyped
add_schema typed s = record typed {
  decl_order = typed.decl_order ++ s.name ∷ [];
  schemas = typed.schemas ++ (s.name, untyped s) ∷ [];
}

-- One declaration of the first pass.
unfoldable pub index_decl : TypedFile → TopDecl → Result TypeError TypedFile
unfolding contains keys insert
index_decl typed (TopDecl.schema s) =
    if contains (keys typed.schemas) s.name
    then err (duplicate_schema s.name typed.namespace s.span)
    else ok (add_schema typed s)
index_decl typed (TopDecl.enum name) = ok (record typed { enums = insert name typed.enums })
index_decl typed _ = ok typed

unfoldable pub index_decls : TypedFile → List TopDecl → Result TypeError TypedFile
unfolding index_decl
index_decls typed [] = ok typed
index_decls typed (d ∷ ds) = do typed' ← index_decl typed d; index_decls typed' ds

unfoldable pub index_files : TypedFile → List File → Result TypeError TypedFile
unfolding index_decls
index_files typed [] = ok typed
index_files typed (f ∷ fs) = do typed' ← index_decls typed f.decls; index_files typed' fs

-- The first namespace, or none.
pub namespace_of : List File → Bytes
unfolding joined
namespace_of [] = []
namespace_of (f ∷ fs) = elim f.namespace [ none ↦ namespace_of fs | some path ↦ joined path ]

abbrev pub empty_file : Bytes → TypedFile
empty_file namespace = record { namespace = namespace; schemas = []; enums = []; decl_order = [] }

unfoldable pub check_project : List File → Result TypeError TypedFile
unfolding index_files check_schemas namespace_of keys
check_project files = do
  typed ← index_files (empty_file (namespace_of files)) files
  schemas ← check_schemas (keys typed.schemas) typed.enums typed.schemas
  ok (record typed { schemas = schemas })
