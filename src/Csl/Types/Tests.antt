-- ===== src/Csl/Types/Tests.antt =====
-- The type checker of crates/sealstack-csl/src/types.rs run on small projects.
use sealstack.Prelude.{ℕ, ◌≡◌, refl, none, List, [], ◌∷◌, ok, err}
use sealstack.Bytes.{Bytes, codes, bytes_eq}
use sealstack.Csl.Ast.{
  Span, joined, PrimitiveType, TypeExpr, Decorator, is_decorator, FieldDecl, SchemaDecl, TopDecl,
  File,
}
use sealstack.Csl.Types.{
  TypeError, TypedFile, contains, insert, keys, collect_refs, find_ref_span, is_primary,
  primary_fields, refs_of, first_ref_span, primary_index, check_refs, check_schema, check_schemas,
  untyped, index_decl, index_decls, index_files, check_project,
}
use sealstack.Csl.Types.Sound.{AllSound, check_project-AllSound}
use sealstack.Csl.Types.Indexed.{WellIndexed, check_project-WellIndexed}

abbrev at : ℕ → Span
at n = record { start = n; finish = n }

abbrev primary : Decorator
primary = record {
  path = record { segments = codes "primary" ∷ []; span = at 1 };
  args = [];
  assign = none;
  span = at 1;
}

abbrev id : FieldDecl
id = record {
  name = codes "id";
  ty = TypeExpr.primitive PrimitiveType.ulid (at 2);
  decorators = primary ∷ [];
  span = at 2;
}

abbrev field : Bytes → TypeExpr → FieldDecl
field name ty = record { name = name; ty = ty; decorators = []; span = at 3 }

abbrev schema : Bytes → List FieldDecl → SchemaDecl
schema name fields = record { name = name; fields = fields; policy = none; span = at 4 }

abbrev doc : SchemaDecl
doc = schema (codes "Doc") (
    field (codes "team") (TypeExpr.optional (TypeExpr.ref (codes "Team") (at 5)) (at 6))
    ∷ id
    ∷ field (codes "kind") (TypeExpr.named (codes "Kind") (at 7))
    ∷ [])

abbrev team : SchemaDecl
team = schema (codes "Team") (id ∷ [])

abbrev file : List TopDecl → File
file decls = record { namespace = none; decls = decls }

-- A schema may refer to one of a later file.
abbrev project : List File
project =
    file (TopDecl.schema doc ∷ TopDecl.enum (codes "Kind") ∷ [])
    ∷ file (TopDecl.schema team ∷ [])
    ∷ []

accepted : (typed : TypedFile) × (check_project project ≡ ok typed)
unfolding check_project index_files index_decls index_decl contains keys insert bytes_eq untyped
    check_schemas check_schema primary_index primary_fields is_primary is_decorator joined refs_of
    collect_refs check_refs
accepted = (_, refl)

twice :
    check_project (file (TopDecl.schema team ∷ TopDecl.schema team ∷ []) ∷ [])
    ≡ err (TypeError.duplicate_schema (codes "Team") [] (at 4))
unfolding check_project index_files index_decls index_decl contains keys bytes_eq untyped
twice = refl

unkeyed :
    check_project (file (TopDecl.schema (schema (codes "Team") []) ∷ []) ∷ [])
    ≡ err (TypeError.missing_primary_key (codes "Team") (at 4))
unfolding check_project index_files index_decls index_decl contains keys bytes_eq untyped
    check_schemas check_schema primary_index primary_fields
unkeyed = refl

unresolved :
    check_project (file (TopDecl.schema doc ∷ TopDecl.schema team ∷ []) ∷ [])
    ≡ err (TypeError.unknown_ref_target (codes "Kind") (at 7))
unfolding check_project index_files index_decls index_decl contains keys insert bytes_eq untyped
    check_schemas check_schema primary_index primary_fields is_primary is_decorator joined refs_of
    collect_refs check_refs first_ref_span find_ref_span
unresolved = refl

check_project-AllSound_example :
    AllSound (keys accepted.0.schemas) accepted.0.enums accepted.0.schemas
check_project-AllSound_example = check_project-AllSound project accepted.0 accepted.1

check_project-WellIndexed_example :
    (accepted.0.decl_order ≡ codes "Doc" ∷ codes "Team" ∷ []) × WellIndexed accepted.0
check_project-WellIndexed_example = check_project-WellIndexed project accepted.0 accepted.1
