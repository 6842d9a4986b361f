-- ===== src/ConnectorSdk/Principal.antt =====
-- crates/sealstack-connector-sdk/src/principal.rs: the principals of a permission predicate, and
-- their wire format.
use mathlib.Core.Path.{subst}
use sealstack.Prelude.{
  some_inj, none_ne_some, err_ne_ok, eq_of_==, ap, ℕ, ◌≡◌, refl, sym, ◌∙◌, true, ◌||◌, Bool-cases,
  Option-cases, Option, none, some, [], ◌∷◌, ◌++◌, if◌then◌else◌, ◌==◌, ◌⊎◌, inl, inr, Result, ok,
  err, ◌>>=◌, ok_or, ok_or-eq-ok, >>=-eq-ok, ok_inj,
}
use sealstack.Bytes.{Bytes, codes, bytes_eq, eq_of_bytes_eq}

pub data Principal : Type 0 where
  user group domain : Bytes → Principal
  anyone anyone_with_link : Principal

pub data PrincipalError : Type 0 where
  invalid_format unknown_kind : Bytes → PrincipalError

unfoldable pub serialize : Principal → Bytes
serialize (Principal.user id) = codes "user:" ++ id
serialize (Principal.group id) = codes "group:" ++ id
serialize (Principal.domain d) = codes "domain:" ++ d
serialize Principal.anyone = codes "anyone"
serialize Principal.anyone_with_link = codes "anyone-with-link"

abbrev cons_first : ℕ → Option (Bytes × Bytes) → Option (Bytes × Bytes)
cons_first c none = none
cons_first c (some (a, b)) = some (c ∷ a, b)

-- `s.split_once(c)`
unfoldable pub split_once : ℕ → Bytes → Option (Bytes × Bytes)
split_once c [] = none
split_once c (x ∷ s) =
    let later = split_once c s in if x == c then some ([], s) else cons_first x later

unfoldable of_kind : Bytes → Bytes → Result PrincipalError Principal
of_kind prefix rest =
    if bytes_eq prefix (codes "user")
    then ok (Principal.user rest)
    else if bytes_eq prefix (codes "group")
    then ok (Principal.group rest)
    else if bytes_eq prefix (codes "domain")
    then ok (Principal.domain rest)
    else err (PrincipalError.unknown_kind prefix)

unfoldable pub deserialize : Bytes → Result PrincipalError Principal
unfolding of_kind split_once
deserialize s =
    if bytes_eq s (codes "*") || bytes_eq s (codes "anyone")
    then ok Principal.anyone
    else if bytes_eq s (codes "anyone-with-link")
    then ok Principal.anyone_with_link
    else do
      (prefix, rest) ← ok_or (split_once 58 s) (PrincipalError.invalid_format s)
      of_kind prefix rest

-- A principal survives the wire, whatever bytes its identifier holds.
pub deserialize-serialize : (p : Principal) → deserialize (serialize p) ≡ ok p
unfolding deserialize serialize bytes_eq
deserialize-serialize (Principal.user id) = refl
deserialize-serialize (Principal.group id) = refl
deserialize-serialize (Principal.domain d) = refl
deserialize-serialize Principal.anyone = refl
deserialize-serialize Principal.anyone_with_link = refl

split_once-some : (c : ℕ) (s : Bytes) {a b : Bytes} → split_once c s ≡ some (a, b) → s ≡ a ++ c ∷ b
unfolding split_once
split_once-some c [] h = cc
split_once-some c (x ∷ s) {a} {b} h = elim (Bool-cases (x == c)) [
  | inl same ↦
      subst (λ (k : Bytes × Bytes). x ∷ s ≡ k.0 ++ c ∷ k.1) (some_inj (rw same at h))
        (ap (λ k. k ∷ s) (eq_of_== x c same))
  | inr differs ↦ elim (Option-cases (split_once c s)) [
    | inl missing ↦ absurd (none_ne_some (rw (differs, missing) at h))
    | inr ((a', b'), found) ↦
        subst (λ (k : Bytes × Bytes). x ∷ s ≡ k.0 ++ c ∷ k.1) (some_inj (rw (differs, found) at h))
          (ap (◌∷◌ x) (split_once-some c s found))
  ]
]

printed :
    (prefix kind rest : Bytes) {p q : Principal}
    → bytes_eq prefix kind ≡ true
    → q ≡ p
    → serialize q ≡ kind ++ 58 ∷ rest
    → serialize p ≡ prefix ++ 58 ∷ rest
printed prefix kind rest same e h =
    subst (λ k. serialize k ≡ prefix ++ 58 ∷ rest) e
      (h ∙ ap (λ k. k ++ 58 ∷ rest) (sym (eq_of_bytes_eq prefix kind same)))

-- A kind and its identifier, as `of_kind` reads them.
of_kind-ok :
    (prefix rest : Bytes) {p : Principal}
    → of_kind prefix rest ≡ ok p
    → serialize p ≡ prefix ++ 58 ∷ rest
unfolding of_kind serialize
of_kind-ok prefix rest h = elim (Bool-cases (bytes_eq prefix (codes "user"))) [
  | inl e ↦ printed prefix (codes "user") rest e (ok_inj (rw e at h)) refl
  | inr no_user ↦ elim (Bool-cases (bytes_eq prefix (codes "group"))) [
    | inl e ↦ printed prefix (codes "group") rest e (ok_inj (rw (no_user, e) at h)) refl
    | inr no_group ↦ elim (Bool-cases (bytes_eq prefix (codes "domain"))) [
      | inl e ↦
          printed prefix (codes "domain") rest e (ok_inj (rw (no_user, no_group, e) at h)) refl
      | inr no_domain ↦ absurd (err_ne_ok (rw (no_user, no_group, no_domain) at h))
    ]
  ]
]

kind_printed :
    (s : Bytes) {p : Principal}
    → (ok_or (split_once 58 s) (PrincipalError.invalid_format s) >>= λ k. of_kind k.0 k.1) ≡ ok p
    → serialize p ≡ s
kind_printed s h =
    let ((prefix, rest), split, known) =
      >>=-eq-ok (ok_or (split_once 58 s) (PrincipalError.invalid_format s)) _ h in
    of_kind-ok prefix rest known
    ∙ sym (
        split_once-some 58 s
          (ok_or-eq-ok (split_once 58 s) (PrincipalError.invalid_format s) split))

-- A text that parses is the one that its principal prints, or is the alias `*`.
pub serialize-deserialize :
    (s : Bytes) {p : Principal}
    → deserialize s ≡ ok p
    → (serialize p ≡ s) ⊎ ((s ≡ codes "*") × (p ≡ Principal.anyone))
unfolding deserialize serialize
serialize-deserialize s {p} h = elim (Bool-cases (bytes_eq s (codes "*"))) [
  | inl star ↦ inr (eq_of_bytes_eq s (codes "*") star, sym (ok_inj (rw star at h)))
  | inr no_star ↦ elim (Bool-cases (bytes_eq s (codes "anyone"))) [
    | inl e ↦ inl (
        subst (λ q. serialize q ≡ s) (ok_inj (rw (no_star, e) at h))
          (sym (eq_of_bytes_eq s (codes "anyone") e)))
    | inr no_anyone ↦ elim (Bool-cases (bytes_eq s (codes "anyone-with-link"))) [
      | inl e ↦ inl (
          subst (λ q. serialize q ≡ s) (ok_inj (rw (no_star, no_anyone, e) at h))
            (sym (eq_of_bytes_eq s (codes "anyone-with-link") e)))
      | inr no_link ↦ inl (kind_printed s (rw (no_star, no_anyone, no_link) at h))
    ]
  ]
]
