-- ===== src/Csl/Policy/Layout.antt =====
-- The action table that `build_action_table_and_rules` of crates/sealstack-csl/src/codegen/policy.rs
-- writes, and the search of `interpret` through it.
use mathlib.Core.Path.{subst₂, subst}
use sealstack.Prelude.{
  if◌then◌else◌, ◌%◌, ◌/◌, ℕ, suc, ◌+◌, ◌*◌, ◌^◌, ◌<◌, ◌≡◌, ap, sym, ◌∙◌, Option, none, some, ok,
  >>=-eq-ok, ok_inj, List, [], ◌∷◌, ◌++◌, append_assoc, arith, bit_and, ◌==◌, Bool-cases, inl, inr,
  length, Sees, Sees-get_elem?, Sees-next, Sees-append,
}
use sealstack.Bytes.{Bytes}
use sealstack.Bytes.Le.{length-to_le_bytes, to_le_bytes, from_le_bytes-to_le_bytes}
use sealstack.PolicyIr.{Op, tag}
use sealstack.PolicyIr.Host.{index, find_entry}
use sealstack.Csl.Ast.{PolicyRule}
use sealstack.Csl.Policy.{
  lower_expr, lower_rule, lower_rules, table_offsets, table_entries, concat_streams, action_mask,
  try_from, rule_too_long, rules_too_long,
}
use sealstack.Csl.Policy.Meaning.{applicable}
use sealstack.Csl.Policy.Paths.{lt_of_try_from}

lower_rules-nil : {streams : List (ℕ × Bytes)} → lower_rules [] ≡ ok streams → [] ≡ streams
unfolding lower_rules
lower_rules-nil h = ok_inj h

lower_rules-cons :
    (rule : PolicyRule) (rules : List PolicyRule) {streams : List (ℕ × Bytes)}
    → lower_rules (rule ∷ rules) ≡ ok streams
    → (pred : Bytes) × (rest : List (ℕ × Bytes)) × (lower_expr rule.predicate [] ≡ ok pred)
      × (lower_rules rules ≡ ok rest)
      × (streams ≡ (action_mask rule.actions, pred ++ tag Op.result ∷ []) ∷ rest)
unfolding lower_rules
lower_rules-cons rule rules h =
    let (st, h₁, k₁) = >>=-eq-ok (lower_rule rule) _ h in
    let (sts, h₂, k₂) = >>=-eq-ok (lower_rules rules) _ k₁ in
    let (pred, h₃, k₃) = >>=-eq-ok (lower_expr rule.predicate []) _ h₁ in
    (pred, sts, h₃, h₂, sym (ok_inj k₂) ∙ ap (λ k. k ∷ sts) (sym (ok_inj k₃)))

pub table_offsets-cons :
    (running mask : ℕ) (stream : Bytes) (streams : List (ℕ × Bytes)) {offsets : List ℕ}
    → table_offsets running ((mask, stream) ∷ streams) ≡ ok offsets
    → (offs : List ℕ) × (running + length stream < 2 ^ 16)
      × (table_offsets (running + length stream) streams ≡ ok offs)
      × (offsets ≡ running ∷ offs)
unfolding table_offsets
table_offsets-cons running mask stream streams h =
    let (len, f₁, m₁) = >>=-eq-ok (try_from 16 (length stream) rule_too_long) _ h in
    let (running', f₂, m₂) = >>=-eq-ok (try_from 16 (running + len) rules_too_long) _ m₁ in
    let (offs, f₃, m₃) = >>=-eq-ok (table_offsets running' streams) _ m₂ in
    let len_eq : len ≡ length stream = (lt_of_try_from 16 (length stream) rule_too_long f₁).1 in
    let (small, sum) = lt_of_try_from 16 (running + len) rules_too_long f₂ in
    let sum' : running' ≡ running + length stream = omega arith in
    (offs, omega arith, subst (λ k. table_offsets k streams ≡ ok offs) sum' f₃, sym (ok_inj m₃))

module _ (ir : Bytes) (table_end action : ℕ) where
  index-Sees : (i b : ℕ) (rest : Bytes) → Sees ir i (b ∷ rest) → index ir i ≡ b
  unfolding index
  index-Sees i b rest s = rw (Sees-get_elem? ir i s, index)

  -- The table's entry at `i`: its mask and its offset.
  find_entry-Sees :
      (rounds i mask offset : ℕ) (rest : Bytes)
      → offset < 256 ^ 2
      → Sees ir (1 + i * 3) (mask ∷ (to_le_bytes 2 offset ++ rest))
      → find_entry ir table_end action (suc rounds) i ≡ (
          if bit_and mask action == 0
          then find_entry ir table_end action rounds (i + 1)
          else some (table_end + offset))
  unfolding find_entry to_le_bytes
  find_entry-Sees rounds i mask offset rest small s =
      let s₁ = Sees-next ir (1 + i * 3) mask _ s in
      let s₂ = Sees-next ir (1 + i * 3 + 1) (offset % 256) _ s₁ in
      let third : index ir (1 + i * 3 + 2) ≡ offset / 256 % 256 =
        ap (index ir) (omega arith) ∙ index-Sees (1 + i * 3 + 1 + 1) _ rest s₂ in
      rw (index-Sees (1 + i * 3) mask _ s, index-Sees (1 + i * 3 + 1) _ _ s₁, third)
        (ap
          (λ o.
            if bit_and mask action == 0
            then find_entry ir table_end action rounds (i + 1)
            else some (table_end + o))
          (from_le_bytes-to_le_bytes 2 offset small))

  -- Where the search for an action's rule ends.
  pub data Located : Option PolicyRule → Option ℕ → Type 0 where
    absent : Located none none
    located :
        (rule : PolicyRule) (stream rest : Bytes) (ip : ℕ)
        → lower_expr rule.predicate [] ≡ ok stream
        → Sees ir ip (stream ++ tag Op.result ∷ rest)
        → Located (some rule) (some ip)

  Located-step :
      (rule : PolicyRule) (rules : List PolicyRule) (pred rest₁ rest₂ : Bytes)
      (streams : List (ℕ × Bytes)) (offsets : List ℕ) (running i : ℕ)
      → lower_expr rule.predicate [] ≡ ok pred
      → running < 2 ^ 16
      → Sees ir (1 + i * 3) (
          action_mask rule.actions
          ∷ (to_le_bytes 2 running ++ (table_entries streams offsets ++ rest₁)))
      → Sees ir (table_end + running) (pred ++ (tag Op.result ∷ (concat_streams streams ++ rest₂)))
      → Located (applicable rules action) (find_entry ir table_end action (length streams) (i + 1))
      → Located
          (applicable (rule ∷ rules) action)
          (find_entry ir table_end action (suc (length streams)) i)
  unfolding applicable
  Located-step rule rules pred rest₁ rest₂ streams offsets running i lowered small table code
        later =
      subst (Located _)
        (sym (find_entry-Sees (length streams) i (action_mask rule.actions) running _ small table))
        (elim (Bool-cases (bit_and (action_mask rule.actions) action == 0)) [
          | inl skip ↦ rw skip later
          | inr take_it ↦ rw take_it (located rule pred _ (table_end + running) lowered code)
        ])

  pub find_entry-Located :
      (rules : List PolicyRule) (streams : List (ℕ × Bytes)) (offsets : List ℕ) (running i : ℕ)
      (rest₁ rest₂ : Bytes)
      → lower_rules rules ≡ ok streams
      → table_offsets running streams ≡ ok offsets
      → running < 2 ^ 16
      → Sees ir (1 + i * 3) (table_entries streams offsets ++ rest₁)
      → Sees ir (table_end + running) (concat_streams streams ++ rest₂)
      → Located (applicable rules action) (find_entry ir table_end action (length streams) i)
  unfolding find_entry applicable table_entries concat_streams
  find_entry-Located [] streams offsets running i rest₁ rest₂ lowered laid small table code =
      subst (λ k. Located none (find_entry ir table_end action (length k) i))
        (lower_rules-nil lowered) absent
  find_entry-Located (rule ∷ rules) streams offsets running i rest₁ rest₂ lowered laid small table
        code =
      let mask = action_mask rule.actions in
      let (pred, rest, h, lowered', e) = lower_rules-cons rule rules lowered in
      let stream = pred ++ tag Op.result ∷ [] in
      let laid₀ = subst (λ k. table_offsets running k ≡ ok offsets) e laid in
      let (offs, small', laid', e') = table_offsets-cons running mask stream rest laid₀ in
      let entry = mask ∷ to_le_bytes 2 running in
      let table' : Sees ir (1 + i * 3) (entry ++ (table_entries rest offs ++ rest₁)) =
        subst (λ k. Sees ir (1 + i * 3) (mask ∷ k)) (append_assoc (to_le_bytes 2 running) _ _)
          (subst₂ (λ k l. Sees ir (1 + i * 3) (table_entries k l ++ rest₁)) e e' table) in
      let code' : Sees ir (table_end + running) (stream ++ (concat_streams rest ++ rest₂)) =
        subst (Sees ir (table_end + running)) (append_assoc stream _ _)
          (subst (λ k. Sees ir (table_end + running) (concat_streams k ++ rest₂)) e code) in
      subst
        (λ k.
          Located (applicable (rule ∷ rules) action) (find_entry ir table_end action (length k) i))
        (sym e)
        (Located-step rule rules pred rest₁ rest₂ rest offs running i h small table'
          (subst (Sees ir (table_end + running)) (append_assoc pred _ _) code')
          (find_entry-Located rules rest offs (running + length stream) (i + 1) rest₁ rest₂ lowered'
            laid' small'
            (subst (λ k. Sees ir k (table_entries rest offs ++ rest₁))
              (omega (arith, length-to_le_bytes 2 running))
              (Sees-append ir (1 + i * 3) entry _ table'))
            (subst (λ k. Sees ir k (concat_streams rest ++ rest₂)) (omega arith)
              (Sees-append ir (table_end + running) stream _ code'))))
