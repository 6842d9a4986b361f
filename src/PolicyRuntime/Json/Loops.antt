-- ===== src/PolicyRuntime/Json/Loops.antt =====
-- The loops of crates/sealstack-policy-runtime/src/json.rs: what an invariant gives, and fuel.
use sealstack.Prelude.{
  ℕ, zero, suc, ◌+◌, ◌≤◌, ◌<◌, Bool, true, false, arith, if◌then◌else◌, ok, err, ◌>>=◌, ok_or, ◌≢◌,
  Option, none, some,
}
use sealstack.PolicyRuntime.Json.{
  invalid, out_of_fuel, JsonResult, Round, resume, loop, byte_is, guard, skip_ws, after_item,
  settle, again, stop, Bool,
}
use sealstack.Bytes.{Bytes}

abbrev pub Returning : {A : Type 0} → (A → Type 0) → JsonResult A → Type 0
Returning Q (ok a) = Q a
Returning Q (err invalid) = Unit
Returning Q (err out_of_fuel) = ⊥

abbrev pub Keeping : {S A : Type 0} → (S → Type 0) → (A → Type 0) → Round S A → Type 0
Keeping P Q (again s) = P s
Keeping P Q (stop r) = Returning Q r

-- A result that is no loop's end of fuel.
abbrev pub Ended : {A : Type 0} → JsonResult A → Type 0
Ended r = Returning (λ _. Unit) r

pub Ended-ne : {A : Type 0} (r : JsonResult A) → Ended r → r ≢ err out_of_fuel
Ended-ne (ok a) h e = cc
Ended-ne (err invalid) h e = cc
Ended-ne (err out_of_fuel) h e = h

pub Ended-ok_or : {A : Type 0} (o : Option A) → Ended (ok_or o invalid)
Ended-ok_or none = tt
Ended-ok_or (some a) = tt

pub Ended-if :
    {A : Type 0} (b : Bool) (x y : JsonResult A) → Ended x → Ended y → Ended (if b then x else y)
Ended-if true x y h k = h
Ended-if false x y h k = k

module _ {A : Type 0} (Q : A → Type 0) where
  pub Returning-le :
      (P : A → Type 0) (r : JsonResult A) → Returning P r → ((a : A) → P a → Q a) → Returning Q r
  Returning-le P (ok a) h f = f a h
  Returning-le P (err invalid) h f = tt
  Returning-le P (err out_of_fuel) h f = h

  pub Returning->>= :
      {B : Type 0} (P : B → Type 0) (r : JsonResult B) (k : B → JsonResult A)
      → Returning P r
      → ((b : B) → P b → Returning Q (k b))
      → Returning Q (r >>= k)
  Returning->>= P (ok b) k h f = f b h
  Returning->>= P (err invalid) k h f = tt
  Returning->>= P (err out_of_fuel) k h f = h

  pub Returning-guard :
      (b : Bool) (k : Unit → JsonResult A) → Returning Q (k tt) → Returning Q (guard b >>= k)
  Returning-guard true k h = h
  Returning-guard false k h = tt

  pub Returning-if :
      (b : Bool) (x y : JsonResult A)
      → Returning Q x
      → Returning Q y
      → Returning Q (if b then x else y)
  Returning-if true x y h k = h
  Returning-if false x y h k = k

-- A round moves forward, from a position before `len`, or returns, and not for want of fuel.
abbrev pub Forward : {S A : Type 0} → (S → ℕ) → ℕ → S → Round S A → Type 0
Forward pos len s (again s') = (pos s < pos s') × (pos s < len)
Forward pos len s (stop r) = Ended r

no_fuel : 0 < 0 → ⊥
no_fuel h = omega arith

module _ {S A : Type 0} (round : S → Round S A) where
  resume-Returning :
      (P : S → Type 0) (Q : A → Type 0) (pos : S → ℕ) (len fuel : ℕ) (s : S) (r : Round S A)
      → ((s' : S) → P s' → 0 < fuel → len < pos s' + fuel → Returning Q (loop round fuel s'))
      → Forward pos len s r
      → Keeping P Q r
      → len < pos s + suc fuel
      → Returning Q (resume (loop round fuel) r)
  resume-Returning P Q pos len fuel s (again s') go (further, inside) p enough =
      go s' p (omega arith) (omega arith)
  resume-Returning P Q pos len fuel s (stop r) go f p enough = p

  -- A loop that moves forward returns what its rounds keep, with fuel for the rest of its positions and
  -- one round more.
  pub loop-Returning :
      (P : S → Type 0) (Q : A → Type 0) (pos : S → ℕ) (len : ℕ)
      → ((s : S) → Forward pos len s (round s))
      → ((s : S) → P s → Keeping P Q (round s))
      → (fuel : ℕ) (s : S) → P s
      → 0 < fuel
      → len < pos s + fuel
      → Returning Q (loop round fuel s)
  unfolding loop
  loop-Returning P Q pos len step keep zero s p some_fuel enough = absurd (no_fuel some_fuel)
  loop-Returning P Q pos len step keep (suc fuel) s p some_fuel enough =
      resume-Returning P Q pos len fuel s (round s) (loop-Returning P Q pos len step keep fuel)
        (step s) (keep s p) enough

  pub loop-Ended :
      (pos : S → ℕ) (len : ℕ)
      → ((s : S) → Forward pos len s (round s))
      → (s : S) → Ended (loop round (len + 1) s)
  loop-Ended pos len step s =
      loop-Returning (λ _. Unit) (λ _. Unit) pos len step (λ s' _. kept s' (round s') (step s'))
        (len + 1) s tt (omega arith) (omega arith)
    where
      kept : (s' : S) (r : Round S A) → Forward pos len s' r → Keeping (λ _. Unit) (λ _. Unit) r
      kept s' (again next) f = tt
      kept s' (stop r) f = f

module _ {S A : Type 0} (pos : S → ℕ) (len : ℕ) (s : S) where
  pub Forward-settle :
      {B : Type 0} (P : B → Type 0) (r : JsonResult B) (k : B → Round S A)
      → Returning P r
      → ((b : B) → P b → Forward pos len s (k b))
      → Forward pos len s (settle r k)
  Forward-settle P (ok b) k h f = f b h
  Forward-settle P (err invalid) k h f = tt
  Forward-settle P (err out_of_fuel) k h f = h

  pub Forward-if :
      (b : Bool) (x y : Round S A)
      → Forward pos len s x
      → Forward pos len s y
      → Forward pos len s (if b then x else y)
  Forward-if true x y h k = h
  Forward-if false x y h k = k

  pub Forward-after_item :
      (bytes : Bytes) (closing i : ℕ) (next : ℕ → S) (last : A)
      → pos s < len
      → ((n : ℕ) → i ≤ n → pos s < pos (next n))
      → Forward pos len s (after_item bytes closing i next last)
  unfolding after_item skip_ws
  Forward-after_item bytes closing i next last lt f =
      Forward-if (byte_is bytes (skip_ws bytes i) 44) _ _ (f _ (omega arith), lt)
        (Forward-if (byte_is bytes (skip_ws bytes i) closing) _ _ tt tt)
