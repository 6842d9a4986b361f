-- ===== src/Engine/Freshness.antt =====
-- crates/sealstack-engine/src/freshness.rs: the decay of a score with a record's age. The arithmetic of
-- `f32` is a parameter. A signed word is its bit pattern.
use sealstack.Prelude.{ℕ, ◌^◌, Bool, List, [], ◌∷◌, if◌then◌else◌, ltb}
use sealstack.Engine.Fusion.{Floats}

module _ (F : Type 0) where
  pub data FreshnessDecay : Type 0 where
    none : FreshnessDecay
    exponential linear : ℕ → FreshnessDecay
    step : List ℕ → List F → FreshnessDecay

-- What the decay uses of `f32`: 0.0, 1.0, 0.5, `<=`, `>=`, `max` and `powf`.
pub record DecayFloats (F : Type 0) : Type 0 where
  pub base : Floats F
  pub half : F
  pub le : F → F → Bool
  pub ge : F → F → Bool
  pub max : F → F → F
  pub powf : F → F → F

module _ {F : Type 0} (floats : DecayFloats F) where
  -- `age_secs.max(0)`
  clamped_age : ℕ → ℕ
  clamped_age age_secs = if ltb age_secs (2 ^ 63) then age_secs else 0

  step_factor : F → F → List ℕ → List F → F
  step_factor age factor [] fs = factor
  step_factor age factor (c ∷ cs) [] = factor
  step_factor age factor (c ∷ cs) (f ∷ fs) =
      step_factor age (if floats.ge age (floats.base.of_nat c) then f else factor) cs fs

  unfoldable pub decay_factor : FreshnessDecay F → ℕ → F
  unfolding clamped_age step_factor
  decay_factor FreshnessDecay.none age_secs = floats.base.one
  decay_factor (FreshnessDecay.exponential half_life_secs) age_secs =
      if floats.le (floats.base.of_nat half_life_secs) floats.base.zero
      then floats.base.one
      else floats.powf floats.half (
          floats.base.div (floats.base.of_nat (clamped_age age_secs))
            (floats.base.of_nat half_life_secs))
  decay_factor (FreshnessDecay.linear window_secs) age_secs =
      if floats.le (floats.base.of_nat window_secs) floats.base.zero
      then floats.base.one
      else floats.max
          (floats.base.sub floats.base.one (
            floats.base.div (floats.base.of_nat (clamped_age age_secs))
              (floats.base.of_nat window_secs)))
          floats.base.zero
  decay_factor (FreshnessDecay.step cliffs factors) age_secs =
      step_factor (floats.base.of_nat (clamped_age age_secs)) floats.base.one cliffs factors
