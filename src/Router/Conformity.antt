-- ===== src/Router/Conformity.antt =====
-- maestro/router/conformity.py. `decay` is `exp` of minus an index divided by the lambda of the window; the
-- scores are floats.
use maestro_orchestrator.Prelude.{
  ℕ, zero, suc, ◌+◌, String, Bool, ◌&&◌, ◌||◌, Option, none, some, List, [], ◌∷◌, text_keys,
  if◌then◌else◌, ltb,
}
use maestro_orchestrator.Prelude.Lists.{length, take, keep, contains}
use maestro_orchestrator.Prelude.Float.{Float, sum}

pub record ConformitySession : Type 0 where
  pub session_id : String
  pub participated_agents : List String
  pub outlier_agents : List String

pub record ConformityWindow (F : Type 0) : Type 0 where
  pub n_max : ℕ
  pub n_min : ℕ
  pub lambda_decay : F
  pub floor : F

-- The sessions that count: the first n_max in which the agent took part.
unfoldable pub relevant :
    {F : Type 0} → String → List ConformitySession → ConformityWindow F → List ConformitySession
relevant agent sessions w = take w.n_max (keep (λ s. contains s.participated_agents agent) sessions)

module _ {F : Type 0} ⦃f : Float F⦄ (decay : F → ℕ → F) (before : String → String → Bool) where
  -- `_exponential_weights`, from an index on.
  unfoldable pub weights_from : F → ℕ → ℕ → List F
  weights_from lambda i zero = []
  weights_from lambda i (suc n) = decay lambda i ∷ weights_from lambda (i + 1) n

  unfoldable pub exponential_weights : ℕ → F → List F
  unfolding weights_from
  exponential_weights n lambda = weights_from lambda 0 n

  -- The loop over the weights and the sessions.
  unfoldable pub weighted_sum : String → F → List F → List ConformitySession → F
  weighted_sum agent acc [] sessions = acc
  weighted_sum agent acc (w ∷ ws) [] = acc
  weighted_sum agent acc (w ∷ ws) (s ∷ sessions) =
      weighted_sum agent
        (f.add acc (f.mul w (if contains s.outlier_agents agent then f.lit 0 0 else f.lit 1 0))) ws
        sessions

  unfoldable pub conformity_score : String → List ConformitySession → ConformityWindow F → Option F
  unfolding relevant exponential_weights weighted_sum
  conformity_score agent sessions w =
      let counted = relevant agent sessions w in
      let weights = exponential_weights (length counted) w.lambda_decay in
      let total = sum weights in
      if ltb (length counted) w.n_min
      then none
      else if f.eq total (f.lit 0 0)
      then none
      else some (f.div (weighted_sum agent (f.lit 0 0) weights counted) total)

  -- The agents with a score that is not below the floor.
  unfoldable pub candidates :
      List String → List ConformitySession → ConformityWindow F → List (F × String)
  unfolding conformity_score
  candidates [] sessions w = []
  candidates (agent ∷ agents) sessions w =
      let rest = candidates agents sessions w in
      elim (conformity_score agent sessions w) [
        | none ↦ rest
        | some score ↦ if f.lt score w.floor then rest else (score, agent) ∷ rest
      ]

  -- The order of the sort: the higher score first, then the name.
  unfoldable pub comes_first : F × String → F × String → Bool
  comes_first (x, a) (y, b) = f.lt y x || (f.eq x y && before a b)

  -- The first of the sorted candidates.
  unfoldable pub foremost : List (F × String) → Option (F × String)
  unfolding comes_first
  foremost [] = none
  foremost (c ∷ cs) = elim (foremost cs) [
    | none ↦ some c
    | some best ↦ if comes_first best c then some best else some c
  ]

  unfoldable pub select_dissenter :
      List String → List ConformitySession → ConformityWindow F → Option String
  unfolding candidates foremost
  select_dissenter agents sessions w = elim (foremost (candidates agents sessions w)) [
    | none ↦ none
    | some (score, agent) ↦ some agent
  ]
