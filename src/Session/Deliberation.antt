-- ===== src/Session/Deliberation.antt =====
-- maestro/deliberation.py: rounds in which each agent sees the responses of the others. `is_error` is the
-- pattern of error texts, and `refine` is what an agent answers to a prompt, `none` where it raises. The
-- prompt stands for the text that is made of it.
use maestro_orchestrator.Prelude.{
  ℕ, zero, suc, ◌+◌, String, Bool, true, false, not, ◌||◌, Option, none, some, List, [], ◌∷◌, ◌==◌,
  text_keys, if◌then◌else◌, ltb,
}
use maestro_orchestrator.Prelude.Lists.{length, keep, contains}
use maestro_orchestrator.Prelude.Dict.{Dict, get, set, keys}

pub record DeliberationPrompt : Type 0 where
  pub original_prompt : String
  pub agent_name : String
  pub own_response : String
  pub peer_responses : Dict String String
  pub round_number : ℕ

pub record DeliberationRound : Type 0 where
  pub round_number : ℕ
  pub responses : Dict String String

pub record DeliberationReport : Type 0 where
  pub rounds_requested : ℕ
  pub rounds_completed : ℕ
  pub history : List DeliberationRound
  pub final_responses : Dict String String
  pub agents_participated : List String
  pub skipped : Bool

-- current_responses.get(name, "")
unfoldable pub response_or_blank : String → Dict String String → String
response_or_blank name current = elim (get name current) [ none ↦ "" | some r ↦ r ]

module _ (is_error : String → Bool) (refine : String → DeliberationPrompt → Option String) where
  unfoldable pub clean_names : Dict String String → List String
  clean_names initial = keys (keep (λ e. not (is_error e.1)) initial)

  -- The responses of the others, less those that have become errors.
  unfoldable pub peers_of : String → List String → Dict String String → Dict String String
  peers_of name [] current = []
  peers_of name (n ∷ ns) current =
      let rest = peers_of name ns current in
      elim (get n current) [
        | none ↦ rest
        | some r ↦ if (n == name) || is_error r then rest else (n, r) ∷ rest
      ]

  unfoldable pub deliberate_one :
      String → List String → List String → ℕ → Dict String String → String → String
  unfolding response_or_blank peers_of
  deliberate_one prompt agents clean round current name =
      let own = response_or_blank name current in
      if not (contains agents name)
      then own
      else elim (refine name (record {
        original_prompt = prompt;
        agent_name = name;
        own_response = own;
        peer_responses = peers_of name clean current;
        round_number = round;
      })) [ none ↦ own | some r ↦ r ]

  -- The results of a round, all from the responses of the round before it, go into a copy of these.
  unfoldable pub collect : (String → String) → List String → Dict String String → Dict String String
  collect result [] responses = responses
  collect result (name ∷ names) responses = collect result names (set name (result name) responses)

  unfoldable pub next_round :
      String → List String → List String → ℕ → Dict String String → Dict String String
  unfolding deliberate_one collect
  next_round prompt agents clean round current =
      collect (deliberate_one prompt agents clean round current) clean current

  -- The rounds from one number on: the history, and the last responses.
  unfoldable pub later_rounds :
      String
      → List String
      → List String
      → ℕ
      → ℕ
      → Dict String String
      → List DeliberationRound × Dict String String
  unfolding next_round
  later_rounds prompt agents clean zero round current = ([], current)
  later_rounds prompt agents clean (suc left) round current =
      let responses = next_round prompt agents clean round current in
      let (history, final) = later_rounds prompt agents clean left (round + 1) responses in
      (record { round_number = round; responses = responses } ∷ history, final)

  -- `DeliberationEngine(rounds).run`; no rounds are a ValueError.
  unfoldable pub deliberate :
      ℕ → String → List String → Dict String String → Option DeliberationReport
  unfolding clean_names later_rounds
  deliberate zero prompt agents initial = none
  deliberate (suc rounds) prompt agents initial =
      let clean = clean_names initial in
      let start : DeliberationRound = record { round_number = 0; responses = initial } in
      let (history, final) = later_rounds prompt agents clean (suc rounds) 1 initial in
      if ltb (length clean) 2
      then some (record {
        rounds_requested = suc rounds;
        rounds_completed = 0;
        history = start ∷ [];
        final_responses = initial;
        agents_participated = [];
        skipped = true;
      })
      else some (record {
        rounds_requested = suc rounds;
        rounds_completed = length history;
        history = start ∷ history;
        final_responses = final;
        agents_participated = clean;
        skipped = false;
      })
