-- ===== src/Injection.antt =====
-- maestro/rollback.py and maestro/injection_guard.py: the log of injections, and the guard that decides
-- what may be injected. A clock is a number of seconds; `number` is `float(...)` of a text, `none` where it
-- raises.
use maestro_orchestrator.Prelude.{
  ℕ, zero, suc, ◌+◌, ◌-◌, String, Bool, true, false, not, ◌&&◌, ◌||◌, Option, none, some, List, [],
  ◌∷◌, ◌++◌, map, ◌==◌, text_keys, if◌then◌else◌, ltb,
}
use maestro_orchestrator.Prelude.Lists.{any, keep, contains, length}
use maestro_orchestrator.Prelude.Dict.{Dict, get, values}
use maestro_orchestrator.Prelude.Float.{Float}
pub mod Injector
pub mod Limits
pub mod Restore
pub mod Cycle

pub data InjectionType : Type 0 where
  runtime source_patch config : InjectionType

pub data RollbackStatus : Type 0 where
  applied rolled_back : RollbackStatus

pub record RollbackEntry : Type 0 where
  pub rollback_id : String
  pub proposal_id : String
  pub cycle_id : String
  pub injection_type : InjectionType
  pub module_name : String
  pub target_name : String
  pub original_value : String
  pub new_value : String
  pub file_path : Option String
  pub status : RollbackStatus
  pub timestamp : ℕ
  pub rolled_back_at : Option ℕ

-- entry["status"] == "applied"
unfoldable pub is_applied : RollbackStatus → Bool
is_applied applied = true
is_applied rolled_back = false

-- The entries, which every change also writes to log.json.
abbrev pub RollbackLog : Type 0
RollbackLog = List RollbackEntry

-- `mark_rolled_back`: the first applied entry of the id.
unfoldable pub mark_rolled_back : ℕ → String → RollbackLog → RollbackLog × Bool
unfolding is_applied
mark_rolled_back now id [] = ([], false)
mark_rolled_back now id (e ∷ es) =
    let (rest, found) = mark_rolled_back now id es in
    if (e.rollback_id == id) && is_applied e.status
    then (record e { status = rolled_back; rolled_back_at = some now } ∷ es, true)
    else (e ∷ rest, found)

unfoldable pub get_entry : String → RollbackLog → Option RollbackEntry
get_entry id [] = none
get_entry id (e ∷ es) = if e.rollback_id == id then some e else get_entry id es

pub get_active : RollbackLog → RollbackLog
unfolding is_applied
get_active es = keep (λ e. is_applied e.status) es

unfoldable pub get_active_by_cycle : String → RollbackLog → RollbackLog
unfolding is_applied
get_active_by_cycle cycle es = keep (λ e. (e.cycle_id == cycle) && is_applied e.status) es

pub count_active : RollbackLog → ℕ
unfolding get_active
count_active es = length (get_active es)

pub data ProposalStatus : Type 0 where
  proposed validated promoted other_status : ProposalStatus

pub data ChangeType : Type 0 where
  parameter_update code_patch config_change prompt_rewrite architecture_refactor other_change :
      ChangeType

pub record Proposal : Type 0 where
  pub proposal_id : String
  pub category : String
  pub file_path : String
  pub module_name : String
  pub target_name : String
  pub current_value : String
  pub proposed_value : String
  pub change_type : ChangeType
  pub status : ProposalStatus

pub record GuardConfig : Type 0 where
  pub auto_inject_enabled : Bool
  pub max_injections_per_hour : ℕ
  pub injectable_categories : List String
  pub blocked_categories : List String

pub record Guard : Type 0 where
  pub settings : GuardConfig
  pub injection_timestamps : List ℕ

-- min_val and max_val of a strategy.
pub record Bounds (F : Type 0) : Type 0 where
  pub min_val : F
  pub max_val : F

pub data Refusal : Type 0 where
  blocked not_whitelisted wrong_status out_of_bounds : Refusal

unfoldable pub is_update : ChangeType → Bool
is_update parameter_update = true
is_update _ = false

unfoldable pub may_inject : ProposalStatus → Bool
may_inject validated = true
may_inject proposed = true
may_inject _ = false

module _ {F : Type 0} ⦃f : Float F⦄ (number : String → Option F)
    (thresholds : Dict String (List (Bounds F))) (temperatures : List (Bounds F)) where
  unfoldable pub outside : F → List (Bounds F) → Bool
  outside x bs = any (λ b. f.lt x b.min_val || f.lt b.max_val x) bs

  unfoldable pub check_bounds : Proposal → Bool
  unfolding outside is_update
  check_bounds p = if not (is_update p.change_type) then true else elim (number p.proposed_value) [
    | none ↦ true
    | some x ↦
        not (outside x (elim (get p.target_name thresholds) [ none ↦ [] | some bs ↦ bs ]))
        && not ((p.target_name == "temperature") && outside x temperatures)
  ]

  -- `none` where the proposal may be injected.
  unfoldable pub is_injectable : Guard → Proposal → Option Refusal
  unfolding may_inject
  is_injectable g p =
      if contains g.settings.blocked_categories p.category
      then some blocked
      else if not (contains g.settings.injectable_categories p.category)
      then some not_whitelisted
      else if not (may_inject p.status)
      then some wrong_status
      else if not (check_bounds p)
      then some out_of_bounds
      else none

-- The stamps of the last hour: `t > now - 3600`.
unfoldable pub recent : ℕ → List ℕ → List ℕ
recent now ts = keep (λ t. ltb now (t + 3600)) ts

unfoldable pub check_rate_limit : ℕ → Guard → Guard × Bool
unfolding recent
check_rate_limit now g =
    let kept = recent now g.injection_timestamps in
    (record g { injection_timestamps = kept }, ltb (length kept) g.settings.max_injections_per_hour)

unfoldable pub record_injection : ℕ → Guard → Guard
record_injection now g = record g { injection_timestamps = g.injection_timestamps ++ now ∷ [] }
