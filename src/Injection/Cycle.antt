-- ===== src/Injection/Cycle.antt =====
-- `rollback_cycle` of maestro/applicator.py on two injections into one setting.
use maestro_orchestrator.Prelude.{ℕ, text_keys, some}
use maestro_orchestrator.Injection.{RollbackEntry, rolled_back}
use maestro_orchestrator.Injection.Injector.{Injector}

-- An entry that a rollback has marked.
abbrev marked : ℕ → RollbackEntry → RollbackEntry
marked now e = record e { status = rolled_back; rolled_back_at = some now }
