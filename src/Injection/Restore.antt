-- ===== src/Injection/Restore.antt =====
-- Whether a rollback of maestro/applicator.py restores what an injection has changed.
use maestro_orchestrator.Prelude.{
  ℕ, String, ◌≡◌, refl, ap, sym, ◌∙◌, Bool, true, Option, none, some, [], ◌∷◌, ◌++◌, ◌==◌,
  text_keys, arith, if◌then◌else◌, inl, inr, Bool-cases, beq_refl, eq_iff,
}
use maestro_orchestrator.Prelude.Dict.{Dict, get, set, get-set, get-set_self}
use maestro_orchestrator.Injection.{
  runtime, source_patch, RollbackEntry, RollbackLog, is_applied, get_entry, mark_rolled_back,
  Proposal,
}
use maestro_orchestrator.Injection.Injector.{
  attributes_of, inject_runtime, rollback_runtime, World, Injector, inject, inject_source,
  resolve_file, rollback_source, new_entry, rollback, revert,
}

-- An entry that is added under a fresh id is the one that is found.
get_entry-append :
    (id : String) (e : RollbackEntry) (log : RollbackLog)
    → get_entry id log ≡ none
    → e.rollback_id ≡ id
    → get_entry id (log ++ e ∷ []) ≡ some e
unfolding get_entry
get_entry-append id e [] fresh same = ground (arith, beq_refl id, eq_iff e.rollback_id id)
get_entry-append id e (x ∷ log) fresh same = elim (Bool-cases (x.rollback_id == id)) [
  | inl q ↦ absurd (let bad = rw (q, get_entry) at fresh in cc)
  | inr q ↦
      let later = rw (q, get_entry) at fresh in
      rw (q, get_entry) (get_entry-append id e log later same)
]

module _ (importable : String → Bool) (coerce : String → String → String)
    (patch : String → String → String → Option String) (reloads : String → String → Bool) where
  -- A rollback of the first entry of an id that is applied and can be reverted.
  pub rollback_step :
      (now : ℕ) (id : String) (i : Injector) (e : RollbackEntry) (w : World)
      → get_entry id i.log ≡ some e
      → is_applied e.status ≡ true
      → revert importable coerce patch reloads e i.world ≡ (w, true)
      → rollback importable coerce patch reloads now id i
        ≡ (record i { world = w; log = (mark_rolled_back now id i.log).0 }, true)
  unfolding rollback
  rollback_step now id i e w found active r = rw (found, active, r, rollback) refl

  files_back :
      (path key source patched : String) (d : Dict String String)
      → get path d ≡ some source
      → get key (set path source (set path patched d)) ≡ get key d
  files_back path key source patched d e = elim (Bool-cases (path == key)) [
    | inl q ↦
        let there : get key d ≡ some source = ap (λ i. get i d) (sym ((eq_iff path key).0 q)) ∙ e in
        ground (arith, get-set path key source (set path patched d), there)
    | inr q ↦
        ground (arith, get-set path key source (set path patched d), get-set path key patched d)
  ]

  inject_source_lem :
      (id cycle : String) (now : ℕ) (p : Proposal) (i : Injector) (source patched : String)
      → get (resolve_file p.file_path i.world) i.world.files ≡ some source
      → patch source p.target_name p.proposed_value ≡ some patched
      → let path = resolve_file p.file_path i.world in
        (inject importable coerce patch reloads source_patch id cycle now p i).0 ≡ record i {
          world = record i.world {
            files = set path patched i.world.files;
            backups = set id source i.world.backups;
          };
          log =
              i.log
              ++ new_entry id cycle now source_patch p p.current_value p.proposed_value (some path)
                ∷ [];
        }
  unfolding inject inject_source
  inject_source_lem id cycle now p i source patched found ok = rw (found, ok, inject_source) refl

  -- When a source is patched under a fresh id and rolled back after that, and the module can be
  -- reloaded from the source that it had, the rollback succeeds and every file is as it was, whether or
  -- not the patched module could be reloaded.
  pub rollback_restores_source :
      (id cycle : String) (now later : ℕ) (p : Proposal) (i : Injector) (source patched : String)
      → get_entry id i.log ≡ none
      → get (resolve_file p.file_path i.world) i.world.files ≡ some source
      → patch source p.target_name p.proposed_value ≡ some patched
      → reloads p.module_name source ≡ true
      → let t =
          rollback importable coerce patch reloads later id
            (inject importable coerce patch reloads source_patch id cycle now p i).0 in
        (t.1 ≡ true) × ((key : String) → get key t.0.world.files ≡ get key i.world.files)
  unfolding revert is_applied new_entry rollback_source
  rollback_restores_source id cycle now later p i source patched fresh found ok good =
      let path = resolve_file p.file_path i.world in
      let e = new_entry id cycle now source_patch p p.current_value p.proposed_value (some path) in
      let w : World = record i.world {
        files = set path patched i.world.files;
        backups = set id source i.world.backups;
      } in
      let i' : Injector = record i { world = w; log = i.log ++ e ∷ [] } in
      let back : World = record w { files = set path source w.files } in
      let reverted : revert importable coerce patch reloads e w ≡ (back, true) =
        rw (get-set_self id source i.world.backups, good, rollback_source) refl in
      rw (inject_source_lem id cycle now p i source patched found ok) (
        rw (rollback_step later id i' e back (get_entry-append id e i.log fresh refl) refl reverted)
          (refl, λ key. files_back path key source patched i.world.files found))

  attributes_of-set :
      (m other : String) (v : Dict String String) (w : World)
      → attributes_of other (record w { attributes = set m v w.attributes })
        ≡ (if m == other then v else attributes_of other w)
  unfolding attributes_of
  attributes_of-set m other v w = ground (arith, get-set m other v w.attributes)

  -- The world in which one attribute has another value.
  abbrev with_attribute : String → String → String → World → World
  with_attribute m t v w = record w {
    attributes = set m (set t v (attributes_of m w)) w.attributes;
  }

  attribute_back :
      (m t value original : String) (w : World)
      → get t (attributes_of m w) ≡ some original
      → (other key : String)
      → get key (attributes_of other (with_attribute m t original (with_attribute m t value w)))
        ≡ get key (attributes_of other w)
  attribute_back m t value original w found other key =
      let once = with_attribute m t value w in
      let changed : attributes_of m once ≡ set t value (attributes_of m w) =
        attributes_of-set m m (set t value (attributes_of m w)) w ∙ rw (beq_refl m) refl in
      let after = attributes_of-set m other (set t original (attributes_of m once)) once in
      let before = attributes_of-set m other (set t value (attributes_of m w)) w in
      elim (Bool-cases (m == other)) [
        | inl q ↦
            ap (get key) (after ∙ rw q (ap (set t original) changed))
            ∙ files_back t key original value (attributes_of m w) found
            ∙ ap (λ n. get key (attributes_of n w)) ((eq_iff m other).0 q)
        | inr q ↦ ap (get key) (after ∙ rw q (before ∙ rw q refl))
      ]

  inject_runtime_lem :
      (id cycle : String) (now : ℕ) (p : Proposal) (i : Injector) (original : String)
      → importable p.module_name ≡ true
      → get p.target_name (attributes_of p.module_name i.world) ≡ some original
      → let value = coerce p.proposed_value original in
        (inject importable coerce patch reloads runtime id cycle now p i).0 ≡ record i {
          world = with_attribute p.module_name p.target_name value i.world;
          log = i.log ++ new_entry id cycle now runtime p original value none ∷ [];
        }
  unfolding inject inject_runtime new_entry
  inject_runtime_lem id cycle now p i original can found = rw (can, found, inject_runtime) refl

  rollback_runtime_lem :
      (e : RollbackEntry) (w : World)
      → importable e.module_name ≡ true
      → coerce e.original_value e.new_value ≡ e.original_value
      → rollback_runtime importable coerce patch reloads e w
        ≡ some (with_attribute e.module_name e.target_name e.original_value w)
  unfolding rollback_runtime
  rollback_runtime_lem e w can survives = rw (can, survives, rollback_runtime) refl

  -- When an attribute is injected under a fresh id and rolled back after that, its module can be
  -- imported, and its old value survives the coercion, the rollback succeeds and every attribute of
  -- every module is as it was.
  pub rollback_restores_attributes :
      (id cycle : String) (now later : ℕ) (p : Proposal) (i : Injector) (original : String)
      → get_entry id i.log ≡ none
      → importable p.module_name ≡ true
      → get p.target_name (attributes_of p.module_name i.world) ≡ some original
      → coerce original (coerce p.proposed_value original) ≡ original
      → let t =
          rollback importable coerce patch reloads later id
            (inject importable coerce patch reloads runtime id cycle now p i).0 in
        (t.1 ≡ true)
        × ((other key : String)
            → get key (attributes_of other t.0.world) ≡ get key (attributes_of other i.world))
  unfolding revert is_applied new_entry
  rollback_restores_attributes id cycle now later p i original fresh can found survives =
      let value = coerce p.proposed_value original in
      let e = new_entry id cycle now runtime p original value none in
      let w = with_attribute p.module_name p.target_name value i.world in
      let i' : Injector = record i { world = w; log = i.log ++ e ∷ [] } in
      let back = with_attribute p.module_name p.target_name original w in
      let reverted : revert importable coerce patch reloads e w ≡ (back, true) =
        rw (rollback_runtime_lem e w can survives, revert) refl in
      rw (inject_runtime_lem id cycle now p i original can found) (
        rw (rollback_step later id i' e back (get_entry-append id e i.log fresh refl) refl reverted)
          (refl, attribute_back p.module_name p.target_name value original i.world found))
