-- ===== src/Execution/Disown.antt =====
-- `disown_background_jobs` of src/execution.rs: children are let go of, and an execution that has
-- none left leaves the registry without a record.
use ion_win.Base.{
  ℕ, ◌+◌, Bool, false, not, ◌||◌, none, some, List, [], ◌∷◌, ◌++◌, map, if◌then◌else◌, ◌==◌,
  is_empty, retain,
}
use ion_win.Base.Map.{lookup, remove, modify, keys}
use ion_win.Execution.Domain.{Execution}
use ion_win.Execution.Manager.{ManagedChild, ExecutionManager}

unfoldable pub elem : ℕ → List ℕ → Bool
elem k [] = false
elem k (j ∷ js) = j == k || elem k js

abbrev pub disowned : List ℕ → ManagedChild → Bool
disowned pids c = is_empty pids || elem c.child pids

abbrev pub removed_pids : List ℕ → List ManagedChild → List ℕ
removed_pids pids children = map (λ c. c.child) (retain (disowned pids) children)

abbrev pub kept_children : List ℕ → List ManagedChild → List ManagedChild
kept_children pids children = retain (λ c. not (disowned pids c)) children

unfoldable pub drop_processes : List ℕ → Execution → Execution
unfolding elem
drop_processes removed e =
    let kept = retain (λ p. not (elem p.pid removed)) e.processes in
    record e { processes = kept; root_pid = elim kept [ [] ↦ none | p ∷ _ ↦ some p.pid ] }

pub record Disown : Type 0 where
  pub manager : ExecutionManager
  pub count : ℕ
  pub empty : List ℕ

abbrev count_all {ℓ} : {A : Type ℓ} → List A → ℕ
count_all [] = 0
count_all (_ ∷ xs) = count_all xs + 1

unfoldable pub disown_children : List ℕ → ℕ → List ManagedChild → Disown → Disown
unfolding drop_processes
disown_children pids id children d =
    let m = d.manager in
    let removed = removed_pids pids children in
    let kept = kept_children pids children in
    record {
      manager = record m {
        background_children = modify id (λ _. kept) m.background_children;
        active = modify id (drop_processes removed) m.active;
        job_objects = if is_empty removed then m.job_objects else remove id m.job_objects;
      };
      count = d.count + count_all removed;
      empty = if is_empty kept then d.empty ++ id ∷ [] else d.empty;
    }

unfoldable pub disown_each : List ℕ → List ℕ → Disown → Disown
unfolding disown_children
disown_each pids [] d = d
disown_each pids (id ∷ ids) d = elim (lookup id (d.manager).background_children) [
  | none ↦ disown_each pids ids (record d {
    manager = record (d.manager) { active = modify id (drop_processes []) (d.manager).active };
  })
  | some children ↦ disown_each pids ids (disown_children pids id children d)
]

unfoldable pub remove_each : List ℕ → ExecutionManager → ExecutionManager
remove_each [] m = m
remove_each (id ∷ ids) m = remove_each ids (record m {
  background_children = remove id m.background_children;
  active = remove id m.active;
  job_objects = remove id m.job_objects;
})

unfoldable pub disown_background_jobs : List ℕ → ExecutionManager → ExecutionManager × ℕ
unfolding disown_each remove_each
disown_background_jobs pids m =
    let d =
      disown_each pids (keys m.background_children)
        (record { manager = m; count = 0; empty = [] }) in
    (remove_each d.empty d.manager, d.count)
