-- ===== src/Execution/Invariant/Jobs.antt =====
-- The background jobs of src/execution.rs keep the registry's invariant.
use ion_win.Base.{
  ℕ, ◌≡◌, ◌⊎◌, inl, inr, Option, none, some, List, [], ◌∷◌, Bool-cases, Option-cases, is_empty,
}
use ion_win.Base.Int.{ℤ}
use ion_win.Base.Map.{lookup, modify, keys}
use ion_win.Execution.Domain.{Execution, set_process_exit}
use ion_win.Execution.Manager.{ManagedChild, ExecutionManager}
use ion_win.Execution.Jobs.{
  Polled, apply_updates, Finished, Refresh, finish_each, sweep, start_sweep, refresh_children,
  refresh_one, refresh_each, refresh_background_jobs,
}
use ion_win.Execution.Disown.{
  drop_processes, removed_pids, kept_children, Disown, disown_children, disown_each, remove_each,
  disown_background_jobs,
}
use ion_win.Execution.Invariant.{
  IsActive, IsValid, modify-IsValid, children-IsValid, remove-IsValid, remove_job-IsValid,
}
use ion_win.Execution.Invariant.Cancel.{finish_after_wait-IsValid}

apply_updates-IsActive :
    (updates : List (ℕ × Option ℤ)) (next_id id : ℕ) (e : Execution)
    → IsActive next_id id e
    → IsActive next_id id (apply_updates updates e)
unfolding apply_updates set_process_exit
apply_updates-IsActive [] next_id id e a = a
apply_updates-IsActive ((pid, code) ∷ rest) next_id id e a =
    apply_updates-IsActive rest next_id id (set_process_exit pid code e) (record {
      same_id = a.same_id;
      positive = a.positive;
      below = a.below;
      live = a.live;
      no_finish = a.no_finish;
      no_result = a.no_result;
      has_start = a.has_start;
    })

drop_processes-IsActive :
    (removed : List ℕ) (next_id id : ℕ) (e : Execution)
    → IsActive next_id id e
    → IsActive next_id id (drop_processes removed e)
unfolding drop_processes
drop_processes-IsActive removed next_id id e a = record {
  same_id = a.same_id;
  positive = a.positive;
  below = a.below;
  live = a.live;
  no_finish = a.no_finish;
  no_result = a.no_result;
  has_start = a.has_start;
}

finish_each-IsValid :
    (now : ℕ) (fs : List Finished) (m : ExecutionManager)
    → IsValid m
    → IsValid (finish_each now fs m)
unfolding finish_each
finish_each-IsValid now [] m v = v
finish_each-IsValid now (f ∷ fs) m v =
    finish_each-IsValid now fs _ (finish_after_wait-IsValid now f.id _ _ _ (children-IsValid _ m v))

module _ (poll : ManagedChild → Polled) where
  refresh_children-IsValid :
      (id : ℕ) (children : List ManagedChild) (r : Refresh)
      → IsValid r.manager
      → IsValid (refresh_children poll id children r).manager
  unfolding refresh_children
  refresh_children-IsValid id children r v =
      let s = sweep poll children (start_sweep r.listed) in
      modify-IsValid id (apply_updates s.updates) _ (children-IsValid _ r.manager v)
        (λ e found a. apply_updates-IsActive s.updates _ id e a)

  refresh_one-IsValid :
      (id : ℕ) (r : Refresh) → IsValid r.manager → IsValid (refresh_one poll id r).manager
  unfolding refresh_one
  refresh_one-IsValid id r v = elim (Option-cases (lookup id (r.manager).background_children)) [
    | inl absent ↦ rw (absent, refresh_one) v
    | inr (children, found) ↦ rw (found, refresh_one) (refresh_children-IsValid id children r v)
  ]

  refresh_each-IsValid :
      (ids : List ℕ) (r : Refresh) → IsValid r.manager → IsValid (refresh_each poll ids r).manager
  unfolding refresh_each
  refresh_each-IsValid [] r v = v
  refresh_each-IsValid (id ∷ ids) r v = refresh_each-IsValid ids _ (refresh_one-IsValid id r v)

  pub refresh_background_jobs-IsValid :
      (now : ℕ) (m : ExecutionManager) → IsValid m → IsValid (refresh_background_jobs poll now m).0
  unfolding refresh_background_jobs
  refresh_background_jobs-IsValid now m v =
      let start : Refresh = record { manager = m; listed = []; finished = [] } in
      let r = refresh_each poll (keys m.background_children) start in
      finish_each-IsValid now r.finished r.manager
        (refresh_each-IsValid (keys m.background_children) start v)

disown_children-IsValid :
    (pids : List ℕ) (id : ℕ) (children : List ManagedChild) (d : Disown)
    → IsValid d.manager
    → IsValid (disown_children pids id children d).manager
unfolding disown_children
disown_children-IsValid pids id children d v =
    elim (Bool-cases (is_empty (removed_pids pids children))) [
      | inl kept ↦ rw kept dropped
      | inr some_gone ↦ rw some_gone (remove_job-IsValid id _ dropped)
    ]
  where
    dropped : IsValid (record (d.manager) {
      background_children =
          modify id (λ _. kept_children pids children) (d.manager).background_children;
      active = modify id (drop_processes (removed_pids pids children)) (d.manager).active;
    })
    dropped =
        modify-IsValid id (drop_processes (removed_pids pids children)) _
          (children-IsValid _ (d.manager) v)
          (λ e found a. drop_processes-IsActive (removed_pids pids children) _ id e a)

disown_each-IsValid :
    (pids ids : List ℕ) (d : Disown) → IsValid d.manager → IsValid (disown_each pids ids d).manager
unfolding disown_each
disown_each-IsValid pids [] d v = v
disown_each-IsValid pids (id ∷ ids) d v =
    by_children (Option-cases (lookup id (d.manager).background_children))
      (λ d'. disown_each-IsValid pids ids d')
  where
    by_children :
        (lookup id (d.manager).background_children ≡ none)
          ⊎ ((cs : List ManagedChild) × (lookup id (d.manager).background_children ≡ some cs))
        → ((d' : Disown) → IsValid d'.manager → IsValid (disown_each pids ids d').manager)
        → IsValid (disown_each pids (id ∷ ids) d).manager
    by_children (inl absent) ih =
        rw (absent, disown_each)
          (ih
            (record d {
              manager = record (d.manager) {
                active = modify id (drop_processes []) (d.manager).active;
              };
            })
            (modify-IsValid id (drop_processes []) d.manager v
              (λ e found a. drop_processes-IsActive [] (d.manager).next_id id e a)))
    by_children (inr (cs, found)) ih =
        rw (found, disown_each)
          (ih (disown_children pids id cs d) (disown_children-IsValid pids id cs d v))

remove_each-IsValid :
    (ids : List ℕ) (m : ExecutionManager) → IsValid m → IsValid (remove_each ids m)
unfolding remove_each
remove_each-IsValid [] m v = v
remove_each-IsValid (id ∷ ids) m v =
    remove_each-IsValid ids _ (children-IsValid _ _ (remove-IsValid id m v))

pub disown_background_jobs-IsValid :
    (pids : List ℕ) (m : ExecutionManager) → IsValid m → IsValid (disown_background_jobs pids m).0
unfolding disown_background_jobs
disown_background_jobs-IsValid pids m v =
    let start : Disown = record { manager = m; count = 0; empty = [] } in
    let d = disown_each pids (keys m.background_children) start in
    remove_each-IsValid d.empty d.manager
      (disown_each-IsValid pids (keys m.background_children) start v)
