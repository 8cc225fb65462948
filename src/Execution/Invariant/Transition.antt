-- ===== src/Execution/Invariant/Transition.antt =====
-- `create` and `transition` of src/execution.rs keep the registry's invariant.
use ion_win.Base.{
  ℕ, ◌+◌, ◌^◌, ◌≡◌, refl, sym, ◌∙◌, ◌≢◌, ap, ◌⊎◌, inl, inr, Bool, true, false, Option, none, some,
  arith, All, All-map, is_some, ltb, if◌then◌else◌, ◌==◌, Bool-cases, ==_iff, Option-cases,
}
use ion_win.Base.Map.{lookup, lookup-insert, lookup-remove}
use ion_win.Execution.Domain.{
  ExecutionState, created, starting, running, cancelling, completed, failed, cancelled, timed_out,
  is_terminal, can_transition_to, is_running, ExecutionResult, Execution, ExecutionRecord,
  ExecutionSpec, ExecutionContext,
}
use ion_win.Execution.Manager.{
  ExecutionManager, new_execution, create, sanitize, push_history, enter, transition_found,
  transition,
}
use ion_win.Execution.Invariant.{
  HasStart, IsActive, IsFinished, IsValid, modify-IsValid, remove-IsValid, push-IsValid,
}

-- What `transition` writes to an execution that stays active.
abbrev pub moved : ℕ → ExecutionState → Execution → Execution
moved now next e = record e {
  state = next;
  started_at = if is_running next then some now else e.started_at;
}

-- A start time is there exactly when the execution has run.
moved-HasStart :
    (now : ℕ) (from to : ExecutionState) (t : Option ℕ)
    → can_transition_to from to ≡ true
    → HasStart from t
    → HasStart to (if is_running to then some now else t)
unfolding can_transition_to
moved-HasStart now from created t h s = ground arith
moved-HasStart now from starting t h s = ground arith
moved-HasStart now from running t h s = refl
moved-HasStart now from cancelling t h s = ground arith
moved-HasStart now from completed t h s = tt
moved-HasStart now from failed t h s = tt
moved-HasStart now from cancelled t h s = tt
moved-HasStart now from timed_out t h s = tt

-- Records of other executions have other ids than an execution that is active.
history-fresh :
    (id : ℕ) (e : Execution) (m : ExecutionManager)
    → IsValid m
    → lookup id m.active ≡ some e
    → All (λ (s : ExecutionRecord). s.id ≢ id) m.history
history-fresh id e m v found =
    All-map (IsFinished m.next_id m.active) _
      (λ s h same. ground (arith, h.gone, ap (λ k. lookup k m.active) same)) m.history v.history_ok

push_history-IsValid :
    (r : ExecutionRecord) (m : ExecutionManager)
    → IsValid m
    → IsFinished m.next_id m.active r
    → All (λ (s : ExecutionRecord). s.id ≢ r.id) m.history
    → IsValid (push_history (some r) m).0
unfolding push_history
push_history-IsValid r m v fin fresh = elim (Bool-cases (ltb 0 m.history_limit)) [
  | inl kept ↦ rw kept (push-IsValid r m v fin fresh)
  | inr dropped ↦ rw dropped v
]

enter-IsValid :
    (now id : ℕ) (next : ExecutionState) (result : Option ExecutionResult) (e : Execution)
    (m : ExecutionManager)
    → IsValid m
    → lookup id m.active ≡ some e
    → can_transition_to e.state next ≡ true
    → is_some result ≡ is_terminal next
    → IsValid (enter now id next result e m).0
unfolding enter sanitize
enter-IsValid now id next result e m v found allowed delivered =
    elim (Bool-cases (is_terminal next)) [
      | inl over ↦ rw over (
          push_history-IsValid _ _ (remove-IsValid id m v)
            (record {
              positive = rw a.same_id a.positive;
              below = rw a.same_id a.below;
              over = over;
              has_result = rw (delivered, over);
              gone = rw (a.same_id, lookup-remove) (ground arith);
            })
            (rw a.same_id (history-fresh id e m v found)))
      | inr going ↦ rw going (
          modify-IsValid id (λ _. moved now next e) m v
            (λ _ _ _. record {
              same_id = a.same_id;
              positive = a.positive;
              below = a.below;
              live = going;
              no_finish = a.no_finish;
              no_result = a.no_result;
              has_start = moved-HasStart now e.state next e.started_at allowed a.has_start;
            }))
    ]
  where
    a : IsActive m.next_id id e
    a = v.active_ok id e found

transition_found-IsValid :
    (now id : ℕ) (next : ExecutionState) (result : Option ExecutionResult) (e : Execution)
    (m : ExecutionManager)
    → IsValid m
    → lookup id m.active ≡ some e
    → IsValid (transition_found now id next result e m).0
unfolding transition_found
transition_found-IsValid now id next result e m v found =
    by_guards (Bool-cases (can_transition_to e.state next)) (Bool-cases (is_terminal next))
      (Bool-cases (is_some result))
  where
    Case : Bool → Type 0
    Case b = (b ≡ true) ⊎ (b ≡ false)

    by_guards :
        Case (can_transition_to e.state next)
        → Case (is_terminal next)
        → Case (is_some result)
        → IsValid (transition_found now id next result e m).0
    by_guards (inr no_edge) t r = rw (no_edge, transition_found) v
    by_guards (inl edge) (inl t) (inl r) =
        rw (edge, t, r, transition_found)
          (enter-IsValid now id next result e m v found edge (r ∙ sym t))
    by_guards (inl edge) (inl t) (inr r) = rw (edge, t, r, transition_found) v
    by_guards (inl edge) (inr t) (inl r) = rw (edge, t, r, transition_found) v
    by_guards (inl edge) (inr t) (inr r) =
        rw (edge, t, r, transition_found)
          (enter-IsValid now id next result e m v found edge (r ∙ sym t))

-- A transition keeps the invariant, whether it is made or refused.
pub transition-IsValid :
    (now id : ℕ) (next : ExecutionState) (result : Option ExecutionResult) (m : ExecutionManager)
    → IsValid m
    → IsValid (transition now id next result m).0
unfolding transition
transition-IsValid now id next result m v = by_lookup (Option-cases (lookup id m.active))
  where
    by_lookup :
        (lookup id m.active ≡ none) ⊎ ((e : Execution) × (lookup id m.active ≡ some e))
        → IsValid (transition now id next result m).0
    by_lookup (inl absent) = rw (absent, transition) v
    by_lookup (inr (e, found)) =
        rw (found, transition) (transition_found-IsValid now id next result e m v found)

-- A new execution is active under a fresh id, in the state `created`.
pub create-IsValid :
    (now : ℕ) (spec : ExecutionSpec) (context : ExecutionContext) (m : ExecutionManager)
    → IsValid m
    → IsValid (create now spec context m).0
unfolding is_terminal create
create-IsValid now spec context m v = elim (Bool-cases (ltb (m.next_id + 1) (2 ^ 64))) [
  | inr full ↦ rw (full, create) v
  | inl room ↦
      rw (room, create)
        (record {
          next_positive = omega arith;
          next_bound = ground arith;
          active_ok = λ k e h. at k e (rw lookup-insert at h);
          history_ok =
              All-map (IsFinished m.next_id m.active) _
                (λ r h. record {
                  positive = h.positive;
                  below = omega (arith, h.below);
                  over = h.over;
                  has_result = h.has_result;
                  gone = rw lookup-insert (ground (arith, h.below, h.gone));
                })
                m.history v.history_ok;
          history_distinct = v.history_distinct;
          bounded = v.bounded;
          jobs_ok = λ k h. ground (arith, v.jobs_ok k h, lookup-insert m.next_id k fresh m.active);
        })
]
  where
    fresh : Execution
    fresh = new_execution now m.next_id spec context

    is_fresh : IsActive (m.next_id + 1) m.next_id fresh
    is_fresh = record {
      same_id = refl;
      positive = v.next_positive;
      below = omega arith;
      live = refl;
      no_finish = refl;
      no_result = refl;
      has_start = refl;
    }

    at_key :
        (k : ℕ) (e : Execution)
        → ((m.next_id == k) ≡ true) ⊎ ((m.next_id == k) ≡ false)
        → (if m.next_id == k then some fresh else lookup k m.active) ≡ some e
        → IsActive (m.next_id + 1) k e
    at_key k e (inl same) h =
        let written : fresh ≡ e = ground (arith, h) in
        rw (← written, ← (==_iff m.next_id k).0 same) is_fresh
    at_key k e (inr other) h =
        let a = v.active_ok k e (rw other at h) in
        record {
          same_id = a.same_id;
          positive = a.positive;
          below = omega (arith, a.below);
          live = a.live;
          no_finish = a.no_finish;
          no_result = a.no_result;
          has_start = a.has_start;
        }

    at :
        (k : ℕ) (e : Execution)
        → (if m.next_id == k then some fresh else lookup k m.active) ≡ some e
        → IsActive (m.next_id + 1) k e
    at k e = at_key k e (Bool-cases (m.next_id == k))
