-- ===== src/Execution/Invariant.antt =====
-- The invariant of the registry of src/execution.rs, and the lemmas by which single writes keep it.
pub mod Transition
pub mod Cancel
pub mod Jobs
use ion_win.Base.{
  ℕ, zero, suc, ◌+◌, ◌-◌, ◌^◌, ◌≤◌, ◌<◌, ◌≡◌, refl, ◌≢◌, ap, ◌⊎◌, inl, inr, Bool, true, false,
  Option, none, some, List, [], ◌∷◌, ◌++◌, arith, length, length-append, drop, drop-nil, sym, All,
  All-append, All-drop, All-map, is_some, ltb, if◌then◌else◌, ◌==◌, Bool-cases, ==_iff,
  Option-cases,
}
use ion_win.Base.Map.{
  lookup, remove, modify, contains_key, lookup-remove, lookup-modify, lookup-modify-some,
  lookup-remove-some,
}
use ion_win.Execution.Domain.{
  ExecutionState, created, starting, running, cancelling, is_terminal, is_running, is_cancelling,
  Execution, ExecutionRecord,
}
use ion_win.Execution.Manager.{ManagedChild, ExecutionManager, trim, new}

-- A start time is there exactly once the execution has run.
abbrev pub HasStart : ExecutionState → Option ℕ → Type 0
HasStart created t = t ≡ none
HasStart starting t = t ≡ none
HasStart running t = is_some t ≡ true
HasStart cancelling t = is_some t ≡ true
HasStart _ t = Unit

pub record IsActive (next_id k : ℕ) (e : Execution) : Type 0 where
  pub same_id : e.id ≡ k
  pub positive : 0 < k
  pub below : k < next_id
  pub live : is_terminal e.state ≡ false
  pub no_finish : e.finished_at ≡ none
  pub no_result : e.result ≡ none
  pub has_start : HasStart e.state e.started_at

-- A finished record names an execution that was created, is over and is not active any more.
pub record IsFinished (next_id : ℕ) (active : List (ℕ × Execution)) (r : ExecutionRecord)
    : Type 0 where
  pub positive : 0 < r.id
  pub below : r.id < next_id
  pub over : is_terminal r.state ≡ true
  pub has_result : is_some r.result ≡ true
  pub gone : lookup r.id active ≡ none

abbrev pub DistinctIds : List ExecutionRecord → Type 0
DistinctIds [] = Unit
DistinctIds (r ∷ rs) = All (λ (s : ExecutionRecord). r.id ≢ s.id) rs × DistinctIds rs

pub record IsValid (m : ExecutionManager) : Type 0 where
  pub next_positive : 0 < m.next_id
  pub next_bound : m.next_id < 2 ^ 64
  pub active_ok : (k : ℕ) (e : Execution) → lookup k m.active ≡ some e → IsActive m.next_id k e
  pub history_ok : All (IsFinished m.next_id m.active) m.history
  pub history_distinct : DistinctIds m.history
  pub bounded : length m.history ≤ m.history_limit
  pub jobs_ok : (k : ℕ) → contains_key k m.job_objects ≡ true → contains_key k m.active ≡ true

-- `pop_front` down to the limit drops the oldest records.
pub trim_lem : (limit : ℕ) (rs : List ExecutionRecord) → trim limit rs ≡ drop (length rs - limit) rs
unfolding trim
trim_lem limit [] = sym (drop-nil _)
trim_lem limit (r ∷ rs) = elim (Bool-cases (ltb limit (length (r ∷ rs)))) [
  | inl over ↦
      let e : length (r ∷ rs) - limit ≡ suc (length rs - limit) = ground arith in
      rw (over, e) (trim_lem limit rs)
  | inr fits ↦ let e : length (r ∷ rs) - limit ≡ 0 = ground arith in rw (fits, e)
]

pub length-trim : (limit : ℕ) (rs : List ExecutionRecord) → length (trim limit rs) ≤ limit
unfolding trim
length-trim limit [] = omega arith
length-trim limit (r ∷ rs) = ground (arith, length-trim limit rs)

DistinctIds-drop : (n : ℕ) (rs : List ExecutionRecord) → DistinctIds rs → DistinctIds (drop n rs)
DistinctIds-drop zero rs h = h
DistinctIds-drop (suc n) [] h = h
DistinctIds-drop (suc n) (r ∷ rs) h = DistinctIds-drop n rs h.1

DistinctIds-snoc :
    (rs : List ExecutionRecord) (r : ExecutionRecord)
    → DistinctIds rs
    → All (λ (s : ExecutionRecord). s.id ≢ r.id) rs
    → DistinctIds (rs ++ r ∷ [])
DistinctIds-snoc [] r h k = (tt, tt)
DistinctIds-snoc (s ∷ rs) r h k =
    (All-append _ rs (r ∷ []) h.0 (k.0, tt), DistinctIds-snoc rs r h.1 k.1)

-- A write to one active execution keeps the invariant if it keeps what holds of that execution.
pub modify-IsValid :
    (id : ℕ) (f : Execution → Execution) (m : ExecutionManager)
    → IsValid m
    → ((e : Execution)
        → lookup id m.active ≡ some e
        → IsActive m.next_id id e
        → IsActive m.next_id id (f e))
    → IsValid (record m { active = modify id f m.active })
modify-IsValid id f m v keep = record {
  next_positive = v.next_positive;
  next_bound = v.next_bound;
  active_ok = λ k e h. at k e (lookup-modify-some id k f m.active h);
  history_ok =
      All-map (IsFinished m.next_id m.active) _
        (λ r h. record {
          positive = h.positive;
          below = h.below;
          over = h.over;
          has_result = h.has_result;
          gone = rw lookup-modify (ground (arith, h.gone));
        })
        m.history v.history_ok;
  history_distinct = v.history_distinct;
  bounded = v.bounded;
  jobs_ok = λ k h. rw lookup-modify (ground (arith, v.jobs_ok k h));
}
  where
    at :
        (k : ℕ) (e : Execution)
        → ((w : Execution) × (id ≡ k) × (lookup k m.active ≡ some w) × (e ≡ f w))
          ⊎ ((id ≢ k) × (lookup k m.active ≡ some e))
        → IsActive m.next_id k e
    at k e (inl (w, same, found, written)) =
        rw (written, ← same)
          (keep w (rw (← same) at found) (v.active_ok id w (rw (← same) at found)))
    at k e (inr (other, found)) = v.active_ok k e found

-- The background children are no part of the invariant.
pub children-IsValid :
    (children : List (ℕ × List ManagedChild)) (m : ExecutionManager)
    → IsValid m
    → IsValid (record m { background_children = children })
children-IsValid children m v = record {
  next_positive = v.next_positive;
  next_bound = v.next_bound;
  active_ok = v.active_ok;
  history_ok = v.history_ok;
  history_distinct = v.history_distinct;
  bounded = v.bounded;
  jobs_ok = v.jobs_ok;
}

-- An execution leaves the active map together with its job object.
pub remove-IsValid :
    (id : ℕ) (m : ExecutionManager)
    → IsValid m
    → IsValid (record m { active = remove id m.active; job_objects = remove id m.job_objects })
remove-IsValid id m v = record {
  next_positive = v.next_positive;
  next_bound = v.next_bound;
  active_ok = λ k e h. v.active_ok k e (lookup-remove-some id k m.active h).1;
  history_ok =
      All-map (IsFinished m.next_id m.active) _
        (λ r h. record {
          positive = h.positive;
          below = h.below;
          over = h.over;
          has_result = h.has_result;
          gone = rw lookup-remove (ground (arith, h.gone));
        })
        m.history v.history_ok;
  history_distinct = v.history_distinct;
  bounded = v.bounded;
  jobs_ok = λ k h.
      ground (arith, v.jobs_ok k, lookup-remove id k m.active, lookup-remove id k m.job_objects, h);
}

-- A job object goes by itself.
pub remove_job-IsValid :
    (id : ℕ) (m : ExecutionManager)
    → IsValid m
    → IsValid (record m { job_objects = remove id m.job_objects })
remove_job-IsValid id m v = record {
  next_positive = v.next_positive;
  next_bound = v.next_bound;
  active_ok = v.active_ok;
  history_ok = v.history_ok;
  history_distinct = v.history_distinct;
  bounded = v.bounded;
  jobs_ok = λ k h. ground (arith, v.jobs_ok k, lookup-remove id k m.job_objects, h);
}

-- A finished record joins the history, which is cut down to its limit.
pub push-IsValid :
    (r : ExecutionRecord) (m : ExecutionManager)
    → IsValid m
    → IsFinished m.next_id m.active r
    → All (λ (s : ExecutionRecord). s.id ≢ r.id) m.history
    → IsValid (record m { history = trim m.history_limit (m.history ++ r ∷ []) })
push-IsValid r m v fin fresh = record {
  next_positive = v.next_positive;
  next_bound = v.next_bound;
  active_ok = v.active_ok;
  history_ok =
      rw trim_lem (All-drop _ _ _ (All-append _ m.history (r ∷ []) v.history_ok (fin, tt)));
  history_distinct =
      rw trim_lem (DistinctIds-drop _ _ (DistinctIds-snoc m.history r v.history_distinct fresh));
  bounded = length-trim m.history_limit _;
  jobs_ok = v.jobs_ok;
}
