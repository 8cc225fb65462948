-- ===== src/Execution/Fresh.antt =====
-- Ids of src/execution.rs: `create` never hands out an id twice.
use ion_win.Base.{
  ℕ, ◌+◌, ◌^◌, ◌<◌, ◌≡◌, ◌≢◌, inl, inr, true, none, some, arith, ok, ltb, ==_refl, Bool-cases,
  Option-cases, All, All-map, subst,
}
use ion_win.Base.Map.{lookup, lookup-insert}
use ion_win.Execution.Domain.{ExecutionSpec, ExecutionContext, ExecutionRecord}
use ion_win.Execution.Manager.{ExecutionManager, new_execution, create}
use ion_win.Execution.Invariant.{IsFinished, IsValid}

-- What a successful `create` has done.
pub record IsCreated (now id : ℕ) (spec : ExecutionSpec) (context : ExecutionContext)
    (m m' : ExecutionManager) : Type 0 where
  pub unused : lookup id m.active ≡ none
  pub unrecorded : All (λ (r : ExecutionRecord). r.id ≢ id) m.history
  pub registered : lookup id m'.active ≡ some (new_execution now id spec context)
  pub others : (j : ℕ) → j ≢ id → lookup j m'.active ≡ lookup j m.active
  pub later : id < m'.next_id

lookup-next_id : (m : ExecutionManager) → IsValid m → lookup m.next_id m.active ≡ none
lookup-next_id m v = elim (Option-cases (lookup m.next_id m.active)) [
  | inl absent ↦ absent
  | inr (e, found) ↦ absurd (omega (arith, (v.active_ok m.next_id e found).below))
]

IsCreated-IsCreated :
    (now : ℕ) (spec : ExecutionSpec) (context : ExecutionContext) (m : ExecutionManager)
    → IsValid m
    → ltb (m.next_id + 1) (2 ^ 64) ≡ true
    → IsCreated now m.next_id spec context m (create now spec context m).0
unfolding create
IsCreated-IsCreated now spec context m v room = rw room (record {
  unused = lookup-next_id m v;
  unrecorded =
      All-map (IsFinished m.next_id m.active) _ (λ r h e. omega (arith, h.below)) m.history
        v.history_ok;
  registered = rw (lookup-insert, ==_refl);
  others = λ j other. rw lookup-insert (ground arith);
  later = omega arith;
})

-- In a valid registry a successful `create` registers a new execution, under an id that no active
-- execution and no record has, leaves the other executions as they are, and moves the counter on.
pub create_fresh :
    (now id : ℕ) (spec : ExecutionSpec) (context : ExecutionContext) (m : ExecutionManager)
    → IsValid m
    → (create now spec context m).1 ≡ ok id
    → IsCreated now id spec context m (create now spec context m).0
unfolding create
create_fresh now id spec context m v answer = elim (Bool-cases (ltb (m.next_id + 1) (2 ^ 64))) [
  | inl room ↦
      let same : m.next_id ≡ id = ground (arith, room, answer) in
      subst (λ k. IsCreated now k spec context m (create now spec context m).0) same
        (IsCreated-IsCreated now spec context m v room)
  | inr full ↦ absurd (ground (arith, full, answer))
]
