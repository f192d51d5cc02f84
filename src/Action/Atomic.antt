-- ===== src/Action/Atomic.antt =====
-- Dispatcher.execute: a handler's writes are kept as a whole or not at all.
use boardchestrator.Prelude.{◌≡◌, refl, ◌⊎◌, inl, inr, true, Text, Result, ok, err, Option-cases}
use boardchestrator.Action.{ActionCtx}
use boardchestrator.Action.Model.{Out, DispatchError, Definition, Hooks}
use boardchestrator.Action.Dispatch.{execute, settle}

module _ {S V : Type 0} (h : Hooks S V) where
  -- The result and the state after a call: all of the handler's, or an error and no change.
  abbrev pub IsAtomic :
      S → Result DispatchError (Out V) × S → Result DispatchError (Out V) × S → Type 0
  IsAtomic db handled after =
      (after ≡ handled) × ((out : Out V) × (handled.0 ≡ ok out))
      ⊎ ((e : DispatchError) × (after ≡ (err e, db)))

  settle_cases :
      (db : S) (handled : Result DispatchError (Out V) × S)
      → IsAtomic db handled (settle h db handled)
  unfolding settle
  settle_cases db (ok out, db') = elim (Option-cases (h.commit_fault db')) [
    | inl fine ↦ inl (rw (fine, settle), (out, refl))
    | inr (f, fault) ↦ inr (f, rw (fault, settle))
  ]
  settle_cases db (err e, db') = elim (Option-cases (h.rollback_fault db)) [
    | inl fine ↦ inr (e, rw (fine, settle))
    | inr (f, fault) ↦ inr (f, rw (fault, settle))
  ]

  -- With a database, execute either returns the successful handler's result and its state, or an
  -- error and the state from before: also where the transaction cannot begin, roll back or commit.
  pub execute-IsAtomic :
      (db : S) (ac : ActionCtx) (def : Definition S V) (input : Text)
      → h.has_db ≡ true
      → IsAtomic db (def.handle db ac input) (execute h db ac def input)
  unfolding execute
  execute-IsAtomic db ac def input has = elim (Option-cases (h.begin_fault db)) [
    | inl fine ↦ rw (has, fine, execute) (settle_cases db (def.handle db ac input))
    | inr (f, fault) ↦ inr (f, rw (has, fault, execute))
  ]
