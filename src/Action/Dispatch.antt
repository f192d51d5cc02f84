-- ===== src/Action/Dispatch.antt =====
-- Dispatcher.Dispatch and Dispatcher.execute (internal/action/dispatch.go): the pipeline that every
-- action runs through. A call returns its result and the world after it.
use boardchestrator.Prelude.{
  not, Option, none, some, Text, codes, is_empty, Result, ok, err, if◌then◌else◌,
}
use boardchestrator.Action.{Actor, ActionCtx, Policy, is_agent}
use boardchestrator.Action.Model.{
  Out, raw, DispatchError, forbidden, approval_pending, failed, Decision, proceed, pending, forbid,
  World, Opts, Definition, Hooks, ctx_of,
}
use boardchestrator.Action.Admit.{admit}
use boardchestrator.Action.Record.{find_idem, marshal_result, redact, record_result}

module _ {S V : Type 0} (h : Hooks S V) where
  open h use {gate, has_db}

  -- The end of the transaction: rolled back after an error, and committed otherwise.
  unfoldable pub settle : S → Result DispatchError (Out V) × S → Result DispatchError (Out V) × S
  settle db (err e, db') = elim (h.rollback_fault db) [ some f ↦ (err f, db) | none ↦ (err e, db) ]
  settle db (ok out, db') = elim (h.commit_fault db') [
    | some f ↦ (err f, db)
    | none ↦ (ok out, db')
  ]

  -- Dispatcher.execute. Without a database the handler's state is returned as it is.
  unfoldable pub execute : S → ActionCtx → Definition S V → Text → Result DispatchError (Out V) × S
  unfolding settle
  execute db ac def input = if not has_db then def.handle db ac input else elim (h.begin_fault db) [
    | some e ↦ (err e, db)
    | none ↦ settle db (def.handle db ac input)
  ]

  unfoldable pub finish :
      World S → ActionCtx → Policy → Text → Out V → Result DispatchError (Out V) × World S
  unfolding redact marshal_result record_result
  finish w ac def name out = elim (marshal_result h (redact h out)) [
    | none ↦ (err (failed (codes "action: marshal result")), w)
    | some payload ↦ record_result h w ac def name (redact h out) payload out
  ]

  -- Steps 8 to 11.
  unfoldable pub run_action :
      World S → ActionCtx → Definition S V → Text → Text → Result DispatchError (Out V) × World S
  unfolding execute finish
  run_action w ac def name input =
      let (result, db') = execute w.db ac def input in
      let w' = record w { db = db' } in
      elim result [ err e ↦ (err e, w') | ok out ↦ finish w' ac def.policy name out ]

  -- Step 7.
  unfoldable pub replay_or_run :
      World S → ActionCtx → Definition S V → Text → Text → Result DispatchError (Out V) × World S
  unfolding find_idem run_action
  replay_or_run w ac def name input =
      if is_empty ac.idem
      then run_action w ac def name input
      else elim (h.idem_get_fault w.idem ac.idem) [
        | some e ↦ (err e, w)
        | none ↦ elim (find_idem ac.idem w.idem) [
          | some row ↦ (ok (raw row.result), w)
          | none ↦ run_action w ac def name input
        ]
      ]

  -- A dry run: the preview, or the input where there is none.
  abbrev pub preview_or_echo :
      Option (S → ActionCtx → Text → Result DispatchError (Out V))
      → World S
      → ActionCtx
      → Text
      → Result DispatchError (Out V) × World S
  preview_or_echo none w ac input = (ok (raw input), w)
  preview_or_echo (some preview) w ac input = (preview w.db ac input, w)

  unfoldable pub preview_or_run :
      World S → ActionCtx → Definition S V → Text → Text → Result DispatchError (Out V) × World S
  unfolding replay_or_run
  preview_or_run w ac def name input =
      if ac.dry_run
      then preview_or_echo def.preview w ac input
      else replay_or_run w ac def name input

  -- The switch on the gate's decision.
  unfoldable pub after_gate :
      Result Text (Decision × Text)
      → World S
      → ActionCtx
      → Definition S V
      → Text
      → Text
      → Result DispatchError (Out V) × World S
  unfolding preview_or_run
  after_gate (err e) w ac def name input = (err (failed e), w)
  after_gate (ok (forbid, id)) w ac def name input = (err forbidden, w)
  after_gate (ok (pending, id)) w ac def name input = (err (approval_pending id), w)
  after_gate (ok (proceed, id)) w ac def name input = preview_or_run w ac def name input

  -- Step 6: the gate, asked for agents only.
  unfoldable pub gate_and_run :
      World S → ActionCtx → Definition S V → Text → Text → Result DispatchError (Out V) × World S
  unfolding after_gate preview_or_run
  gate_and_run w ac def name input =
      let (answer, db') = gate w.db ac def.policy input in
      if is_agent ac.actor.type
      then after_gate answer (record w { db = db' }) ac def name input
      else preview_or_run w ac def name input

  -- Dispatcher.Dispatch
  unfoldable pub dispatch :
      World S → Actor → Text → Text → Opts → Result DispatchError (Out V) × World S
  unfolding admit gate_and_run
  dispatch w actor name input opts = elim (admit h w.db actor name input opts) [
    | err e ↦ (err e, w)
    | ok def ↦ gate_and_run w (ctx_of actor opts) def name input
  ]
