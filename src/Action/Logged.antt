-- ===== src/Action/Logged.antt =====
-- What a finished action leaves behind: its event, its audit row and its stored result.
use boardchestrator.Prelude.{
  ◌≡◌, refl, ap, subst, inl, inr, ◌||◌, some, [], ◌∷◌, ◌++◌, arith, Text, is_empty, Result, ok,
  if◌then◌else◌, Option-cases, Result-cases,
}
use boardchestrator.Action.{ActionCtx, Policy, is_agent}
use boardchestrator.Action.Model.{Out, value, DispatchError, World, Hooks, is_high}
use boardchestrator.Action.Record.{
  marshal_result, redact, put_idem, append_audit, record_result, event_of, audit_of, idem_row_of,
}
use boardchestrator.Action.Dispatch.{finish}

module _ {S V : Type 0} (h : Hooks S V) where
  -- One event, an audit row for a high impact or an agent, and a stored result for a key. All are
  -- made of the redacted result `stored` and its JSON.
  pub record Recorded (w : World S) (ac : ActionCtx) (def : Policy) (name : Text) (stored : Out V)
      (payload : Text) (w' : World S) : Type 0 where
    pub db : w'.db ≡ w.db
    pub events : w'.events ≡ w.events ++ event_of h ac def name stored payload ∷ []
    pub audit : w'.audit ≡ (
        if is_high def.impact || is_agent ac.actor.type
        then w.audit ++ audit_of h ac name stored payload ∷ []
        else w.audit)
    pub idem :
        w'.idem ≡ (if is_empty ac.idem then w.idem else w.idem ++ idem_row_of ac name payload ∷ [])

  put_idem-eq-ok :
      (w : World S) (ac : ActionCtx) (name payload : Text) (w' : World S)
      → put_idem h w ac name payload ≡ ok w'
      → w' ≡ record w {
        idem = if is_empty ac.idem then w.idem else w.idem ++ idem_row_of ac name payload ∷ [];
      }
  unfolding put_idem
  put_idem-eq-ok w ac name payload w' e = ground arith

  append_audit-eq-ok :
      (w : World S) (ac : ActionCtx) (def : Policy) (name : Text) (stored : Out V) (payload : Text)
      (w' : World S)
      → append_audit h w ac def name stored payload ≡ ok w'
      → w' ≡ record w {
        audit =
            if is_high def.impact || is_agent ac.actor.type
            then w.audit ++ audit_of h ac name stored payload ∷ []
            else w.audit;
      }
  unfolding append_audit
  append_audit-eq-ok w ac def name stored payload w' e = ground arith

  -- The world between the stored result and the audit row.
  abbrev emitted : World S → ActionCtx → Policy → Text → Out V → Text → World S
  emitted w ac def name stored payload = record w {
    events = w.events ++ event_of h ac def name stored payload ∷ [];
  }

  record_result_complete :
      (w : World S) (ac : ActionCtx) (def : Policy) (name : Text) (stored : Out V) (payload : Text)
      (out o : Out V) (w' : World S)
      → record_result h w ac def name stored payload out ≡ (ok o, w')
      → (o ≡ out) × Recorded w ac def name stored payload w'
  unfolding record_result
  record_result_complete w ac def name stored payload out o w' e =
      elim (Result-cases (put_idem h w ac name payload)) [
        | inr (f, ef) ↦ absurd (cc (rw (ef, record_result) at e))
        | inl (w₁, e₁) ↦
            elim (Result-cases
              (append_audit h (emitted w₁ ac def name stored payload) ac def name stored payload)) [
                | inr (f, ef) ↦ absurd (cc (rw (e₁, ef, record_result) at e))
                | inl (w₂, e₂) ↦
                    let whole : ◌≡◌ {A = Result DispatchError (Out V) × World S} (ok out, w₂)
                        (ok o, w') =
                      rw (e₁, e₂, record_result) at e in
                    let put = put_idem-eq-ok w ac name payload w₁ e₁ in
                    let appended =
                      append_audit-eq-ok (emitted w₁ ac def name stored payload) ac def name stored
                        payload w₂ e₂ in
                    let last : w₂ ≡ w' =
                      ap (λ (r : Result DispatchError (Out V) × World S). r.1) whole in
                    (
                      cc (ap (λ (r : Result DispatchError (Out V) × World S). r.0) whole),
                      subst (Recorded w ac def name stored payload) last (
                          rw (appended, put)
                            (record { db = refl; events = refl; audit = refl; idem = refl })),
                    )
              ]
      ]

  record_result_world :
      (w : World S) (ac : ActionCtx) (def : Policy) (name : Text) (stored : Out V) (payload : Text)
      (o₁ o₂ : Out V)
      → (record_result h w ac def name stored payload o₁).1
        ≡ (record_result h w ac def name stored payload o₂).1
  unfolding record_result
  record_result_world w ac def name stored payload o₁ o₂ = ground arith

  -- A call that finishes well hands the handler's own result to the caller, emits one event,
  -- writes an audit row exactly where the impact is high or the actor is an agent, and stores a
  -- result where there is an idempotency key. All that it writes is made of the redacted result.
  pub finish-Recorded :
      (w : World S) (ac : ActionCtx) (def : Policy) (name : Text) (out o : Out V) (w' : World S)
      → finish h w ac def name out ≡ (ok o, w')
      → (o ≡ out)
        × (payload : Text) × (marshal_result h (redact h out) ≡ some payload)
        × Recorded w ac def name (redact h out) payload w'
  unfolding finish
  finish-Recorded w ac def name out o w' e = elim (Option-cases (marshal_result h (redact h out))) [
    | inl none_left ↦ absurd (cc (rw (none_left, finish) at e))
    | inr (payload, made) ↦
        let (same, kept) =
          record_result_complete w ac def name (redact h out) payload out o w'
            (rw (made, finish) at e) in
        (same, payload, made, kept)
  ]

  -- Two results with the same redacted form leave the same world behind, also where a later step
  -- fails: what they have beyond it reaches neither the stored results nor the events nor the
  -- audit log.
  pub finish_hides_secret :
      (w : World S) (ac : ActionCtx) (def : Policy) (name : Text) (v₁ v₂ : V)
      → redact h (value v₁) ≡ redact h (value v₂)
      → (finish h w ac def name (value v₁)).1 ≡ (finish h w ac def name (value v₂)).1
  unfolding finish
  finish_hides_secret w ac def name v₁ v₂ e =
      elim (Option-cases (marshal_result h (redact h (value v₂)))) [
        | inl none_left ↦ rw (e, finish) (rw (none_left, finish))
        | inr (payload, made) ↦
            rw (e, finish)
              (rw (made, finish)
                (rw e (
                  record_result_world w ac def name (redact h (value v₂)) payload (value v₁)
                    (value v₂))))
      ]
