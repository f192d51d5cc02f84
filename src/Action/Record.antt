-- ===== src/Action/Record.antt =====
-- Steps 9 to 11 of Dispatch (internal/action/dispatch.go), with the stores of store.go: what is
-- kept of a handler's result.
use boardchestrator.Prelude.{
  ◌||◌, Option, none, some, List, [], ◌∷◌, ◌++◌, Text, codes, text_eq, is_empty, Result, ok, err,
  if◌then◌else◌,
}
use boardchestrator.Action.{ActionCtx, Policy, is_agent, ref}
use boardchestrator.Action.Model.{
  Out, null, raw, value, DispatchError, failed, Event, AuditRow, IdemRow, World, Hooks, is_self,
  is_high,
}

abbrev pub audit_org : Text → Option Text
audit_org [] = none
audit_org (c ∷ t) = some (c ∷ t)

abbrev pub or_text : Text → Text → Text
or_text [] d = d
or_text (c ∷ t) d = c ∷ t

-- GetIdempotencyKey: SELECT ... WHERE key = ?
unfoldable pub find_idem : Text → List IdemRow → Option IdemRow
unfolding text_eq
find_idem k [] = none
find_idem k (r ∷ rs) = if text_eq r.key k then some r else find_idem k rs

-- The value of a field of a decoded object.
unfoldable pub field_of : Text → List (Text × Text) → Option Text
unfolding text_eq
field_of k [] = none
field_of k ((j, v) ∷ fs) = if text_eq j k then some v else field_of k fs

abbrev pub idem_row_of : ActionCtx → Text → Text → IdemRow
idem_row_of ac name payload = record {
  key = ac.idem;
  actor = ref ac.actor;
  action = name;
  result = or_text payload (codes "null");
}

module _ {S V : Type 0} (h : Hooks S V) where
  open h use {json}

  unfoldable pub marshal_result : Out V → Option Text
  marshal_result null = some (codes "null")
  marshal_result (raw []) = some (codes "null")
  marshal_result (raw (c ∷ t)) = some (c ∷ t)
  marshal_result (value v) = json.marshal v

  -- The loop of subjectOf over "id", "ID" and "Id".
  unfoldable pub first_string : List (Text × Text) → List Text → Text
  unfolding field_of
  first_string fs [] = []
  first_string fs (k ∷ ks) =
      let later = first_string fs ks in
      elim (field_of k fs) [
        | none ↦ later
        | some v ↦ elim (json.decode_string v) [ none ↦ later | some s ↦ s ]
      ]

  unfoldable pub subject_of : Out V → Text
  unfolding marshal_result first_string
  subject_of out = elim (marshal_result out) [
    | none ↦ []
    | some raw_text ↦ elim (json.decode_object raw_text) [
      | none ↦ []
      | some fs ↦ first_string fs (codes "id" ∷ codes "ID" ∷ codes "Id" ∷ [])
    ]
  ]

  -- `stored` of Dispatch.
  unfoldable pub redact : Out V → Out V
  redact null = null
  redact (raw t) = raw t
  redact (value v) = elim (json.redacted v) [ none ↦ value v | some r ↦ r ]

  abbrev pub event_of : ActionCtx → Policy → Text → Out V → Text → Event
  event_of ac def name stored payload = record {
    name = name;
    org = ac.org;
    actor = ac.actor;
    subject = subject_of stored;
    payload = if def.private_result || is_self def.scope then none else some payload;
  }

  abbrev pub audit_of : ActionCtx → Text → Out V → Text → AuditRow
  audit_of ac name stored payload = record {
    org_id = audit_org ac.org;
    actor_type = ac.actor.type;
    actor_id = ac.actor.id;
    action = name;
    subject = subject_of stored;
    detail = or_text payload (codes "{}");
    ip = ac.actor.ip;
  }

  -- Step 9: an INSERT, which a row of the same key refuses.
  unfoldable pub put_idem : World S → ActionCtx → Text → Text → Result DispatchError (World S)
  unfolding find_idem ref
  put_idem w ac name payload =
      let row = idem_row_of ac name payload in
      if is_empty ac.idem then ok w else elim (h.idem_put_fault w.idem row) [
        | some e ↦ err e
        | none ↦ elim (find_idem ac.idem w.idem) [
          | some old ↦ err (failed (codes "action: store idempotency key"))
          | none ↦ ok (record w { idem = w.idem ++ row ∷ [] })
        ]
      ]

  -- Step 11, on the result of step 10.
  unfoldable pub append_audit :
      World S → ActionCtx → Policy → Text → Out V → Text → Result DispatchError (World S)
  unfolding subject_of
  append_audit w ac def name stored payload =
      let row = audit_of ac name stored payload in
      if is_high def.impact || is_agent ac.actor.type
      then elim (h.audit_fault w.audit row) [
        | some e ↦ err e
        | none ↦ ok (record w { audit = w.audit ++ row ∷ [] })
      ]
      else ok w

  -- What follows a successful handler, once the payload is known.
  unfoldable pub record_result :
      World S
      → ActionCtx
      → Policy
      → Text
      → Out V
      → Text
      → Out V
      → Result DispatchError (Out V) × World S
  unfolding put_idem append_audit
  record_result w ac def name stored payload out = elim (put_idem w ac name payload) [
    | err e ↦ (err e, w)
    | ok w' ↦
        let w'' = record w' { events = w'.events ++ event_of ac def name stored payload ∷ [] } in
        elim (append_audit w'' ac def name stored payload) [
          | err e ↦ (err e, w'')
          | ok w''' ↦ (ok out, w''')
        ]
  ]
