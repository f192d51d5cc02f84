-- ===== src/Agent/Parked.antt =====
-- internal/agentrt/approvals.go and internal/action/approvals.go: a call that the gate parks, the
-- decision on it, and what the gate answers when the run makes the call again.
use boardchestrator.Prelude.{
  ℕ, ◌≡◌, refl, ap, ◌∙◌, inl, inr, ◌⊎◌, Bool, true, false, ◌&&◌, ◌||◌, none, some, List, [], ◌∷◌,
  ◌++◌, Text, text_eq, text_eq_refl, is_empty, ok, if◌then◌else◌, Bool-cases, Option-cases, any,
  keep, ltb, ◌==◌,
}
use boardchestrator.Action.{Policy}
use boardchestrator.Action.Model.{Decision, proceed, pending, forbid}
use boardchestrator.Agent.Model.{RunStatus, Run, Notification}
use boardchestrator.Agent.Gate.{
  Approval, Store, GateEnv, Statement, ApprovalPolicy, CallKey, policy_for, decision_for, newest,
  find_approval, is_for, find_run, update_run, set_awaiting, is_user, create_notification,
  request_note, requested, insert_approval, notify_request, park, resume, gate,
}
use boardchestrator.Agent.Decide.{
  is_row, find_row, written, update_rows, requeue_run, verdict, decide, decide_overwrites,
}

abbrev pub answer_for : Bool → Decision
answer_for true = proceed
answer_for false = forbid

-- A run that waits is found and requeued.
abbrev waits : Run → Run
waits r = record r { status = RunStatus.awaiting_approval }

requeue_waiting :
    (id org_id : Text) (rs : List Run) (r : Run)
    → find_run id org_id rs ≡ some r
    → (rs' : List Run) × (requeue_run id org_id (update_run id org_id waits rs) ≡ some rs')
      × (find_run id org_id rs' ≡ some (record r { status = RunStatus.queued; error = [] }))
unfolding find_run update_run requeue_run
requeue_waiting id org_id [] r found = cc
requeue_waiting id org_id (x ∷ rs) r found =
    elim (Bool-cases (text_eq x.id id && text_eq x.org_id org_id)) [
      | inl e ↦
          let same : x ≡ r = cc (rw (e, find_run) at found) in
          (
            record x { status = RunStatus.queued; error = [] } ∷ update_run id org_id waits rs,
            simp (e),
            simp (e)
                (ap (λ (y : Run). some (record y { status = RunStatus.queued; error = [] })) same),
          )
      | inr e ↦
          let (rs', requeued, again) = requeue_waiting id org_id rs r (rw (e, find_run) at found) in
          (x ∷ rs', simp (e) (rw (requeued, requeue_run) (simp (e))), simp (e) again)
    ]

find_run-any :
    (id org_id : Text) (rs : List Run) (r : Run)
    → find_run id org_id rs ≡ some r
    → any (λ x. text_eq x.id id) rs ≡ true
unfolding find_run
find_run-any id org_id [] r found = cc
find_run-any id org_id (x ∷ rs) r found = elim (Bool-cases (text_eq x.id id)) [
  | inl e ↦ simp (e)
  | inr e ↦ simp (e) (find_run-any id org_id rs r (simp (e) at found))
]

newest-none : (w : Bool) (rows : List Approval) → newest w rows ≡ none → rows ≡ []
unfolding newest
newest-none w [] h = refl
newest-none w (a ∷ rows) h = elim (Option-cases (newest w rows)) [
  | inl e ↦ absurd (cc (rw (e, newest) at h))
  | inr (b, e) ↦ absurd (picked b (later b) (rw (e, newest) at h))
]
  where
    later : Approval → Bool
    later b = ltb b.requested_at a.requested_at || (a.requested_at == b.requested_at) && w

    picked : (b : Approval) (c : Bool) → (if c then some a else some b) ≡ none → ⊥
    picked b true q = cc
    picked b false q = cc

is_for-updated :
    (k : CallKey) (id org_id by : Text) (b : Bool) (a : Approval)
    → is_for k (if is_row id org_id a then written (verdict b) by a else a) ≡ is_for k a
unfolding is_for
is_for-updated k id org_id by b a = elim (Bool-cases (is_row id org_id a)) [
  | inl e ↦ simp (e)
  | inr e ↦ simp (e)
]

keep-updated :
    (k : CallKey) (id org_id by : Text) (b : Bool) (rows : List Approval)
    → keep (is_for k) rows ≡ []
    → keep (is_for k) (update_rows id org_id (verdict b) by rows) ≡ []
unfolding update_rows
keep-updated k id org_id by b [] h = refl
keep-updated k id org_id by b (a ∷ rows) h = elim (Bool-cases (is_for k a)) [
  | inl e ↦ absurd (cc (simp (e) at h))
  | inr e ↦
      let other = is_for-updated k id org_id by b a ∙ e in
      simp (other) (keep-updated k id org_id by b rows (simp (e) at h))
]

found_new :
    (k : CallKey) (id : Text) (now : ℕ) (rows : List Approval)
    → find_row id k.org_id (requested k id now ∷ rows) ≡ some (requested k id now)
unfolding find_row is_row
found_new k id now rows = simp (text_eq_refl id, text_eq_refl k.org_id)

updated_new :
    (k : CallKey) (id : Text) (now : ℕ) (b : Bool) (by : Text) (rows : List Approval)
    → update_rows id k.org_id (verdict b) by (requested k id now ∷ rows)
      ≡ written (verdict b) by (requested k id now) ∷ update_rows id k.org_id (verdict b) by rows
unfolding update_rows is_row
updated_new k id now b by rows = simp (text_eq_refl id, text_eq_refl k.org_id)

is_for-written :
    (k : CallKey) (id : Text) (now : ℕ) (b : Bool) (by : Text)
    → is_for k (written (verdict b) by (requested k id now)) ≡ true
unfolding is_for
is_for-written k id now b by =
    simp (
      text_eq_refl k.run_id,
      text_eq_refl k.org_id,
      text_eq_refl k.action_name,
      text_eq_refl k.input,
    )

module _ (env : GateEnv) (k : CallKey) (fine : (q : Statement) → env.fails q ≡ false) where
  noted :
      (s : Store) (r : Run)
      → find_run k.run_id k.org_id s.runs ≡ some r
      → (is_empty r.initiated_by ≡ true) ⊎ (is_user s.users r.initiated_by ≡ true)
      → (ns : List Notification) × (notify_request env k s ≡ some (record s { notifications = ns }))
  unfolding notify_request create_notification
  noted s r found initiator = elim (Bool-cases (is_empty k.run_id)) [
    | inl e ↦ (s.notifications, simp (e))
    | inr e ↦ elim (Bool-cases (is_empty r.initiated_by)) [
      | inl nobody ↦ (
        s.notifications,
        simp (e, fine Statement.find_initiator) (rw (found, notify_request) (simp (nobody))),
      )
      | inr named ↦ (
        s.notifications ++ request_note k r.initiated_by env.new_id ∷ [],
        simp (e, fine Statement.find_initiator)
            (rw (found, notify_request)
              (simp (named, fine Statement.create_note, is_known named initiator))),
      )
    ]
  ]
    where
      is_known :
          is_empty r.initiated_by ≡ false
          → (is_empty r.initiated_by ≡ true) ⊎ (is_user s.users r.initiated_by ≡ true)
          → is_user s.users r.initiated_by ≡ true
      is_known named (inl nobody) = absurd (cc (named, nobody))
      is_known named (inr user) = user

  inserted :
      (s : Store) (r : Run)
      → find_run k.run_id k.org_id s.runs ≡ some r
      → any (λ a. text_eq a.id env.new_id) s.approvals ≡ false
      → insert_approval env k s
        ≡ some (record s { approvals = requested k env.new_id env.now ∷ s.approvals })
  unfolding insert_approval
  inserted s r found fresh =
      simp (fine Statement.create_row, fresh, find_run-any k.run_id k.org_id s.runs r found)

  parks :
      (policy : ApprovalPolicy) (def : Policy) (s : Store) (r : Run)
      → decision_for (policy_for policy def.impact) ≡ pending
      → find_approval env.latest_wins k s.approvals ≡ none
      → find_run k.run_id k.org_id s.runs ≡ some r
      → any (λ a. text_eq a.id env.new_id) s.approvals ≡ false
      → (is_empty r.initiated_by ≡ true) ⊎ (is_user s.users r.initiated_by ≡ true)
      → (ns : List Notification) × (gate env policy def k s ≡ (
        ok (pending, env.new_id),
        record s { approvals = requested k env.new_id env.now ∷ s.approvals; notifications = ns },
      ))
  unfolding gate resume park
  parks policy def s r req first found fresh initiator =
      let s₁ = record s { approvals = requested k env.new_id env.now ∷ s.approvals } in
      let (ns, note) = noted s₁ r found initiator in
      (
        ns,
        rw (req, gate)
            (simp (fine Statement.find_existing)
              (rw (first, resume) (rw (inserted s r found fresh, park) (rw (note, park) refl)))),
      )

  answers :
      (policy : ApprovalPolicy) (def : Policy) (id by : Text) (now : ℕ) (approve : Bool) (s : Store)
      (older : List Approval)
      → decision_for (policy_for policy def.impact) ≡ pending
      → s.approvals ≡ written (verdict approve) by (requested k id now) ∷ older
      → keep (is_for k) older ≡ []
      → gate env policy def k s ≡ (ok (answer_for approve, []), s)
  unfolding gate find_approval newest resume
  answers policy def id by now approve s older req e others =
      rw (req, gate) (simp (fine Statement.find_existing) (rw (found, resume) (answered approve)))
    where
      found :
          find_approval env.latest_wins k s.approvals
          ≡ some (written (verdict approve) by (requested k id now))
      found = rw e (simp (is_for-written k id now approve by, others))

      answered :
          (b : Bool)
          → resume env (some (written (verdict b) by (requested k id now))) k s
            ≡ (ok (answer_for b, []), s)
      answered true = refl
      answered false = refl

-- The agent's policy requires approval for the action, and no approval of the call exists. Then
-- the gate parks the call. Once the run is set to wait, approval.decide succeeds and the run is
-- queued again. When the run makes the call again, over any tables with those approvals, the gate
-- answers with the decision (it proceeds after an approval and forbids after a rejection) and
-- writes nothing. The conditions: the run exists, its initiator is empty or a user, the new
-- approval's id is new, it and the org's are not empty, and no statement fails otherwise.
pub park_decide_gate :
    (env env' : GateEnv) (policy : ApprovalPolicy) (def : Policy) (k : CallKey) (by : Text)
    (approve : Bool) (s : Store) (r : Run)
    → ((q : Statement) → env.fails q ≡ false)
    → ((q : Statement) → env'.fails q ≡ false)
    → decision_for (policy_for policy def.impact) ≡ pending
    → find_approval env.latest_wins k s.approvals ≡ none
    → find_run k.run_id k.org_id s.runs ≡ some r
    → any (λ a. text_eq a.id env.new_id) s.approvals ≡ false
    → (is_empty r.initiated_by ≡ true) ⊎ (is_user s.users r.initiated_by ≡ true)
    → is_empty env.new_id ≡ false
    → is_empty k.org_id ≡ false
    → (s₁ : Store) × (d : Approval) × (s₂ : Store) × (gate env policy def k s
        ≡ (ok (pending, env.new_id), s₁))
      × (decide env.new_id k.org_id approve by (set_awaiting k.run_id k.org_id s₁) ≡ ok (d, s₂))
      × (find_run k.run_id k.org_id s₂.runs
          ≡ some (record r { status = RunStatus.queued; error = [] }))
      × ((s₃ : Store)
          → s₃.approvals ≡ s₂.approvals
          → gate env' policy def k s₃ ≡ (ok (answer_for approve, []), s₃))
unfolding find_approval set_awaiting
park_decide_gate env env' policy def k by approve s r fine fine' req first found fresh initiator hid
      horg =
    let (ns, parked) = parks env k fine policy def s r req first found fresh initiator in
    let (rs, requeued, again) = requeue_waiting k.run_id k.org_id s.runs r found in
    let row = requested k env.new_id env.now in
    let s₁ = record s { approvals = row ∷ s.approvals; notifications = ns } in
    let older = update_rows env.new_id k.org_id (verdict approve) by s.approvals in
    let waiting = set_awaiting k.run_id k.org_id s₁ in
    let s₂ = record waiting {
      approvals = update_rows env.new_id k.org_id (verdict approve) by waiting.approvals;
      runs = rs;
    } in
    let others = newest-none env.latest_wins (keep (is_for k) s.approvals) first in
    (
      s₁,
      written (verdict approve) by row,
      s₂,
      parked,
      decide_overwrites env.new_id k.org_id approve by waiting row rs hid horg
          (found_new k env.new_id env.now s.approvals) requeued,
      again,
      (λ s₃ same.
          answers env' k fine' policy def env.new_id by env.now approve s₃ older req
            (same ∙ updated_new k env.new_id env.now approve by s.approvals)
            (keep-updated k env.new_id k.org_id by approve s.approvals others)),
    )
