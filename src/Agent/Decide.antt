-- ===== src/Agent/Decide.antt =====
-- internal/action/approvals.go: approval.decide.
use boardchestrator.Prelude.{
  ◌≡◌, refl, ◌∙◌, Bool, true, false, ◌&&◌, ◌||◌, Option, none, some, List, [], ◌∷◌, Text, text_eq,
  text_eq_refl, is_empty, Result, ok, err, ◌>>=◌, if◌then◌else◌,
}
use boardchestrator.Agent.Model.{RunStatus, Run}
use boardchestrator.Agent.Gate.{ApprovalStatus, Approval, Store}

pub data DecideError : Type 0 where
  missing_ids no_approval no_run : DecideError

abbrev pub is_awaiting : RunStatus → Bool
is_awaiting RunStatus.awaiting_approval = true
is_awaiting _ = false

-- The condition of DecideApproval.
unfoldable pub is_row : Text → Text → Approval → Bool
unfolding text_eq
is_row id org_id a = text_eq a.id id && text_eq a.org_id org_id

unfoldable pub find_row : Text → Text → List Approval → Option Approval
unfolding is_row
find_row id org_id [] = none
find_row id org_id (a ∷ rest) = if is_row id org_id a then some a else find_row id org_id rest

abbrev pub written : ApprovalStatus → Text → Approval → Approval
written status by a = record a { status = status; decided_by = some by }

-- DecideApproval: UPDATE approvals SET status, decided_by WHERE id = ? AND org_id = ?
unfoldable pub update_rows : Text → Text → ApprovalStatus → Text → List Approval → List Approval
unfolding is_row
update_rows id org_id status by [] = []
update_rows id org_id status by (a ∷ rest) =
    (if is_row id org_id a then written status by a else a) ∷ update_rows id org_id status by rest

-- RequeueRun: UPDATE runs SET status = 'queued', error = '' WHERE id, org_id AND status = 'awaiting_approval'.
unfoldable pub requeue_run : Text → Text → List Run → Option (List Run)
unfolding text_eq
requeue_run id org_id [] = none
requeue_run id org_id (r ∷ rest) =
    let later = requeue_run id org_id rest in
    if text_eq r.id id && text_eq r.org_id org_id && is_awaiting r.status
    then some (record r { status = RunStatus.queued; error = [] } ∷ rest)
    else elim later [ none ↦ none | some rest' ↦ some (r ∷ rest') ]

abbrev pub verdict : Bool → ApprovalStatus
verdict true = ApprovalStatus.approved
verdict false = ApprovalStatus.rejected

abbrev pub or_error : {A : Type 0} → DecideError → Option A → Result DecideError A
or_error e none = err e
or_error e (some a) = ok a

abbrev pub same_status : ApprovalStatus → ApprovalStatus → Bool
same_status ApprovalStatus.waiting ApprovalStatus.waiting = true
same_status ApprovalStatus.approved ApprovalStatus.approved = true
same_status ApprovalStatus.rejected ApprovalStatus.rejected = true
same_status _ _ = false

unfoldable pub same_by : Option Text → Text → Bool
unfolding text_eq
same_by none by = false
same_by (some t) by = text_eq t by

-- What follows the update: `d` is the returned row, `s` holds it.
unfoldable pub after_decision :
    Approval → Text → Bool → Text → Store → Result DecideError (Approval × Store)
unfolding requeue_run same_by
after_decision d org_id approve by s =
    if same_status d.status (verdict approve) && same_by d.decided_by by
    then or_error no_run (requeue_run d.run_id org_id s.runs)
      >>= (λ runs. ok (d, record s { runs = runs }))
    else ok (d, s)

-- handleApprovalDecide, with the row that it reports. An error rolls the transaction back.
unfoldable pub decide : Text → Text → Bool → Text → Store → Result DecideError (Approval × Store)
unfolding find_row update_rows after_decision
decide id org_id approve by s =
    if is_empty id || is_empty org_id
    then err missing_ids
    else (or_error no_approval (find_row id org_id s.approvals) >>= λ a.
        after_decision (written (verdict approve) by a) org_id approve by
          (record s { approvals = update_rows id org_id (verdict approve) by s.approvals }))

same_status_refl : (v : ApprovalStatus) → same_status v v ≡ true
same_status_refl ApprovalStatus.waiting = refl
same_status_refl ApprovalStatus.approved = refl
same_status_refl ApprovalStatus.rejected = refl

-- The row just written always passes the test for a repeated decision.
after_decision_lem :
    (a : Approval) (org_id : Text) (approve : Bool) (by : Text) (s : Store)
    → after_decision (written (verdict approve) by a) org_id approve by s ≡ (
        or_error no_run (requeue_run a.run_id org_id s.runs)
        >>= (λ runs. ok (written (verdict approve) by a, record s { runs = runs })))
unfolding after_decision same_by
after_decision_lem a org_id approve by s =
    simp (same_status_refl (verdict approve), text_eq_refl by)

-- A decision is final only until the next: approval.decide writes the new verdict and the new
-- decider over any earlier ones, and requeues the run, whenever the row and a waiting run exist.
pub decide_overwrites :
    (id org_id : Text) (approve : Bool) (by : Text) (s : Store) (a : Approval) (runs : List Run)
    → is_empty id ≡ false
    → is_empty org_id ≡ false
    → find_row id org_id s.approvals ≡ some a
    → requeue_run a.run_id org_id s.runs ≡ some runs
    → decide id org_id approve by s
      ≡ ok (
        record a { status = verdict approve; decided_by = some by },
        record s {
          approvals = update_rows id org_id (verdict approve) by s.approvals;
          runs = runs;
        },
      )
unfolding decide
decide_overwrites id org_id approve by s a runs hid horg found waiting =
    rw (hid, horg, decide)
      (rw (found, decide)
        (after_decision_lem a org_id approve by
            (record s { approvals = update_rows id org_id (verdict approve) by s.approvals })
          ∙ rw waiting))
