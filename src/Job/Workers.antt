-- ===== src/Job/Workers.antt =====
-- Several workers over one table, as a step relation: a job has one holder at a time.
use boardchestrator.Prelude.{
  ℕ, ◌≡◌, refl, sym, subst, ap, ◌∙◌, inl, inr, Bool, true, false, Option, none, some, List, [], ◌∷◌,
  arith, Text, text_eq, text_eq→eq, eq→text_eq, Bool-cases, Option-cases,
}
use boardchestrator.Job.{Status, Job, Jobs, is_due, lock, find_job, update_job, claim, settle_job}
use boardchestrator.Job.Table.{find_job-update_self, find_job-update_ne, find_job-id}
use boardchestrator.Job.Outcome.{settle_other}

-- A worker with the row that its claim returned.
pub record Hold : Type 0 where
  pub worker : Text
  pub job : Job

pub record Pool : Type 0 where
  pub jobs : Jobs
  pub held : List Hold

-- A hold taken out of the list.
pub data Picks (x : Hold) : List Hold → List Hold → Type 0 where
  here : {xs : List Hold} → Picks x (x ∷ xs) xs
  there : {y : Hold} {xs ys : List Hold} → Picks x xs ys → Picks x (y ∷ xs) (y ∷ ys)

-- A worker claims any job id at any time, or finishes a job that it holds, in any order.
pub data Step : Pool → Pool → Type 0 where
  claims :
      {p : Pool} {j : Job} {js : Jobs} (now : ℕ) (id worker : Text)
      → claim now id worker p.jobs ≡ (some j, js)
      → Step p (record { jobs = js; held = record { worker = worker; job = j } ∷ p.held })
  finishes :
      {p : Pool} {x : Hold} {rest : List Hold} (now : ℕ) (b : Bool)
      → Picks x p.held rest
      → Step p (record { jobs = settle_job now x.job (b, p.jobs); held = rest })

pub data Reach (start : Jobs) : Pool → Type 0 where
  begin : Reach start (record { jobs = start; held = [] })
  next : {p q : Pool} → Reach start p → Step p q → Reach start q

-- The row of a job is marked as running.
abbrev IsRunning : Jobs → Text → Type 0
IsRunning js id = (row : Job) × (find_job id js ≡ some row) × (row.status ≡ Status.running)

-- No hold in the list is on this job.
abbrev pub NotHeld : Text → List Hold → Type 0
NotHeld id [] = Unit
NotHeld id (x ∷ xs) = (text_eq x.job.id id ≡ false) × NotHeld id xs

-- No two holds are on one job.
abbrev pub Exclusive : List Hold → Type 0
Exclusive [] = Unit
Exclusive (x ∷ xs) = NotHeld x.job.id xs × Exclusive xs

abbrev AllRunning : Jobs → List Hold → Type 0
AllRunning js [] = Unit
AllRunning js (x ∷ xs) = IsRunning js x.job.id × AllRunning js xs

Picks-NotHeld :
    {x : Hold} {xs ys : List Hold} (id : Text) → Picks x xs ys → NotHeld id xs → NotHeld id ys
Picks-NotHeld id here h = h.1
Picks-NotHeld id (there p) h = (h.0, Picks-NotHeld id p h.1)

Picks-Exclusive : {x : Hold} {xs ys : List Hold} → Picks x xs ys → Exclusive xs → Exclusive ys
Picks-Exclusive here h = h.1
Picks-Exclusive (there {y = y} p) h = (Picks-NotHeld y.job.id p h.0, Picks-Exclusive p h.1)

NotHeld-head :
    {x : Hold} {xs ys : List Hold} (id : Text)
    → Picks x xs ys
    → NotHeld id xs
    → text_eq x.job.id id ≡ false
NotHeld-head id here h = h.0
NotHeld-head id (there p) h = NotHeld-head id p h.1

text_eq-false_sym : (a b : Text) → text_eq a b ≡ false → text_eq b a ≡ false
text_eq-false_sym a b e = elim (Bool-cases (text_eq b a)) [
  | inl same ↦ absurd (cc (e, eq→text_eq a b (sym (text_eq→eq b a same))))
  | inr other ↦ other
]

-- The hold taken out is on no job of those that stay.
Picks-others : {x : Hold} {xs ys : List Hold} → Picks x xs ys → Exclusive xs → NotHeld x.job.id ys
Picks-others here h = h.0
Picks-others {x} (there {y = y} p) h =
    (text_eq-false_sym x.job.id y.job.id (NotHeld-head y.job.id p h.0), Picks-others p h.1)

AllRunning-other :
    (js js' : Jobs) (id : Text) (xs : List Hold)
    → ((i : Text) → text_eq id i ≡ false → find_job i js' ≡ find_job i js)
    → NotHeld id xs
    → AllRunning js xs
    → AllRunning js' xs
AllRunning-other js js' id [] same out run = tt
AllRunning-other js js' id (x ∷ xs) same out ((row, e, st), run) = (
  (row, same x.job.id (text_eq-false_sym x.job.id id out.0) ∙ e, st),
  AllRunning-other js js' id xs same out.1 run,
)

Picks-AllRunning :
    {x : Hold} {xs ys : List Hold} (js : Jobs) → Picks x xs ys → AllRunning js xs → AllRunning js ys
Picks-AllRunning js here h = h.1
Picks-AllRunning js (there p) h = (h.0, Picks-AllRunning js p h.1)

-- A queued job is nobody's.
queued-NotHeld :
    (js : Jobs) (id : Text) (row : Job) (xs : List Hold)
    → find_job id js ≡ some row
    → row.status ≡ Status.queued
    → AllRunning js xs
    → NotHeld id xs
queued-NotHeld js id row [] found q run = tt
queued-NotHeld js id row (x ∷ xs) found q ((other, e, st), run) = (
  (elim (Bool-cases (text_eq x.job.id id)) [
    | inl same ↦
        let e' = subst (λ t. find_job t js ≡ some other) (text_eq→eq x.job.id id same) e in
        absurd (cc (found, e', q, st))
    | inr far ↦ far
  ]),
  queued-NotHeld js id row xs found q run,
)

record Claimed (now : ℕ) (id who : Text) (js : Jobs) (j : Job) (js' : Jobs) : Type 0 where
  row : Job
  found : find_job id js ≡ some row
  idle : row.status ≡ Status.queued
  locked : j ≡ lock who row
  updated : js' ≡ update_job id (lock who) js

due-queued : (now : ℕ) (j : Job) → is_due now j ≡ true → j.status ≡ Status.queued
due-queued now j e = ground arith

claim-Claimed :
    (now : ℕ) (id who : Text) (js : Jobs) (j : Job) (js' : Jobs)
    → claim now id who js ≡ (some j, js')
    → Claimed now id who js j js'
unfolding claim
claim-Claimed now id who js j js' e = elim (Option-cases (find_job id js)) [
  | inl missing ↦ absurd (cc (ap (λ (r : Option Job × Jobs). r.0) (rw (missing, claim) at e)))
  | inr (row, found) ↦ elim (Bool-cases (is_due now row)) [
    | inl due ↦
        let whole : ◌≡◌ {A = Option Job × Jobs} (some (lock who row), update_job id (lock who) js)
            (some j, js') =
          simp due at (rw (found, claim) at e) in
        record {
          row = row;
          found = found;
          idle = due-queued now row due;
          locked = cc (ap (λ (r : Option Job × Jobs). r.0) whole);
          updated = sym (ap (λ (r : Option Job × Jobs). r.1) whole);
        }
    | inr early ↦
        let whole : ◌≡◌ {A = Option Job × Jobs} (none, js) (some j, js') =
          simp early at (rw (found, claim) at e) in
        absurd (cc (ap (λ (r : Option Job × Jobs). r.0) whole))
  ]
]

record Sound (p : Pool) : Type 0 where
  exclusive : Exclusive p.held
  marked : AllRunning p.jobs p.held

Claimed-Sound :
    (now : ℕ) (id who : Text) (p : Pool) (j : Job) (js' : Jobs)
    → Claimed now id who p.jobs j js'
    → Sound p
    → Sound (record { jobs = js'; held = record { worker = who; job = j } ∷ p.held })
Claimed-Sound now id who p j js' c s =
    let free = queued-NotHeld p.jobs id c.row p.held c.found c.idle s.marked in
    let key : j.id ≡ id = ap (λ (x : Job). x.id) c.locked ∙ find_job-id id p.jobs c.row c.found in
    let taken : find_job id js' ≡ some j =
      subst (λ t. find_job id t ≡ some j) (sym c.updated)
        (find_job-update_self id (lock who) p.jobs c.row (λ k. refl) c.found
          ∙ ap (λ (x : Job). some x) (sym c.locked)) in
    record {
      exclusive = (subst (λ t. NotHeld t p.held) (sym key) free, s.exclusive);
      marked = (
        (
          j,
          subst (λ t. find_job t js' ≡ some j) (sym key) taken,
          ap (λ (x : Job). x.status) c.locked,
        ),
        AllRunning-other p.jobs js' id p.held
            (λ i ne.
              subst (λ t. find_job i t ≡ find_job i p.jobs) (sym c.updated)
                (find_job-update_ne i id (lock who) p.jobs (λ k. refl) ne))
            free s.marked,
      );
    }

Step-Sound : {p q : Pool} → Step p q → Sound p → Sound q
Step-Sound {p} (claims {j = j} {js = js} now id worker e) s =
    Claimed-Sound now id worker p j js (claim-Claimed now id worker p.jobs j js e) s
Step-Sound {p} (finishes {x = x} {rest = rest} now b pick) s =
    let out = Picks-others pick s.exclusive in
    record {
      exclusive = Picks-Exclusive pick s.exclusive;
      marked =
          AllRunning-other p.jobs (settle_job now x.job (b, p.jobs)) x.job.id rest
            (λ i ne. settle_other now b x.job p.jobs i ne) out
            (Picks-AllRunning p.jobs pick s.marked);
    }

Reach-Sound : {start : Jobs} {p : Pool} → Reach start p → Sound p
Reach-Sound begin = record { exclusive = tt; marked = tt }
Reach-Sound (next r st) = Step-Sound st (Reach-Sound r)

-- From any job table, however claims and finished runs of any workers are interleaved, no two
-- workers hold one job at once. Handlers that write to the job table are not among the steps.
pub Reach-Exclusive : {start : Jobs} {p : Pool} → Reach start p → Exclusive p.held
Reach-Exclusive r = (Reach-Sound r).exclusive
