-- ===== src/Job/Keys.antt =====
-- internal/job/pool.go: the job table has its key, and so has what ListQueued gives.
use boardchestrator.Prelude.{
  ℕ, zero, suc, ◌≡◌, refl, sym, inl, inr, Bool, false, some, [], ◌∷◌, Text, text_eq, text_eq→eq,
  text_eq_refl, eq→text_eq, leb, take, keep, Bool-cases, In, All, All-keep, All-In, All-take,
}
use boardchestrator.Job.{Job, Jobs, find_job, insert_by_run_at, sort_by_run_at}

-- The primary key of the table.
unfoldable pub Distinct : Jobs → Type 0
Distinct [] = Unit {0}
Distinct (j ∷ js) = All (λ (k : Job). text_eq j.id k.id ≡ false) js × Distinct js

pub text_eq-other_way : (s t : Text) → text_eq s t ≡ false → text_eq t s ≡ false
text_eq-other_way s t h = elim (Bool-cases (text_eq t s)) [
  | inl e ↦ absurd (cc (eq→text_eq s t (sym (text_eq→eq t s e)), h))
  | inr e ↦ e
]

pub Distinct-keep : (p : Job → Bool) (js : Jobs) → Distinct js → Distinct (keep p js)
unfolding Distinct
Distinct-keep p [] h = tt
Distinct-keep p (j ∷ js) (fresh, h) = elim (Bool-cases (p j)) [
  | inl e ↦ rw e (All-keep _ p js fresh, Distinct-keep p js h)
  | inr e ↦ rw e (Distinct-keep p js h)
]

pub Distinct-take : (n : ℕ) (js : Jobs) → Distinct js → Distinct (take n js)
unfolding Distinct
Distinct-take zero js h = tt
Distinct-take (suc n) [] h = tt
Distinct-take (suc n) (j ∷ js) (fresh, h) = (All-take _ n js fresh, Distinct-take n js h)

All-insert :
    (P : Job → Type 0) (j : Job) (js : Jobs) → P j → All P js → All P (insert_by_run_at j js)
unfolding insert_by_run_at
All-insert P j [] h hs = (h, tt)
All-insert P j (k ∷ ks) h (hk, hs) = elim (Bool-cases (leb j.run_at k.run_at)) [
  | inl e ↦ rw (e, insert_by_run_at) (h, (hk, hs))
  | inr e ↦ rw (e, insert_by_run_at) (hk, All-insert P j ks h hs)
]

pub All-sort : (P : Job → Type 0) (js : Jobs) → All P js → All P (sort_by_run_at js)
unfolding sort_by_run_at
All-sort P [] h = tt
All-sort P (j ∷ js) (hj, h) = All-insert P j (sort_by_run_at js) hj (All-sort P js h)

Distinct-insert :
    (j : Job) (js : Jobs)
    → All (λ (k : Job). text_eq j.id k.id ≡ false) js
    → Distinct js
    → Distinct (insert_by_run_at j js)
unfolding insert_by_run_at Distinct
Distinct-insert j [] fresh h = (tt, tt)
Distinct-insert j (k ∷ ks) (differ, fresh) (fresh', h) = elim (Bool-cases (leb j.run_at k.run_at)) [
  | inl e ↦ rw (e, insert_by_run_at) ((differ, fresh), (fresh', h))
  | inr e ↦
      rw (e, insert_by_run_at)
        (
          All-insert _ j ks (text_eq-other_way j.id k.id differ) fresh',
          Distinct-insert j ks fresh h,
        )
]

pub Distinct-sort : (js : Jobs) → Distinct js → Distinct (sort_by_run_at js)
unfolding sort_by_run_at Distinct
Distinct-sort [] h = tt
Distinct-sort (j ∷ js) (fresh, h) =
    Distinct-insert j (sort_by_run_at js) (All-sort _ js fresh) (Distinct-sort js h)

pub find_job-Distinct : (js : Jobs) (j : Job) → Distinct js → In j js → find_job j.id js ≡ some j
unfolding find_job Distinct
find_job-Distinct [] j h m = absurd m
find_job-Distinct (k ∷ js) j (fresh, h) (inl same) = rw (same, text_eq_refl k.id) refl
find_job-Distinct (k ∷ js) j (fresh, h) (inr m) =
    rw (All-In _ j js fresh m) (find_job-Distinct js j h m)
