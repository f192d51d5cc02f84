-- ===== src/Job/Table.antt =====
-- Lookups in the job table after an update of one row.
use boardchestrator.Prelude.{
  ◌≡◌, refl, sym, ◌∙◌, ap, inl, inr, true, false, some, [], ◌∷◌, Text, text_eq, text_eq→eq,
  Bool-cases, if◌then◌else◌,
}
use boardchestrator.Job.{Job, Jobs, find_job, update_job}

-- An update that leaves the primary key alone.
abbrev pub KeepsId : (Job → Job) → Type 0
KeepsId f = (j : Job) → (f j).id ≡ j.id

pub find_job-update_self :
    (id : Text) (f : Job → Job) (js : Jobs) (j : Job)
    → KeepsId f
    → find_job id js ≡ some j
    → find_job id (update_job id f js) ≡ some (f j)
unfolding find_job update_job
find_job-update_self id f [] j keeps e = cc
find_job-update_self id f (k ∷ js) j keeps e = elim (Bool-cases (text_eq k.id id)) [
  | inl hit ↦
      let same : k ≡ j = cc (rw (hit, find_job) at e) in
      rw hit (simp (keeps k, hit) (ap (λ (x : Job). some (f x)) same))
  | inr other ↦
      rw other (rw other (find_job-update_self id f js j keeps (rw (other, find_job) at e)))
]

-- Two different keys.
pub text_eq_other : (a b c : Text) → text_eq a b ≡ true → text_eq b c ≡ false → text_eq a c ≡ false
text_eq_other a b c h e = rw (text_eq→eq a b h) e

pub find_job-update_ne :
    (i id : Text) (f : Job → Job) (js : Jobs)
    → KeepsId f
    → text_eq id i ≡ false
    → find_job i (update_job id f js) ≡ find_job i js
unfolding find_job update_job
find_job-update_ne i id f [] keeps ne = refl
find_job-update_ne i id f (k ∷ js) keeps ne = elim (Bool-cases (text_eq k.id id)) [
  | inl hit ↦
      let far = text_eq_other k.id id i hit ne in
      rw hit (simp (keeps k, far) (find_job-update_ne i id f js keeps ne))
  | inr other ↦
      rw other
        (ap (λ t. if text_eq k.id i then some k else t) (find_job-update_ne i id f js keeps ne))
]

pub find_job-id : (id : Text) (js : Jobs) (j : Job) → find_job id js ≡ some j → j.id ≡ id
unfolding find_job
find_job-id id [] j e = cc
find_job-id id (k ∷ js) j e = elim (Bool-cases (text_eq k.id id)) [
  | inl hit ↦
      let same : k ≡ j = cc (rw (hit, find_job) at e) in
      ap (λ (x : Job). x.id) (sym same) ∙ text_eq→eq k.id id hit
  | inr other ↦ find_job-id id js j (rw (other, find_job) at e)
]
