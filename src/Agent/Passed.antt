-- ===== src/Agent/Passed.antt =====
-- internal/agentrt/engine.go: what the checks of EnqueueRun say of the runs in the table.
use boardchestrator.Prelude.{
  ℕ, ◌-◌, ◌<◌, ◌≡◌, refl, sym, ◌∙◌, inl, inr, ◌⊎◌, Bool, true, false, ◌&&◌, Option, none, some,
  List, arith, Text, text_eq, eq→text_eq, is_empty, ok, ◌>>=◌, length, keep, In, In→keep, ltb,
  ltb→lt, Bool-cases, >>=-eq-ok, [], ◌∷◌,
}
use boardchestrator.Agent.Model.{Run}
use boardchestrator.Agent.Trigger.{
  Env, Request, AgentLimits, Query, in_window, tokens, find_agent, is_active, is_counted,
  is_task_run, is_project_run, is_agent_run, sum_tokens, hour, needed, ask, task_is_free,
  project_is_free, is_below_hourly, is_below_budget, may_run,
}
use boardchestrator.Agent.Caps.{and_then-true, tested, task_is_free_lem, project_is_free_lem}

not-In-keep :
    (p : Run → Bool) (runs : List Run)
    → length (keep p runs) ≡ 0
    → (x : Run) → In x runs
    → p x ≡ true
    → ⊥
not-In-keep p runs nothing x m h = empty (keep p runs) nothing (In→keep p x runs m h)
  where
    empty : (xs : List Run) → length xs ≡ 0 → In x xs → ⊥
    empty [] e m' = m'
    empty (y ∷ ys) e m' = absurd (omega arith)

is_empty_eq : (t : Text) → is_empty t ≡ true → t ≡ []
is_empty_eq [] h = refl
is_empty_eq (c ∷ t) h = cc

-- The runs that an agent's two limits count.
abbrev pub window_runs : Text → Text → ℕ → List Run → List Run
unfolding is_agent_run
window_runs agent_id org_id since runs =
    keep (λ x. is_agent_run agent_id org_id since x && is_counted x.status) runs

abbrev pub month_runs : Text → Text → ℕ → List Run → List Run
unfolding is_agent_run
month_runs agent_id org_id since runs = keep (is_agent_run agent_id org_id since) runs

module _ {M : Type 0} (v : Env M) where
  -- What the checks of the task, the project and the agent demand.
  pub record Passed (r : Request) (runs : List Run) : Type 0 where
    pub of_task :
        (r.task_id ≡ [])
        ⊎ ((x : Run)
            → In x runs
            → (x.task_id ≡ r.task_id)
            → (x.org_id ≡ r.org_id)
            → is_active x.status ≡ false)
    pub of_project :
        (r.project_id ≡ [])
        ⊎ ((x : Run)
            → In x runs
            → (x.project_id ≡ r.project_id)
            → (x.org_id ≡ r.org_id)
            → is_active x.status ≡ false)
    pub of_agent :
        (a : AgentLimits) × (v.agent r.agent_id ≡ some a)
        × ((a.runs_per_hour ≡ 0)
            ⊎ (length (window_runs r.agent_id r.org_id (v.now - hour) runs) < a.runs_per_hour))
        × ((a.token_budget ≡ 0)
            ⊎ (sum_tokens (month_runs r.agent_id r.org_id v.month_start runs) < a.token_budget))

  both_tests : (a b c : Bool) → a ≡ true → b ≡ true → (a && b && c ≡ true → ⊥) → c ≡ false
  both_tests a b c ha hb h = elim (Bool-cases c) [
    | inr e ↦ e
    | inl e ↦ absurd (h (simp (ha, hb, e)))
  ]

  task-Passed :
      (r : Request) (runs : List Run)
      → task_is_free v r runs ≡ ok true
      → (r.task_id ≡ [])
        ⊎ ((x : Run)
            → In x runs
            → (x.task_id ≡ r.task_id)
            → (x.org_id ≡ r.org_id)
            → is_active x.status ≡ false)
  unfolding is_task_run
  task-Passed r runs h = elim (Bool-cases (is_empty r.task_id)) [
    | inl e ↦ inl (is_empty_eq r.task_id e)
    | inr named ↦ inr (λ x m task org.
        both_tests (text_eq x.task_id r.task_id) (text_eq x.org_id r.org_id) (is_active x.status)
          (eq→text_eq x.task_id r.task_id task) (eq→text_eq x.org_id r.org_id org)
          (not-In-keep (is_task_run r.task_id r.org_id) runs (task_is_free_lem v r runs named h) x
            m))
  ]

  project-Passed :
      (r : Request) (runs : List Run)
      → project_is_free v r runs ≡ ok true
      → (r.project_id ≡ [])
        ⊎ ((x : Run)
            → In x runs
            → (x.project_id ≡ r.project_id)
            → (x.org_id ≡ r.org_id)
            → is_active x.status ≡ false)
  unfolding is_project_run
  project-Passed r runs h = elim (Bool-cases (is_empty r.project_id)) [
    | inl e ↦ inl (is_empty_eq r.project_id e)
    | inr named ↦ inr (λ x m project org.
        both_tests (text_eq x.project_id r.project_id) (text_eq x.org_id r.org_id)
          (is_active x.status) (eq→text_eq x.project_id r.project_id project)
          (eq→text_eq x.org_id r.org_id org)
          (not-In-keep (is_project_run r.project_id r.org_id) runs
            (project_is_free_lem v r runs named h) x m))
  ]

  no_limit : (n : ℕ) → ltb 0 n ≡ false → n ≡ 0
  no_limit n h = ground arith

  hourly-Passed :
      (r : Request) (a : AgentLimits) (runs : List Run)
      → is_below_hourly v r a runs ≡ ok true
      → (a.runs_per_hour ≡ 0)
        ⊎ (length (window_runs r.agent_id r.org_id (v.now - hour) runs) < a.runs_per_hour)
  unfolding is_below_hourly
  hourly-Passed r a runs h = elim (Bool-cases (ltb 0 a.runs_per_hour)) [
    | inr e ↦ inl (no_limit a.runs_per_hour e)
    | inl e ↦
        let n = length (window_runs r.agent_id r.org_id (v.now - hour) runs) in
        let asked : is_below_hourly v r a runs
            ≡ (ask v in_window n >>= (λ m. ok (ltb m a.runs_per_hour))) =
          simp (e) in
        inr (
          ltb→lt n a.runs_per_hour
            (tested v in_window n (λ m. ltb m a.runs_per_hour) (sym asked ∙ h)))
  ]

  budget-Passed :
      (r : Request) (a : AgentLimits) (runs : List Run)
      → is_below_budget v r a runs ≡ ok true
      → (a.token_budget ≡ 0)
        ⊎ (sum_tokens (month_runs r.agent_id r.org_id v.month_start runs) < a.token_budget)
  unfolding is_below_budget
  budget-Passed r a runs h = elim (Bool-cases (ltb 0 a.token_budget)) [
    | inr e ↦ inl (no_limit a.token_budget e)
    | inl e ↦
        let n = sum_tokens (month_runs r.agent_id r.org_id v.month_start runs) in
        let asked : is_below_budget v r a runs
            ≡ (ask v tokens n >>= (λ m. ok (ltb m a.token_budget))) =
          simp (e) in
        inr
          (ltb→lt n a.token_budget (tested v tokens n (λ m. ltb m a.token_budget) (sym asked ∙ h)))
  ]

  needed-some : {A : Type 0} (q : Query) (o : Option A) (a : A) → needed q o ≡ ok a → o ≡ some a
  needed-some q (some b) a h = cc
  needed-some q (none) a h = cc

  pub may_run-Passed : (r : Request) (runs : List Run) → may_run v r runs ≡ ok true → Passed r runs
  unfolding may_run
  may_run-Passed r runs h =
      let (task, h₁) = and_then-true v (task_is_free v r runs) _ h in
      let (project, h₂) = and_then-true v (project_is_free v r runs) _ h₁ in
      let (a, found, h₃) = >>=-eq-ok (needed find_agent (v.agent r.agent_id)) _ h₂ in
      let (hourly, budget) = and_then-true v (is_below_hourly v r a runs) _ h₃ in
      record {
        of_task = task-Passed r runs task;
        of_project = project-Passed r runs project;
        of_agent = (
          a,
          needed-some find_agent (v.agent r.agent_id) a found,
          hourly-Passed r a runs hourly,
          budget-Passed r a runs budget,
        );
      }
