-- ===== src/Agent/Bounds.antt =====
-- internal/agentrt/tools.go: how many times runToolLoop calls the model, and what its outcome
-- says of the tokens.
use boardchestrator.Prelude.{
  ap, ℕ, zero, suc, ◌+◌, ◌≤◌, ◌≡◌, refl, ◌∙◌, subst, inl, inr, ◌⊎◌, true, false, Option, none, some,
  List, [], ◌∷◌, ◌++◌, arith, ◌||◌, Text, Result, ok, err, Bool-cases,
}
use boardchestrator.Agent.Model.{LoopOutcome}
use boardchestrator.Agent.Loop.{
  tool_message, add_result, Message, ToolCall, Choice, Response, ToolAnswer, output, awaits,
  refused, Outside, ended, Round, run_calls, run_answer, after_reply, Outcome, after_calls,
  after_choice, after_response, tool_loop, run_tool_loop,
}

module _ {E : Type 0} (o : Outside E) where
  -- A round in which a call awaits approval is the same whatever calls follow.
  pub run_calls_stops :
      (e : E) (calls later : List ToolCall)
      → (run_calls o e calls).pending ≡ true
      → run_calls o e (calls ++ later) ≡ run_calls o e calls
  unfolding run_calls run_answer
  run_calls_stops e [] later h = cc
  run_calls_stops e (call ∷ calls) later h =
      split (λ e'. run_calls_stops e' calls later) (o.dispatch_tool e call) h
    where
      split :
          ((e' : E)
            → (run_calls o e' calls).pending ≡ true
            → run_calls o e' (calls ++ later) ≡ run_calls o e' calls)
          → (answer : ToolAnswer × E)
          → (run_answer o call (λ e'. run_calls o e' calls) answer).pending ≡ true
          → run_answer o call (λ e'. run_calls o e' (calls ++ later)) answer
            ≡ run_answer o call (λ e'. run_calls o e' calls) answer
      split next (awaits, e') h = refl
      split next (output content, e') h = ap (λ r. add_result (tool_message content) r) (next e' h)
      split next (refused error, e') h =
          ap (λ r. add_result (tool_message (o.error_content call error)) r) (next e' h)

  -- The rule of the loop: what holds before an iteration and is kept by its calls gives what
  -- holds of the outcome.
  module _ (I : ℕ → E → ℕ → ℕ → Type 0) (Q : Result Text LoopOutcome × E → Type 0)
      (stops : (n : ℕ) (e : E) (p c : ℕ)
        → I n e p c
        → Q (ok (record (ended 0 0) { cancelled = true }), e))
      (caps : (e : E) (p c : ℕ)
        → I zero e p c
        → Q (ok (record (ended 0 0) { step_capped = true }), e))
      (fails : (n : ℕ) (e : E) (p c : ℕ) (error : Text) (ms : List Message)
        → I (suc n) e p c
        → Q (err error, (o.complete e ms).1))
      (answers : (n : ℕ) (e : E) (p c : ℕ) (r : Response) (ms : List Message)
        → I (suc n) e p c
        → I n
            (o.record_step (((o.complete e ms).1)) r)
            (p + r.prompt_tokens)
            (c + r.completion_tokens))
      (calls_tool : (n : ℕ) (e : E) (p c : ℕ) (call : ToolCall)
        → I n e p c
        → I n (((o.dispatch_tool e call).1)) p c)
      (ends : (n : ℕ) (e : E) (p c : ℕ) → I n e p c → Q (ok (ended p c), e))
      (parks : (n : ℕ) (e : E) (p c : ℕ)
        → I n e p c
        → Q (ok (record (ended p c) { approval_pending = true }), e)) where
    run_calls_rule :
        (n : ℕ) (e : E) (p c : ℕ) (calls : List ToolCall)
        → I n e p c
        → I n (run_calls o e calls).state p c
    unfolding run_calls run_answer
    run_calls_rule n e p c [] h = h
    run_calls_rule n e p c (call ∷ calls) h =
        split (λ e'. run_calls_rule n e' p c calls) (o.dispatch_tool e call)
          (calls_tool n e p c call h)
      where
        split :
            ((e' : E) → I n e' p c → I n (run_calls o e' calls).state p c)
            → (answer : ToolAnswer × E) → I n (answer.1) p c
            → I n (run_answer o call (λ e'. run_calls o e' calls) answer).state p c
        split ih (awaits, e') h' = h'
        split ih (output content, e') h' = ih e' h'
        split ih (refused error, e') h' = ih e' h'

    after_calls_rule :
        (again : E → List Message → ℕ → ℕ → Outcome o) (n : ℕ) (ms : List Message) (p c : ℕ)
        (r : Round E)
        → ((e : E) (ms' : List Message) → I n e p c → Q (again e ms' p c))
        → I n r.state p c
        → Q (after_calls o again ms p c r)
    unfolding after_calls
    after_calls_rule again n ms p c (r) next h = elim (Bool-cases r.pending) [
      | inl e ↦ rw e (parks n r.state p c h)
      | inr e ↦ rw e (next r.state (ms ++ r.results) h)
    ]

    after_choice_rule :
        (again : E → List Message → ℕ → ℕ → Outcome o) (n : ℕ) (ms : List Message) (p c : ℕ) (e : E)
        (message : Message) (calls : List ToolCall)
        → ((e : E) (ms' : List Message) → I n e p c → Q (again e ms' p c))
        → I n e p c
        → Q (after_choice o again ms p c e (record { message = message; tool_calls = calls }))
    unfolding after_choice
    after_choice_rule again n ms p c e message [] next h = ends n e p c h
    after_choice_rule again n ms p c e message (call ∷ calls) next h =
        after_calls_rule again n (ms ++ message ∷ []) p c (run_calls o e (call ∷ calls)) next
          (run_calls_rule n e p c (call ∷ calls) h)

    after_reply_rule :
        (again : E → List Message → ℕ → ℕ → Outcome o) (n : ℕ) (ms : List Message) (p c : ℕ) (e : E)
        (choice : Option Choice)
        → ((e : E) (ms' : List Message) → I n e p c → Q (again e ms' p c))
        → I n e p c
        → Q (after_reply o again ms p c e choice)
    unfolding after_reply
    after_reply_rule again n ms p c e none next h = ends n e p c h
    after_reply_rule again n ms p c e (some choice) next h =
        after_choice_rule again n ms p c e choice.message choice.tool_calls next h

    after_response_rule :
        (again : E → List Message → ℕ → ℕ → Outcome o) (n : ℕ) (ms : List Message) (p c : ℕ)
        (out : Result Text Response × E)
        → ((e : E) (ms' : List Message) (p' c' : ℕ) → I n e p' c' → Q (again e ms' p' c'))
        → ((error : Text) → Q (err error, out.1))
        → ((r : Response)
            → I n (o.record_step out.1 r) (p + r.prompt_tokens) (c + r.completion_tokens))
        → Q (after_response o again ms p c out)
    unfolding after_response
    after_response_rule again n ms p c (err error, e) next bad good = bad error
    after_response_rule again n ms p c (ok r, e) next bad good =
        after_reply_rule again n ms (p + r.prompt_tokens) (c + r.completion_tokens)
          (o.record_step e r) r.choice
          (λ e' ms' h. next e' ms' (p + r.prompt_tokens) (c + r.completion_tokens) h) (good r)

    pub tool_loop_rule :
        (n : ℕ) (e : E) (ms : List Message) (p c : ℕ) → I n e p c → Q (tool_loop o n e ms p c)
    unfolding tool_loop
    tool_loop_rule zero e ms p c h = elim (Bool-cases (o.is_cancelled e)) [
      | inl q ↦ rw q (stops zero e p c h)
      | inr q ↦ rw q (caps e p c h)
    ]
    tool_loop_rule (suc n) e ms p c h = elim (Bool-cases (o.is_cancelled e)) [
      | inl q ↦ rw q (stops (suc n) e p c h)
      | inr q ↦ rw q (
          after_response_rule (tool_loop o n) n ms p c (o.complete e ms)
            (λ e' ms' p' c' h'. tool_loop_rule n e' ms' p' c' h')
            (λ error. fails n e p c error ms h) (λ r. answers n e p c r ms h))
    ]

  -- Where `calls` counts the calls of the model, which dispatching a tool and recording a step
  -- do not raise, runToolLoop ends with at most 25 more of them.
  pub run_tool_loop_bounded :
      (calls : E → ℕ)
      → ((e : E) (ms : List Message) → calls (o.complete e ms).1 ≤ suc (calls e))
      → ((e : E) (r : Response) → calls (o.record_step e r) ≤ calls e)
      → ((e : E) (call : ToolCall) → calls (o.dispatch_tool e call).1 ≤ calls e)
      → (e : E) (system prompt : Text) → calls (run_tool_loop o e system prompt).1 ≤ calls e + 25
  unfolding run_tool_loop
  run_tool_loop_bounded calls complete_le record_le dispatch_le e system prompt =
      tool_loop_rule (λ n e' p c. calls e' + n ≤ calls e + 25) (λ out. calls out.1 ≤ calls e + 25)
        (λ n e' p c h. omega arith) (λ e' p c h. omega arith)
        (λ n e' p c error ms h. let k = complete_le e' ms in omega arith)
        (λ n e' p c r ms h.
          let k = complete_le e' ms in let m = record_le (o.complete e' ms).1 r in omega arith)
        (λ n e' p c call h. let k = dispatch_le e' call in omega arith) (λ n e' p c h. omega arith)
        (λ n e' p c h. omega arith) 25 e _ 0 0 (omega arith)

  abbrev Reported : ℕ → ℕ → LoopOutcome → Type 0
  Reported before after out =
      ((out.cancelled || out.step_capped) ≡ false
        × after ≡ before + (out.prompt_tokens + out.completion_tokens))
      ⊎ ((out.cancelled || out.step_capped) ≡ true × out.prompt_tokens + out.completion_tokens ≡ 0)

  abbrev the_result : Result Text LoopOutcome → Result Text LoopOutcome
  the_result r = r

  reported :
      (before after : ℕ) {x out : LoopOutcome}
      → ok x ≡ the_result (ok out)
      → Reported before after x
      → Reported before after out
  reported before after {x} {out} q h =
      let same : x ≡ out = cc in subst (λ y. Reported before after y) same h

  -- Where `recorded` is the sum of the tokens of the steps recorded, the outcome of a run that
  -- ends by itself or awaits approval has the tokens its steps recorded, and every outcome that
  -- says cancelled or capped has none.
  pub run_tool_loop_tokens :
      (recorded : E → ℕ)
      → ((e : E) (ms : List Message) → recorded (o.complete e ms).1 ≡ recorded e)
      → ((e : E) (r : Response)
          → recorded (o.record_step e r) ≡ recorded e + (r.prompt_tokens + r.completion_tokens))
      → ((e : E) (call : ToolCall) → recorded (o.dispatch_tool e call).1 ≡ recorded e)
      → (e : E) (system prompt : Text) (out : LoopOutcome)
      → (run_tool_loop o e system prompt).0 ≡ ok out
      → ((out.cancelled || out.step_capped) ≡ false
          × recorded (run_tool_loop o e system prompt).1
            ≡ recorded e + (out.prompt_tokens + out.completion_tokens))
        ⊎ ((out.cancelled || out.step_capped) ≡ true
            × out.prompt_tokens + out.completion_tokens ≡ 0)
  unfolding run_tool_loop
  run_tool_loop_tokens recorded complete_eq record_eq dispatch_eq e system prompt =
      tool_loop_rule (λ n e' p c. recorded e' ≡ recorded e + (p + c))
        (λ final.
          (out : LoopOutcome) → final.0 ≡ ok out → Reported (recorded e) (recorded final.1) out)
        (λ n e' p c h out q. reported _ _ q (inr (refl, refl)))
        (λ e' p c h out q. reported _ _ q (inr (refl, refl))) (λ n e' p c error ms h out q. cc)
        (λ n e' p c r ms h.
          let k = complete_eq e' ms in let m = record_eq (o.complete e' ms).1 r in omega arith)
        (λ n e' p c call h. dispatch_eq e' call ∙ h)
        (λ n e' p c h out q. reported _ _ q (inl (refl, h)))
        (λ n e' p c h out q. reported _ _ q (inl (refl, h))) 25 e _ 0 0 (omega arith)
