-- ===== src/Agent/Loop.antt =====
-- internal/agentrt/tools.go: runToolLoop. The model, the dispatch of a tool call and the
-- cancellation flag are parameters over a state E, the world outside the loop.
use boardchestrator.Prelude.{
  ℕ, zero, suc, ◌+◌, Bool, true, false, Option, none, some, List, [], ◌∷◌, ◌++◌, Text, codes,
  Result, ok, err, if◌then◌else◌,
}
use boardchestrator.Agent.Model.{LoopOutcome}

pub record Message : Type 0 where
  pub role : Text
  pub content : Text

pub record ToolCall : Type 0 where
  pub name : Text
  pub arguments : Text

pub record Choice : Type 0 where
  pub message : Message
  pub tool_calls : List ToolCall

-- The usage, and the first choice where there is one.
pub record Response : Type 0 where
  pub prompt_tokens : ℕ
  pub completion_tokens : ℕ
  pub choice : Option Choice

-- What dispatchTool answers: the tool's output, ErrApprovalPending, or another error.
pub data ToolAnswer : Type 0 where
  output : Text → ToolAnswer
  awaits : ToolAnswer
  refused : Text → ToolAnswer

pub record Outside (E : Type 0) : Type 0 where
  pub is_cancelled : E → Bool
  pub complete : E → List Message → Result Text Response × E
  pub record_step : E → Response → E
  pub dispatch_tool : E → ToolCall → ToolAnswer × E
  pub error_content : ToolCall → Text → Text

abbrev pub max_steps_per_run : ℕ
max_steps_per_run = 25

abbrev pub ended : ℕ → ℕ → LoopOutcome
ended prompt completion = record {
  cancelled = false;
  step_capped = false;
  approval_pending = false;
  prompt_tokens = prompt;
  completion_tokens = completion;
}

abbrev pub tool_message : Text → Message
tool_message content = record { role = codes "tool"; content = content }

-- What a round of tool calls gives: whether one awaits approval, the results, and the state.
pub record Round (E : Type 0) : Type 0 where
  pub pending : Bool
  pub results : List Message
  pub state : E

abbrev pub add_result : {E : Type 0} → Message → Round E → Round E
add_result m r = record r { results = m ∷ r.results }

module _ {E : Type 0} (o : Outside E) where
  -- One answer of dispatchTool; `rest` is the loop over the calls that follow.
  unfoldable pub run_answer : ToolCall → (E → Round E) → ToolAnswer × E → Round E
  run_answer call rest (awaits, e) = record { pending = true; results = []; state = e }
  run_answer call rest (output content, e) = add_result (tool_message content) (rest e)
  run_answer call rest (refused error, e) =
      add_result (tool_message (o.error_content call error)) (rest e)

  -- The loop over the tool calls, which breaks at one that awaits approval.
  unfoldable pub run_calls : E → List ToolCall → Round E
  unfolding run_answer
  run_calls e [] = record { pending = false; results = []; state = e }
  run_calls e (call ∷ calls) = run_answer call (λ e'. run_calls e' calls) (o.dispatch_tool e call)

  abbrev pub Outcome : Type 0
  Outcome = Result Text LoopOutcome × E

  -- The rest of an iteration after the tool calls: `again` is the next iteration.
  unfoldable pub after_calls :
      (E → List Message → ℕ → ℕ → Outcome) → List Message → ℕ → ℕ → Round E → Outcome
  after_calls again messages prompt completion r =
      if r.pending
      then (ok (record (ended prompt completion) { approval_pending = true }), r.state)
      else again r.state (messages ++ r.results) prompt completion

  unfoldable pub after_choice :
      (E → List Message → ℕ → ℕ → Outcome) → List Message → ℕ → ℕ → E → Choice → Outcome
  unfolding run_calls after_calls
  after_choice again messages prompt completion e (c) = elim c.tool_calls [
    | [] ↦ (ok (ended prompt completion), e)
    | call ∷ calls ↦
        after_calls again (messages ++ c.message ∷ []) prompt completion
          (run_calls e (call ∷ calls))
  ]

  unfoldable pub after_reply :
      (E → List Message → ℕ → ℕ → Outcome) → List Message → ℕ → ℕ → E → Option Choice → Outcome
  unfolding after_choice
  after_reply again messages prompt completion e none = (ok (ended prompt completion), e)
  after_reply again messages prompt completion e (some c) =
      after_choice again messages prompt completion e c

  -- The rest of an iteration after the model has answered.
  unfoldable pub after_response :
      (E → List Message → ℕ → ℕ → Outcome)
      → List Message
      → ℕ
      → ℕ
      → Result Text Response × E
      → Outcome
  unfolding after_reply
  after_response again messages prompt completion (err error, e) = (err error, e)
  after_response again messages prompt completion (ok r, e) =
      after_reply again messages (prompt + r.prompt_tokens) (completion + r.completion_tokens)
        (o.record_step e r) r.choice

  -- `for { ... }` with `left` steps before the cap.
  unfoldable pub tool_loop : ℕ → E → List Message → ℕ → ℕ → Outcome
  unfolding after_response
  tool_loop zero e messages prompt completion =
      if o.is_cancelled e
      then (ok (record (ended 0 0) { cancelled = true }), e)
      else (ok (record (ended 0 0) { step_capped = true }), e)
  tool_loop (suc left) e messages prompt completion =
      let iteration =
        after_response (tool_loop left) messages prompt completion (o.complete e messages) in
      if o.is_cancelled e then (ok (record (ended 0 0) { cancelled = true }), e) else iteration

  -- The loop of runToolLoop, from its two first messages.
  unfoldable pub run_tool_loop : E → Text → Text → Outcome
  unfolding tool_loop
  run_tool_loop e system prompt =
      tool_loop max_steps_per_run e
        (record { role = codes "system"; content = system }
          ∷ record { role = codes "user"; content = prompt }
          ∷ [])
        0 0
