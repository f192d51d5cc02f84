-- ===== src/Agent/Stream.antt =====
-- internal/client/client.go: readStream. internal/agentrt/tools.go: chatStreamLoop. The lines of a
-- response, the decoding of a chunk, the store and the sink of deltas are parameters over a state
-- E, as for runToolLoop. An error of the store is a text.
use boardchestrator.Prelude.{
  ℕ, zero, suc, ◌+◌, true, not, Option, none, some, List, [], ◌∷◌, ◌++◌, Text, codes, text_eq,
  is_empty, has_prefix, drop, Result, ok, err, if◌then◌else◌,
}
use boardchestrator.Agent.Loop.{
  Message, ToolCall, Outside, Round, run_calls, ended, max_steps_per_run, Outcome,
}

pub record Usage : Type 0 where
  pub prompt_tokens : ℕ
  pub completion_tokens : ℕ

pub record Delta : Type 0 where
  pub type : Text
  pub content : Text
  pub tool_calls : List ToolCall
  pub finish_reason : Option Text
  pub usage : Option Usage

pub record StreamResult : Type 0 where
  pub content : Text
  pub tool_calls : List ToolCall
  pub finish_reason : Text
  pub usage : Usage

abbrev pub no_usage : Usage
no_usage = record { prompt_tokens = 0; completion_tokens = 0 }

abbrev pub no_result : StreamResult
no_result = record { content = []; tool_calls = []; finish_reason = []; usage = no_usage }

abbrev pub or_else : {A : Type 0} → Option A → A → A
or_else none a = a
or_else (some b) a = b

-- What readStream keeps of a chunk's first choice.
unfoldable pub add_delta : Delta → StreamResult → StreamResult
add_delta d r = record {
  content = r.content ++ d.content;
  tool_calls = r.tool_calls ++ d.tool_calls;
  finish_reason = or_else d.finish_reason r.finish_reason;
  usage = or_else d.usage r.usage;
}

-- readStream, over the lines of a response: `decode` gives the choices of a chunk, and the callback
-- may answer an error. `failure` is the scanner's error, where it reads past the last line.
module _ {S : Type 0} (decode : Text → Option (List Delta))
    (on_delta : S → Delta → Option Text × S) where
  abbrev pub Read : Type 0
  Read = Result Text StreamResult × S

  unfoldable pub continue_read : (S → Read) → Option Text × S → Read
  continue_read rest (some problem, s) = (err problem, s)
  continue_read rest (none, s) = rest s

  unfoldable pub read_choice :
      (StreamResult → S → Read) → StreamResult → S → Option (List Delta) → Read
  unfolding continue_read add_delta
  read_choice rest r s none = (err (codes "parse stream chunk"), s)
  read_choice rest r s (some []) = rest r s
  read_choice rest r s (some (d ∷ ds)) = continue_read (rest (add_delta d r)) (on_delta s d)

  unfoldable pub read_lines : Option Text → List Text → StreamResult → S → Read
  unfolding read_choice has_prefix text_eq
  read_lines none [] r s = (ok r, s)
  read_lines (some problem) [] r s = (err problem, s)
  read_lines failure (line ∷ lines) r s =
      let skipped = read_lines failure lines r s in
      if not (has_prefix line (codes "data: "))
      then skipped
      else if text_eq (drop 6 line) (codes "[DONE]")
      then (ok r, s)
      else read_choice (read_lines failure lines) r s (decode (drop 6 line))

abbrev pub first_messages : Text → Text → List Message
first_messages system prompt =
    record { role = codes "system"; content = system }
    ∷ record { role = codes "user"; content = prompt }
    ∷ []

-- What the callback of chatStreamLoop has collected.
pub record Collected (E : Type 0) : Type 0 where
  pub content : Text
  pub tool_calls : List ToolCall
  pub usage : Usage
  pub state : E

pub record Streams (E : Type 0) : Type 0 where
  -- The tools, the cancellation and the error text, as in runToolLoop.
  pub outside : Outside E
  pub decode : Text → Option (List Delta)
  -- An error of the request, or the lines of the response with the scanner's error.
  pub open_stream : E → List Message → Result Text (List Text × Option Text) × E
  pub send_delta : E → Text → E
  pub record_step : E → StreamResult → ℕ → E
  -- CreateChatMessage, with the calls of a card.
  pub write_message : E → Text → List ToolCall → Option Text × E

module _ {E : Type 0} (o : Streams E) where
  unfoldable pub collect : Collected E → Delta → Option Text × Collected E
  collect s d = if is_empty d.type then (none, s) else (
    none,
    record {
      content = s.content ++ d.content;
      tool_calls = s.tool_calls ++ d.tool_calls;
      usage = or_else d.usage s.usage;
      state = if is_empty d.content then s.state else o.send_delta s.state d.content;
    },
  )

  abbrev pub nothing_collected : E → Collected E
  nothing_collected e = record { content = []; tool_calls = []; usage = no_usage; state = e }

  -- ChatCompletionStream with the callback.
  unfoldable pub read_body :
      Result Text (List Text × Option Text) × E → Result Text StreamResult × Collected E
  unfolding read_lines collect
  read_body (err problem, e) = (err problem, nothing_collected e)
  read_body (ok (lines, failure), e) =
      read_lines o.decode collect failure lines no_result (nothing_collected e)

  unfoldable pub stream_turn : E → List Message → Result Text StreamResult × Collected E
  unfolding read_body
  stream_turn e messages = read_body (o.open_stream e messages)

  unfoldable pub final_message : ℕ → ℕ → Option Text × E → Outcome o.outside
  final_message prompt completion (some problem, e) = (err problem, e)
  final_message prompt completion (none, e) = (ok (ended prompt completion), e)

  -- After a round of calls: the card is written before the next iteration.
  unfoldable pub write_card :
      (E → List Message → ℕ → ℕ → Outcome o.outside)
      → List Message
      → ℕ
      → ℕ
      → Round E
      → Option Text × E
      → Outcome o.outside
  write_card again messages prompt completion r (some problem, e) = (err problem, e)
  write_card again messages prompt completion r (none, e) =
      again e (messages ++ r.results) prompt completion

  unfoldable pub after_round :
      (E → List Message → ℕ → ℕ → Outcome o.outside)
      → List Message
      → ℕ
      → ℕ
      → Text
      → List ToolCall
      → Round E
      → Outcome o.outside
  unfolding write_card
  after_round again messages prompt completion content calls r =
      if r.pending
      then (ok (record (ended prompt completion) { approval_pending = true }), r.state)
      else write_card again messages prompt completion r (o.write_message r.state content calls)

  unfoldable pub after_turn_calls :
      (E → List Message → ℕ → ℕ → Outcome o.outside)
      → List Message
      → ℕ
      → ℕ
      → E
      → Text
      → List ToolCall
      → Outcome o.outside
  unfolding after_round final_message run_calls
  after_turn_calls again messages prompt completion e content [] =
      final_message prompt completion (o.write_message e content [])
  after_turn_calls again messages prompt completion e content (call ∷ calls) =
      after_round again messages prompt completion content (call ∷ calls)
        (run_calls o.outside e (call ∷ calls))

  -- An iteration after the turn. The tokens of the callback and of the result are both added.
  unfoldable pub after_turn :
      (E → List Message → ℕ → ℕ → Outcome o.outside)
      → List Message
      → ℕ
      → ℕ
      → Result Text StreamResult × Collected E
      → Outcome o.outside
  unfolding after_turn_calls
  after_turn again messages prompt completion (err problem, s) = (err problem, s.state)
  after_turn again messages prompt completion (ok r, s) =
      let prompt' = prompt + s.usage.prompt_tokens + r.usage.prompt_tokens in
      let completion' = completion + s.usage.completion_tokens + r.usage.completion_tokens in
      after_turn_calls again
        (messages ++ record { role = codes "assistant"; content = s.content } ∷ []) prompt'
        completion' (o.record_step s.state r (prompt' + completion')) s.content s.tool_calls

  -- `for { ... }` with `left` steps before the cap.
  unfoldable pub stream_loop : ℕ → E → List Message → ℕ → ℕ → Outcome o.outside
  unfolding after_turn stream_turn
  stream_loop zero e messages prompt completion =
      (ok (record (ended prompt completion) { step_capped = true }), e)
  stream_loop (suc left) e messages prompt completion =
      after_turn (stream_loop left) messages prompt completion (stream_turn e messages)

  unfoldable pub chat_stream_loop : E → Text → Text → Outcome o.outside
  unfolding stream_loop
  chat_stream_loop e system prompt =
      stream_loop max_steps_per_run e (first_messages system prompt) 0 0
