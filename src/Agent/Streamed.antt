-- ===== src/Agent/Streamed.antt =====
-- What a streamed turn hands on.
use boardchestrator.Prelude.{
  ℕ, ◌+◌, ◌≡◌, refl, ap, ◌∙◌, subst, inl, inr, true, false, not, Option, none, some, List, [], ◌∷◌,
  ◌++◌, Text, codes, text_eq, is_empty, has_prefix, drop, Result, ok, err, Bool-cases, arith,
}
use boardchestrator.Agent.Loop.{Message, Outcome}
use boardchestrator.Agent.Stream.{
  Delta, StreamResult, no_result, or_else, add_delta, Read, continue_read, read_choice, read_lines,
  Collected, Streams, collect, nothing_collected, first_messages, read_body, stream_turn,
  final_message, after_turn_calls, after_turn, stream_loop, chat_stream_loop,
}

zero_plus : (n : ℕ) → 0 + n ≡ n
zero_plus n = omega arith

abbrev reply : StreamResult → Result Text StreamResult
reply r = ok r

ok_eq : (r r' : StreamResult) → reply r ≡ reply r' → r ≡ r'
ok_eq r r' e = cc e

-- What holds of a result and a state, or of the state of an error.
abbrev HoldsOf : {S : Type 0} → (StreamResult → S → Type 0) → Result Text StreamResult × S → Type 0
HoldsOf I (ok r, s) = I r s
HoldsOf I (err problem, s) = (r : StreamResult) × I r s

ok_holds :
    {S : Type 0} (I : StreamResult → S → Type 0) (out : Result Text StreamResult × S)
    (r : StreamResult)
    → out.0 ≡ ok r
    → HoldsOf I out
    → I r out.1
ok_holds I (ok r', s) r e h = subst (λ x. I x s) (ok_eq r' r e) h
ok_holds I (err problem, s) r e h = absurd (cc e)

any_holds :
    {S : Type 0} (P : S → Type 0) (out : Result Text StreamResult × S)
    → HoldsOf (λ r s. P s) out
    → P out.1
any_holds P (ok r, s) h = h
any_holds P (err problem, s) (r, h) = h

module _ {S : Type 0} (decode : Text → Option (List Delta))
    (on_delta : S → Delta → Option Text × S) where
  -- The rule of readStream: what each chunk keeps holds of the result and of the state.
  module _ (I : StreamResult → S → Type 0)
      (keeps : (r : StreamResult) (s : S) (t : Text) (d : Delta) (ds : List Delta)
        → decode t ≡ some (d ∷ ds)
        → I r s
        → (on_delta s d).0 ≡ none × I (add_delta d r) (on_delta s d).1) where
    continue_read-Holds :
        (rest : S → Read decode on_delta) (answer : Option Text × S)
        → answer.0 ≡ none
        → HoldsOf I (rest answer.1)
        → HoldsOf I (continue_read decode on_delta rest answer)
    unfolding continue_read
    continue_read-Holds rest (none, s) e h = h
    continue_read-Holds rest (some problem, s) e h = absurd (cc e)

    read_choice-Holds :
        (rest : StreamResult → S → Read decode on_delta) (r : StreamResult) (s : S) (t : Text)
        (chunk : Option (List Delta))
        → decode t ≡ chunk
        → ((r' : StreamResult) (s' : S) → I r' s' → HoldsOf I (rest r' s'))
        → I r s
        → HoldsOf I (read_choice decode on_delta rest r s chunk)
    unfolding read_choice
    read_choice-Holds rest r s t none e next h = (r, h)
    read_choice-Holds rest r s t (some []) e next h = next r s h
    read_choice-Holds rest r s t (some (d ∷ ds)) e next h =
        let (quiet, kept) = keeps r s t d ds e h in
        continue_read-Holds (rest (add_delta d r)) (on_delta s d) quiet
          (next (add_delta d r) (on_delta s d).1 kept)

    pub read_lines-Holds :
        (failure : Option Text) (lines : List Text) (r : StreamResult) (s : S)
        → I r s
        → HoldsOf I (read_lines decode on_delta failure lines r s)
    unfolding read_lines
    read_lines-Holds none [] r s h = h
    read_lines-Holds (some problem) [] r s h = (r, h)
    read_lines-Holds failure (line ∷ lines) r s h =
        elim (Bool-cases (not (has_prefix line (codes "data: ")))) [
          | inl e ↦ rw (e, read_lines) (read_lines-Holds failure lines r s h)
          | inr e ↦ elim (Bool-cases (text_eq (drop 6 line) (codes "[DONE]"))) [
            | inl e' ↦ rw (e, e', read_lines) h
            | inr e' ↦
                rw (e, e', read_lines)
                  (read_choice-Holds (read_lines decode on_delta failure lines) r s (drop 6 line)
                    (decode (drop 6 line)) refl
                    (λ r' s' h'. read_lines-Holds failure lines r' s' h') h)
          ]
        ]

module _ {E : Type 0} (o : Streams E) where
  -- The collected text, calls and usage are those of the result.
  abbrev Agrees : StreamResult → Collected E → Type 0
  Agrees r s = (s.content ≡ r.content) × (s.tool_calls ≡ r.tool_calls) × (s.usage ≡ r.usage)

  collect_typed :
      (r : StreamResult) (s : Collected E) (d : Delta)
      → is_empty d.type ≡ false
      → Agrees r s
      → ((collect o s d).0 ≡ none) × Agrees (add_delta d r) ((collect o s d).1)
  unfolding collect add_delta
  collect_typed r s d e (content, calls, usage) =
      rw (collect, e)
        (
          refl,
          (
            ap (λ t. t ++ d.content) content,
            ap (λ t. t ++ d.tool_calls) calls,
            ap (λ u. or_else d.usage u) usage,
          ),
        )

  collect_untyped :
      (s : Collected E) (d : Delta) → is_empty d.type ≡ true → collect o s d ≡ (none, s)
  unfolding collect
  collect_untyped s d e = rw (collect, e) refl

  body_typed :
      (body : Result Text (List Text × Option Text) × E) (r : StreamResult)
      → ((t : Text) (d : Delta) (ds : List Delta)
          → o.decode t ≡ some (d ∷ ds)
          → is_empty d.type ≡ false)
      → (read_body o body).0 ≡ ok r
      → Agrees r ((read_body o body).1)
  unfolding read_body
  body_typed (err problem, e) r typed done = absurd (cc done)
  body_typed (ok (lines, failure), e) r typed done =
      ok_holds Agrees
        (read_lines o.decode (collect o) failure lines no_result (nothing_collected o e)) r done
        (read_lines-Holds o.decode (collect o) Agrees
          (λ r' s t d ds e' h. collect_typed r' s d (typed t d ds e') h) failure lines no_result
          (nothing_collected o e) (refl, refl, refl))

  body_untyped :
      (body : Result Text (List Text × Option Text) × E)
      → ((t : Text) (d : Delta) (ds : List Delta)
          → o.decode t ≡ some (d ∷ ds)
          → is_empty d.type ≡ true)
      → (read_body o body).1 ≡ nothing_collected o body.1
  unfolding read_body
  body_untyped (err problem, e) untyped = refl
  body_untyped (ok (lines, failure), e) untyped =
      any_holds (λ s. s ≡ nothing_collected o e)
        (read_lines o.decode (collect o) failure lines no_result (nothing_collected o e))
        (read_lines-Holds o.decode (collect o) (λ r s. s ≡ nothing_collected o e)
          (λ r' s t d ds e' h. rw (collect_untyped s d (untyped t d ds e')) (refl, h)) failure lines
          no_result (nothing_collected o e) refl)

  turn_typed :
      (e : E) (messages : List Message) (r : StreamResult)
      → ((t : Text) (d : Delta) (ds : List Delta)
          → o.decode t ≡ some (d ∷ ds)
          → is_empty d.type ≡ false)
      → (stream_turn o e messages).0 ≡ ok r
      → Agrees r ((stream_turn o e messages).1)
  unfolding stream_turn
  turn_typed e messages r typed done = body_typed (o.open_stream e messages) r typed done

  turn_untyped :
      (e : E) (messages : List Message)
      → ((t : Text) (d : Delta) (ds : List Delta)
          → o.decode t ≡ some (d ∷ ds)
          → is_empty d.type ≡ true)
      → (stream_turn o e messages).1 ≡ nothing_collected o (o.open_stream e messages).1
  unfolding stream_turn
  turn_untyped e messages untyped = body_untyped (o.open_stream e messages) untyped

  after_turn-ok :
      (again : E → List Message → ℕ → ℕ → Outcome o.outside) (messages : List Message) (p c : ℕ)
      (out : Result Text StreamResult × Collected E) (r : StreamResult)
      → out.0 ≡ ok r
      → after_turn o again messages p c out ≡ after_turn o again messages p c (ok r, out.1)
  after_turn-ok again messages p c (answer, s) r done =
      ap (λ a. after_turn o again messages p c (a, s)) done

  -- Where no delta has a type, the reply of a chat run is stored empty after the first turn, and
  -- no tool is called, whatever the model streamed.
  pub chat_stream_loop_untyped :
      (e : E) (system prompt : Text) (r : StreamResult)
      → ((t : Text) (d : Delta) (ds : List Delta)
          → o.decode t ≡ some (d ∷ ds)
          → is_empty d.type ≡ true)
      → (stream_turn o e (first_messages system prompt)).0 ≡ ok r
      → chat_stream_loop o e system prompt
        ≡ final_message o r.usage.prompt_tokens r.usage.completion_tokens (
            o.write_message
              (o.record_step
                (o.open_stream e (first_messages system prompt)).1
                r
                (r.usage.prompt_tokens + r.usage.completion_tokens))
              []
              [])
  unfolding chat_stream_loop stream_loop after_turn after_turn_calls
  chat_stream_loop_untyped e system prompt r untyped done =
      let ms = first_messages system prompt in
      after_turn-ok (stream_loop o 24) ms 0 0 (stream_turn o e ms) r done
      ∙ rw
          (
            turn_untyped e ms untyped,
            zero_plus r.usage.prompt_tokens,
            zero_plus r.usage.completion_tokens,
          )
          refl

  -- Where each delta has a type and the model calls no tool, the reply is what the model streamed,
  -- and the run counts each of its tokens twice.
  pub chat_stream_loop_typed :
      (e : E) (system prompt : Text) (r : StreamResult)
      → ((t : Text) (d : Delta) (ds : List Delta)
          → o.decode t ≡ some (d ∷ ds)
          → is_empty d.type ≡ false)
      → (stream_turn o e (first_messages system prompt)).0 ≡ ok r
      → r.tool_calls ≡ []
      → chat_stream_loop o e system prompt
        ≡ final_message o
            (r.usage.prompt_tokens + r.usage.prompt_tokens)
            (r.usage.completion_tokens + r.usage.completion_tokens)
            (o.write_message
              (o.record_step (stream_turn o e (first_messages system prompt)).1.state r (
                (r.usage.prompt_tokens + r.usage.prompt_tokens)
                + (r.usage.completion_tokens + r.usage.completion_tokens)))
              r.content
              [])
  unfolding chat_stream_loop stream_loop after_turn after_turn_calls
  chat_stream_loop_typed e system prompt r typed done no_calls =
      let ms = first_messages system prompt in
      let (content, calls, usage) = turn_typed e ms r typed done in
      after_turn-ok (stream_loop o 24) ms 0 0 (stream_turn o e ms) r done
      ∙ rw
          (
            content,
            calls,
            usage,
            zero_plus r.usage.prompt_tokens,
            zero_plus r.usage.completion_tokens,
            no_calls,
          )
          refl
