-- ===== src/Agent/Chats.antt =====
-- A streamed reply of one chunk, with and without a type.
use boardchestrator.Prelude.{
  ◌≡◌, refl, subst, Bool, true, false, none, some, List, [], ◌∷◌, Text, codes, is_empty, has_prefix,
  text_eq, ok, err,
}
use boardchestrator.Agent.Loop.{Outside, awaits, ended}
use boardchestrator.Agent.Stream.{Usage, Delta, StreamResult, Streams, chat_stream_loop}
use boardchestrator.Agent.Streamed.{chat_stream_loop_untyped, chat_stream_loop_typed}

-- The state is the last message written.
abbrev outside : Outside Text
outside = record {
  is_cancelled = λ e. false;
  complete = λ e messages. (err [], e);
  record_step = λ e r. e;
  dispatch_tool = λ e call. (awaits, e);
  error_content = λ call error. error;
}

abbrev usage : Usage
usage = record { prompt_tokens = 5; completion_tokens = 2 }

abbrev delta : Text → Delta
delta type = record {
  type = type;
  content = codes "hi";
  tool_calls = [];
  finish_reason = none;
  usage = some usage;
}

abbrev streams : Text → Streams Text
streams type = record {
  outside = outside;
  decode = λ t. some (delta type ∷ []);
  open_stream = λ e messages. (ok (codes "data: x" ∷ codes "data: [DONE]" ∷ [], none), e);
  send_delta = λ e t. e;
  record_step = λ e r total. e;
  write_message = λ e content calls. (none, content);
}

abbrev streamed : StreamResult
streamed = record { content = codes "hi"; tool_calls = []; finish_reason = []; usage = usage }

program : Unit {0}
unfolding chat_stream_loop has_prefix text_eq
program = tt

first_eq : (a d : Delta) (rest ds : List Delta) → some (a ∷ rest) ≡ some (d ∷ ds) → a ≡ d
first_eq a d rest ds e = cc e

decoded_type :
    (type : Text) (b : Bool)
    → is_empty type ≡ b
    → (t : Text) (d : Delta) (ds : List Delta) → (streams type).decode t ≡ some (d ∷ ds)
    → is_empty d.type ≡ b
decoded_type type b e t d ds decoded =
    subst (λ (x : Delta). is_empty x.type ≡ b) (first_eq (delta type) d [] ds decoded) e

chat_stream_loop_untyped_example :
    chat_stream_loop (streams []) (codes "s") [] [] ≡ (ok (ended 5 2), [])
unfolding program
chat_stream_loop_untyped_example =
    chat_stream_loop_untyped (streams []) (codes "s") [] [] streamed (decoded_type [] true refl)
      refl

chat_stream_loop_typed_example :
    chat_stream_loop (streams (codes "d")) (codes "s") [] [] ≡ (ok (ended 10 4), codes "hi")
unfolding program
chat_stream_loop_typed_example =
    chat_stream_loop_typed (streams (codes "d")) (codes "s") [] [] streamed
      (decoded_type (codes "d") false refl) refl refl
