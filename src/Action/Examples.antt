-- ===== src/Action/Examples.antt =====
-- A dispatcher with one action, which mints a token and counts its runs in the database.
use boardchestrator.Prelude.{
  ℕ, ◌+◌, ◌≡◌, refl, ◌⊎◌, true, false, none, some, [], ◌∷◌, ◌++◌, Text, codes, text_eq, Result, ok,
}
use boardchestrator.Action.{Impact, ScopeKind, ActorType, Actor, ActionCtx, Policy}
use boardchestrator.Action.Model.{
  Out, raw, value, Json, DispatchError, pending, World, Opts, Definition, Hooks, ctx_of,
}
use boardchestrator.Action.Record.{marshal_result, redact}
use boardchestrator.Action.Dispatch.{dispatch, execute, finish}
use boardchestrator.Action.Cleared.{SameTrace, Cleared, dispatch-Cleared}
use boardchestrator.Action.Atomic.{IsAtomic, execute-IsAtomic}
use boardchestrator.Action.Logged.{Recorded, finish-Recorded, finish_hides_secret}

-- A token: its id and its secret.
record Token : Type 0 where
  id : Text
  secret : Text

abbrev token_json : Json Token
token_json = record {
  marshal = λ t. some (codes "{" ++ t.id ++ t.secret);
  redacted = λ t. some (raw (codes "{" ++ t.id));
  decode_object = λ t. some ((codes "id", codes "t1") ∷ []);
  decode_string = λ t. some t;
}

abbrev mint : Policy
mint = record {
  name = codes "token.create";
  impact = Impact.high;
  permission = codes "token.create";
  scope = ScopeKind.org;
  private_result = false;
}

abbrev token : Text → Token
token secret = record { id = codes "t1"; secret = secret }

abbrev mint_definition : Definition ℕ Token
mint_definition = record {
  policy = mint;
  input = none;
  handle = λ n ac input. (ok (value (token (codes "s3cret"))), n + 1);
  preview = none;
}

abbrev hooks : Hooks ℕ Token
hooks = record {
  lookup = λ name. some mint_definition;
  scope_resolve = λ n ac def. none;
  perm_allow = λ n ac def. ok true;
  gate = λ n ac def input. (ok (pending, codes "a1"), n);
  has_db = true;
  begin_fault = λ n. none;
  rollback_fault = λ n. none;
  commit_fault = λ n. none;
  idem_get_fault = λ rows key. none;
  idem_put_fault = λ rows row. none;
  audit_fault = λ rows row. none;
  json = token_json;
}

abbrev person : Text → Actor
person id = record {
  type = ActorType.user;
  id = id;
  owner_user_id = [];
  ip = codes "10.0.0.1";
  auth_provider_id = [];
  session_id = [];
}

abbrev call_with : Text → Opts
call_with idem = record { org = codes "o1"; team = []; proj = []; dry_run = false; idem = idem }

abbrev empty_world : World ℕ
empty_world = record { db = 0; idem = []; events = []; audit = [] }

program : Unit {0}
unfolding dispatch finish text_eq
program = tt

dispatch-Cleared_example :
    SameTrace empty_world
      (dispatch hooks empty_world
        (person (codes "ada"))
        (codes "token.create")
        []
        (call_with (codes "k"))).1
    ⊎ Cleared hooks empty_world
        (person (codes "ada"))
        (codes "token.create")
        []
        (call_with (codes "k"))
dispatch-Cleared_example =
    dispatch-Cleared hooks empty_world (person (codes "ada")) (codes "token.create") []
      (call_with (codes "k"))

-- The call runs: it is the second case of the theorem that holds here.
runs_once :
    (dispatch hooks empty_world
      (person (codes "ada"))
      (codes "token.create")
      []
      (call_with (codes "k"))).1.db
    ≡ 1
unfolding program
runs_once = refl

execute-IsAtomic_example :
    IsAtomic hooks 4
      (ok (value (token (codes "s3cret"))), 5)
      (execute hooks 4 (ctx_of (person (codes "ada")) (call_with [])) mint_definition [])
execute-IsAtomic_example =
    execute-IsAtomic hooks 4 (ctx_of (person (codes "ada")) (call_with [])) mint_definition [] refl

abbrev ada_call : ActionCtx
ada_call = ctx_of (person (codes "ada")) (call_with (codes "k"))

minted : Result DispatchError (Out Token) × World ℕ
unfolding program
minted =
    finish hooks empty_world ada_call mint (codes "token.create") (value (token (codes "s3cret")))

finish-Recorded_example :
    (value (token (codes "s3cret")) ≡ value (token (codes "s3cret")))
    × (payload : Text) × (marshal_result hooks (redact hooks (value (token (codes "s3cret"))))
        ≡ some payload)
    × Recorded hooks empty_world ada_call mint
        (codes "token.create")
        (redact hooks (value (token (codes "s3cret"))))
        payload
        minted.1
unfolding program minted
finish-Recorded_example =
    finish-Recorded hooks empty_world ada_call mint (codes "token.create")
      (value (token (codes "s3cret"))) (value (token (codes "s3cret"))) minted.1 refl

finish_hides_secret_example :
    (finish hooks empty_world ada_call mint
      (codes "token.create")
      (value (token (codes "s3cret")))).1
    ≡ (finish hooks empty_world ada_call mint
        (codes "token.create")
        (value (token (codes "other")))).1
unfolding program
finish_hides_secret_example =
    finish_hides_secret hooks empty_world ada_call mint (codes "token.create")
      (token (codes "s3cret")) (token (codes "other")) refl
