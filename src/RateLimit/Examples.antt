-- ===== src/RateLimit/Examples.antt =====
-- A limiter of two keys, with bursts of two requests and no refill.
use boardchestrator.Prelude.{
  ℕ, ◌-◌, ◌≤◌, ◌≡◌, refl, false, List, [], ◌∷◌, arith, Text, codes, text_eq, length, ◌==◌,
}
use boardchestrator.RateLimit.{Floats, Limiter, allow}
use boardchestrator.RateLimit.Bounded.{Call, allow_all, allow_all_bounded}

abbrev floats : Floats ℕ
floats = record {
  burst = 2;
  refill = λ tokens elapsed. tokens;
  is_full = λ tokens now last. tokens == 2;
  is_empty_bucket = λ tokens. tokens == 0;
  spend = λ tokens. tokens - 1;
  wait = λ tokens. 60;
}

abbrev limiter : Limiter ℕ
limiter = record { max_keys = 2; sweep_every = 1000; last_sweep = 0; buckets = [] }

abbrev call : ℕ → Text → Call
call now key = record { now = now; choice = 0; key = key }

abbrev calls : List Call
calls = call 1 (codes "a") ∷ call 2 (codes "b") ∷ call 3 (codes "a") ∷ call 4 (codes "c") ∷ []

refused :
    (allow floats 5 0
      (codes "a")
      (allow_all floats (call 1 (codes "a") ∷ call 2 (codes "a") ∷ []) limiter)).0
    ≡ (false, 60)
unfolding allow_all text_eq
refused = refl

allow_all_bounded_example : length (allow_all floats calls limiter).buckets ≤ 2
allow_all_bounded_example = allow_all_bounded floats calls limiter (omega arith) (omega arith)
