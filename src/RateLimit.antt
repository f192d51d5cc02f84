-- ===== src/RateLimit.antt =====
-- internal/ratelimit/ratelimit.go: the token buckets. A float64 is a value of a type N with the
-- operations that the limiter uses; times are nanoseconds.
pub mod Buckets
pub mod Bounded
mod Examples
use boardchestrator.Prelude.{
  ℕ, zero, suc, ◌+◌, ◌-◌, Bool, true, false, not, Option, none, some, List, [], ◌∷◌, keep, length,
  Text, text_eq, leb, ltb, if◌then◌else◌,
}

pub record Floats (N : Type 0) : Type 0 where
  pub burst : N
  -- min(burst, tokens + elapsed * rate)
  pub refill : N → ℕ → N
  -- tokens + now.Sub(last) * rate >= burst
  pub is_full : N → ℕ → ℕ → Bool
  -- tokens < 1
  pub is_empty_bucket : N → Bool
  -- tokens - 1
  pub spend : N → N
  -- (1 - tokens) / rate
  pub wait : N → ℕ

pub record Bucket (N : Type 0) : Type 0 where
  pub key : Text
  pub tokens : N
  pub last : ℕ

pub record Limiter (N : Type 0) : Type 0 where
  pub max_keys : ℕ
  pub sweep_every : ℕ
  pub last_sweep : ℕ
  -- The map, in the order of a range over it.
  pub buckets : List (Bucket N)

module _ {N : Type 0} where
  unfoldable pub find_bucket : Text → List (Bucket N) → Option (Bucket N)
  unfolding text_eq
  find_bucket key [] = none
  find_bucket key (b ∷ bs) = if text_eq b.key key then some b else find_bucket key bs

  unfoldable pub put : Bucket N → List (Bucket N) → List (Bucket N)
  unfolding text_eq
  put b [] = b ∷ []
  put b (c ∷ bs) = let rest = put b bs in if text_eq c.key b.key then b ∷ bs else c ∷ rest

  -- evictOne: the range gives any bucket first, here the one at `n`, or the last.
  unfoldable pub evict_one : ℕ → List (Bucket N) → List (Bucket N)
  evict_one n [] = []
  evict_one n (b ∷ []) = []
  evict_one zero (b ∷ c ∷ bs) = c ∷ bs
  evict_one (suc n) (b ∷ c ∷ bs) = b ∷ evict_one n (c ∷ bs)

module _ {N : Type 0} (floats : Floats N) where
  unfoldable pub sweep : ℕ → Limiter N → Limiter N
  sweep now l = record l {
    last_sweep = now;
    buckets = keep (λ (b : Bucket N). not (floats.is_full b.tokens now b.last)) l.buckets;
  }

  unfoldable pub sweep_if_due : ℕ → Limiter N → Limiter N
  unfolding sweep
  sweep_if_due now l = if leb (l.last_sweep + l.sweep_every) now then sweep now l else l

  -- The room made for a new key.
  unfoldable pub evict_if_full : ℕ → Limiter N → Limiter N
  unfolding evict_one
  evict_if_full n l =
      if leb l.max_keys (length l.buckets) then record l { buckets = evict_one n l.buckets } else l

  unfoldable pub make_room : ℕ → ℕ → Limiter N → Limiter N
  unfolding sweep evict_if_full
  make_room now n l = if leb l.max_keys (length l.buckets) then evict_if_full n (sweep now l) else l

  unfoldable pub refilled : ℕ → Bucket N → Bucket N
  refilled now b =
      if ltb b.last now
      then record b { tokens = floats.refill b.tokens (now - b.last); last = now }
      else b

  -- The end of Allow: the answer, the wait, and the bucket put back.
  unfoldable pub take_token : Bucket N → Limiter N → (Bool × ℕ) × Limiter N
  unfolding put
  take_token b l =
      if floats.is_empty_bucket b.tokens
      then ((false, floats.wait b.tokens), record l { buckets = put b l.buckets })
      else (
        (true, 0),
        record l { buckets = put (record b { tokens = floats.spend b.tokens }) l.buckets },
      )

  unfoldable pub allow_found : ℕ → ℕ → Text → Limiter N → Option (Bucket N) → (Bool × ℕ) × Limiter N
  unfolding take_token make_room refilled
  allow_found now n key l none =
      take_token (record { key = key; tokens = floats.burst; last = now }) (make_room now n l)
  allow_found now n key l (some b) = take_token (refilled now b) l

  -- Allow, at a time and with the choice of evictOne.
  unfoldable pub allow : ℕ → ℕ → Text → Limiter N → (Bool × ℕ) × Limiter N
  unfolding allow_found sweep_if_due find_bucket
  allow now n key l =
      let swept = sweep_if_due now l in allow_found now n key swept (find_bucket key swept.buckets)
