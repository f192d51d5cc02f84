-- ===== src/RateLimit/Bounded.antt =====
-- The memory of a limiter.
use boardchestrator.Prelude.{
  ℕ, ◌+◌, ◌≤◌, ◌<◌, ◌≡◌, refl, subst, ◌∙◌, inl, inr, false, not, some, List, [], ◌∷◌, length,
  length-keep-le, Text, leb, ltb, arith, Bool-cases, Option-cases,
}
use boardchestrator.RateLimit.{
  Floats, Bucket, Limiter, find_bucket, sweep, sweep_if_due, evict_if_full, make_room, refilled,
  take_token, allow_found, allow,
}
use boardchestrator.RateLimit.Buckets.{
  length-put, length-put_found, evict_one_shorter, find_bucket-key,
}

-- A call of Allow.
pub record Call : Type 0 where
  pub now : ℕ
  pub choice : ℕ
  pub key : Text

module _ {N : Type 0} (floats : Floats N) where
  refilled-key : (now : ℕ) (b : Bucket N) → (refilled floats now b).key ≡ b.key
  unfolding refilled
  refilled-key now b = elim (Bool-cases (ltb b.last now)) [
    | inl e ↦ rw (e, refilled) refl
    | inr e ↦ rw (e, refilled) refl
  ]

  Fits : Limiter N → Type 0
  Fits l = (1 ≤ l.max_keys) × (length l.buckets ≤ l.max_keys)

  sweep-Fits : (now : ℕ) (l : Limiter N) → Fits l → Fits (sweep floats now l)
  unfolding Fits sweep
  sweep-Fits now l (some_keys, room) =
      let shorter =
        length-keep-le (λ (b : Bucket N). not (floats.is_full b.tokens now b.last)) l.buckets in
      (some_keys, omega arith)

  sweep_if_due-Fits : (now : ℕ) (l : Limiter N) → Fits l → Fits (sweep_if_due floats now l)
  unfolding sweep_if_due
  sweep_if_due-Fits now l h = elim (Bool-cases (leb (l.last_sweep + l.sweep_every) now)) [
    | inl e ↦ rw (e, sweep_if_due) (sweep-Fits now l h)
    | inr e ↦ rw (e, sweep_if_due) h
  ]

  -- Room for one more bucket.
  HasRoom : Limiter N → Type 0
  HasRoom l = (1 ≤ l.max_keys) × (length l.buckets < l.max_keys)

  not_full : (a b : ℕ) → leb a b ≡ false → b < a
  not_full a b h = ground arith

  evict_if_full-HasRoom : (n : ℕ) (l : Limiter N) → Fits l → HasRoom (evict_if_full floats n l)
  unfolding evict_if_full HasRoom Fits
  evict_if_full-HasRoom n l (some_keys, room) =
      elim (Bool-cases (leb l.max_keys (length l.buckets))) [
        | inl e ↦
            rw (e, evict_if_full)
              (some_keys, (let shorter = evict_one_shorter n l.buckets in omega arith))
        | inr e ↦ rw (e, evict_if_full) (some_keys, not_full l.max_keys (length l.buckets) e)
      ]

  make_room-HasRoom : (now n : ℕ) (l : Limiter N) → Fits l → HasRoom (make_room floats now n l)
  unfolding make_room HasRoom Fits
  make_room-HasRoom now n l (some_keys, room) =
      elim (Bool-cases (leb l.max_keys (length l.buckets))) [
        | inl e ↦
            rw (e, make_room)
              (evict_if_full-HasRoom n (sweep floats now l) (sweep-Fits now l (some_keys, room)))
        | inr e ↦ rw (e, make_room) (some_keys, not_full l.max_keys (length l.buckets) e)
      ]

  new-Fits : (b : Bucket N) (l : Limiter N) → HasRoom l → Fits ((take_token floats b l).1)
  unfolding take_token HasRoom Fits
  new-Fits b l (some_keys, room) = elim (Bool-cases (floats.is_empty_bucket b.tokens)) [
    | inl e ↦ rw (e, take_token) (some_keys, (let longer = length-put b l.buckets in omega arith))
    | inr e ↦
        rw (e, take_token)
          (
            some_keys,
            (let longer = length-put (record b { tokens = floats.spend b.tokens }) l.buckets in
                omega arith),
          )
  ]

  found-Fits :
      (b d : Bucket N) (l : Limiter N)
      → find_bucket b.key l.buckets ≡ some d
      → Fits l
      → Fits ((take_token floats b l).1)
  unfolding take_token Fits
  found-Fits b d l found (some_keys, room) = elim (Bool-cases (floats.is_empty_bucket b.tokens)) [
    | inl e ↦
        rw (e, take_token)
          (some_keys, (let longer = length-put_found b d l.buckets found in omega arith))
    | inr e ↦
        rw (e, take_token)
          (
            some_keys,
            (let longer =
                  length-put_found (record b { tokens = floats.spend b.tokens }) d l.buckets
                    found in
                omega arith),
          )
  ]

  allow-Fits :
      (now n : ℕ) (key : Text) (l : Limiter N) → Fits l → Fits ((allow floats now n key l).1)
  unfolding allow allow_found
  allow-Fits now n key l h =
      let swept = sweep_if_due floats now l in
      elim (Option-cases (find_bucket key swept.buckets)) [
        | inl e ↦
            rw (e, allow) (new-Fits _ _ (make_room-HasRoom now n swept (sweep_if_due-Fits now l h)))
        | inr (b, e) ↦
            rw (e, allow)
              (found-Fits (refilled floats now b) b swept
                (rw (refilled-key now b) (find_bucket-key key swept.buckets b e))
                (sweep_if_due-Fits now l h))
      ]

  unfoldable pub allow_all : List Call → Limiter N → Limiter N
  unfolding allow
  allow_all [] l = l
  allow_all (c ∷ calls) l = allow_all calls (allow floats c.now c.choice c.key l).1

  sweep_if_due-max_keys :
      (now : ℕ) (l : Limiter N) → (sweep_if_due floats now l).max_keys ≡ l.max_keys
  unfolding sweep_if_due sweep
  sweep_if_due-max_keys now l = elim (Bool-cases (leb (l.last_sweep + l.sweep_every) now)) [
    | inl e ↦ rw (e, sweep_if_due) refl
    | inr e ↦ rw (e, sweep_if_due) refl
  ]

  evict_if_full-max_keys :
      (n : ℕ) (l : Limiter N) → (evict_if_full floats n l).max_keys ≡ l.max_keys
  unfolding evict_if_full
  evict_if_full-max_keys n l = elim (Bool-cases (leb l.max_keys (length l.buckets))) [
    | inl e ↦ rw (e, evict_if_full) refl
    | inr e ↦ rw (e, evict_if_full) refl
  ]

  make_room-max_keys :
      (now n : ℕ) (l : Limiter N) → (make_room floats now n l).max_keys ≡ l.max_keys
  unfolding make_room sweep
  make_room-max_keys now n l = elim (Bool-cases (leb l.max_keys (length l.buckets))) [
    | inl e ↦ rw (e, make_room) (evict_if_full-max_keys n (sweep floats now l))
    | inr e ↦ rw (e, make_room) refl
  ]

  take_token-max_keys :
      (b : Bucket N) (l : Limiter N) → (take_token floats b l).1.max_keys ≡ l.max_keys
  unfolding take_token
  take_token-max_keys b l = elim (Bool-cases (floats.is_empty_bucket b.tokens)) [
    | inl e ↦ rw (e, take_token) refl
    | inr e ↦ rw (e, take_token) refl
  ]

  allow-max_keys :
      (now n : ℕ) (key : Text) (l : Limiter N) → (allow floats now n key l).1.max_keys ≡ l.max_keys
  unfolding allow allow_found
  allow-max_keys now n key l =
      let swept = sweep_if_due floats now l in
      elim (Option-cases (find_bucket key swept.buckets)) [
        | inl e ↦
            rw (e, allow)
              (take_token-max_keys (record { key = key; tokens = floats.burst; last = now })
                  (make_room floats now n swept)
                ∙ make_room-max_keys now n swept
                ∙ sweep_if_due-max_keys now l)
        | inr (b, e) ↦
            rw (e, allow)
              (take_token-max_keys (refilled floats now b) swept ∙ sweep_if_due-max_keys now l)
      ]

  allow_all-Fits : (calls : List Call) (l : Limiter N) → Fits l → Fits (allow_all calls l)
  unfolding allow_all
  allow_all-Fits [] l h = h
  allow_all-Fits (c ∷ calls) l h =
      allow_all-Fits calls ((allow floats c.now c.choice c.key l).1)
        (allow-Fits c.now c.choice c.key l h)

  allow_all-max_keys :
      (calls : List Call) (l : Limiter N) → (allow_all calls l).max_keys ≡ l.max_keys
  unfolding allow_all
  allow_all-max_keys [] l = refl
  allow_all-max_keys (c ∷ calls) l =
      allow_all-max_keys calls ((allow floats c.now c.choice c.key l).1)
      ∙ allow-max_keys c.now c.choice c.key l

  -- Whatever is asked of a limiter, and whichever bucket it evicts, it never holds more buckets
  -- than its maximum. The conditions: the maximum is not 0, and it holds no more to begin with.
  pub allow_all_bounded :
      (calls : List Call) (l : Limiter N)
      → 1 ≤ l.max_keys
      → length l.buckets ≤ l.max_keys
      → length (allow_all calls l).buckets ≤ l.max_keys
  unfolding Fits
  allow_all_bounded calls l some_keys room =
      subst (λ m. length (allow_all calls l).buckets ≤ m) (allow_all-max_keys calls l)
        (allow_all-Fits calls l (some_keys, room)).1
