-- ===== src/RateLimit/Buckets.antt =====
-- How many buckets a change of the map leaves.
use boardchestrator.Prelude.{
  ℕ, zero, suc, ◌-◌, ◌≤◌, ◌≡◌, refl, sym, inl, inr, true, some, List, [], ◌∷◌, length, Text,
  text_eq, text_eq→eq, text_eq_refl, arith, Bool-cases,
}
use boardchestrator.RateLimit.{Bucket, find_bucket, put, evict_one}

module _ {N : Type 0} where
  pub length-put : (b : Bucket N) (bs : List (Bucket N)) → length (put b bs) ≤ suc (length bs)
  unfolding put
  length-put b [] = omega arith
  length-put b (c ∷ bs) = elim (Bool-cases (text_eq c.key b.key)) [
    | inl e ↦ rw (e, put) (omega arith)
    | inr e ↦ rw (e, put) (let shorter = length-put b bs in omega arith)
  ]

  -- Putting back a bucket that is there adds none.
  pub length-put_found :
      (b d : Bucket N) (bs : List (Bucket N))
      → find_bucket b.key bs ≡ some d
      → length (put b bs) ≤ length bs
  unfolding put find_bucket
  length-put_found b d [] found = absurd (cc found)
  length-put_found b d (c ∷ bs) found = elim (Bool-cases (text_eq c.key b.key)) [
    | inl e ↦ rw (e, put) (omega arith)
    | inr e ↦
        rw (e, put)
          (let shorter = length-put_found b d bs (rw (e, find_bucket) at found) in omega arith)
  ]

  pub length-evict_one :
      (n : ℕ) (b : Bucket N) (bs : List (Bucket N)) → length (evict_one n (b ∷ bs)) ≡ length bs
  unfolding evict_one
  length-evict_one n b [] = refl
  length-evict_one zero b (c ∷ bs) = refl
  length-evict_one (suc n) b (c ∷ bs) = let shorter = length-evict_one n c bs in omega arith

  pub evict_one_shorter : (n : ℕ) (bs : List (Bucket N)) → length (evict_one n bs) ≤ length bs - 1
  unfolding evict_one
  evict_one_shorter n [] = omega arith
  evict_one_shorter n (b ∷ bs) = let shorter = length-evict_one n b bs in omega arith

  pub some_eq : (b c : Bucket N) → some b ≡ some c → b ≡ c
  some_eq b c e = cc e

  pub key_found :
      (key : Text) (bs : List (Bucket N)) (b : Bucket N)
      → find_bucket key bs ≡ some b
      → text_eq b.key key ≡ true
  unfolding find_bucket
  key_found key [] b found = absurd (cc found)
  key_found key (c ∷ bs) b found = elim (Bool-cases (text_eq c.key key)) [
    | inl e ↦ rw (sym (some_eq c b (rw (e, find_bucket) at found))) e
    | inr e ↦ key_found key bs b (rw (e, find_bucket) at found)
  ]

  pub find_bucket-key :
      (key : Text) (bs : List (Bucket N)) (b : Bucket N)
      → find_bucket key bs ≡ some b
      → find_bucket b.key bs ≡ some b
  unfolding find_bucket
  find_bucket-key key [] b found = absurd (cc found)
  find_bucket-key key (c ∷ bs) b found = elim (Bool-cases (text_eq c.key key)) [
    | inl e ↦
        rw (some_eq c b (rw (e, find_bucket) at found)) (rw (text_eq_refl b.key, find_bucket) refl)
    | inr e ↦
        let later = rw (e, find_bucket) at found in
        elim (Bool-cases (text_eq c.key b.key)) [
          | inl same ↦ absurd (cc (key_found key bs b later, text_eq→eq c.key b.key same, e))
          | inr other ↦ rw (other, find_bucket) (find_bucket-key key bs b later)
        ]
  ]
