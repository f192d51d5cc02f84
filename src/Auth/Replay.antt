-- ===== src/Auth/Replay.antt =====
-- internal/auth/replay.go: the cache of token ids. The Go map is a list of entries, and times are
-- milliseconds.
use boardchestrator.Prelude.{
  ℕ, suc, ◌≤◌, ◌<◌, ◌≡◌, refl, sym, ap, subst, ◌∙◌, inl, inr, ◌⊎◌, Bool, true, false, Option, none,
  some, List, [], ◌∷◌, arith, Text, text_eq, text_eq_refl, text_eq→eq, if◌then◌else◌, Bool-cases,
  length, keep, length-keep-le, ltb, leb, lt→ltb, All,
}

pub record Cache : Type 0 where
  pub max : ℕ
  pub entries : List (Text × ℕ)

abbrev pub default_replay_cache_size : ℕ
default_replay_cache_size = 10000

abbrev pub new_replay_cache : ℕ → Cache
new_replay_cache size = record {
  max = if ltb 0 size then size else default_replay_cache_size;
  entries = [];
}

-- `c.entries[id]`
unfoldable pub expiry : Text → List (Text × ℕ) → Option ℕ
unfolding text_eq
expiry id [] = none
expiry id ((k, exp) ∷ rest) = if text_eq k id then some exp else expiry id rest

-- `c.entries[id] = expires`
unfoldable pub assign : Text → ℕ → List (Text × ℕ) → List (Text × ℕ)
unfolding text_eq
assign id expires [] = (id, expires) ∷ []
assign id expires ((k, exp) ∷ rest) =
    let later = assign id expires rest in
    if text_eq k id then (k, expires) ∷ rest else (k, exp) ∷ later

-- The loop that deletes the entries that have expired.
unfoldable pub sweep : ℕ → List (Text × ℕ) → List (Text × ℕ)
sweep now = keep (λ e. ltb now e.1)

unfoldable pub is_replay : ℕ → Option ℕ → Bool
is_replay now none = false
is_replay now (some exp) = ltb now exp

-- ReplayCache.Use at a time.
unfoldable pub use_id : ℕ → Text → ℕ → Cache → Bool × Cache
unfolding expiry assign sweep is_replay
use_id now id expires c =
    if is_replay now (expiry id c.entries)
    then (false, c)
    else if leb c.max (length c.entries)
    then (let swept = sweep now c.entries in
        if leb c.max (length swept)
        then (false, record c { entries = swept })
        else (true, record c { entries = assign id expires swept }))
    else (true, record c { entries = assign id expires c.entries })

-- A call of Use, with its time.
pub record Call : Type 0 where
  pub now : ℕ
  pub id : Text
  pub expires : ℕ

unfoldable pub use_all : List Call → Cache → Cache
unfolding use_id
use_all [] c = c
use_all (k ∷ ks) c = use_all ks (use_id k.now k.id k.expires c).1

expiry-assign :
    (id : Text) (expires : ℕ) (es : List (Text × ℕ))
    → expiry id (assign id expires es) ≡ some expires
unfolding expiry assign
expiry-assign id expires [] = simp (text_eq_refl id)
expiry-assign id expires ((k, exp) ∷ rest) = elim (Bool-cases (text_eq k id)) [
  | inl e ↦ simp (e)
  | inr e ↦ simp (e) (expiry-assign id expires rest)
]

-- Another id's entry is not touched.
expiry-assign_other :
    (id id' : Text) (expires : ℕ) (es : List (Text × ℕ))
    → text_eq id' id ≡ false
    → expiry id (assign id' expires es) ≡ expiry id es
unfolding expiry assign
expiry-assign_other id id' expires [] other = simp (other)
expiry-assign_other id id' expires ((k, exp) ∷ rest) other = elim (Bool-cases (text_eq k id')) [
  | inl e ↦
      let not_here : text_eq k id ≡ false = rw (text_eq→eq k id' e) other in simp (e, not_here)
  | inr e ↦
      let ih = expiry-assign_other id id' expires rest other in
      elim (Bool-cases (text_eq k id)) [ inl h ↦ simp (e, h) | inr h ↦ simp (e, h) ih ]
]

some_eq : {a b : ℕ} → some a ≡ some b → a ≡ b
some_eq h = cc

-- The sweep keeps what has not expired.
expiry-sweep :
    (now : ℕ) (id : Text) (exp : ℕ) (es : List (Text × ℕ))
    → now < exp
    → expiry id es ≡ some exp
    → expiry id (sweep now es) ≡ some exp
unfolding expiry sweep
expiry-sweep now id exp [] early h = cc
expiry-sweep now id exp ((k, exp') ∷ rest) early h = elim (Bool-cases (text_eq k id)) [
  | inl e ↦
      let same : exp' ≡ exp = some_eq (sym (simp (e)) ∙ h) in
      let kept : ltb now exp ≡ true = lt→ltb now exp early in simp (same, kept, e)
  | inr e ↦
      let found : expiry id rest ≡ some exp = sym (simp (e)) ∙ h in
      let ih = expiry-sweep now id exp rest early found in
      elim (Bool-cases (ltb now exp')) [ inl l ↦ simp (l, e) ih | inr l ↦ simp (l) ih ]
]

length-assign_le :
    (id : Text) (expires : ℕ) (es : List (Text × ℕ))
    → length (assign id expires es) ≤ suc (length es)
unfolding assign
length-assign_le id expires [] = omega arith
length-assign_le id expires ((k, exp) ∷ rest) =
    let ih = length-assign_le id expires rest in
    elim (Bool-cases (text_eq k id)) [
      | inl e ↦ simp (e) (omega arith)
      | inr e ↦ simp (e) (omega arith)
    ]

leb-false : (a b : ℕ) → leb a b ≡ false → b < a
leb-false a b h = ground arith

is_replay_lem : (now exp : ℕ) (o : Option ℕ) → o ≡ some exp → now < exp → is_replay now o ≡ true
unfolding is_replay
is_replay_lem now exp none h early = cc
is_replay_lem now exp (some e) h early = lt→ltb now e (subst (λ x. now < x) (sym (some_eq h)) early)

-- An id that is held and has not expired is refused, and the cache stays as it is.
use_id_refuses :
    (now : ℕ) (id : Text) (expires exp : ℕ) (c : Cache)
    → expiry id c.entries ≡ some exp
    → now < exp
    → use_id now id expires c ≡ (false, c)
unfolding use_id
use_id_refuses now id expires exp c held early =
    simp (is_replay_lem now exp (expiry id c.entries) held early)

-- The three ways that Use ends.
use_id_cases :
    (now : ℕ) (id : Text) (expires : ℕ) (c : Cache)
    → (use_id now id expires c ≡ (false, c))
      ⊎ (use_id now id expires c ≡ (false, record c { entries = sweep now c.entries }))
      ⊎ (es : List (Text × ℕ)) × (es ≡ c.entries ⊎ es ≡ sweep now c.entries)
        × (length es < c.max)
        × (use_id now id expires c ≡ (true, record c { entries = assign id expires es }))
unfolding use_id
use_id_cases now id expires c = elim (Bool-cases (is_replay now (expiry id c.entries))) [
  | inl replay ↦ inl (simp (replay))
  | inr new ↦ elim (Bool-cases (leb c.max (length c.entries))) [
    | inr room ↦
        inr (inr (c.entries, inl refl, leb-false c.max (length c.entries) room, simp (new, room)))
    | inl full ↦ elim (Bool-cases (leb c.max (length (sweep now c.entries)))) [
      | inl still ↦ inr (inl (simp (new, full, still)))
      | inr room ↦ inr (
          inr (
            sweep now c.entries,
            inr refl,
            leb-false c.max (length (sweep now c.entries)) room,
            simp (new, full, room),
          ))
    ]
  ]
]

held-after :
    (now : ℕ) (id : Text) (exp : ℕ) (es es' : List (Text × ℕ))
    → now < exp
    → expiry id es ≡ some exp
    → es' ≡ es ⊎ es' ≡ sweep now es
    → expiry id es' ≡ some exp
held-after now id exp es es' early held (inl same) = ap (expiry id) same ∙ held
held-after now id exp es es' early held (inr swept) =
    ap (expiry id) swept ∙ expiry-sweep now id exp es early held

-- Before its expiry an id stays held, whichever id is used.
use_id_keeps :
    (now : ℕ) (id id' : Text) (expires exp : ℕ) (c : Cache)
    → now < exp
    → expiry id c.entries ≡ some exp
    → expiry id (use_id now id' expires c).1.entries ≡ some exp
use_id_keeps now id id' expires exp c early held = elim (Bool-cases (text_eq id' id)) [
  | inl same ↦
      let here : expiry id' c.entries ≡ some exp =
        ap (λ t. expiry t c.entries) (text_eq→eq id' id same) ∙ held in
      ap (λ (x : Bool × Cache). expiry id x.1.entries)
        (use_id_refuses now id' expires exp c here early)
      ∙ held
  | inr other ↦ elim (use_id_cases now id' expires c) [
    | inl e ↦ ap (λ (x : Bool × Cache). expiry id x.1.entries) e ∙ held
    | inr (inl e) ↦
        ap (λ (x : Bool × Cache). expiry id x.1.entries) e
        ∙ expiry-sweep now id exp c.entries early held
    | inr (inr (es, from, room, e)) ↦
        ap (λ (x : Bool × Cache). expiry id x.1.entries) e
        ∙ (expiry-assign_other id id' expires es other
            ∙ held-after now id exp c.entries es early held from)
  ]
]

use_all_keeps :
    (ks : List Call) (id : Text) (exp : ℕ) (c : Cache)
    → All (λ k. k.now < exp) ks
    → expiry id c.entries ≡ some exp
    → expiry id (use_all ks c).entries ≡ some exp
unfolding use_all
use_all_keeps [] id exp c early held = held
use_all_keeps (k ∷ ks) id exp c (early, rest) held =
    use_all_keeps ks id exp (use_id k.now k.id k.expires c).1 rest
      (use_id_keeps k.now id k.id k.expires exp c early held)

use_id_holds :
    (now : ℕ) (id : Text) (expires : ℕ) (c : Cache)
    → (use_id now id expires c).0 ≡ true
    → expiry id (use_id now id expires c).1.entries ≡ some expires
use_id_holds now id expires c h = elim (use_id_cases now id expires c) [
  | inl e ↦ absurd (not_both (ap (λ (x : Bool × Cache). x.0) (sym e) ∙ h))
  | inr (inl e) ↦ absurd (not_both (ap (λ (x : Bool × Cache). x.0) (sym e) ∙ h))
  | inr (inr (es, from, room, e)) ↦
      ap (λ (x : Bool × Cache). expiry id x.1.entries) e ∙ expiry-assign id expires es
]
  where
    not_both : false ≡ true → ⊥
    not_both q = cc

-- An id that Use has accepted is refused until it expires, whatever ids are used in between at
-- times before that, also where the cache is full and sweeps.
pub use_id_once :
    (now : ℕ) (id : Text) (expires : ℕ) (c : Cache) (between : List Call) (later expires' : ℕ)
    → (use_id now id expires c).0 ≡ true
    → All (λ k. k.now < expires) between
    → later < expires
    → (use_id later id expires' (use_all between (use_id now id expires c).1)).0 ≡ false
use_id_once now id expires c between later expires' accepted early before =
    let after = use_all between (use_id now id expires c).1 in
    let held =
      use_all_keeps between id expires (use_id now id expires c).1 early
        (use_id_holds now id expires c accepted) in
    ap (λ (x : Bool × Cache). x.0) (use_id_refuses later id expires' expires after held before)

use_id_bounded :
    (now : ℕ) (id : Text) (expires : ℕ) (c : Cache)
    → length c.entries ≤ c.max
    → (length (use_id now id expires c).1.entries ≤ c.max)
      × ((use_id now id expires c).1.max ≡ c.max)
unfolding sweep
use_id_bounded now id expires c small = elim (use_id_cases now id expires c) [
  | inl e ↦ rw e (small, refl)
  | inr (inl e) ↦ rw e (shrinks, refl)
  | inr (inr (es, from, room, e)) ↦
      let k = length-assign_le id expires es in rw e (omega arith, refl)
]
  where
    shrinks : length (sweep now c.entries) ≤ c.max
    shrinks = let k = length-keep-le (λ e. ltb now e.1) c.entries in omega arith

-- However many ids are used, the cache never holds more than its size.
pub use_all_bounded :
    (ks : List Call) (c : Cache) → length c.entries ≤ c.max → length (use_all ks c).entries ≤ c.max
unfolding use_all
use_all_bounded [] c small = small
use_all_bounded (k ∷ ks) c small =
    let (small', same) = use_id_bounded k.now k.id k.expires c small in
    subst (λ m. length (use_all ks (use_id k.now k.id k.expires c).1).entries ≤ m) same
      (use_all_bounded ks (use_id k.now k.id k.expires c).1
        (subst (λ m. length (use_id k.now k.id k.expires c).1.entries ≤ m) (sym same) small'))
