-- ===== src/Action/Cleared.antt =====
-- What must hold before an action leaves a trace (internal/action/dispatch.go).
use boardchestrator.Prelude.{
  ◌≡◌, ◌≢◌, refl, subst, ◌⊎◌, inl, inr, Bool, true, false, not, Option, none, some, [], ◌∷◌, arith,
  Text, is_empty, Result, ok, err, >>=-eq-ok, Bool-cases, Option-cases, Result-cases,
}
use boardchestrator.Action.{ActorType, Actor, ActionCtx, Policy, is_valid, is_agent}
use boardchestrator.Action.Model.{
  Out, DispatchError, Decision, proceed, pending, forbid, World, Opts, Definition, Hooks,
  ScopeError, forbidden, unknown_action, is_tenantless, is_self, ctx_of,
}
use boardchestrator.Action.Admit.{
  admit, check_scope_shape, found, guard, validate, scope_outcome, perm_outcome,
}
use boardchestrator.Action.Record.{find_idem}
use boardchestrator.Action.Dispatch.{
  dispatch, preview_or_echo, gate_and_run, after_gate, preview_or_run, replay_or_run,
}

-- The three tables that Dispatch itself writes are as they were.
pub record SameTrace {S : Type 0} (w w' : World S) : Type 0 where
  pub idem : w'.idem ≡ w.idem
  pub events : w'.events ≡ w.events
  pub audit : w'.audit ≡ w.audit

-- A platform or self action carries no tenant id, and a self action is a user's.
pub record FitsScope (def : Policy) (actor : Actor) (opts : Opts) : Type 0 where
  pub no_org : is_tenantless def.scope ≡ true → opts.org ≡ []
  pub no_team : is_tenantless def.scope ≡ true → opts.team ≡ []
  pub no_proj : is_tenantless def.scope ≡ true → opts.proj ≡ []
  pub own : is_self def.scope ≡ true → actor.type ≡ ActorType.user

module _ {S V : Type 0} (h : Hooks S V) where
  -- Every check of steps 1 to 5 passed for this definition.
  pub record Admitted (db : S) (actor : Actor) (name input : Text) (opts : Opts)
      (def : Definition S V) : Type 0 where
    pub known_type : is_valid actor.type ≡ true
    pub has_id : actor.id ≢ []
    pub registered : h.lookup name ≡ some def
    pub fits : FitsScope def.policy actor opts
    pub valid_input : validate def.input input ≡ ok tt
    pub in_scope : h.scope_resolve db (ctx_of actor opts) def.policy ≡ none
    pub permitted : h.perm_allow db (ctx_of actor opts) def.policy ≡ ok true

  fits_lem :
      (def : Policy) (actor : Actor) (opts : Opts)
      → check_scope_shape def actor opts ≡ ok tt
      → FitsScope def actor opts
  unfolding check_scope_shape
  fits_lem def actor opts e = ground arith

  guard-eq-ok : (b : Bool) (e : DispatchError) {u : Unit {0}} → guard b e ≡ ok u → b ≡ true
  guard-eq-ok b e h = ground arith

  not_empty : (t : Text) → not (is_empty t) ≡ true → t ≢ []
  not_empty [] e p = cc
  not_empty (c ∷ t) e p = cc

  found-eq-ok :
      {A : Type 0} (o : Option A) (e : DispatchError) {a : A} → found o e ≡ ok a → o ≡ some a
  found-eq-ok none e h = cc
  found-eq-ok (some a) e h = cc

  scope_outcome-eq-ok : (o : Option ScopeError) {u : Unit {0}} → scope_outcome o ≡ ok u → o ≡ none
  scope_outcome-eq-ok o h = ground arith

  perm_outcome-eq-ok : (r : Result Text Bool) {u : Unit {0}} → perm_outcome r ≡ ok u → r ≡ ok true
  perm_outcome-eq-ok (ok true) h = refl
  perm_outcome-eq-ok (ok false) h = cc
  perm_outcome-eq-ok (err e) h = cc

  -- The checks pass only where each of their conditions holds.
  pub admit-Admitted :
      (db : S) (actor : Actor) (name input : Text) (opts : Opts) (def : Definition S V)
      → admit h db actor name input opts ≡ ok def
      → Admitted db actor name input opts def
  unfolding admit
  admit-Admitted db actor name input opts def e =
      let (_, e1, r1) = >>=-eq-ok (guard (is_valid actor.type) forbidden) _ e in
      let (_, e2, r2) = >>=-eq-ok (guard (not (is_empty actor.id)) forbidden) _ r1 in
      let (d, e3, r3) = >>=-eq-ok (found (h.lookup name) unknown_action) _ r2 in
      let (_, e4, r4) = >>=-eq-ok (check_scope_shape d.policy actor opts) _ r3 in
      let (_, e5, r5) = >>=-eq-ok (validate d.input input) _ r4 in
      let (_, e6, r6) =
        >>=-eq-ok (scope_outcome (h.scope_resolve db (ctx_of actor opts) d.policy)) _ r5 in
      let (_, e7, r7) =
        >>=-eq-ok (perm_outcome (h.perm_allow db (ctx_of actor opts) d.policy)) _ r6 in
      let same : d ≡ def = cc in
      subst (Admitted db actor name input opts) same (record {
        known_type = guard-eq-ok (is_valid actor.type) forbidden e1;
        has_id = not_empty actor.id (guard-eq-ok (not (is_empty actor.id)) forbidden e2);
        registered = found-eq-ok (h.lookup name) unknown_action e3;
        fits = fits_lem d.policy actor opts e4;
        valid_input = e5;
        in_scope = scope_outcome-eq-ok (h.scope_resolve db (ctx_of actor opts) d.policy) e6;
        permitted = perm_outcome-eq-ok (h.perm_allow db (ctx_of actor opts) d.policy) e7;
      })

  -- The gate proceeded where it was asked.
  abbrev pub PassedGate : World S → Actor → Opts → Definition S V → Text → Type 0
  PassedGate w actor opts def input =
      is_agent actor.type ≡ true
      → (id : Text) × ((h.gate w.db (ctx_of actor opts) def.policy input).0 ≡ ok (proceed, id))

  -- Every condition under which an action runs.
  pub record Cleared (w : World S) (actor : Actor) (name input : Text) (opts : Opts) : Type 0 where
    pub def : Definition S V
    pub admitted : Admitted w.db actor name input opts def
    pub gated : PassedGate w actor opts def input
    pub not_dry : opts.dry_run ≡ false
    pub not_replayed : opts.idem ≢ [] → find_idem opts.idem w.idem ≡ none

  abbrev Outcome : Type 0
  Outcome = Result DispatchError (Out V) × World S

  abbrev pub Fresh : World S → Opts → Type 0
  Fresh w opts = (opts.dry_run ≡ false) × (opts.idem ≢ [] → find_idem opts.idem w.idem ≡ none)

  same : (u : World S) → SameTrace u u
  same u = record { idem = refl; events = refl; audit = refl }

  replay_cases :
      (w : World S) (ac : ActionCtx) (def : Definition S V) (name input : Text)
      → SameTrace w (replay_or_run h w ac def name input).1
        ⊎ (ac.idem ≢ [] → find_idem ac.idem w.idem ≡ none)
  unfolding replay_or_run
  replay_cases w ac def name input = elim (Bool-cases (is_empty ac.idem)) [
    | inl e ↦ inr (λ n. absurd (n (ground arith)))
    | inr e ↦ elim (Option-cases (h.idem_get_fault w.idem ac.idem)) [
      | inr (f, ef) ↦ inl (rw (e, ef) (same w))
      | inl ef ↦ elim (Option-cases (find_idem ac.idem w.idem)) [
        | inl missed ↦ inr (λ _. missed)
        | inr (row, hit) ↦ inl (rw (e, ef, hit) (same w))
      ]
    ]
  ]

  echo_same :
      (o : Option (S → ActionCtx → Text → Result DispatchError (Out V))) (w : World S)
      (ac : ActionCtx) (input : Text)
      → SameTrace w (preview_or_echo h o w ac input).1
  echo_same none w ac input = same w
  echo_same (some f) w ac input = same w

  preview_cases :
      (w : World S) (ac : ActionCtx) (def : Definition S V) (name input : Text)
      → SameTrace w (preview_or_run h w ac def name input).1
        ⊎ (ac.dry_run ≡ false) × (ac.idem ≢ [] → find_idem ac.idem w.idem ≡ none)
  unfolding preview_or_run
  preview_cases w ac def name input = elim (Bool-cases ac.dry_run) [
    | inl dry ↦ simp dry (inl (echo_same def.preview w ac input))
    | inr wet ↦ simp wet (elim (replay_cases w ac def name input) [
      | inl same ↦ inl same
      | inr missed ↦ inr (refl, missed)
    ])
  ]

  -- The gate's answer lets the call go on.
  abbrev LetsGo : Result Text (Decision × Text) → Type 0
  LetsGo answer = (id : Text) × (answer ≡ ok (proceed, id))

  after_gate_cases :
      (answer : Result Text (Decision × Text)) (w : World S) (ac : ActionCtx) (def : Definition S V)
      (name input : Text)
      → SameTrace w (after_gate h answer w ac def name input).1
        ⊎ (LetsGo answer × (ac.dry_run ≡ false) × (ac.idem ≢ [] → find_idem ac.idem w.idem ≡ none))
  unfolding after_gate
  after_gate_cases (err e) w ac def name input = inl (same w)
  after_gate_cases (ok (forbid, id)) w ac def name input = inl (same w)
  after_gate_cases (ok (pending, id)) w ac def name input = inl (same w)
  after_gate_cases (ok (proceed, id)) w ac def name input =
      elim (preview_cases w ac def name input) [
        | inl kept ↦ inl kept
        | inr (wet, missed) ↦ inr ((id, refl), wet, missed)
      ]

  gated_cases :
      (w : World S) (actor : Actor) (def : Definition S V) (name input : Text) (opts : Opts)
      → SameTrace w (gate_and_run h w (ctx_of actor opts) def name input).1
        ⊎ (PassedGate w actor opts def input
            × (opts.dry_run ≡ false)
            × (opts.idem ≢ [] → find_idem opts.idem w.idem ≡ none))
  unfolding gate_and_run
  gated_cases w actor def name input opts =
      let ac = ctx_of actor opts in
      let (answer, db') = h.gate w.db ac def.policy input in
      elim (Bool-cases (is_agent actor.type)) [
        | inl agent ↦
            simp agent (elim (after_gate_cases answer (record w { db = db' }) ac def name input) [
              | inl kept ↦
                  inl (record { idem = kept.idem; events = kept.events; audit = kept.audit })
              | inr (go, wet, missed) ↦ inr ((λ _. go), wet, missed)
            ])
        | inr other ↦ simp other (elim (preview_cases w ac def name input) [
          | inl kept ↦ inl kept
          | inr (wet, missed) ↦ inr ((λ agent. absurd (cc agent)), wet, missed)
        ])
      ]

  -- Either a call of Dispatch leaves the idempotency keys, the events and the audit log as they
  -- were, or it passed everything: a known actor type and an actor id, a registered action, a
  -- platform or self action with no tenant id (a self action by a user), valid input, a resolved
  -- scope, permission, the approval gate where the actor is an agent, no dry run, and no stored
  -- result under its idempotency key.
  pub dispatch-Cleared :
      (w : World S) (actor : Actor) (name input : Text) (opts : Opts)
      → SameTrace w (dispatch h w actor name input opts).1 ⊎ Cleared w actor name input opts
  unfolding dispatch
  dispatch-Cleared w actor name input opts =
      elim (Result-cases (admit h w.db actor name input opts)) [
        | inr (e, refused) ↦ inl (rw (refused, dispatch) (same w))
        | inl (def, admitted) ↦ elim (gated_cases w actor def name input opts) [
          | inl kept ↦ inl (rw (admitted, dispatch) kept)
          | inr (gated, wet, missed) ↦ inr (record {
            def = def;
            admitted = admit-Admitted w.db actor name input opts def admitted;
            gated = gated;
            not_dry = wet;
            not_replayed = missed;
          })
        ]
      ]
