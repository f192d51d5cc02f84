-- ===== src/Action/Inputs.antt =====
-- An input with a title and no board.
use boardchestrator.Prelude.{
  ◌≡◌, ◌≢◌, ◌↔◌, refl, true, false, some, [], ◌∷◌, codes, text_eq, ok, err, All, if◌then◌else◌,
}
use boardchestrator.Action.Schema.{
  Field, kind_string, kind_number, string, Members, Decoder, validate, unknown_field,
}
use boardchestrator.Action.Accepts.{IsDeclared, Fits, validate_iff}

-- Knows one input, null, and string values.
abbrev decoder : Decoder
unfolding text_eq
decoder = record {
  decode_members =
      λ raw. if text_eq raw (codes "null") then some [] else some ((codes "title", raw) ∷ []);
  shape_of = λ val. some string;
  trim_space = λ val. val;
}

abbrev title : Field
title = record { name = codes "title"; kind = kind_string; required = true }

abbrev board : Field
board = record { name = codes "board"; kind = kind_number; required = false }

program : Unit {0}
unfolding validate text_eq
program = tt

accepted : validate decoder (title ∷ board ∷ []) (codes "x") ≡ ok tt
unfolding program
accepted = refl

refused : validate decoder (board ∷ []) (codes "x") ≡ err (unknown_field (codes "title"))
unfolding program
refused = refl

-- Null passes for an object where nothing is required.
null_accepted : validate decoder (board ∷ []) (codes "null") ≡ ok tt
unfolding program
null_accepted = refl

validate_iff_example :
    (validate decoder (title ∷ board ∷ []) (codes "x") ≡ ok tt)
    ↔ (codes "x" ≢ [])
      × ((obj : Members) × (decoder.decode_members (codes "x") ≡ some obj)
          × All (λ (n, val). IsDeclared (title ∷ board ∷ []) n) obj
          × All (Fits decoder obj) (title ∷ board ∷ []))
validate_iff_example = validate_iff decoder (title ∷ board ∷ []) (codes "x")
