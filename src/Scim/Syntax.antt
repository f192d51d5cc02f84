-- ===== src/Scim/Syntax.antt =====
-- internal/auth/scim/filter.go: filters. A slice of conditions is a filter itself, since that is
-- the only field of the source's Filter.
use boardchestrator.Prelude.{ℕ, suc, Bool, List, Text, ltb, if◌then◌else◌}

-- The dynamic type of a comparison value: nil, bool, float64 or string.
pub data Value : Type 0 where
  null : Value
  bool : Bool → Value
  number : ℕ → Value
  string : Text → Value

-- Op, with the value that "eq" has: `bare` is "".
pub data Test : Type 0 where
  bare pr : Test
  eq : Value → Test

mutual
  pub data Filter : Type 0 where
    end : Filter
    and : Cond → Filter → Filter

  pub data Cond : Type 0 where
    group : Filter → Cond
    attr : List Text → Sub → Test → Cond

  -- Cond.Sub and SubAttr, which is empty where there is none.
  pub data Sub : Type 0 where
    no_sub : Sub
    sub : Filter → Text → Sub

abbrev pub larger : ℕ → ℕ → ℕ
larger a b = if ltb a b then b else a

-- How deep the filters are nested.
unfoldable mutual
  pub depth : Filter → ℕ
  depth end = 1
  depth (and c f) = larger (suc (cond_depth c)) (depth f)

  pub cond_depth : Cond → ℕ
  cond_depth (group f) = depth f
  cond_depth (attr path s test) = sub_depth s

  pub sub_depth : Sub → ℕ
  sub_depth no_sub = 0
  sub_depth (sub f sub_attr) = depth f
