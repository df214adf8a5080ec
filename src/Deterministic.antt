-- ===== src/Deterministic.antt =====
-- src/incident_platform/deterministic.py: the rules that prove a root cause from Evidence. A rule gives
-- its status, the Evidence that supports it and what is missing; its statement, a text for readers, is
-- left out. A membership test of a value that cannot be hashed raises TypeError.
pub mod Rules
pub mod Engine
pub mod Restricted
use agent_rca.Prelude.{
  ℕ, zero, suc, String, Bool, true, false, Option, none, some, List, [], ◌∷◌, ◌++◌, ◌==◌, ◌&&◌,
  ◌||◌, not, leb, map, mem, if◌then◌else◌,
}
use agent_rca.Outcome.{Result, ok, err, type_error}
use agent_rca.Outcome.Checked.{◌>>=◌}
use agent_rca.Json.{
  Json, null, bool, number, negative, whole, minus_whole, decimal, text, arr, obj, Fields, nil,
  cons, end, field,
}
use agent_rca.Scope.{value, same}
use agent_rca.Documents.{Evidence}
use agent_rca.Runtime.{Runtime}

pub data RuleStatus : Type 0 where
  not_applicable insufficient proven : RuleStatus

pub record RuleEvaluation : Type 0 where
  pub rule_id : String
  pub status : RuleStatus
  pub supporting_evidence_ids : List String
  pub missing_requirements : List String

-- `item.get("source") == source and item.get("kind") == kind`
abbrev pub is_from : String → String → Evidence → Bool
is_from source kind e = e.source == source && e.kind == kind

-- `_facts(item).get(key)`
abbrev pub fact : String → Evidence → Json
fact key e = value key e.facts

abbrev pub is_null : Json → Bool
is_null null = true
is_null _ = false

-- `value in {...}` of texts
unfoldable pub member_of : List String → Json → Result Bool
member_of names (text s) = ok (mem s names)
member_of names (arr _) = err type_error
member_of names (obj _) = err type_error
member_of names _ = ok false

-- `a and b`, and `a or b`, of tests the second of which may raise
abbrev pub and_then : Bool → Result Bool → Result Bool
and_then true test = test
and_then false test = ok false

abbrev pub or_else : Bool → Result Bool → Result Bool
or_else true test = ok true
or_else false test = test

-- `[item for item in evidence if test]`
unfoldable pub select : (Evidence → Result Bool) → List Evidence → Result (List Evidence)
select test [] = ok []
select test (e ∷ es) = do
  chosen ← test e
  rest ← select test es
  ok (if chosen then e ∷ rest else rest)

abbrev pub pair_or_next :
    Evidence
    → List Evidence
    → Result (Option (Evidence × Evidence))
    → Result (Option (Evidence × Evidence))
pair_or_next s [] next = next
pair_or_next s (e ∷ es) next = ok (some (s, e))

-- `for state in states`: the first state that some item corroborates, with the first such item
unfoldable pub first_pair :
    (Evidence → Evidence → Result Bool)
    → List Evidence
    → List Evidence
    → Result (Option (Evidence × Evidence))
first_pair corroborates evidence [] = ok none
first_pair corroborates evidence (s ∷ ss) = do
  found ← select (corroborates s) evidence
  pair_or_next s found (first_pair corroborates evidence ss)

-- `value is True`, `value is False`
abbrev pub is_value : Bool → Json → Bool
is_value true (bool b) = b
is_value false (bool b) = not b
is_value b v = false

module _ (rt : Runtime) where
  -- `bool(value)`
  abbrev pub truthy : Json → Bool
  truthy null = false
  truthy (bool b) = b
  truthy (number zero) = false
  truthy (number (suc n)) = true
  truthy (negative n) = true
  truthy (whole zero) = false
  truthy (whole (suc n)) = true
  truthy (minus_whole zero) = false
  truthy (minus_whole (suc n)) = true
  truthy (decimal s) = not (rt.decimal_is_zero s)
  truthy (text s) = not (s == "")
  truthy (arr nil) = false
  truthy (arr (cons _ _)) = true
  truthy (obj end) = false
  truthy (obj (field _ _ _)) = true

  -- `_at_least`
  unfoldable pub at_least : Json → ℕ → Bool
  at_least (number n) threshold = leb threshold n
  at_least (whole n) threshold = leb threshold n
  at_least (minus_whole zero) threshold = leb threshold 0
  at_least (decimal s) threshold = rt.decimal_at_least s threshold
  at_least _ threshold = false

  -- one key of `_same_subject`'s loop
  abbrev pub same_identity : Json → Json → Bool
  same_identity first second =
      (is_null first && is_null second) || (truthy first && same first second)

  unfoldable pub same_subject : Evidence → Evidence → Bool
  same_subject a b =
      same (value "namespace" a.subject) (value "namespace" b.subject)
      && same (value "kind" a.subject) (value "kind" b.subject)
      && same (value "name" a.subject) (value "name" b.subject)
      && same_identity (value "cluster_id" a.subject) (value "cluster_id" b.subject)
      && same_identity (value "uid" a.subject) (value "uid" b.subject)
