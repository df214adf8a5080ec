-- ===== src/Scope.antt =====
-- `ResourceScope` of src/incident_platform/evidence.py: which Evidence subjects a collection may
-- return.
use agent_rca.Prelude.{
  ℕ, String, Bool, true, false, none, some, List, [], ◌∷◌, ◌==◌, ◌&&◌, ◌||◌, not, any, mem, unique,
  ltb, starts_with, holds,
}
use agent_rca.Outcome.{Result, ok, contract_violation}
use agent_rca.Outcome.Checked.{guard, ◌>>◌}
use agent_rca.Json.Equality.{compared}
use agent_rca.Json.{Json, null, text, arr, obj, Fields, Items, nil, cons, get, Json-discrete}
use agent_rca.Text.{is_blank}

pub record ResourceScope : Type 0 where
  pub namespace : String
  pub resource_names : List String
  pub resource_name_prefixes : List String
  pub max_items : ℕ
  pub related_resource_kinds : List String

-- `__post_init__`
unfoldable pub make_scope : ResourceScope → Result ResourceScope
unfolding is_blank unique
make_scope s = do
  guard (not (is_blank s.namespace)) contract_violation
  guard (not (none_of s.resource_names)) contract_violation
  guard (not (any is_blank s.resource_names)) contract_violation
  guard (unique s.resource_names) contract_violation
  guard (not (any is_blank s.resource_name_prefixes)) contract_violation
  guard (unique s.resource_name_prefixes) contract_violation
  guard (not (any is_blank s.related_resource_kinds)) contract_violation
  guard (unique s.related_resource_kinds) contract_violation
  guard (ltb 0 s.max_items) contract_violation
  ok s
  where
    none_of : List String → Bool
    none_of [] = true
    none_of (_ ∷ _) = false

-- `mapping.get(key)`: a missing key and a null are one
unfoldable pub value : String → Fields → Json
unfolding get
value key fields = elim (get key fields) [ none ↦ null | some j ↦ j ]

-- `==` of two values
abbrev pub same : Json → Json → Bool
same a b = holds (Json-discrete (compared a) (compared b))

module _ (s : ResourceScope) where
  unfoldable pub contains_resource_name : Json → Bool
  unfolding mem
  contains_resource_name (text name) =
      not (name == "")
      && (mem name s.resource_names || any (starts_with name) s.resource_name_prefixes)
  contains_resource_name _ = false

  -- `isinstance(uid, str) and bool(uid)`
  abbrev is_uid : Json → Bool
  is_uid (text uid) = not (uid == "")
  is_uid _ = false

  -- one element of `derivation["sources"]`
  unfoldable pub is_rooted_source : Fields → Json → Bool
  unfolding value contains_resource_name
  is_rooted_source subject (obj source) =
      same (value "kind" source) (text "Pod")
      && same (value "cluster_id" source) (value "cluster_id" subject)
      && same (value "namespace" source) (text s.namespace)
      && is_uid (value "uid" source)
      && contains_resource_name (value "name" source)
  is_rooted_source subject _ = false

  unfoldable pub any_source : (Json → Bool) → Items → Bool
  any_source p nil = false
  any_source p (cons j js) = p j || any_source p js

  abbrev sources_admit : Fields → Json → Bool
  sources_admit subject (arr sources) = any_source (is_rooted_source subject) sources
  sources_admit subject _ = false

  abbrev derivation_admits : String → Fields → Json → Bool
  derivation_admits kind subject (obj derivation) =
      same (value "relation_type" derivation) (text "REFERENCES")
      && same (value "destination_kind" derivation) (text kind)
      && same (value "destination_name" derivation) (value "name" subject)
      && same (value "destination_namespace" derivation) (text s.namespace)
      && same (value "namespace" subject) (text s.namespace)
      && sources_admit subject (value "sources" derivation)
  derivation_admits kind subject _ = false

  abbrev relation_admits : Json → Fields → Fields → Bool
  relation_admits (text kind) subject facts =
      mem kind s.related_resource_kinds
      && derivation_admits kind subject (value "scope_derivation" facts)
  relation_admits _ subject facts = false

  unfoldable pub contains_evidence_subject : Fields → Fields → Bool
  contains_evidence_subject subject facts =
      contains_resource_name (value "name" subject)
      || relation_admits (value "kind" subject) subject facts
