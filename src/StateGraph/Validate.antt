-- ===== src/StateGraph/Validate.antt =====
-- The identities and the validation of the records of src/incident_platform/stategraph.py.
use Prim.Native.String.{◌++◌ as text_append}
use agent_rca.Prelude.{
  String, Bool, true, false, Option, none, some, List, [], ◌∷◌, ◌++◌, ◌==◌, ◌&&◌, ◌||◌, not, subset,
  if◌then◌else◌, holds, mem, any,
}
use agent_rca.Outcome.{Result, ok, err, contract_violation}
use agent_rca.Outcome.Checked.{guard, ◌>>=◌, ◌>>◌}
use agent_rca.Time.{DateTime, at_most}
use agent_rca.Sort.{sort_texts}
use agent_rca.Json.{
  Json, null, bool, number, text, arr, obj, Items, nil, cons, Fields, end, field, Json-discrete,
}
use agent_rca.Json.Equality.{place_field, compared}
use agent_rca.Text.{text_take, is_infix, underscored}
use agent_rca.Documents.{Span}
use agent_rca.Runtime.{Runtime, parse_time}
use agent_rca.StateGraph.{
  EntityIdentity, GraphRecord, of_entity, of_snapshot, of_relation, of_event, GraphRuntime,
}

-- `sort_keys=True`
unfoldable mutual
  pub canonical : Json → Json
  canonical (arr xs) = arr (canonical_items xs)
  canonical (obj fs) = obj (canonical_fields fs)
  canonical v = v

  pub canonical_items : Items → Items
  canonical_items nil = nil
  canonical_items (cons v vs) = cons (canonical v) (canonical_items vs)

  pub canonical_fields : Fields → Fields
  canonical_fields end = end
  canonical_fields (field k v rest) = place_field k (canonical v) (canonical_fields rest)

-- `==` of two objects
abbrev pub same_object : Fields → Fields → Bool
same_object a b = holds (Json-discrete (compared (obj a)) (compared (obj b)))

unfoldable pub stable_graph_id : Runtime → String → Fields → String
stable_graph_id rt prefix v =
    text_append prefix (text_append "-" (text_take 24 (rt.digest (canonical (obj v)))))

abbrev pub texts : List String → Items
texts [] = nil
texts (s ∷ ss) = cons (text s) (texts ss)

abbrev pub or_null : Option String → Json
or_null none = null
or_null (some s) = text s

-- `to_contract`
abbrev pub identity_fields : EntityIdentity → Fields
identity_fields i = field "version" (text i.version) (
    field "identity_type" (text i.identity_type)
      (field "domain" (text i.domain) (field "keys" (obj i.keys) end)))

abbrev pub entity_id_of : Runtime → EntityIdentity → String
entity_id_of rt i = stable_graph_id rt "ent" (identity_fields i)

abbrev names_of : Fields → List String
names_of end = []
names_of (field k v rest) = k ∷ names_of rest

-- `isinstance(value, str) and value`, of every key's value
abbrev are_texts : Fields → Bool
are_texts end = true
are_texts (field k (text s) rest) = not (s == "") && are_texts rest
are_texts (field k v rest) = false

-- `_REQUIRED_KEYS.get(identity_type)`
abbrev pub required_keys : String → Result (List String)
required_keys t =
    if t == "kubernetes-resource"
    then ok ("cluster_id" ∷ "uid" ∷ [])
    else if t == "kubernetes-placeholder"
    then ok ("cluster_id" ∷ "api_version" ∷ "kind" ∷ "namespace" ∷ "name" ∷ [])
    else if t == "logical-service"
    then ok ("cluster_id" ∷ "namespace" ∷ "service_name" ∷ [])
    else if t == "external"
    then ok ("external_key" ∷ [])
    else err contract_violation

-- `EntityIdentity.from_contract`, with `__post_init__`
unfoldable pub check_identity : EntityIdentity → Result (Unit {0})
check_identity i = do
  guard (i.version == "1.0.0") contract_violation
  required ← required_keys i.identity_type
  guard (subset (names_of i.keys) required && subset required (names_of i.keys)) contract_violation
  guard (not (i.domain == "")) contract_violation
  guard (are_texts i.keys) contract_violation

-- the record as the validator and the redaction see it
unfoldable pub fields_of : GraphRecord → Fields
fields_of (of_entity e) = field "record_type" (text "entity") (
    field "entity_id" (text e.entity_id) (
      field "identity" (obj (identity_fields e.identity)) (
        field "entity_type" (text e.entity_type) (
          field "domain" (text e.domain) (
            field "name" (text e.name) (
              field "scope" (obj e.scope) (
                field "external_ref" (or_null e.external_ref) (
                  field "exists" (bool e.exists) (
                    field "first_seen_at" (text e.first_seen_at) (
                      field "last_seen_at" (text e.last_seen_at)
                        (field "evidence_ids" (arr (texts e.evidence_ids)) end)))))))))))
fields_of (of_snapshot s) = field "record_type" (text "snapshot_interval") (
    field "snapshot_id" (text s.snapshot_id) (
      field "entity_id" (text s.entity_id) (
        field "observed_at" (text s.observed_at) (
          field "valid_from" (text s.valid_from) (
            field "valid_to" (or_null s.valid_to) (
              field "state_hash" (text s.state_hash) (
                field "state" (obj s.state)
                  (field "evidence_ids" (arr (texts s.evidence_ids)) end))))))))
fields_of (of_relation r) = field "record_type" (text "relation_interval") (
    field "relation_id" (text r.relation_id) (
      field "relation_key" (text r.relation_key) (
        field "source_entity_id" (text r.source_entity_id) (
          field "relation_type" (text r.relation_type) (
            field "destination_entity_id" (text r.destination_entity_id) (
              field "reference_key" (text r.reference_key) (
                field "projector" (text r.projector) (
                  field "observed_at" (text r.observed_at) (
                    field "valid_from" (text r.valid_from) (
                      field "valid_to" (or_null r.valid_to)
                        (field "evidence_ids" (arr (texts r.evidence_ids)) end)))))))))))
fields_of (of_event e) = field "record_type" (text "event_aggregate") (
    field "event_id" (text e.event_id) (
      field "entity_id" (text e.entity_id) (
        field "event_type" (text e.event_type) (
          field "first_seen_at" (text e.first_seen_at) (
            field "last_seen_at" (text e.last_seen_at) (
              field "count" (number e.count) (
                field "attributes" (obj e.attributes)
                  (field "evidence_ids" (arr (texts e.evidence_ids)) end))))))))

-- `_merged_ids`
abbrev dedupe : List String → List String
dedupe [] = []
dedupe (x ∷ xs) = let rest = dedupe xs in if mem x xs then rest else x ∷ rest

unfoldable pub merged_ids : List String → List String → List String
merged_ids xs ys = sort_texts (dedupe (xs ++ ys))

module _ (g : GraphRuntime) where
  abbrev pub sensitive_parts : List String
  sensitive_parts =
      "authorization" ∷ "api_key" ∷ "apikey" ∷ "cookie" ∷ "credential" ∷ "password" ∷ "private_key"
      ∷ "secret_value" ∷ "token" ∷ []

  -- `key.lower().replace("-", "_")` has one of the parts
  unfoldable pub is_sensitive_key : String → Bool
  is_sensitive_key key = any (λ part. is_infix part (underscored (g.lower key))) sensitive_parts

  -- whether `redact` finds something
  unfoldable mutual
    pub needs_redaction : Json → Bool
    needs_redaction (text s) = g.has_secret s
    needs_redaction (arr xs) = items_need xs
    needs_redaction (obj fs) = fields_need fs
    needs_redaction v = false

    pub items_need : Items → Bool
    items_need nil = false
    items_need (cons v vs) = needs_redaction v || items_need vs

    pub fields_need : Fields → Bool
    fields_need end = false
    fields_need (field k v rest) =
        (if is_sensitive_key k then true else needs_redaction v) || fields_need rest

  abbrev pub check_entity : GraphRecord → Result (Unit {0})
  check_entity (of_entity e) = do
    check_identity e.identity
    guard (e.identity.domain == e.domain) contract_violation
    guard (entity_id_of g.runtime e.identity == e.entity_id) contract_violation
  check_entity r = ok tt

  unfoldable pub validate_graph_record : GraphRecord → Result (Unit {0})
  unfolding check_identity canonical stable_graph_id fields_of is_sensitive_key needs_redaction
      text_take is_infix underscored
  validate_graph_record r = do
    guard (g.valid_record r) contract_violation
    check_entity r
    guard (not (fields_need (fields_of r))) contract_violation

-- `_parse_time(value) if value is not None else None`
abbrev pub parse_optional : Runtime → Option String → Result (Option DateTime)
parse_optional rt none = ok none
parse_optional rt (some s) = do t ← parse_time rt s; ok (some t)

-- `valid_to is None or valid_from <= valid_to`
abbrev pub ends_after : DateTime → Option DateTime → Bool
ends_after from none = true
ends_after from (some to) = at_most from to

-- `latest_to is None or latest_to <= valid_from`
abbrev pub ended_by : Option DateTime → DateTime → Bool
ended_by none from = true
ended_by (some to) from = at_most to from

abbrev pub earlier_of : DateTime → DateTime → DateTime
earlier_of a b = if at_most a b then a else b

abbrev pub later_of : DateTime → DateTime → DateTime
later_of a b = if at_most b a then a else b

-- `_overlaps`
unfoldable pub overlaps : Runtime → String → Option String → Span → Result Bool
overlaps rt valid_from valid_to window = do
  start ← parse_time rt valid_from
  finish ← parse_optional rt valid_to
  window_start ← parse_time rt window.start
  window_end ← parse_time rt window.finish
  ok (at_most start window_end && ends_after window_start finish)
