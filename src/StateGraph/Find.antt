-- ===== src/StateGraph/Find.antt =====
-- `EntityLookup` and `find_entities` of src/incident_platform/stategraph.py.
use agent_rca.Prelude.{
  ℕ, String, Bool, true, false, some, List, [], ◌∷◌, ◌==◌, ◌&&◌, ◌||◌, not, if◌then◌else◌, take,
  leb,
}
use agent_rca.Outcome.{Result, ok, err, contract_violation, key_error}
use agent_rca.Outcome.Checked.{guard, ◌>>=◌, ◌>>◌}
use agent_rca.Time.{at_most}
use agent_rca.Dict.{lookup, values}
use agent_rca.Sort.{sort_by, text_le}
use agent_rca.Json.{Json, text}
use agent_rca.Scope.{value, same}
use agent_rca.Documents.{Span}
use agent_rca.Runtime.{Runtime, parse_time}
use agent_rca.Deterministic.{truthy}
use agent_rca.Repository.{found}
use agent_rca.StateGraph.{Entity, Snapshot, StateGraph}
use agent_rca.StateGraph.Validate.{overlaps, check_identity}
use agent_rca.StateGraph.Entities.{oldest_first}
use agent_rca.StateGraph.Paths.{admits}

pub record EntityLookup : Type 0 where
  pub cluster_id : String
  pub namespace : String
  pub name : String
  pub window : Span
  pub domains : List String
  pub entity_types : List String
  pub identity_types : List String
  pub include_placeholders : Bool
  pub limit : ℕ

module _ (rt : Runtime) where
  -- `__post_init__`
  unfoldable pub make_lookup : EntityLookup → Result EntityLookup
  make_lookup l = do
    guard (not (l.cluster_id == "" || l.namespace == "" || l.name == "")) contract_violation
    guard (leb 1 l.limit && leb l.limit 100) contract_violation
    start ← parse_time rt l.window.start
    finish ← parse_time rt l.window.finish
    guard (at_most start finish) contract_violation
    ok l

  -- `keys.get(key) or scope.get(key)`
  abbrev pub located : String → Entity → Json
  located key e =
      let own = value key e.identity.keys in if truthy rt own then own else value key e.scope

  -- the tests of the loop that read no time
  unfoldable pub is_match : EntityLookup → Entity → Bool
  is_match l e =
      e.name == l.name
      && same (located "cluster_id" e) (text l.cluster_id)
      && same (located "namespace" e) (text l.namespace)
      && admits l.domains e.domain
      && admits l.entity_types e.entity_type
      && admits l.identity_types e.identity.identity_type
      && (l.include_placeholders || not (e.identity.identity_type == "kubernetes-placeholder"))

  -- `any(_overlaps(...) for item in snapshots)`
  unfoldable pub any_overlaps : Span → List Snapshot → Result Bool
  any_overlaps window [] = ok false
  any_overlaps window (x ∷ xs) = elim (overlaps rt x.valid_from x.valid_to window) [
    | err e ↦ err e
    | ok true ↦ ok true
    | ok false ↦ any_overlaps window xs
  ]

  unfoldable pub in_window : EntityLookup → Entity → List Snapshot → Result Bool
  in_window l e [] = overlaps rt e.first_seen_at (some e.last_seen_at) l.window
  in_window l e (x ∷ xs) = any_overlaps l.window (oldest_first [] (x ∷ xs))

  unfoldable pub matching : StateGraph → EntityLookup → List Entity → Result (List Entity)
  matching s l [] = ok []
  matching s l (e ∷ es) =
      let later = matching s l es in
      do
        check_identity e.identity
        (if not (is_match l e) then later else do
          history ← found (lookup e.entity_id s.snapshots_by_entity) key_error
          inside ← in_window l e history
          rest ← later
          ok (if inside then e ∷ rest else rest))

  unfoldable pub find_entities : EntityLookup → StateGraph → Result (List Entity)
  find_entities l s = do
    matches ← matching s l (values s.entities)
    ok (take l.limit (sort_by (λ a b. text_le a.entity_id b.entity_id) matches))
