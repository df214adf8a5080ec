-- ===== src/Tools/Bounds.antt =====
-- The Agent's tools stay within the frozen Context Package and the budget.
use agent_rca.Prelude.{
  ℕ, suc, ◌≤◌, String, ◌≡◌, refl, true, false, Option, none, some, List, [], ◌∷◌, leb, length,
  length-append, mem, subset, arith, if◌then◌else◌, Bool-cases, inl, inr,
}
use agent_rca.Json.{Fields, end}
use agent_rca.Dict.{Dict, lookup, keys, mem-keys}
use agent_rca.Tools.{
  Answer, Tool, ToolStatus, ToolRuntime, attempt, record_event, show_evidence, look_up_evidence,
  show_reference, budgeted, inspect_candidate, inspect_evidence, inspect_reference, ToolRequest,
  candidate, evidence, reference, use_tool, use_tools, new_runtime,
}

abbrev pub smaller : ℕ → ℕ → ℕ
smaller a b = if leb a b then a else b

-- Only Evidence of the Context Package and known references have been inspected, and each attempt
-- within the budget, and no other, has its event.
pub record IsBounded (t : ToolRuntime) : Type 0 where
  pub evidence : subset t.inspected_evidence_ids t.context_evidence_ids ≡ true
  pub references : subset t.inspected_reference_ids (keys t.reference_by_id) ≡ true
  pub events : length t.tool_events ≡ smaller t.attempted_tool_calls t.max_tool_calls

-- An attempt within the budget, whose event is still to be recorded.
record IsPending (t : ToolRuntime) : Type 0 where
  pub evidence : subset t.inspected_evidence_ids t.context_evidence_ids ≡ true
  pub references : subset t.inspected_reference_ids (keys t.reference_by_id) ≡ true
  pub events : suc (length t.tool_events) ≡ t.attempted_tool_calls
  pub budget : t.attempted_tool_calls ≤ t.max_tool_calls

module _ (hash : Answer → String) where
  record_event-IsBounded :
      (tool : Tool) (requested : String) (s : ToolStatus) (payload : Fields) (t : ToolRuntime)
      → IsPending t
      → IsBounded (record_event hash tool requested s payload t).1
  unfolding record_event
  record_event-IsBounded tool requested s payload t p =
      let room : leb t.max_tool_calls (length t.tool_events) ≡ false =
        ground (arith, p.events, p.budget) in
      rw room (record {
        evidence = p.evidence;
        references = p.references;
        events = rw length-append (ground (arith, p.events, p.budget));
      })

  show_evidence-IsBounded :
      (requested id : String) (found : Option Fields) (t : ToolRuntime)
      → mem id t.context_evidence_ids ≡ true
      → IsPending t
      → IsBounded (show_evidence hash requested id found t).1
  unfolding show_evidence subset
  show_evidence-IsBounded requested id none t m p = record_event-IsBounded _ requested _ end t p
  show_evidence-IsBounded requested id (some item) t m p =
      record_event-IsBounded _ requested _ _
        (record t { inspected_evidence_ids = id ∷ t.inspected_evidence_ids })
        (record {
          evidence = ground (arith, p.evidence);
          references = p.references;
          events = p.events;
          budget = p.budget;
        })

  look_up-IsBounded :
      (requested : String) (id : Option String) (t : ToolRuntime)
      → IsPending t
      → IsBounded (look_up_evidence hash requested id t).1
  unfolding look_up_evidence
  look_up-IsBounded requested none t p = record_event-IsBounded _ requested _ end t p
  look_up-IsBounded requested (some id) t p = elim (Bool-cases (mem id t.context_evidence_ids)) [
    | inl m ↦ rw m (show_evidence-IsBounded requested id (lookup id t.evidence_by_id) t m p)
    | inr m ↦ rw m (record_event-IsBounded _ requested _ end t p)
  ]

  show_reference-IsBounded :
      (id : String) (found : Option Fields) (t : ToolRuntime)
      → lookup id t.reference_by_id ≡ found
      → IsPending t
      → IsBounded (show_reference hash id found t).1
  unfolding show_reference subset
  show_reference-IsBounded id none t e p = record_event-IsBounded _ id _ end t p
  show_reference-IsBounded id (some item) t e p =
      record_event-IsBounded _ id _ item
        (record t { inspected_reference_ids = id ∷ t.inspected_reference_ids })
        (record {
          evidence = p.evidence;
          references = ground (arith, p.references, mem-keys id t.reference_by_id);
          events = p.events;
          budget = p.budget;
        })

  attempt-IsPending :
      (t : ToolRuntime)
      → IsBounded t
      → leb (suc t.attempted_tool_calls) t.max_tool_calls ≡ true
      → IsPending (attempt t)
  attempt-IsPending t h e = record {
    evidence = h.evidence;
    references = h.references;
    events = ground (arith, h.events);
    budget = ground arith;
  }

  attempt-IsBounded :
      (t : ToolRuntime)
      → IsBounded t
      → leb (suc t.attempted_tool_calls) t.max_tool_calls ≡ false
      → IsBounded (attempt t)
  attempt-IsBounded t h e = record {
    evidence = h.evidence;
    references = h.references;
    events = ground (arith, h.events);
  }

  budgeted-IsBounded :
      (t : ToolRuntime) (next : Answer × ToolRuntime)
      → IsBounded t
      → (IsPending (attempt t) → IsBounded next.1)
      → IsBounded (budgeted hash next (attempt t)).1
  budgeted-IsBounded t next h f =
      elim (Bool-cases (leb (suc t.attempted_tool_calls) t.max_tool_calls)) [
        | inl e ↦ rw e (f (attempt-IsPending t h e))
        | inr e ↦ rw e (attempt-IsBounded t h e)
      ]

  use_tool-IsBounded :
      (r : ToolRequest) (t : ToolRuntime) → IsBounded t → IsBounded (use_tool hash r t).1
  unfolding use_tool inspect_candidate inspect_evidence inspect_reference
  use_tool-IsBounded (candidate ref) t h =
      budgeted-IsBounded t _ h
        (look_up-IsBounded ref (lookup ref t.evidence_id_by_candidate_ref) (attempt t))
  use_tool-IsBounded (evidence id) t h =
      budgeted-IsBounded t _ h (look_up-IsBounded id (some id) (attempt t))
  use_tool-IsBounded (reference id) t h =
      budgeted-IsBounded t _ h
        (show_reference-IsBounded id (lookup id t.reference_by_id) (attempt t) refl)

  use_tools_kept :
      (rs : List ToolRequest) (t : ToolRuntime) → IsBounded t → IsBounded (use_tools hash rs t)
  unfolding use_tools
  use_tools_kept [] t h = h
  use_tools_kept (r ∷ rs) t h = use_tools_kept rs (use_tool hash r t).1 (use_tool-IsBounded r t h)

  module _ (ids : List String) (items refs : Dict Fields) (budget : ℕ)
      (candidates : Dict String) where
    new-IsBounded : IsBounded (new_runtime ids items refs budget candidates)
    unfolding new_runtime subset
    new-IsBounded = record { evidence = refl; references = refl; events = ground arith }

    -- Whatever the Agent asks its tools for, in any order and number, after a new runtime: only
    -- Evidence of the frozen Context Package and retrieved references have been inspected, and there
    -- are as many recorded tool events as attempts, up to the budget, and no more.
    pub use_tools-IsBounded :
        (rs : List ToolRequest)
        → IsBounded (use_tools hash rs (new_runtime ids items refs budget candidates))
    use_tools-IsBounded rs =
        use_tools_kept rs (new_runtime ids items refs budget candidates) new-IsBounded
