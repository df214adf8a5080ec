-- ===== src/Examples/Lifecycle.antt =====
-- Runs of the repository's lifecycle, and its theorems at them.
use agent_rca.Prelude.{
  String, ◌+◌, ◌≤◌, ◌≡◌, refl, true, false, some, List, [], ◌∷◌, ◌⊎◌, All, ◌≢◌, none, ap, eq_iff,
}
use agent_rca.Outcome.{ok, err, invalid_transition, value_error, Error}
use agent_rca.Dict.{lookup, insert, has}
use agent_rca.Incident.{received, collecting, failed, Incident, Status-discrete, allowed}
use agent_rca.Json.{field, end, bool, text, number}
use agent_rca.Json.Equality.{compared}
use agent_rca.Documents.{Evidence, compared_evidence}
use agent_rca.Repository.{
  Repository, empty, audit_of, admit, transition, create_or_get_by_deduplication_key, evidence_of,
}
use agent_rca.Repository.Documents.{check_evidence, put_evidence, store_evidence, write_evidence}
use agent_rca.Repository.Step.{live, fresh}
use agent_rca.Repository.Step.Index.{IsIndexed}
use agent_rca.Repository.Step.Trail.{replay}
use agent_rca.Repository.Step.Permanence.{Keeps}
use agent_rca.Repository.Step.Citations.{IsCited}
use agent_rca.Repository.Transitions.{Moved}
use agent_rca.Repository.Creation.{create_again, create_naive}
use agent_rca.Repository.Storing.{store_evidence_partial}
use agent_rca.Repository.Calls.{
  Call, create, move, gather, IsTimed, run, run-IsIndexed, run-IsReplayed, run-IsCited, run-Keeps,
}
use agent_rca.Repository.Lifecycle.{
  transition_lem, transition_exclusive, transitions, rank, transitions_bounded, final_absorbs,
}
use agent_rca.Examples.{noon, naive, sample, checkout, opening, story, moved_to, restart}

opening_status :
    lookup "inc-checkout" (run sample opening empty).incidents ≡ some (moved_to collecting)
unfolding run create_or_get_by_deduplication_key transition empty lookup insert allowed
    Status-discrete
opening_status = refl

opening-IsTimed : All IsTimed opening
opening-IsTimed = (refl, (tt, tt))

story-IsTimed : All IsTimed story
story-IsTimed = (refl, (tt, (tt, (tt, (tt, tt)))))

run-IsIndexed_example : IsIndexed (run sample opening empty)
run-IsIndexed_example = run-IsIndexed sample opening opening-IsTimed

run-IsReplayed_example :
    replay fresh (audit_of "inc-checkout" (run sample opening empty)) ≡ live collecting
run-IsReplayed_example =
    run-IsReplayed sample opening opening-IsTimed "inc-checkout" (moved_to collecting)
      opening_status

run-IsCited_example : IsCited (run sample story empty)
run-IsCited_example = run-IsCited sample story story-IsTimed

run-Keeps_example : Keeps (run sample story empty) (run sample opening (run sample story empty))
run-Keeps_example = run-Keeps sample story opening story-IsTimed opening-IsTimed

transitions_bounded_example :
    transitions (audit_of "inc-checkout" (run sample opening empty)) + rank collecting ≤ 4
transitions_bounded_example =
    transitions_bounded sample opening opening-IsTimed "inc-checkout" (moved_to collecting)
      opening_status

abbrev stopped : List Call
stopped = create checkout noon ∷ move "inc-checkout" received failed noon ∷ []

stopped_status : lookup "inc-checkout" (run sample stopped empty).incidents ≡ some (moved_to failed)
unfolding run create_or_get_by_deduplication_key transition empty lookup insert allowed
    Status-discrete
stopped_status = refl

final_absorbs_example :
    (j : Incident) × (lookup "inc-checkout"
        (run sample opening (run sample stopped empty)).incidents
      ≡ some j)
    × (j.status ≡ failed)
final_absorbs_example =
    final_absorbs sample stopped opening (refl, (tt, tt)) opening-IsTimed "inc-checkout"
      (moved_to failed) stopped_status refl

-- The repository with one incident.
abbrev opened : Repository
opened = run sample (create checkout noon ∷ []) empty

transition_lem_example :
    ((e : Error) × ((transition sample "inc-checkout" received collecting noon opened).0 ≡ err e)
      × ((transition sample "inc-checkout" received collecting noon opened).1 ≡ opened))
    ⊎ Moved sample "inc-checkout" received collecting noon opened
        (transition sample "inc-checkout" received collecting noon opened).1
transition_lem_example = transition_lem sample "inc-checkout" received collecting noon opened

collecting_result :
    (transition sample "inc-checkout" received collecting noon opened).0 ≡ ok (moved_to collecting)
unfolding run create_or_get_by_deduplication_key transition empty lookup insert allowed
    Status-discrete
collecting_result = refl

transition_exclusive_example :
    (transition sample "inc-checkout" received failed noon
      (transition sample "inc-checkout" received collecting noon opened).1).0
    ≡ err invalid_transition
transition_exclusive_example =
    transition_exclusive sample "inc-checkout" received collecting failed noon noon opened
      (moved_to collecting) collecting_result

creation_result :
    (create_or_get_by_deduplication_key sample checkout noon empty).0 ≡ ok (checkout, true)
unfolding create_or_get_by_deduplication_key empty lookup insert
creation_result = refl

create_again_example :
    create_or_get_by_deduplication_key sample checkout noon
      (create_or_get_by_deduplication_key sample checkout noon empty).1
    ≡ (ok (checkout, false), (create_or_get_by_deduplication_key sample checkout noon empty).1)
create_again_example =
    create_again sample checkout checkout noon noon empty checkout true creation_result refl refl

no_key : lookup "alertmanager:checkout" empty.incident_id_by_deduplication_key ≡ none
unfolding empty lookup
no_key = refl

no_incident : lookup "inc-checkout" empty.incidents ≡ none
unfolding empty lookup
no_incident = refl

create_naive_example :
    create_or_get_by_deduplication_key sample checkout naive empty
    ≡ (err value_error, admit checkout empty)
create_naive_example = create_naive sample checkout naive empty refl refl no_key no_incident

-- One Evidence item of an incident that already has another under the id "ev-flow".
abbrev flow : Evidence
flow = record restart { evidence_id = "ev-flow" }

abbrev other_flow : Evidence
other_flow = record restart { evidence_id = "ev-flow"; kind = "flow" }

abbrev gathered : Repository
gathered = run sample (create checkout noon ∷ gather "inc-checkout" (other_flow ∷ []) ∷ []) empty

checked : check_evidence sample "inc-checkout" (restart ∷ flow ∷ []) ≡ ok tt
unfolding check_evidence
checked = refl

gathered_there : has "inc-checkout" gathered.incidents ≡ true
unfolding run create_or_get_by_deduplication_key store_evidence empty lookup insert write_evidence
    check_evidence
gathered_there = refl

gathered_free : lookup "ev-restart" (evidence_of "inc-checkout" gathered) ≡ none
unfolding run create_or_get_by_deduplication_key store_evidence empty lookup insert write_evidence
    check_evidence
gathered_free = refl

gathered_taken : lookup "ev-flow" (evidence_of "inc-checkout" gathered) ≡ some other_flow
unfolding run create_or_get_by_deduplication_key store_evidence empty lookup insert write_evidence
    check_evidence
gathered_taken = refl

other_kind : compared_evidence other_flow ≢ compared_evidence flow
other_kind = λ p. absurd (differ (ap (λ e. e.kind) p))
  where
    differ : ◌≢◌ {A = String} "flow" "event"
    differ = λ q. cc ((eq_iff "flow" "event").1 q)

store_evidence_partial_example :
    store_evidence sample "inc-checkout" (restart ∷ flow ∷ []) gathered
    ≡ (err invalid_transition, put_evidence "inc-checkout" restart gathered)
store_evidence_partial_example =
    store_evidence_partial sample "inc-checkout" restart flow other_flow gathered gathered_there
      checked gathered_free gathered_taken other_kind
      (λ q. cc ((eq_iff "ev-restart" "ev-flow").1 q))

-- `==` tells neither the order of the fields nor 1 from `True`.
equal_facts :
    compared_evidence
      (record restart { facts = field "ready" (bool true) (field "node" (text "n1") end) })
    ≡ compared_evidence
        (record restart { facts = field "node" (text "n1") (field "ready" (number 1) end) })
unfolding compared
equal_facts = refl
