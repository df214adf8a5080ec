-- ===== src/Examples/Queues.antt =====
-- Runs of the work queues, and their theorems at them.
use agent_rca.Prelude.{
  String, ℕ, ◌≡◌, ◌≢◌, refl, true, some, none, List, [], ◌∷◌, arith, eq_iff, unique, mem, inl, sym,
}
use agent_rca.Outcome.{ok}
use agent_rca.Time.{DateTime}
use agent_rca.Sort.{sort_by}
use agent_rca.Text.{is_worker_id}
use agent_rca.Dict.{lookup, insert}
use agent_rca.Dict.Unique.{IsDict}
use agent_rca.Documents.{Evidence, Selection, Span}
use agent_rca.Incident.{
  CollectorStatus, Status-discrete, allowed, collecting, localizing, analyzing, Incident,
}
use agent_rca.Repository.{Repository, empty, get_incident, transition}
use agent_rca.Work.{
  WorkItem, WorkState, Claim, Queue, new_item, start_item, token_of, is_ready, is_expired, in_order,
  validate_claim_request, make_claim, make_analysis_claim, current_item,
}
use agent_rca.Work.Step.Invariant.{AreItems}
use agent_rca.Work.Calls.{
  Call, collection, enqueue, claim_next, complete, run, new_queue, run-AreItems, finished_stays,
  AreBounded,
}
use agent_rca.Work.Fencing.{IsHandedOut, IsRefused}
use agent_rca.Work.Collection
use agent_rca.Work.Localization
use agent_rca.Work.Analysis
use agent_rca.Examples.{noon, sample, checkout, moved_to}

-- A repository with the incident in a status.
abbrev holding : Incident → Repository
holding i = record empty {
  incidents = ("inc-checkout", i) ∷ [];
  audit_events = ("inc-checkout", []) ∷ [];
}

abbrev ten_minutes : ℕ
ten_minutes = 600000000

abbrev work : List Call
work =
    (holding checkout, enqueue "inc-checkout" "" noon)
    ∷ (holding checkout, claim_next "a1" "worker-1" noon ten_minutes 3)
    ∷ []

work-AreBounded : AreBounded 3 work
work-AreBounded = omega arith

run-AreItems_example : AreItems 3 (run sample collection work (new_queue sample empty)).items
run-AreItems_example = run-AreItems sample 3 collection empty work work-AreBounded (omega arith)

abbrev waiting : String → WorkItem
waiting context_id = new_item context_id noon

abbrev queue : String → Incident → Queue
queue context_id i = record {
  repository = holding i;
  items = ("inc-checkout", waiting context_id) ∷ [];
}

queue-IsDict : (context_id : String) (i : Incident) → IsDict (queue context_id i).items
unfolding unique mem
queue-IsDict context_id i = refl

abbrev claimed : String → Incident → Claim
claimed context_id i = record {
  incident_id = "inc-checkout";
  context_id = context_id;
  claim_token = token_of "a1";
  worker_id = "worker-1";
  lease_expires_at = record { instant = 43800000000; aware = true };
  attempt_count = 1;
  incident = i;
}

-- A claim that another worker holds.
abbrev other : Claim
other = record (claimed "ctx-1" checkout) { claim_token = "claim-b2" }

apart : token_of "a1" ≢ "claim-b2"
unfolding token_of
apart = λ p. cc ((eq_iff "claim-a1" "claim-b2").1 p)

collection_claim :
    (Collection.claim_next sample "a1" "worker-1" noon ten_minutes 3 (queue "" checkout)).0
    ≡ ok (some (claimed "" (moved_to collecting)))
unfolding Collection.claim_next validate_claim_request is_worker_id Collection.claim_scan in_order
    sort_by is_ready Collection.claim_item Collection.take_incident get_incident lookup transition
    Status-discrete allowed make_claim token_of
collection_claim = refl

localization_claim :
    (Localization.claim_next "a1" "worker-1" noon ten_minutes 3 (queue "" (moved_to localizing))).0
    ≡ ok (some (claimed "" (moved_to localizing)))
unfolding Localization.claim_next validate_claim_request is_worker_id Localization.claim_scan
    in_order sort_by is_ready get_incident lookup Status-discrete Localization.start_claim
    make_claim token_of
localization_claim = refl

analysis_claim :
    (Analysis.claim_next "a1" "worker-1" noon ten_minutes 3 (queue "ctx-1" (moved_to analyzing))).0
    ≡ ok (some (claimed "ctx-1" (moved_to analyzing)))
unfolding Analysis.claim_next validate_claim_request is_worker_id Analysis.claim_scan in_order
    sort_by Analysis.claim_available is_ready get_incident lookup Status-discrete
    Analysis.start_claim make_analysis_claim token_of
analysis_claim = refl

-- The item that a finished collection leaves.
abbrev finished : WorkItem
finished = record (start_item (waiting "") "a1" "worker-1" noon ten_minutes) {
  state = WorkState.succeeded;
  lease_expires_at = none;
}

abbrev whole : List Call
whole =
    (holding checkout, enqueue "inc-checkout" "" noon)
    ∷ (holding checkout, claim_next "a1" "worker-1" noon ten_minutes 3)
    ∷ (holding (moved_to localizing), complete (claimed "" checkout) noon "SUCCEEDED")
    ∷ []

whole-finished :
    lookup "inc-checkout" (run sample collection whole (new_queue sample empty)).items
    ≡ some finished
unfolding run new_queue Collection.enqueue Collection.complete current_item Collection.claim_next
    validate_claim_request is_worker_id Collection.claim_scan in_order sort_by is_ready
    Collection.claim_item Collection.take_incident get_incident lookup transition Status-discrete
    allowed make_claim token_of insert is_expired
whole-finished = refl

finished_stays_example :
    lookup "inc-checkout"
      (run sample collection work (run sample collection whole (new_queue sample empty))).items
    ≡ some finished
finished_stays_example =
    finished_stays sample 3 collection empty whole (omega arith) (omega arith) work work-AreBounded
      "inc-checkout" finished whole-finished refl

claim_next-IsHandedOut_example :
    IsHandedOut "a1" "worker-1" noon ten_minutes 3 collecting
      (queue "" checkout)
      (claimed "" (moved_to collecting))
      (Collection.claim_next sample "a1" "worker-1" noon ten_minutes 3 (queue "" checkout)).1
claim_next-IsHandedOut_example =
    Collection.Claims.claim_next-IsHandedOut sample "a1" "worker-1" noon ten_minutes 3
      (queue "" checkout) (claimed "" (moved_to collecting)) (queue-IsDict "" checkout)
      collection_claim

abbrev collection_after : Queue
collection_after =
    (Collection.claim_next sample "a1" "worker-1" noon ten_minutes 3 (queue "" checkout)).1

collection_fences_example :
    ((later : DateTime) (d : ℕ)
      → IsRefused collection_after (Collection.renew other later d collection_after))
    × ((later : DateTime) (outcome : String)
        → IsRefused collection_after (Collection.complete other later outcome collection_after))
    × ((later : DateTime) (code : String)
        → IsRefused collection_after (Collection.fail other later sample code collection_after))
collection_fences_example =
    Collection.Claims.collection_fences sample "a1" "worker-1" noon ten_minutes 3
      (queue "" checkout) (claimed "" (moved_to collecting)) other (queue-IsDict "" checkout)
      collection_claim refl (λ p. apart (sym p))

abbrev localization_after : Queue
localization_after =
    (Localization.claim_next "a1" "worker-1" noon ten_minutes 3 (queue "" (moved_to localizing))).1

localization_fences_example :
    ((later : DateTime) (selection : Selection) (window : Span) (statuses : List CollectorStatus)
        (items : List Evidence)
      → IsRefused localization_after (
          Localization.store_collection other later sample selection window statuses items
            localization_after))
    × ((later : DateTime) (d : ℕ)
        → IsRefused localization_after (Localization.renew other later d localization_after))
    × ((later : DateTime) (outcome : String)
        → IsRefused localization_after
            (Localization.complete other later outcome localization_after))
    × ((later : DateTime) (code : String)
        → IsRefused localization_after
            (Localization.fail other later sample code localization_after))
localization_fences_example =
    Localization.Claims.localization_fences sample "a1" "worker-1" noon ten_minutes 3
      (queue "" (moved_to localizing)) (claimed "" (moved_to localizing)) other
      (queue-IsDict "" (moved_to localizing)) localization_claim refl (λ p. apart (sym p))

abbrev analysis_after : Queue
analysis_after =
    (Analysis.claim_next "a1" "worker-1" noon ten_minutes 3 (queue "ctx-1" (moved_to analyzing))).1

analysis_fences_example :
    ((later : DateTime) (d : ℕ)
      → IsRefused analysis_after (Analysis.renew other later d analysis_after))
    × ((later : DateTime) (outcome : String)
        → IsRefused analysis_after (Analysis.complete other later outcome analysis_after))
    × ((later : DateTime) (code : String)
        → IsRefused analysis_after (Analysis.fail other later sample code analysis_after))
analysis_fences_example =
    Analysis.Claims.analysis_fences sample "a1" "worker-1" noon ten_minutes 3
      (queue "ctx-1" (moved_to analyzing))
      (Analysis.claim_next "a1" "worker-1" noon ten_minutes 3 (queue "ctx-1" (moved_to analyzing)))
      (claimed "ctx-1" (moved_to analyzing)) other (queue-IsDict "ctx-1" (moved_to analyzing))
      (inl refl) analysis_claim refl (λ p. apart (sym p))
