-- ===== src/Repository/Lifecycle.antt =====
-- The lifecycle that `ALLOWED_TRANSITIONS` of src/incident_platform/repository.py imposes.
use agent_rca.Prelude.{
  ℕ, ◌+◌, ◌≤◌, String, ◌≡◌, ◌≢◌, refl, sym, ◌∙◌, Bool, true, false, some, List, [], ◌∷◌, arith,
  ◌==◌, eq_iff, ◌⊎◌, inl, inr, All, Bool-cases,
}
use agent_rca.Outcome.{Error, ok, err, invalid_transition, Result-cases}
use agent_rca.Time.{DateTime}
use agent_rca.Dict.{lookup, insert, lookup-insert, lookup-insert_self}
use agent_rca.Incident.{
  Status, received, collecting, localizing, analyzing, reported, partial, failed, Incident, allowed,
}
use agent_rca.Documents.{
  AuditEvent, AuditDetails, incident_created, status_transitioned, collection_completed,
  localization_completed, alert_resolved,
}
use agent_rca.Runtime.{Runtime}
use agent_rca.Repository.{Repository, empty, audit_of, transition}
use agent_rca.Repository.Step.{
  Step, creates, updates, touches, gathers, freezes, publishes, records, Steps, done, step,
  replay_event, Phase, fresh, broken, live,
}
use agent_rca.Repository.Step.Trail.{replay}
use agent_rca.Repository.Transitions.{transition-Moved, Moved, transition_error}
use agent_rca.Repository.Calls.{Call, IsTimed, run, run-Steps, run-IsIndexed, run-IsReplayed}

-- A transition either raises and changes nothing, or it moved the incident from the expected status to
-- an allowed successor of it and appended the matching audit event, and changed nothing else.
pub transition_lem :
    (rt : Runtime) (id : String) (expected next : Status) (now : DateTime) (r : Repository)
    → ((e : Error) × ((transition rt id expected next now r).0 ≡ err e)
        × ((transition rt id expected next now r).1 ≡ r))
      ⊎ Moved rt id expected next now r (transition rt id expected next now r).1
transition_lem rt id expected next now r =
    elim (Result-cases (transition rt id expected next now r).0) [
      | inl (e, h) ↦ inl (e, h, transition_error rt id expected next now r e h)
      | inr (u, h) ↦ inr (transition-Moved rt id expected next now r u h)
    ]

not_expected :
    (rt : Runtime) (id : String) (a b : Status) (now : DateTime) (r : Repository) (i : Incident)
    → lookup id r.incidents ≡ some i
    → i.status ≢ a
    → (transition rt id a b now r).0 ≡ err invalid_transition
unfolding transition
not_expected rt id a b now r i e n = ground arith

allowed_moves : (a b : Status) → allowed a b ≡ true → b ≢ a
unfolding allowed
allowed_moves a b h = ground arith

-- Of two callers that both expect the status `expected` of an incident, one that succeeds makes the
-- other's transition fail, whatever successor and time the other asks for.
pub transition_exclusive :
    (rt : Runtime) (id : String) (expected next other : Status) (now later : DateTime)
    (r : Repository) (u : Incident)
    → (transition rt id expected next now r).0 ≡ ok u
    → (transition rt id expected other later (transition rt id expected next now r).1).0
      ≡ err invalid_transition
transition_exclusive rt id expected next other now later r u h =
    let m = transition-Moved rt id expected next now r u h in
    not_expected rt id expected other later (transition rt id expected next now r).1
      (record m.incident { status = next; updated_at = rt.render now.instant })
      (rw m.left (lookup-insert_self id _ r.incidents))
      (λ p. allowed_moves m.incident.status next m.was_allowed (p ∙ sym m.was_expected))

-- How many transitions an incident has left at most.
abbrev pub rank : Status → ℕ
rank received = 4
rank collecting = 3
rank localizing = 2
rank analyzing = 1
rank _ = 0

abbrev transition_count : AuditDetails → ℕ
transition_count (status_transitioned a b) = 1
transition_count _ = 0

abbrev pub transitions : List AuditEvent → ℕ
transitions [] = 0
transitions (e ∷ es) = transition_count e.details + transitions es

abbrev phase_rank : Phase → ℕ
phase_rank fresh = 4
phase_rank broken = 0
phase_rank (live s) = rank s

abbrev IsLive : Phase → Type 0
IsLive (live s) = Unit
IsLive _ = ⊥

-- A legal event uses up rank.
event_rank :
    (p : Phase) (d : AuditDetails)
    → IsLive (replay_event p d)
    → transition_count d + phase_rank (replay_event p d) ≤ phase_rank p
unfolding allowed
event_rank fresh (incident_created s) h = ground arith
event_rank fresh (status_transitioned a b) h = absurd h
event_rank fresh (collection_completed a) h = absurd h
event_rank fresh (localization_completed a) h = absurd h
event_rank fresh (alert_resolved a) h = absurd h
event_rank broken d h = absurd h
event_rank (live s) (incident_created a) h = absurd h
event_rank (live s) (status_transitioned a b) h = ground arith
event_rank (live s) (collection_completed a) h = omega arith
event_rank (live s) (localization_completed a) h = omega arith
event_rank (live s) (alert_resolved a) h = omega arith

replay_broken : (es : List AuditEvent) → replay broken es ≡ broken
replay_broken [] = refl
replay_broken (e ∷ es) = replay_broken es

-- Where the whole trail is legal, what it says before any part of it is.
event_live :
    (p : Phase) (d : AuditDetails) (es : List AuditEvent) (s : Status)
    → replay (replay_event p d) es ≡ live s
    → (replay_event p d ≡ fresh → ⊥)
    → IsLive (replay_event p d)
event_live p d es s h n = case (replay_event p d) h n
  where
    case : (q : Phase) → replay q es ≡ live s → (q ≡ fresh → ⊥) → IsLive q
    case fresh k m = absurd (m refl)
    case broken k m = cc (replay_broken es)
    case (live t) k m = tt

never_fresh : (p : Phase) (d : AuditDetails) → replay_event p d ≡ fresh → ⊥
never_fresh fresh (incident_created s) h = cc
never_fresh fresh (status_transitioned a b) h = cc
never_fresh fresh (collection_completed a) h = cc
never_fresh fresh (localization_completed a) h = cc
never_fresh fresh (alert_resolved a) h = cc
never_fresh broken d h = cc
never_fresh (live s) (incident_created a) h = cc
never_fresh (live s) (status_transitioned a b) h = ground arith
never_fresh (live s) (collection_completed a) h = cc
never_fresh (live s) (localization_completed a) h = cc
never_fresh (live s) (alert_resolved a) h = cc

trail_rank :
    (p : Phase) (es : List AuditEvent) (s : Status)
    → replay p es ≡ live s
    → transitions es + rank s ≤ phase_rank p
trail_rank p [] s h = ground arith
trail_rank p (e ∷ es) s h = omega (
  arith,
  event_rank p e.details (event_live p e.details es s h (never_fresh p e.details)),
  trail_rank (replay_event p e.details) es s h,
)

-- After any calls that give creation a time with a timezone, an incident has made at most four
-- transitions: those of its audit trail and the rank of its status (4 for RECEIVED down to 1 for
-- ANALYZING, 0 for a final status) add up to at most four.
pub transitions_bounded :
    (rt : Runtime) (cs : List Call)
    → All IsTimed cs
    → (id : String) (i : Incident) → lookup id (run rt cs empty).incidents ≡ some i
    → transitions (audit_of id (run rt cs empty)) + rank i.status ≤ 4
transitions_bounded rt cs t id i e =
    trail_rank fresh (audit_of id (run rt cs empty)) i.status (run-IsReplayed rt cs t id i e)

abbrev pub is_final : Status → Bool
is_final reported = true
is_final partial = true
is_final failed = true
is_final _ = false

final_event :
    (s t : Status) (d : AuditDetails) → is_final s ≡ true → replay_event (live s) d ≡ live t → t ≡ s
unfolding allowed
final_event s t (incident_created a) f h = cc
final_event s t (status_transitioned a b) f h = ground arith
final_event s t (collection_completed a) f h = cc
final_event s t (localization_completed a) f h = cc
final_event s t (alert_resolved a) f h = cc

-- The status of a known incident, if it is final, is what it was.
abbrev StaysFinal : Repository → Repository → Type 0
StaysFinal r s =
    (id : String) (i : Incident)
    → lookup id r.incidents ≡ some i
    → is_final i.status ≡ true
    → (j : Incident) × (lookup id s.incidents ≡ some j) × (j.status ≡ i.status)

replaced_final :
    (r : Repository) (key : String) (i j : Incident)
    → lookup key r.incidents ≡ some i
    → (is_final i.status ≡ true → j.status ≡ i.status)
    → (id : String) (k : Incident) → lookup id r.incidents ≡ some k
    → is_final k.status ≡ true
    → (l : Incident) × (lookup id (insert key j r.incidents) ≡ some l) × (l.status ≡ k.status)
replaced_final r key i j there stays id k e f = elim (Bool-cases (key == id)) [
  | inl hit ↦ (j, rw (lookup-insert, hit) refl, ground (arith, eq_iff key id))
  | inr miss ↦ (k, rw (lookup-insert, miss) e, refl)
]

Step-StaysFinal : {r s : Repository} → Step r s → StaysFinal r s
Step-StaysFinal {r} (creates i stamp new free e) =
    λ id k p f. rw e (k, rw lookup-insert (ground (arith, eq_iff i.incident_id id)), refl)
Step-StaysFinal {r} (updates id i j d stamp there same legal e) =
    rw e (replaced_final r id i j there (λ f. final_event i.status j.status d f legal))
Step-StaysFinal {r} (touches id i j there same still e) =
    rw e (replaced_final r id i j there (λ f. still))
Step-StaysFinal (gathers id x own there fits e) = rw e (λ id k p f. (k, p, refl))
Step-StaysFinal (freezes c there known fits e) = rw e (λ id k p f. (k, p, refl))
Step-StaysFinal (publishes p markdown c there own cited kept e) = rw e (λ id k q f. (k, q, refl))
Step-StaysFinal (records a c there own fits e) = rw e (λ id k p f. (k, p, refl))

Steps-StaysFinal : {r s : Repository} → Steps r s → StaysFinal r s
Steps-StaysFinal done = λ id i e f. (i, e, refl)
Steps-StaysFinal (step x p) = λ id i e f.
    let (j, there, same) = Step-StaysFinal x id i e f in
    let (k, still, eq) = Steps-StaysFinal p id j there (rw same f) in (k, still, eq ∙ same)

-- From a state reached by calls that give creation a time with a timezone, an incident in a final
-- status is in that status after any further such calls.
pub final_absorbs :
    (rt : Runtime) (cs ds : List Call)
    → All IsTimed cs
    → All IsTimed ds
    → (id : String) (i : Incident) → lookup id (run rt cs empty).incidents ≡ some i
    → is_final i.status ≡ true
    → (j : Incident) × (lookup id (run rt ds (run rt cs empty)).incidents ≡ some j)
      × (j.status ≡ i.status)
final_absorbs rt cs ds t u =
    Steps-StaysFinal (run-Steps rt ds (run rt cs empty) u (run-IsIndexed rt cs t))
