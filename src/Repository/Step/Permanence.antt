-- ===== src/Repository/Step/Permanence.antt =====
-- Stored documents stay what they are, as `==` compares documents.
use mathlib.Core.Path.{subst}
use agent_rca.Prelude.{
  String, ◌≡◌, refl, sym, ◌∙◌, ap, true, none, some, [], arith, eq_iff, Option-cases, Bool-cases,
  inl, inr, ◌==◌,
}
use agent_rca.Dict.{Dict, lookup, insert, has, lookup-insert, lookup-insert_self, lookup-nil}
use agent_rca.Incident.{Incident}
use agent_rca.Documents.{
  Evidence, Evidence-discrete, Context-discrete, AgentRun-discrete, compared_evidence,
  compared_context, compared_report, compared_run,
}
use agent_rca.Repository.{Repository, evidence_of}
use agent_rca.Repository.Documents.{agrees, put_evidence}
use agent_rca.Repository.Step.{
  Step, creates, updates, touches, gathers, freezes, publishes, records, Steps, done, step, created,
}
use agent_rca.Repository.Step.Index.{IsIndexed, Step-IsIndexed}

-- Under the key stands a document that is equal to `a` as `==` compares documents.
abbrev pub Stays : {A : Type 0} → (A → A) → String → A → Dict A → Type 0
Stays {A} compared key a d = (b : A) × (lookup key d ≡ some b) × (compared b ≡ compared a)

-- Every document of `d` stays in `d'`.
abbrev pub AllStay : {A : Type 0} → (A → A) → Dict A → Dict A → Type 0
AllStay {A} compared d d' = (key : String) (a : A) → lookup key d ≡ some a → Stays compared key a d'

-- What stands in `r` stands, equal as `==` compares documents, in `s`.
pub record Keeps (r s : Repository) : Type 0 where
  pub evidence : (id : String) → AllStay compared_evidence (evidence_of id r) (evidence_of id s)
  pub contexts : AllStay compared_context r.contexts s.contexts
  pub reports : AllStay compared_report r.reports s.reports
  pub agent_runs : AllStay compared_run r.agent_runs s.agent_runs
  pub incidents : (key : String) → has key r.incidents ≡ true → has key s.incidents ≡ true

AllStay-refl : {A : Type 0} → (compared : A → A) (d : Dict A) → AllStay compared d d
AllStay-refl compared d key a h = (a, h, refl)

AllStay-trans :
    {A : Type 0}
    → (compared : A → A) (d d' d'' : Dict A) → AllStay compared d d'
    → AllStay compared d' d''
    → AllStay compared d d''
AllStay-trans compared d d' d'' p q key a h =
    let (b, there, same) = p key a h in
    let (c, here, equal) = q key b there in (c, here, equal ∙ same)

pub Keeps-refl : (r : Repository) → Keeps r r
Keeps-refl r = record {
  evidence = λ id. AllStay-refl compared_evidence (evidence_of id r);
  contexts = AllStay-refl compared_context r.contexts;
  reports = AllStay-refl compared_report r.reports;
  agent_runs = AllStay-refl compared_run r.agent_runs;
  incidents = λ key h. h;
}

pub Keeps-trans : {r s t : Repository} → Keeps r s → Keeps s t → Keeps r t
Keeps-trans {r} {s} {t} p q = record {
  evidence = λ id.
      AllStay-trans compared_evidence (evidence_of id r) (evidence_of id s) (evidence_of id t)
        (p.evidence id) (q.evidence id);
  contexts = AllStay-trans compared_context r.contexts s.contexts t.contexts p.contexts q.contexts;
  reports = AllStay-trans compared_report r.reports s.reports t.reports p.reports q.reports;
  agent_runs =
      AllStay-trans compared_run r.agent_runs s.agent_runs t.agent_runs p.agent_runs q.agent_runs;
  incidents = λ key h. q.incidents key (p.incidents key h);
}

-- A write that is equal to what is at its key keeps every document.
insert-AllStay :
    {A : Type 0}
    → (compared : A → A) (k : String) (v : A) (d : Dict A)
    → ((u : A) → lookup k d ≡ some u → compared u ≡ compared v)
    → AllStay compared d (insert k v d)
insert-AllStay compared k v d fits j w h = elim (Bool-cases (k == j)) [
  | inl hit ↦
      let here : k ≡ j = (eq_iff k j).0 hit in
      (v, rw (lookup-insert, hit) refl, sym (fits w (rw here h)))
  | inr miss ↦ (w, rw (lookup-insert, miss) h, refl)
]

agrees-fits :
    {A : Type 0}
    → (dec : Discrete A) (compared : A → A) (k : String) (v : A) (d : Dict A)
    → agrees dec compared (lookup k d) v ≡ true
    → (u : A) → lookup k d ≡ some u
    → compared u ≡ compared v
agrees-fits dec compared k v d fits u there = elim (dec (compared u) (compared v)) [
  | yes same ↦ same
  | no other ↦ absurd (ground arith)
]

has-insert_more {ℓ} :
    {V : Type ℓ} (k j : String) (v : V) (d : Dict V) → has j d ≡ true → has j (insert k v d) ≡ true
has-insert_more k j v d h = rw lookup-insert (ground arith)

-- No Evidence stands under an id that no incident has.
no_evidence :
    {r : Repository}
    → IsIndexed r
    → (id : String) → lookup id r.incidents ≡ none
    → evidence_of id r ≡ []
no_evidence {r} h id free = elim (Option-cases (lookup id r.evidence_by_incident)) [
  | inl e ↦ rw e
  | inr (v, e) ↦ absurd (ground (arith, h.evidence_rows id))
]

creates_evidence :
    (r : Repository) (i : Incident) (stamp : String)
    → IsIndexed r
    → lookup i.incident_id r.incidents ≡ none
    → (id key : String) (e : Evidence) → lookup key (evidence_of id r) ≡ some e
    → lookup key (evidence_of id (created i stamp r)) ≡ some e
creates_evidence r i stamp h free id key e there = rw lookup-insert (
    ground (
      arith,
      eq_iff i.incident_id id,
      ap (lookup key) (no_evidence h i.incident_id free),
      lookup-nil {V = Evidence} key,
    ))

gathers_evidence :
    (r : Repository) (id : String) (x : Evidence)
    → agrees Evidence-discrete compared_evidence (lookup x.evidence_id (evidence_of id r)) x ≡ true
    → (j : String)
    → AllStay compared_evidence (evidence_of j r) (evidence_of j (put_evidence id x r))
gathers_evidence r id x fits j = elim (Bool-cases (id == j)) [
  | inl hit ↦
      let here : id ≡ j = (eq_iff id j).0 hit in
      let written =
        insert-AllStay compared_evidence x.evidence_id x (evidence_of id r) (
          agrees-fits Evidence-discrete compared_evidence x.evidence_id x (evidence_of id r)
            fits) in
      subst
        (λ (y : String).
          AllStay compared_evidence (evidence_of y r) (evidence_of y (put_evidence id x r)))
        here (rw lookup-insert_self written)
  | inr miss ↦ rw (lookup-insert, miss) (AllStay-refl compared_evidence (evidence_of j r))
]

-- Every write keeps the answers.
pub Step-Keeps : {r s : Repository} → Step r s → IsIndexed r → Keeps r s
Step-Keeps {r} (creates i stamp new free e) h = rw e (record {
  evidence = λ id key v p. (v, creates_evidence r i stamp h free id key v p, refl);
  contexts = λ key c p. (c, p, refl);
  reports = λ key x p. (x, p, refl);
  agent_runs = λ key a p. (a, p, refl);
  incidents = λ key. has-insert_more i.incident_id key i r.incidents;
})
Step-Keeps {r} (updates id i j d stamp there same legal e) h = rw e (record {
  evidence = λ x key v p. (v, p, refl);
  contexts = λ key c p. (c, p, refl);
  reports = λ key x p. (x, p, refl);
  agent_runs = λ key a p. (a, p, refl);
  incidents = λ key. has-insert_more id key j r.incidents;
})
Step-Keeps {r} (touches id i j there same still e) h = rw e (record {
  evidence = λ x key v p. (v, p, refl);
  contexts = λ key c p. (c, p, refl);
  reports = λ key x p. (x, p, refl);
  agent_runs = λ key a p. (a, p, refl);
  incidents = λ key. has-insert_more id key j r.incidents;
})
Step-Keeps {r} (gathers id x own there fits e) h = rw e (record {
  evidence = gathers_evidence r id x fits;
  contexts = λ key c p. (c, p, refl);
  reports = λ key y p. (y, p, refl);
  agent_runs = λ key a p. (a, p, refl);
  incidents = λ key p. p;
})
Step-Keeps {r} (freezes c there known fits e) h = rw e (record {
  evidence = λ x key v p. (v, p, refl);
  contexts =
      insert-AllStay compared_context c.context_id c r.contexts
        (agrees-fits Context-discrete compared_context c.context_id c r.contexts fits);
  reports = λ key x p. (x, p, refl);
  agent_runs = λ key a p. (a, p, refl);
  incidents = λ key p. p;
})
Step-Keeps {r} (publishes q markdown c there own cited kept e) h = rw e (record {
  evidence = λ x key v p. (v, p, refl);
  contexts = λ key x p. (x, p, refl);
  reports = insert-AllStay compared_report q.report_id q r.reports kept;
  agent_runs = λ key a p. (a, p, refl);
  incidents = λ key p. p;
})
Step-Keeps {r} (records a c there own fits e) h = rw e (record {
  evidence = λ x key v p. (v, p, refl);
  contexts = λ key x p. (x, p, refl);
  reports = λ key x p. (x, p, refl);
  agent_runs =
      insert-AllStay compared_run a.agent_run_id a r.agent_runs
        (agrees-fits AgentRun-discrete compared_run a.agent_run_id a r.agent_runs fits);
  incidents = λ key p. p;
})

pub Steps-Keeps : {r s : Repository} → Steps r s → IsIndexed r → Keeps r s
Steps-Keeps {r} done h = Keeps-refl r
Steps-Keeps (step x p) h = Keeps-trans (Step-Keeps x h) (Steps-Keeps p (Step-IsIndexed x h))
