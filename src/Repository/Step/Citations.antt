-- ===== src/Repository/Step/Citations.antt =====
-- What a stored document cites is stored, under the same incident.
use agent_rca.Prelude.{
  String, ◌≡◌, refl, sym, ap, ◌∙◌, true, some, List, [], ◌∷◌, arith, eq_iff, subset, Option-cases,
  ◌⊎◌, inl, inr,
}
use agent_rca.Dict.{Dict, lookup, insert, has, keys, lookup-insert, lookup-nil, dict_laws, mem-keys}
use agent_rca.Documents.{
  Evidence, Context, Report, AgentRun, compared_evidence, context_evidence_ids, report_evidence_ids,
}
use agent_rca.Repository.{Repository, evidence_of, empty, rows}
use agent_rca.Repository.Documents.{put_evidence}
use agent_rca.Repository.Step.{
  Step, creates, updates, touches, gathers, freezes, publishes, records, Steps, done, step,
  put_context, put_report, put_agent_run,
}
use agent_rca.Repository.Step.Index.{IsIndexed, Step-IsIndexed}
use agent_rca.Repository.Step.Permanence.{AllStay, Keeps, Step-Keeps}

-- The document `context_id` names a stored Context Package of the incident, and all of `ids` is
-- among its Evidence.
pub record Cites (r : Repository) (incident_id context_id : String) (ids : List String)
    : Type 0 where
  pub known : has context_id r.contexts ≡ true
  pub own :
      (c : Context)
      → lookup context_id r.contexts ≡ some c
      → (c.incident_id ≡ incident_id) × (subset ids c.evidence_ids ≡ true)

pub record IsCited (r : Repository) : Type 0 where
  pub evidence_own :
      (id key : String) (e : Evidence)
      → lookup key (evidence_of id r) ≡ some e
      → (e.evidence_id ≡ key) × (e.incident_id ≡ id)
  pub contexts_cite :
      (key : String) (c : Context)
      → lookup key r.contexts ≡ some c
      → (has c.incident_id r.incidents ≡ true)
        × (subset (context_evidence_ids c) (keys (evidence_of c.incident_id r)) ≡ true)
  pub reports_cite :
      (key : String) (p : Report)
      → lookup key r.reports ≡ some p
      → Cites r p.incident_id p.context_id (report_evidence_ids p)
  pub agent_runs_cite :
      (key : String) (a : AgentRun)
      → lookup key r.agent_runs ≡ some a
      → Cites r a.incident_id a.context_id []

pub empty-IsCited : IsCited empty
unfolding empty
empty-IsCited = record {
  evidence_own = λ id key e. simp dict_laws (λ p. cc);
  contexts_cite = λ key c. simp dict_laws (λ p. cc);
  reports_cite = λ key x. simp dict_laws (λ p. cc);
  agent_runs_cite = λ key a. simp dict_laws (λ p. cc);
}

-- Citations that are known stay known while answers are kept.
subset-kept :
    (ids : List String) (d d' : Dict Evidence)
    → AllStay compared_evidence d d'
    → subset ids (keys d) ≡ true
    → subset ids (keys d') ≡ true
unfolding subset
subset-kept [] d d' keep h = refl
subset-kept (x ∷ ids) d d' keep h = elim (Option-cases (lookup x d)) [
  | inl e ↦ absurd (ground (arith, mem-keys x d))
  | inr (v, e) ↦
      let (w, there, same) = keep x v e in
      ground (arith, mem-keys x d, mem-keys x d', subset-kept ids d d' keep)
]

-- A document whose Context Package is stored, of the same incident, and has what it cites.
Cites-now :
    (s : Repository) (c : Context) (id context_id : String) (ids : List String)
    → lookup context_id s.contexts ≡ some c
    → c.incident_id ≡ id
    → subset ids c.evidence_ids ≡ true
    → Cites s id context_id ids
Cites-now s c id context_id ids there own cited = record {
  known = ground arith;
  own = λ d p. ground arith;
}

Cites-kept :
    {r s : Repository} (id context_id : String) (ids : List String)
    → Keeps r s
    → Cites r id context_id ids
    → Cites s id context_id ids
Cites-kept {r} {s} id context_id ids k h = elim (Option-cases (lookup context_id r.contexts)) [
  | inl e ↦ absurd (ground (arith, h.known))
  | inr (c, e) ↦
      let (d, there, same) = k.contexts context_id c e in
      Cites-now s d id context_id ids there
        (ap (λ (x : Context). x.incident_id) same ∙ (h.own c e).0)
        (ap (λ (x : Context). subset ids x.evidence_ids) same ∙ (h.own c e).1)
]

module _ {r s : Repository} (k : Keeps r s) (h : IsCited r) where
  contexts_kept :
      (key : String) (c : Context)
      → lookup key r.contexts ≡ some c
      → (has c.incident_id s.incidents ≡ true)
        × (subset (context_evidence_ids c) (keys (evidence_of c.incident_id s)) ≡ true)
  contexts_kept key c p =
      let (there, known) = h.contexts_cite key c p in
      (
        k.incidents c.incident_id there,
        subset-kept (context_evidence_ids c) (evidence_of c.incident_id r)
            (evidence_of c.incident_id s) (k.evidence c.incident_id) known,
      )

  reports_kept :
      (key : String) (p : Report)
      → lookup key r.reports ≡ some p
      → Cites s p.incident_id p.context_id (report_evidence_ids p)
  reports_kept key p e =
      Cites-kept p.incident_id p.context_id (report_evidence_ids p) k (h.reports_cite key p e)

  agent_runs_kept :
      (key : String) (a : AgentRun)
      → lookup key r.agent_runs ≡ some a
      → Cites s a.incident_id a.context_id []
  agent_runs_kept key a e = Cites-kept a.incident_id a.context_id [] k (h.agent_runs_cite key a e)

  -- A write that touches no document but, perhaps, Evidence that is its own.
  same_documents :
      ((id key : String) (e : Evidence)
        → lookup key (evidence_of id s) ≡ some e
        → (e.evidence_id ≡ key) × (e.incident_id ≡ id))
      → s.contexts ≡ r.contexts
      → s.reports ≡ r.reports
      → s.agent_runs ≡ r.agent_runs
      → IsCited s
  same_documents own cs ps runs = record {
    evidence_own = own;
    contexts_cite = λ key c p. contexts_kept key c (rw cs at p);
    reports_cite = λ key x p. reports_kept key x (rw ps at p);
    agent_runs_cite = λ key a p. agent_runs_kept key a (rw runs at p);
  }

-- The document under a key after a write is the written one or an old one.
insert_cases {ℓ} :
    {V : Type ℓ} (k j : String) (v w : V) (d : Dict V)
    → lookup j (insert k v d) ≡ some w
    → (w ≡ v) ⊎ (lookup j d ≡ some w)
insert_cases k j v w d h = let e = sym (lookup-insert k j v d) ∙ h in ground arith

creates_own :
    (r : Repository) (id : String) (h : IsCited r) (x key : String) (e : Evidence)
    → lookup key (rows (lookup x (insert id [] r.evidence_by_incident))) ≡ some e
    → (e.evidence_id ≡ key) × (e.incident_id ≡ x)
creates_own r id h x key e =
    rw lookup-insert
      (λ p. ground (arith, lookup-nil {V = Evidence} key, h.evidence_own x key e, eq_iff id x))

gathers_own :
    (r : Repository) (id : String) (y : Evidence) (h : IsCited r)
    → y.incident_id ≡ id
    → (x key : String) (e : Evidence) → lookup key (evidence_of x (put_evidence id y r)) ≡ some e
    → (e.evidence_id ≡ key) × (e.incident_id ≡ x)
gathers_own r id y h own x key e = simp lookup-insert (
    ground (
      arith,
      h.evidence_own x key e,
      eq_iff id x,
      lookup-insert y.evidence_id key y (evidence_of id r),
      eq_iff y.evidence_id key,
    ))

freezes_IsCited :
    (r s : Repository) (c : Context)
    → has c.incident_id r.incidents ≡ true
    → subset (context_evidence_ids c) (keys (evidence_of c.incident_id r)) ≡ true
    → s ≡ put_context c r
    → Keeps r s
    → IsCited r
    → IsCited s
freezes_IsCited r s c there known e k h = record {
  evidence_own = rw e h.evidence_own;
  contexts_cite = λ key d p.
      elim (insert_cases c.context_id key c d r.contexts (rw (ap (λ t. t.contexts) e) at p)) [
        | inl same ↦ rw (same, e) (there, known)
        | inr old ↦ contexts_kept k h key d old
      ];
  reports_cite = λ key x p. reports_kept k h key x (rw (ap (λ t. t.reports) e) at p);
  agent_runs_cite = λ key a p. agent_runs_kept k h key a (rw (ap (λ t. t.agent_runs) e) at p);
}

publishes_IsCited :
    (r s : Repository) (q : Report) (markdown : String) (c : Context)
    → lookup q.context_id s.contexts ≡ some c
    → c.incident_id ≡ q.incident_id
    → subset (report_evidence_ids q) c.evidence_ids ≡ true
    → s ≡ put_report q markdown r
    → Keeps r s
    → IsCited r
    → IsCited s
publishes_IsCited r s q markdown c there own cited e k h = record {
  evidence_own = rw e h.evidence_own;
  contexts_cite = λ key d p. contexts_kept k h key d (rw (ap (λ t. t.contexts) e) at p);
  reports_cite = λ key x p.
      elim (insert_cases q.report_id key q x r.reports (rw (ap (λ t. t.reports) e) at p)) [
        | inl same ↦
            rw same
              (Cites-now s c q.incident_id q.context_id (report_evidence_ids q) there own cited)
        | inr old ↦ reports_kept k h key x old
      ];
  agent_runs_cite = λ key a p. agent_runs_kept k h key a (rw (ap (λ t. t.agent_runs) e) at p);
}

records_IsCited :
    (r s : Repository) (b : AgentRun) (c : Context)
    → lookup b.context_id s.contexts ≡ some c
    → c.incident_id ≡ b.incident_id
    → s ≡ put_agent_run b r
    → Keeps r s
    → IsCited r
    → IsCited s
unfolding subset
records_IsCited r s b c there own e k h = record {
  evidence_own = rw e h.evidence_own;
  contexts_cite = λ key d p. contexts_kept k h key d (rw (ap (λ t. t.contexts) e) at p);
  reports_cite = λ key x p. reports_kept k h key x (rw (ap (λ t. t.reports) e) at p);
  agent_runs_cite = λ key x p.
      elim (insert_cases b.agent_run_id key b x r.agent_runs (rw (ap (λ t. t.agent_runs) e) at p)) [
        | inl same ↦ rw same (Cites-now s c b.incident_id b.context_id [] there own refl)
        | inr old ↦ agent_runs_kept k h key x old
      ];
}

-- The documents after a write, from the kept answers and what is new.
pub Step-IsCited : {r s : Repository} → Step r s → IsIndexed r → IsCited r → IsCited s
Step-IsCited {r} {s} (creates i stamp new free e) n h =
    same_documents (Step-Keeps (creates i stamp new free e) n) h
      (rw e (creates_own r i.incident_id h)) (ap (λ t. t.contexts) e) (ap (λ t. t.reports) e)
      (ap (λ t. t.agent_runs) e)
Step-IsCited {r} (updates id i j d stamp there same legal e) n h =
    same_documents (Step-Keeps (updates id i j d stamp there same legal e) n) h
      (rw e h.evidence_own) (ap (λ t. t.contexts) e) (ap (λ t. t.reports) e)
      (ap (λ t. t.agent_runs) e)
Step-IsCited {r} (touches id i j there same still e) n h =
    same_documents (Step-Keeps (touches id i j there same still e) n) h (rw e h.evidence_own)
      (ap (λ t. t.contexts) e) (ap (λ t. t.reports) e) (ap (λ t. t.agent_runs) e)
Step-IsCited {r} (gathers id x own there fits e) n h =
    same_documents (Step-Keeps (gathers id x own there fits e) n) h
      (rw e (gathers_own r id x h own)) (ap (λ t. t.contexts) e) (ap (λ t. t.reports) e)
      (ap (λ t. t.agent_runs) e)
Step-IsCited {r} {s} (freezes c there known fits e) n h =
    freezes_IsCited r s c there known e (Step-Keeps (freezes c there known fits e) n) h
Step-IsCited {r} {s} (publishes p markdown c there own cited kept e) n h =
    publishes_IsCited r s p markdown c (rw e there) own cited e
      (Step-Keeps (publishes p markdown c there own cited kept e) n) h
Step-IsCited {r} {s} (records a c there own fits e) n h =
    records_IsCited r s a c (rw e there) own e (Step-Keeps (records a c there own fits e) n) h

pub Steps-IsCited : {r s : Repository} → Steps r s → IsIndexed r → IsCited r → IsCited s
Steps-IsCited done n h = h
Steps-IsCited (step x p) n h = Steps-IsCited p (Step-IsIndexed x n) (Step-IsCited x n h)
