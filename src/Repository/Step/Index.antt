-- ===== src/Repository/Step/Index.antt =====
-- The identities of the repository's rows, kept by every write.
use agent_rca.Prelude.{
  String, ◌≡◌, ◌∙◌, true, none, some, arith, ◌==◌, eq_iff, eq_refl, if◌then◌else◌, List,
}
use agent_rca.Dict.{Dict, lookup, insert, has, lookup-insert, dict_laws}
use agent_rca.Incident.{Incident}
use agent_rca.Documents.{Evidence, Context, Report, AgentRun, AuditEvent}
use agent_rca.Repository.{Repository, empty, put_incident}
use agent_rca.Repository.Step.{
  Step, creates, updates, touches, gathers, freezes, publishes, records, Steps, done, step, created,
  SameIdentity,
}

-- Every incident stands at its own id, the deduplication keys and the incidents are in a one-to-one
-- correspondence, and each incident, and no other, has its rows of audit events and of Evidence.
pub record IsIndexed (r : Repository) : Type 0 where
  pub own_id : (id : String) (i : Incident) → lookup id r.incidents ≡ some i → i.incident_id ≡ id
  pub key_points :
      (k id : String)
      → lookup k r.incident_id_by_deduplication_key ≡ some id
      → has id r.incidents ≡ true
  pub key_agrees :
      (k id : String) (i : Incident)
      → lookup k r.incident_id_by_deduplication_key ≡ some id
      → lookup id r.incidents ≡ some i
      → i.deduplication_key ≡ k
  pub key_known :
      (id : String) (i : Incident)
      → lookup id r.incidents ≡ some i
      → lookup i.deduplication_key r.incident_id_by_deduplication_key ≡ some id
  pub audit_rows : (id : String) → has id r.audit_events ≡ has id r.incidents
  pub evidence_rows : (id : String) → has id r.evidence_by_incident ≡ has id r.incidents

pub empty-IsIndexed : IsIndexed empty
unfolding empty
empty-IsIndexed = record {
  own_id = λ id i. simp dict_laws (λ p. cc);
  key_points = λ k id. simp dict_laws (λ p. cc);
  key_agrees = λ k id i. simp dict_laws (λ p. cc);
  key_known = λ id i. simp dict_laws (λ p. cc);
  audit_rows = λ id. simp dict_laws;
  evidence_rows = λ id. simp dict_laws;
}

has-insert {ℓ} :
    {V : Type ℓ} (k j : String) (v : V) (d : Dict V)
    → has j (insert k v d) ≡ (if k == j then true else has j d)
has-insert k j v d = rw lookup-insert (ground arith)

-- Rows written at a key that has a value keep the set of keys.
has-insert_there {ℓ} :
    {V : Type ℓ} (k j : String) (v : V) (d : Dict V)
    → has k d ≡ true
    → has j (insert k v d) ≡ has j d
has-insert_there k j v d h = rw has-insert (ground (arith, eq_iff k j))

module _ (r : Repository) (h : IsIndexed r) where
  creates-IsIndexed :
      (i : Incident) (stamp : String)
      → lookup i.deduplication_key r.incident_id_by_deduplication_key ≡ none
      → lookup i.incident_id r.incidents ≡ none
      → IsIndexed (created i stamp r)
  creates-IsIndexed i stamp new free = record {
    own_id = λ id j. simp dict_laws (ground (arith, h.own_id id j, eq_iff i.incident_id id));
    key_points = λ k id.
        simp dict_laws (
          ground (arith, h.key_points k id, eq_iff i.incident_id id, eq_iff i.deduplication_key k));
    key_agrees = λ k id j. simp dict_laws (
        ground (
          arith,
          h.key_points k id,
          h.key_agrees k id j,
          h.key_known id j,
          eq_iff i.incident_id id,
          eq_iff i.deduplication_key k,
        ));
    key_known = λ id j. simp dict_laws (
        ground (
          arith,
          h.key_known id j,
          h.own_id id j,
          eq_iff i.incident_id id,
          eq_iff i.deduplication_key j.deduplication_key,
        ));
    audit_rows = λ id. simp has-insert (ground (arith, h.audit_rows id));
    evidence_rows = λ id. simp has-insert (ground (arith, h.evidence_rows id));
  }

  -- An incident replaced at its place by one with the same identity.
  replaced-IsIndexed :
      (id : String) (i j : Incident)
      → lookup id r.incidents ≡ some i
      → SameIdentity j i
      → IsIndexed (record r { incidents = insert id j r.incidents })
  replaced-IsIndexed id i j there same = record {
    own_id = λ x y. simp dict_laws (ground (arith, h.own_id x y, h.own_id id i, eq_iff id x));
    key_points = λ k x. simp dict_laws (ground (arith, h.key_points k x, eq_iff id x));
    key_agrees = λ k x y.
        simp dict_laws (ground (arith, h.key_agrees k x y, h.key_agrees k id i, eq_iff id x));
    key_known =
        λ x y. simp dict_laws (ground (arith, h.key_known x y, h.key_known id i, eq_iff id x));
    audit_rows = λ x. simp has-insert (ground (arith, h.audit_rows x, eq_iff id x));
    evidence_rows = λ x. simp has-insert (ground (arith, h.evidence_rows x, eq_iff id x));
  }

  -- A list of audit events replaced at its place.
  audited-IsIndexed :
      (id : String) (es : List AuditEvent)
      → has id r.incidents ≡ true
      → IsIndexed (record r { audit_events = insert id es r.audit_events })
  audited-IsIndexed id es there = record {
    own_id = h.own_id;
    key_points = h.key_points;
    key_agrees = h.key_agrees;
    key_known = h.key_known;
    audit_rows =
        λ x. has-insert_there id x es r.audit_events (h.audit_rows id ∙ there) ∙ h.audit_rows x;
    evidence_rows = h.evidence_rows;
  }

  gathered-IsIndexed :
      (id : String) (rows : Dict Evidence)
      → has id r.incidents ≡ true
      → IsIndexed (record r { evidence_by_incident = insert id rows r.evidence_by_incident })
  gathered-IsIndexed id rows there = record {
    own_id = h.own_id;
    key_points = h.key_points;
    key_agrees = h.key_agrees;
    key_known = h.key_known;
    audit_rows = h.audit_rows;
    evidence_rows = λ x.
        has-insert_there id x rows r.evidence_by_incident (h.evidence_rows id ∙ there)
        ∙ h.evidence_rows x;
  }

  -- Writes of other documents do not touch the rows.
  others-IsIndexed :
      (cs : Dict Context) (ps : Dict Report) (ms : Dict String) (runs : Dict AgentRun)
      → IsIndexed
          (record r { contexts = cs; reports = ps; report_markdown = ms; agent_runs = runs })
  others-IsIndexed cs ps ms runs = record {
    own_id = h.own_id;
    key_points = h.key_points;
    key_agrees = h.key_agrees;
    key_known = h.key_known;
    audit_rows = h.audit_rows;
    evidence_rows = h.evidence_rows;
  }

has-lookup {ℓ} :
    {V : Type ℓ} (k : String) (v : V) (d : Dict V) → lookup k d ≡ some v → has k d ≡ true
has-lookup k v d e = rw e

pub Step-IsIndexed : {r r' : Repository} → Step r r' → IsIndexed r → IsIndexed r'
Step-IsIndexed {r} (creates i stamp new free e) h = rw e (creates-IsIndexed r h i stamp new free)
Step-IsIndexed {r} (updates id i j d stamp there same legal e) h = rw e (
    audited-IsIndexed (put_incident id j r) (replaced-IsIndexed r h id i j there same) id _
      (rw lookup-insert (ground (arith, eq_refl id))))
Step-IsIndexed {r} (touches id i j there same still e) h =
    rw e (replaced-IsIndexed r h id i j there same)
Step-IsIndexed {r} (gathers id x own there fits e) h = rw e (gathered-IsIndexed r h id _ there)
Step-IsIndexed {r} (freezes c there known fits e) h = rw e (others-IsIndexed r h _ _ _ _)
Step-IsIndexed {r} (publishes p markdown c there own cited kept e) h =
    rw e (others-IsIndexed r h _ _ _ _)
Step-IsIndexed {r} (records a c there own fits e) h = rw e (others-IsIndexed r h _ _ _ _)

pub Steps-IsIndexed : {r s : Repository} → Steps r s → IsIndexed r → IsIndexed s
Steps-IsIndexed done h = h
Steps-IsIndexed (step x p) h = Steps-IsIndexed p (Step-IsIndexed x h)
