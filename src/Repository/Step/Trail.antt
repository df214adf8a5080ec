-- ===== src/Repository/Step/Trail.antt =====
-- The audit trail of an incident replays, event by event, to the incident's status.
use agent_rca.Prelude.{
  String, ◌≡◌, refl, ap, ◌∙◌, some, List, [], ◌∷◌, ◌++◌, arith, eq_iff, eq_refl,
}
use agent_rca.Dict.{lookup, insert, dict_laws}
use agent_rca.Incident.{Incident}
use agent_rca.Documents.{AuditEvent}
use agent_rca.Repository.{Repository, empty, audit_of}
use agent_rca.Repository.Step.{
  Step, creates, updates, touches, gathers, freezes, publishes, records, Steps, done, step, created,
  replay_event, Phase, fresh, live,
}

-- What a whole trail says.
abbrev pub replay : Phase → List AuditEvent → Phase
replay o [] = o
replay o (e ∷ es) = replay (replay_event o e.details) es

replay-append :
    (o : Phase) (es : List AuditEvent) (e : AuditEvent)
    → replay o (es ++ e ∷ []) ≡ replay_event (replay o es) e.details
replay-append o [] e = refl
replay-append o (x ∷ es) e = replay-append (replay_event o x.details) es e

pub record IsReplayed (r : Repository) : Type 0 where
  pub at :
      (id : String) (i : Incident)
      → lookup id r.incidents ≡ some i
      → replay fresh (audit_of id r) ≡ live i.status

pub empty-IsReplayed : IsReplayed empty
unfolding empty
empty-IsReplayed = record { at = λ id i. simp dict_laws (λ p. cc) }

module _ (r : Repository) (h : IsReplayed r) where
  creates-IsReplayed : (i : Incident) (stamp : String) → IsReplayed (created i stamp r)
  creates-IsReplayed i stamp = record {
    at = λ x y. simp (dict_laws, eq_refl) (ground (arith, h.at x y, eq_iff i.incident_id x));
  }

  updates-IsReplayed :
      (id : String) (i j : Incident) (e : AuditEvent)
      → lookup id r.incidents ≡ some i
      → replay_event (live i.status) e.details ≡ live j.status
      → IsReplayed (record r {
        incidents = insert id j r.incidents;
        audit_events = insert id (audit_of id r ++ e ∷ []) r.audit_events;
      })
  updates-IsReplayed id i j e there legal = record {
    at = λ x y. simp dict_laws (
        ground (
          arith,
          h.at x y,
          eq_iff id x,
          replay-append fresh (audit_of id r) e
              ∙ ap (λ o. replay_event o e.details) (h.at id i there)
              ∙ legal,
        ));
  }

  touches-IsReplayed :
      (id : String) (i j : Incident)
      → lookup id r.incidents ≡ some i
      → j.status ≡ i.status
      → IsReplayed (record r { incidents = insert id j r.incidents })
  touches-IsReplayed id i j there still = record {
    at = λ x y. simp dict_laws (ground (arith, h.at x y, h.at x i, eq_iff id x));
  }

pub Step-IsReplayed : {r r' : Repository} → Step r r' → IsReplayed r → IsReplayed r'
Step-IsReplayed {r} (creates i stamp new free e) h = rw e (creates-IsReplayed r h i stamp)
Step-IsReplayed {r} (updates id i j d stamp there same legal e) h =
    rw e (updates-IsReplayed r h id i j _ there legal)
Step-IsReplayed {r} (touches id i j there same still e) h =
    rw e (touches-IsReplayed r h id i j there still)
Step-IsReplayed (gathers id x own there fits e) h = rw e (record { at = h.at })
Step-IsReplayed (freezes c there known fits e) h = rw e (record { at = h.at })
Step-IsReplayed (publishes p markdown c there own cited kept e) h = rw e (record { at = h.at })
Step-IsReplayed (records a c there own fits e) h = rw e (record { at = h.at })

pub Steps-IsReplayed : {r s : Repository} → Steps r s → IsReplayed r → IsReplayed s
Steps-IsReplayed done h = h
Steps-IsReplayed (step x p) h = Steps-IsReplayed p (Step-IsReplayed x h)
