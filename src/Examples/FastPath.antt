-- ===== src/Examples/FastPath.antt =====
-- A run of the fast path over an incident that is being localized.
use agent_rca.Prelude.{refl, [], ◌∷◌, List}
use agent_rca.Outcome.{Result, ok}
use agent_rca.Time.{DateTime}
use agent_rca.Incident.{Incident, received, collecting, localizing}
use agent_rca.Documents.{Evidence}
use agent_rca.Deterministic.Engine.{DeterministicDecision, default_rules}
use agent_rca.Repository.{Repository, empty}
use agent_rca.Repository.Calls.{run, create, move, gather}
use agent_rca.FastPath.{FastPathArtifacts, run_fast_path}
use agent_rca.FastPath.Settled.{IsSettled, run_fast_path-IsSettled}
use agent_rca.Examples.{sample, noon, checkout, restart, package_one, verdict}

abbrev located : Repository
located =
    run sample
      (create checkout noon
        ∷ gather "inc-checkout" (restart ∷ [])
        ∷ move "inc-checkout" received collecting noon
        ∷ move "inc-checkout" collecting localizing noon
        ∷ [])
      empty

-- a builder that gives the same documents for every decision
abbrev package_and_report :
    Incident → List Evidence → DeterministicDecision → DateTime → Result FastPathArtifacts
package_and_report i evidence d now =
    ok (record { context = package_one; report = verdict; markdown = "# Report" })

run_fast_path-IsSettled_example :
    IsSettled sample "inc-checkout" noon located
      (run_fast_path sample (default_rules sample) package_and_report "inc-checkout" noon located)
run_fast_path-IsSettled_example =
    run_fast_path-IsSettled sample "inc-checkout" noon (default_rules sample) package_and_report
      located (λ i v. refl)
