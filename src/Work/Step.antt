-- ===== src/Work/Step.antt =====
-- The writes that the three queues of src/incident_platform/incident_work.py make to their items, as
-- a relation between their dictionaries, for callers whose `max_attempts` is at most `m`.
pub mod Invariant
use agent_rca.Prelude.{ℕ, ◌≤◌, String, ◌≡◌, refl, Bool, true, false, Option, none, some, ◌||◌}
use agent_rca.Time.{DateTime}
use agent_rca.Dict.{Dict, lookup, insert}
use agent_rca.Work.{
  WorkItem, WorkState, ready, running, succeeded, failed, new_item, start_item, finish_item,
  is_running, is_ready, is_expired,
}

-- in {"SUCCEEDED", "FAILED"}
abbrev pub is_done : WorkState → Bool
is_done succeeded = true
is_done failed = true
is_done _ = false

pub data ItemStep (m : ℕ) (d d' : Dict WorkItem) : Type 0 where
  adds :
      (id context_id : String) (t : DateTime)
      → lookup id d ≡ none
      → d' ≡ insert id (new_item context_id t) d
      → ItemStep m d d'
  starts :
      (id : String) (item : WorkItem) (hex worker_id : String) (now : DateTime)
      (duration max_attempts : ℕ)
      → lookup id d ≡ some item
      → 1 ≤ max_attempts
      → max_attempts ≤ m
      → (is_ready item now || is_expired item now max_attempts) ≡ true
      → d' ≡ insert id (start_item item hex worker_id now duration) d
      → ItemStep m d d'
  renews :
      (id : String) (item : WorkItem) (t : DateTime)
      → lookup id d ≡ some item
      → is_running item.state ≡ true
      → d' ≡ insert id (record item { lease_expires_at = some t }) d
      → ItemStep m d d'
  finishes :
      (id : String) (item : WorkItem) (s : WorkState) (code : Option String)
      → lookup id d ≡ some item
      → is_running item.state ≡ true
      → is_done s ≡ true
      → d' ≡ insert id (record (finish_item item s) { error_code = code }) d
      → ItemStep m d d'

-- Any number of writes.
pub data ItemSteps (m : ℕ) : Dict WorkItem → Dict WorkItem → Type 0 where
  done : {d : Dict WorkItem} → ItemSteps m d d
  step : {d e f : Dict WorkItem} → ItemStep m d e → ItemSteps m e f → ItemSteps m d f

pub ItemSteps-trans :
    {m : ℕ} {d e f : Dict WorkItem} → ItemSteps m d e → ItemSteps m e f → ItemSteps m d f
ItemSteps-trans done q = q
ItemSteps-trans (step x p) q = step x (ItemSteps-trans p q)

pub ItemSteps-one : {m : ℕ} {d e : Dict WorkItem} → ItemStep m d e → ItemSteps m d e
ItemSteps-one x = step x done

pub ItemSteps-eq : {m : ℕ} {d e : Dict WorkItem} → e ≡ d → ItemSteps m d e
ItemSteps-eq p = rw p done
