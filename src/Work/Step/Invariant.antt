-- ===== src/Work/Step/Invariant.antt =====
-- What every write of the queues keeps: dictionaries have no key twice, the fields of an item agree
-- with its state, attempts stay within the limit, and a finished item stays as it is.
use agent_rca.Prelude.{
  unique, ℕ, ◌≤◌, String, ◌≡◌, refl, true, false, Option, some, arith, not, ap, [], eq_iff,
  Bool-cases, inl, inr, ◌==◌, if◌then◌else◌, ◌⊎◌, ◌||◌,
}
use mathlib.Core.Path.{subst}
use agent_rca.Time.{DateTime}
use agent_rca.Dict.{Dict, lookup, insert, lookup-insert, is_some, lookup-nil}
use agent_rca.Dict.Unique.{IsDict, insert-IsDict}
use agent_rca.Work.{
  WorkItem, WorkState, is_running, is_ready_state, is_ready, is_expired, start_item, new_item,
  finish_item,
}
use agent_rca.Work.Step.{ItemStep, adds, starts, renews, finishes, ItemSteps, done, step, is_done}

pub record IsWellFormed (m : ℕ) (item : WorkItem) : Type 0 where
  pub leased : is_some item.lease_expires_at ≡ is_running item.state
  pub named : is_some item.claim_token ≡ not (is_ready_state item.state)
  pub owned : is_some item.worker_id ≡ not (is_ready_state item.state)
  pub fresh : is_ready_state item.state ≡ true → item.attempt_count ≡ 0
  pub tried : is_ready_state item.state ≡ false → 1 ≤ item.attempt_count
  pub bounded : item.attempt_count ≤ m

pub record AreItems (m : ℕ) (d : Dict WorkItem) : Type 0 where
  pub is_dict : IsDict d
  pub well_formed : (id : String) (item : WorkItem) → lookup id d ≡ some item → IsWellFormed m item

-- A write of a well-formed item.
put-AreItems :
    {m : ℕ} (id : String) (item : WorkItem) (d : Dict WorkItem)
    → IsWellFormed m item
    → AreItems m d
    → AreItems m (insert id item d)
put-AreItems {m} id item d w h = record {
  is_dict = insert-IsDict id item d h.is_dict;
  well_formed = λ key other. rw lookup-insert (chosen key other (Bool-cases (id == key)));
}
  where
    same : {x y : WorkItem} → some x ≡ some y → x ≡ y
    same q = cc

    chosen :
        (key : String) (other : WorkItem)
        → (id == key ≡ true) ⊎ (id == key ≡ false)
        → (if id == key then some item else lookup key d) ≡ some other
        → IsWellFormed m other
    chosen key other (inl hit) p = subst (IsWellFormed m) (same (rw hit at p)) w
    chosen key other (inr miss) p = h.well_formed key other (rw miss at p)

started-IsWellFormed :
    {m : ℕ} (item : WorkItem) (hex w : String) (now : DateTime) (duration n : ℕ)
    → 1 ≤ n
    → n ≤ m
    → (is_ready item now || is_expired item now n) ≡ true
    → IsWellFormed m item
    → IsWellFormed m (start_item item hex w now duration)
unfolding is_ready is_expired
started-IsWellFormed item hex w now duration n p q t h = ground arith

renewed-IsWellFormed :
    {m : ℕ} (item : WorkItem) (t : DateTime)
    → is_running item.state ≡ true
    → IsWellFormed m item
    → IsWellFormed m (record item { lease_expires_at = some t })
renewed-IsWellFormed item t r h = ground arith

finished-IsWellFormed :
    {m : ℕ} (item : WorkItem) (s : WorkState) (code : Option String)
    → is_running item.state ≡ true
    → is_done s ≡ true
    → IsWellFormed m item
    → IsWellFormed m (record (finish_item item s) { error_code = code })
finished-IsWellFormed item s code r f h = ground arith

pub ItemStep-AreItems :
    {m : ℕ} {d e : Dict WorkItem} → ItemStep m d e → 1 ≤ m → AreItems m d → AreItems m e
ItemStep-AreItems {m} {d} (adds id context_id t free p) one h =
    rw p (put-AreItems id (new_item context_id t) d (ground arith) h)
ItemStep-AreItems {m} {d} (starts id item hex w now duration n there lo hi t p) one h = rw p (
    put-AreItems id (start_item item hex w now duration) d
      (started-IsWellFormed item hex w now duration n lo hi t (h.well_formed id item there)) h)
ItemStep-AreItems {m} {d} (renews id item t there r p) one h = rw p (
    put-AreItems id (record item { lease_expires_at = some t }) d
      (renewed-IsWellFormed item t r (h.well_formed id item there)) h)
ItemStep-AreItems {m} {d} (finishes id item s code there r f p) one h = rw p (
    put-AreItems id (record (finish_item item s) { error_code = code }) d
      (finished-IsWellFormed item s code r f (h.well_formed id item there)) h)

pub ItemSteps-AreItems :
    {m : ℕ} {d e : Dict WorkItem} → ItemSteps m d e → 1 ≤ m → AreItems m d → AreItems m e
ItemSteps-AreItems done one h = h
ItemSteps-AreItems (step x p) one h = ItemSteps-AreItems p one (ItemStep-AreItems x one h)

pub nil-AreItems : (m : ℕ) → AreItems m []
unfolding unique
nil-AreItems m = record {
  is_dict = refl;
  well_formed = λ id item p. cc (lookup-nil {V = WorkItem} id);
}

-- A write elsewhere leaves an item.
kept :
    (id key : String) (item other : WorkItem) (d : Dict WorkItem)
    → (lookup key d ≡ some item → id ≡ key → ⊥)
    → lookup key d ≡ some item
    → lookup key (insert id other d) ≡ some item
kept id key item other d apart there = rw lookup-insert (ground (arith, eq_iff id key, apart there))

ItemStep-keeps :
    {m : ℕ} {d e : Dict WorkItem}
    → ItemStep m d e
    → (key : String) (old : WorkItem) → lookup key d ≡ some old
    → is_done old.state ≡ true
    → lookup key e ≡ some old
unfolding is_ready is_expired
ItemStep-keeps {m} {d} (adds id context_id t free p) key old there f =
    rw p (kept id key old _ d (λ q e. cc (ap (λ k. lookup k d) e)) there)
ItemStep-keeps {m} {d} (starts id item hex w now duration n at lo hi t p) key old there f =
    rw p (kept id key old _ d (λ q e. ground (arith, ap (λ k. lookup k d) e)) there)
ItemStep-keeps {m} {d} (renews id item t at r p) key old there f =
    rw p (kept id key old _ d (λ q e. ground (arith, ap (λ k. lookup k d) e)) there)
ItemStep-keeps {m} {d} (finishes id item s code at r g p) key old there f =
    rw p (kept id key old _ d (λ q e. ground (arith, ap (λ k. lookup k d) e)) there)

pub ItemSteps-keeps :
    {m : ℕ} {d e : Dict WorkItem}
    → ItemSteps m d e
    → (key : String) (old : WorkItem) → lookup key d ≡ some old
    → is_done old.state ≡ true
    → lookup key e ≡ some old
ItemSteps-keeps done key old there f = there
ItemSteps-keeps (step x p) key old there f =
    ItemSteps-keeps p key old (ItemStep-keeps x key old there f) f
