-- ===== src/Request/Frame.antt =====
-- The frame of a reconciliation: the counter, the lock, the read of the request and the unlock. What
-- the rest keeps of the calls, for the request that was read, the whole keeps.
use dbaas_controller.Prelude.{String, ◌≡◌, inl, inr, ◌∷◌}
use dbaas_controller.Go.{Error, ok, Result-cases}
use dbaas_controller.Api.{Dict, NamespacedName, DatabaseRequest}
use dbaas_controller.Cluster.{Call, Env, History, Run, attempt, done}
use dbaas_controller.Cluster.Triple.{Keeps, Keeps-run}
use dbaas_controller.Cluster.Order.{Only, added_one, only_rules}
use dbaas_controller.Request.Faults.{reconcile_counter}
use dbaas_controller.Request.Reconcile.{
  lock_key, request_labels, missed, reconcile_fetched, reconcile_locked, with_lock, reconcile,
}

-- The calls of the frame are of the sort `P`.
pub record Frames (P : Call → Type 0) (key : NamespacedName) : Type 0 where
  pub inc_counter : (name : String) (labels : Dict String) → P (Call.inc_counter name labels)
  pub get_request : P (Call.get_request key)
  pub lock : P (Call.lock (lock_key key))
  pub unlock : P (Call.unlock (lock_key key))

module _ (env : Env) (key : NamespacedName) {P : Call → Type 0} {h : History} where
  module _ (inc_counter : (name : String) (labels : Dict String) → P (Call.inc_counter name labels))
      (get_request : P (Call.get_request key))
      (rest : (g : History) (s : Run DatabaseRequest)
        → env.get_request g key ≡ ok s.object
        → Only P h s
        → Only P h (reconcile_fetched env s).1) where
    missed-Only : (e : Error) → Keeps (Only P h) (missed env key e)
    unfolding missed
    missed-Only e = search (only_rules, inc_counter) depth 9

    pub reconcile_locked-Only :
        (s : Run DatabaseRequest) → Only P h s → Only P h (reconcile_locked env key s).1
    unfolding reconcile_locked attempt
    reconcile_locked-Only s k = elim (Result-cases (env.get_request s.history key)) [
      | inl (o, found) ↦ rw found (rest s.history _ found (added_one _ get_request k))
      | inr (inl (e, missing)) ↦
          rw missing (Keeps-run (Only P h) _ (missed-Only e) _ (added_one _ get_request k))
      | inr (inr p) ↦ rw p (added_one _ get_request k)
    ]

  pub reconcile-Only :
      Frames P key
      → ((g : History) (s : Run DatabaseRequest)
          → env.get_request g key ≡ ok s.object
          → Only P h s
          → Only P h (reconcile_fetched env s).1)
      → (s : Run DatabaseRequest) → Only P h s
      → Only P h (reconcile env key s).1
  unfolding reconcile with_lock attempt
  reconcile-Only f rest s k =
      let counted : Only P h (record s {
        history =
            record {
              call = Call.inc_counter reconcile_counter (request_labels key);
              outcome = done;
            }
            ∷ s.history;
      }) =
        added_one _ (f.inc_counter _ _) k in
      added_one _ f.unlock
        (reconcile_locked-Only f.inc_counter f.get_request rest _ (added_one _ f.lock counted))
