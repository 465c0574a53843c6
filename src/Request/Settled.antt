-- ===== src/Request/Settled.antt =====
-- What the end of a reconciliation leaves, as it is stated: conditions, statuses and generations.
use dbaas_controller.Prelude.{ℤ, String, Bool, true, false, List, [], ◌∷◌, ◌≡◌, int_le}
use dbaas_controller.Go.{ok}
use dbaas_controller.Api.{Condition, DatabaseRequest}
use dbaas_controller.Cluster.{Call, Env, History, Run, done}
use dbaas_controller.Cluster.Order.{Only}
use dbaas_controller.Request.Faults.{reconcile_status, prom_labels}
use dbaas_controller.Request.Reconcile.{
  set_conditions, observe_generation, ready_true, is_up_to_date,
}

-- What the package `meta` documents of the conditions
pub record HasConditions (env : Env) : Type 0 where
  pub sets :
      (cs : List Condition) (c : Condition)
      → c.status ≡ "True"
      → env.is_status_condition_true (env.set_status_condition cs c).0 c.type ≡ true
  pub absent : (type : String) → env.is_status_condition_true [] type ≡ false

-- An accepted update of a status writes the status that was sent, and no generation.
abbrev pub KeepsStatus : Env → Type 0
KeepsStatus env =
    (h : History) (o : DatabaseRequest)
    → (env.update_request_status h o).1 ≡ ok tt
    → ((env.update_request_status h o).0.meta.generation ≡ o.meta.generation)
      × ((env.update_request_status h o).0.status ≡ o.status)

-- No status is written.
abbrev pub NotStatus : Call → Type 0
NotStatus (Call.update_request_status o) = ⊥
NotStatus _ = Unit

-- A status that is written has observed the generation `g`.
abbrev pub Observes : ℤ → Call → Type 0
Observes g (Call.update_request_status o) = o.status.observed_generation ≡ g
Observes g _ = Unit

module _ (env : Env) where
  -- The request after its conditions were set
  abbrev pub conditioned : Bool → DatabaseRequest → DatabaseRequest
  conditioned b o =
      set_conditions
        (env.set_status_condition (env.remove_status_condition o.status.conditions "Error")
          (ready_true b)).0
        o

  abbrev pub is_changed : Bool → DatabaseRequest → Bool
  is_changed b o =
      (env.set_status_condition (env.remove_status_condition o.status.conditions "Error")
        (ready_true b)).1

  -- What holds after `set_ready`, if it returns
  pub record IsSettled (b : Bool) (o : DatabaseRequest) (h : History) (s : Run DatabaseRequest)
      : Type 0 where
    pub current : is_up_to_date env s.object ≡ int_le o.meta.generation o.status.observed_generation
    pub written : Only (Observes o.status.observed_generation) h s
    pub unwritten : is_changed b o ≡ false → Only NotStatus h s

  abbrev pub counted : Run DatabaseRequest → History
  counted s =
      record { call = Call.set_gauge reconcile_status (prom_labels s.object "") 1; outcome = done }
      ∷ s.history

  -- The request as the update in `finish` gives it back
  abbrev pub updated : Run DatabaseRequest → DatabaseRequest
  updated s = (env.update_request (counted s) (observe_generation s.object)).0
