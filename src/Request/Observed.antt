-- ===== src/Request/Observed.antt =====
-- What a successful reconciliation leaves behind: whether the next one finds the request up to date.
use dbaas_controller.Prelude.{
  ℤ, true-is-not-false, String, Bool, true, false, inl, inr, Bool-cases, List, [], ◌∷◌, ◌≡◌, refl,
  sym, ◌∙◌, ap, int_le, ◌&&◌,
}
use dbaas_controller.Go.{Result, ok, Result-cases}
use dbaas_controller.Api.{Condition, DatabaseRequestStatus, DatabaseRequest}
use dbaas_controller.Cluster.Triple.{After, After-ok}
use dbaas_controller.Cluster.Failing.{Fails-Triple}
use dbaas_controller.Request.Failing.{handle_error-Fails}
use dbaas_controller.Cluster.{Call, Env, History, Run, done, attempt}
use dbaas_controller.Cluster.Order.{Only, Only-refl, added_one}
use dbaas_controller.Request.Reconcile.{
  has_conditions, set_conditions, observe_generation, ready_true, is_up_to_date, report, set_ready,
  finish,
}
use dbaas_controller.Request.Settled.{
  HasConditions, KeepsStatus, NotStatus, Observes, conditioned, is_changed, IsSettled, counted,
  updated,
}

module _ (env : Env) (api : HasConditions env) (keeps : KeepsStatus env) where
  has_true :
      (cs : List Condition) (type : String)
      → env.is_status_condition_true cs type ≡ true
      → (has_conditions cs && env.is_status_condition_true cs type) ≡ true
  has_true [] type e = absurd (true-is-not-false (sym e ∙ api.absent type))
  has_true (c ∷ cs) type e = e

  ready :
      (b : Bool) (cs : List Condition)
      → (has_conditions (env.set_status_condition cs (ready_true b)).0
          && env.is_status_condition_true (env.set_status_condition cs (ready_true b)).0 "Ready")
        ≡ true
  ready true cs = has_true _ "Ready" (api.sets cs (ready_true true) refl)
  ready false cs = has_true _ "Ready" (api.sets cs (ready_true false) refl)

  -- `P` holds after the run, if that returns.
  abbrev Whole : Result (Unit {0}) × Run DatabaseRequest → (Run DatabaseRequest → Type 0) → Type 0
  Whole (r, s) P = After (λ _. P) (λ _. Unit) r s

  -- The event at the end
  reported :
      (P : Run DatabaseRequest → Type 0) (b : Bool) (s : Run DatabaseRequest)
      → ((type reason note : String)
          → P (record s {
            history =
                record { call = Call.record_event type reason note; outcome = done } ∷ s.history;
          }))
      → Whole (report env b s) P
  unfolding attempt
  reported P true s k = k _ _ _
  reported P false s k = k _ _ _

  current_of :
      (b : Bool) (o p : DatabaseRequest)
      → p.meta.generation ≡ o.meta.generation
      → p.status ≡ (conditioned env b o).status
      → is_up_to_date env p ≡ int_le o.meta.generation o.status.observed_generation
  unfolding is_up_to_date set_conditions
  current_of b o p same kept =
      ap
        (λ (st : DatabaseRequestStatus).
          (has_conditions st.conditions && env.is_status_condition_true st.conditions "Ready")
          && int_le p.meta.generation st.observed_generation)
        kept
      ∙ rw (ready b (env.remove_status_condition o.status.conditions "Error"))
          (ap (λ (g : ℤ). int_le g o.status.observed_generation) same)

  -- After an update of the status that is accepted
  stored-IsSettled :
      (b : Bool) (h : History) (s : Run DatabaseRequest) (o : DatabaseRequest)
      → Only (Observes s.object.status.observed_generation) h s
      → o.meta.generation ≡ s.object.meta.generation
      → o.status ≡ (conditioned env b s.object).status
      → is_changed env b s.object ≡ true
      → Whole
          (report env b (record {
            object = o;
            history =
                record {
                  call = Call.update_request_status (conditioned env b s.object);
                  outcome = done;
                }
                ∷ s.history;
          }))
          (IsSettled env b s.object h)
  unfolding set_conditions
  stored-IsSettled b h s o w same kept changed =
      reported (IsSettled env b s.object h) b _ (λ type reason note. record {
        current = current_of b s.object o same kept;
        written = added_one _ tt (added_one {o = o} _ refl w);
        unwritten = λ e. absurd (true-is-not-false (sym changed ∙ e));
      })

  -- The condition is as it was.
  unchanged-IsSettled :
      (b : Bool) (h : History) (s : Run DatabaseRequest)
      → Only (Observes s.object.status.observed_generation) h s
      → Only NotStatus h s
      → Whole
          (report env b (record s { object = conditioned env b s.object }))
          (IsSettled env b s.object h)
  unfolding set_conditions
  unchanged-IsSettled b h s w n = reported (IsSettled env b s.object h) b _ (λ type reason note.
      record {
        current = current_of b s.object _ refl refl;
        written = added_one _ tt w;
        unwritten = λ e. added_one _ tt n;
      })

  set_ready-IsSettled :
      (b : Bool) (h : History) (s : Run DatabaseRequest)
      → Only (Observes s.object.status.observed_generation) h s
      → Only NotStatus h s
      → Whole (set_ready env b s) (IsSettled env b s.object h)
  unfolding set_ready attempt set_conditions
  set_ready-IsSettled b h s w n = elim (Bool-cases (is_changed env b s.object)) [
    | inr unchanged ↦ rw unchanged (unchanged-IsSettled b h s w n)
    | inl changed ↦
        let answer = env.update_request_status s.history (conditioned env b s.object) in
        elim (Result-cases answer.1) [
          | inl (u, e) ↦
              let k = keeps s.history (conditioned env b s.object) e in
              rw changed (rw e (stored-IsSettled b h s answer.0 w k.0 k.1 changed))
          | inr (inl (x, e)) ↦ rw changed (
              rw e (
                (Fails-Triple {pre = λ _. Unit} _ (handle_error-Fails env "update-status" x)).at _
                  tt))
          | inr (inr e) ↦ rw changed (rw e tt)
        ]
  ]

  module _ (b : Bool) (s : Run DatabaseRequest) where
    finish-Whole : Whole (finish env b s) (IsSettled env b (updated env s) s.history)
    unfolding finish attempt
    finish-Whole =
        let answer = env.update_request (counted env s) (observe_generation s.object) in
        elim (Result-cases answer.1) [
          | inl (u, e) ↦ rw e (
              set_ready-IsSettled b s.history
                (record {
                  object = answer.0;
                  history =
                      record {
                        call = Call.update_request (observe_generation s.object);
                        outcome = done;
                      }
                      ∷ counted env s;
                })
                (added_one {o = answer.0} _ tt (
                  added_one {o = s.object} _ tt
                    (Only-refl (Observes answer.0.status.observed_generation) s)))
                (added_one {o = answer.0} _ tt
                  (added_one {o = s.object} _ tt (Only-refl NotStatus s))))
          | inr (inl (x, e)) ↦ rw e tt
          | inr (inr e) ↦ rw e tt
        ]

    -- Let the end of a reconciliation, from the gauge on, return without an error, where the cluster keeps
    -- the statuses that it accepts, and the conditions are set as documented. Then the request is up to date
    -- exactly if the update of the request gave it back with an observed generation that is not behind its
    -- generation; each status that was written tells that observed generation; and if the Ready condition
    -- was as before, no status was written, and so no observed generation.
    pub finish-IsSettled :
        (finish env b s).0 ≡ ok tt → IsSettled env b (updated env s) s.history (finish env b s).1
    finish-IsSettled e =
        After-ok (λ _. IsSettled env b (updated env s) s.history) (λ _. Unit) _ _ tt e finish-Whole
