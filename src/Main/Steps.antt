-- ===== src/Main/Steps.antt =====
-- The steps of `main`, each from one state of the process to the next, or to its end.
use dbaas_controller.Prelude.{inl, inr, ◌≡◌, ◌∙◌, ap, false, some, List, ◌∷◌, ◌++◌, String}
use dbaas_controller.Go.{Error, Result, Result-cases}
use dbaas_controller.Cluster.{Run, Exec, raise, crash, lift, get_object, put_object, attempt, ◌>>◌}
use dbaas_controller.Cluster.Triple.{Assertion, Triple, Triple-attempt, Triple-raise}
use dbaas_controller.Main.{
  Flags, manager_options, Process, Host, Controller, must_add, init, register, set_up, make_manager,
  add_check,
}

module _ {C R M : Type 0} (host : Host C R M) where
  abbrev pub At : Process R M → Assertion (Process R M)
  At p s = s.object ≡ p

  -- Before the start, a step may fail.
  abbrev pub Stopped : Assertion (Process R M)
  Stopped s = s.object.started ≡ false

  -- One step of `main`, from a process that is not started to one that is not
  abbrev Advances : Process R M → Exec (Process R M) (Unit {0}) → Process R M → Type 0
  Advances p m q = Triple (At p) m (λ _. At q) Stopped

  -- The form of each step: an answer of the library, and then the new process
  answered :
      {A : Type 0} (p : Process R M) (answer : Process R M → Result A)
      (handle : Error → Exec (Process R M) (Unit {0})) (f : Process R M → Process R M)
      → ((e : Error) → Triple Stopped (handle e) (λ _. At (f p)) Stopped)
      → p.started ≡ false
      → Advances p
          (attempt get_object raise (λ o. attempt (lift (answer o)) handle (λ _. put_object (f o))))
          (f p)
  unfolding attempt
  answered p answer handle f k n = record {
    at = λ s h.
        let stopped : s.object.started ≡ false = ap (λ (q : Process R M). q.started) h ∙ n in
        elim (Result-cases (answer s.object)) [
          | inl (a, e) ↦ rw e (ap f h)
          | inr (inl (x, e)) ↦ rw e ((k x).at s stopped)
          | inr (inr e) ↦ rw e stopped
        ];
  }

  raised :
      {p : Process R M} (e : Error) → Triple Stopped (raise {A = Unit {0}} e) (λ _. At p) Stopped
  raised e = Triple-raise e (λ s h. h)

  crashed : {p : Process R M} → Triple Stopped (crash {A = Unit {0}}) (λ _. At p) Stopped
  unfolding attempt
  crashed = record { at = λ s h. h }

  -- One step, and then others
  pub step_then :
      {p : Process R M} (q : Process R M) {post : Assertion (Process R M)}
      {fail : Assertion (Process R M)} (m n : Exec (Process R M) (Unit {0}))
      → ((s : Run (Process R M)) → Stopped s → fail s)
      → Advances p m q
      → Triple (At q) n (λ _. post) fail
      → Triple (At p) (m >> n) (λ _. post) fail
  step_then q m n w k l =
      Triple-attempt (λ _. At q) Stopped m raise (λ _. n) k (λ e. Triple-raise e w) (λ _. l) w

  must_add-Advances :
      (group : String) (p : Process R M)
      → p.started ≡ false
      → Advances p (must_add host group) (record p { schemes = group ∷ p.schemes })
  unfolding must_add
  must_add-Advances group p n =
      answered p _ _ (λ q. record q { schemes = group ∷ q.schemes }) (λ _. crashed) n

  pub set_up-Advances :
      (metrics : List String) (c : Controller R M) (p : Process R M)
      → p.started ≡ false
      → Advances p
          (set_up host metrics c)
          (record p { registered = metrics ++ p.registered; controllers = c ∷ p.controllers })
  unfolding set_up register
  set_up-Advances metrics c p n =
      step_then _ _ _ (λ s h. h)
        (answered p _ _ (λ q. record q { registered = metrics ++ q.registered }) raised n)
        (answered _ _ _ (λ q. record q { controllers = c ∷ q.controllers }) raised n)

  pub add_check-Advances :
      (name : String) (p : Process R M)
      → p.started ≡ false
      → Advances p (add_check host name) (record p { checks = name ∷ p.checks })
  unfolding add_check
  add_check-Advances name p n = answered p _ _ (λ q. record q { checks = name ∷ q.checks }) raised n

  pub init-Advances :
      (p : Process R M)
      → p.started ≡ false
      → Advances p
          (init host)
          (record p { schemes = "crd.lagoon.sh/v1alpha1" ∷ "client-go" ∷ p.schemes })
  unfolding init
  init-Advances p n =
      step_then _ _ _ (λ s h. h) (must_add-Advances "client-go" p n) (must_add-Advances _ _ n)

  pub make_manager-Advances :
      (flags : Flags) (p : Process R M)
      → p.started ≡ false
      → Advances p (make_manager host flags) (record p { options = some (manager_options flags) })
  unfolding make_manager attempt
  make_manager-Advances flags p n = record {
    at = λ s h.
        let stopped : s.object.started ≡ false = ap (λ (q : Process R M). q.started) h ∙ n in
        elim (Result-cases host.get_config) [
          | inl (c, e) ↦ rw e (elim (Result-cases (host.new_manager c (manager_options flags))) [
            | inl (a, d) ↦
                rw d
                  (ap (λ (q : Process R M). record q { options = some (manager_options flags) }) h)
            | inr (inl (x, d)) ↦ rw d stopped
            | inr (inr d) ↦ rw d stopped
          ])
          | inr (inl (x, e)) ↦ rw e stopped
          | inr (inr e) ↦ rw e stopped
        ];
  }
