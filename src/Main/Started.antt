-- ===== src/Main/Started.antt =====
-- When `main` starts the manager.
use dbaas_controller.Prelude.{
  false-is-not-true, some-injective, inl, inr, ◌≡◌, refl, sym, ◌∙◌, true, false, none, some, List,
  [], ◌∷◌, pos, if◌then◌else◌,
}
use dbaas_controller.Go.{Result, ok, err, panic, Result-cases}
use dbaas_controller.Cluster.{Run, attempt}
use dbaas_controller.Cluster.Triple.{Assertion, After, Triple, After-ok}
use dbaas_controller.Main.{
  Flags, default_flags, TlsConfig, disable_http2, ManagerOptions, manager_options, Process,
  new_process, Host, database_request, relational_database_provider, mongo_db_provider, start, main,
}
use mathlib.Core.Path.{subst}
use dbaas_controller.Main.Steps.{
  At, Stopped, step_then, set_up-Advances, add_check-Advances, init-Advances, make_manager-Advances,
}

-- A server's configuration after its options
abbrev pub configure : List (TlsConfig → TlsConfig) → TlsConfig → TlsConfig
configure [] c = c
configure (f ∷ fs) c = configure fs (f c)

module _ {C R M : Type 0} (host : Host C R M) (client : R) where
  -- All parts are in place: what the flags ask for, the relational client where it is used, no client
  -- for MongoDB, and no lock that is held.
  pub record IsComplete (flags : Flags) (p : Process R M) : Type 0 where
    pub options :
        p.options
        ≡ some (record {
          metrics_bind_address = flags.metrics_addr;
          metrics_secure_serving = flags.secure_metrics;
          metrics_tls_opts = if flags.enable_http2 then [] else disable_http2 ∷ [];
          webhook_tls_opts = if flags.enable_http2 then [] else disable_http2 ∷ [];
          health_probe_bind_address = flags.probe_addr;
          leader_election = flags.enable_leader_election;
          leader_election_id = "7c5dfb9a.lagoon.sh";
        })
    pub controllers :
        p.controllers
        ≡ record {
          reconciler = mongo_db_provider (record { mongo_db_client = none });
          recorder = "mongodbprovider-controller";
          max_concurrent_reconciles = pos 1;
        }
          ∷ record {
            reconciler = relational_database_provider (record { rel_db_client = some client });
            recorder = "relationaldatabaseprovider_controller";
            max_concurrent_reconciles = pos 1;
          }
          ∷ record {
            reconciler =
                database_request (record { relational_database_client = some client; locks = [] });
            recorder = "DatabaseRequestReconciler";
            max_concurrent_reconciles = flags.max_concurrent_reconciles;
          }
          ∷ []
    pub checks : p.checks ≡ "readyz" ∷ "healthz" ∷ []

  -- The manager is started, and then all parts are in place.
  abbrev Ready : Assertion (Process R M)
  Ready s = (s.object.started ≡ true) × IsComplete (host.parse default_flags) s.object

  abbrev Whenever : Assertion (Process R M)
  Whenever s = s.object.started ≡ true → IsComplete (host.parse default_flags) s.object

  Stopped-Whenever : (s : Run (Process R M)) → Stopped host s → Whenever s
  Stopped-Whenever s h e = absurd (false-is-not-true (sym h ∙ e))

  start-Ready :
      (p : Process R M)
      → IsComplete (host.parse default_flags) p
      → Triple (At host p) (start host) (λ _. Ready) Whenever
  unfolding start attempt
  start-Ready p c = record {
    at = λ s h.
        let complete : IsComplete (host.parse default_flags) (record s.object { started = true }) =
          subst (λ q. IsComplete (host.parse default_flags) (record q { started = true })) (sym h)
            (record { options = c.options; controllers = c.controllers; checks = c.checks }) in
        elim (Result-cases (host.start s.object)) [
          | inl (a, e) ↦ rw e (refl, complete)
          | inr (inl (x, e)) ↦ rw e (λ _. complete)
          | inr (inr e) ↦ rw e (λ _. complete)
        ];
  }

  main-Ready : Triple (At host new_process) (main host client) (λ _. Ready) Whenever
  unfolding main
  main-Ready =
      let flags = host.parse default_flags in
      step_then host _ _ _ Stopped-Whenever (init-Advances host new_process refl) (
        step_then host _ _ _ Stopped-Whenever (make_manager-Advances host flags _ refl) (
          step_then host _ _ _ Stopped-Whenever (set_up-Advances host _ _ _ refl) (
            step_then host _ _ _ Stopped-Whenever (set_up-Advances host _ _ _ refl) (
              step_then host _ _ _ Stopped-Whenever (set_up-Advances host _ _ _ refl) (
                step_then host _ _ _ Stopped-Whenever (add_check-Advances host "healthz" _ refl) (
                  step_then host _ _ _ Stopped-Whenever (add_check-Advances host "readyz" _ refl) (
                    start-Ready _
                      (record { options = refl; controllers = refl; checks = refl }))))))))

  whenever :
      (r : Result (Unit {0})) (s : Run (Process R M)) → After (λ _. Ready) Whenever r s → Whenever s
  whenever (ok a) s (_, c) = λ _. c
  whenever (err x) s w = w
  whenever panic s w = w

  http1 :
      (o : ManagerOptions) (c : TlsConfig)
      → (host.parse default_flags).enable_http2 ≡ false
      → some (manager_options (host.parse default_flags)) ≡ some o
      → ((configure o.metrics_tls_opts c).next_protos ≡ "http/1.1" ∷ [])
        × ((configure o.webhook_tls_opts c).next_protos ≡ "http/1.1" ∷ [])
  http1 o c plain same =
      subst
        (λ x.
          ((configure x.metrics_tls_opts c).next_protos ≡ "http/1.1" ∷ [])
          × ((configure x.webhook_tls_opts c).next_protos ≡ "http/1.1" ∷ []))
        (some-injective _ _ same) (rw plain (refl, refl))

  -- Whatever the libraries answer: if `main` returns without an error, the manager was started. If it was
  -- started, also if it then failed, it has the options of the flags, both checks, and exactly three
  -- controllers: of the requests, with the relational client that was given, no lock and as many workers
  -- as the flags say; of the relational providers, with that client and one worker; and of the MongoDB
  -- providers, with no client and one worker. If the flags do not enable HTTP/2, the metrics and the
  -- webhook server offer HTTP/1.1 only, whatever else is configured.
  pub main-IsComplete :
      let (r, s) = main host client (record { object = new_process; history = [] }) in
      (r ≡ ok tt → s.object.started ≡ true)
      × (s.object.started ≡ true
          → IsComplete (host.parse default_flags) s.object
            × ((host.parse default_flags).enable_http2 ≡ false
                → (o : ManagerOptions) (c : TlsConfig) → s.object.options ≡ some o
                → ((configure o.metrics_tls_opts c).next_protos ≡ "http/1.1" ∷ [])
                  × ((configure o.webhook_tls_opts c).next_protos ≡ "http/1.1" ∷ [])))
  main-IsComplete =
      let begin : Run (Process R M) = record { object = new_process; history = [] } in
      let (r, s) = main host client begin in
      let after : After (λ _. Ready) Whenever r s = main-Ready.at begin refl in
      (
        λ e. (After-ok (λ _. Ready) Whenever r s tt e after).0,
        λ e.
            let c : IsComplete (host.parse default_flags) s.object = whenever r s after e in
            (c, λ plain o t same. http1 o t plain (sym c.options ∙ same)),
      )
