-- ===== src/Request/Asked.antt =====
-- One connection that is asked for its load in a cluster that answers.
use dbaas_controller.Prelude.{
  String, true, Bool-cases, true-is-not-false, sym, ap, ◌∙◌, ◌⊎◌, inl, inr, List, Option, some, ◌≡◌,
  refl, ℤ, int_lt, if◌then◌else◌,
}
use dbaas_controller.Api.{Connection, DatabaseRequest, RelationalDatabaseProvider}
use dbaas_controller.Cluster.{Env}
use dbaas_controller.Cluster.Returning.{
  Returns, Returns-pure, Returns-call, Returns-attempt, Returns-given, Returns-wrapping,
}
use dbaas_controller.Request.Lowest.{OneOf}
use dbaas_controller.Request.Providers.{max_int, Best, connection_password, probe}
use dbaas_controller.Request.Serving.{ClusterServes, ClientServes}

-- The best so far is a connection of a provider of the list.
pub record IsListed (ps : List RelationalDatabaseProvider)
    (provider : Option RelationalDatabaseProvider) (name : String) : Type 0 where
  pub p : RelationalDatabaseProvider
  pub found : provider ≡ some p
  pub among : OneOf p ps
  pub connection : Connection
  pub offered : OneOf connection p.spec.connections
  pub named : name ≡ connection.name

-- The best so far is the start, or a connection of a provider of the list.
abbrev pub Listed : List RelationalDatabaseProvider → Best → Type 0
Listed ps best = IsListed ps best.provider best.conn_name

abbrev pub Good : List RelationalDatabaseProvider → Best → Type 0
Good ps best = (best.load ≡ max_int) ⊎ Listed ps best

module _ (env : Env) (ps : List RelationalDatabaseProvider) (cluster : ClusterServes env ps)
    (client : ClientServes env) where
  pub connection_password-Returns :
      {P : DatabaseRequest → Type 0} (a b : String) (p : RelationalDatabaseProvider)
      (c : Connection)
      → OneOf p ps
      → OneOf c p.spec.connections
      → Returns P (connection_password env a b c.password_secret_ref) (λ _. P)
  unfolding connection_password
  connection_password-Returns {P} a b p c among offered =
      Returns-attempt _ _ _ _
        (Returns-wrapping a _ (Returns-call {P = P} _ _ _ (cluster.passwords p among c offered)))
        (λ secret. Returns-given _ (λ e. rw e (Returns-pure _ (λ o x. x))))

  -- The better of two, of which the first was measured
  better :
      (p : RelationalDatabaseProvider) (c : Connection) (n : ℤ) (best : Best)
      → OneOf p ps
      → OneOf c p.spec.connections
      → int_lt n max_int ≡ true
      → Good ps best
      → Listed ps (
          if int_lt n best.load
          then record { load = n; provider = some p; conn_name = c.name }
          else best)
  better p c n best among offered low good = elim (Bool-cases (int_lt n best.load)) [
    | inl e ↦ rw e (record {
      p = p;
      found = refl;
      among = among;
      connection = c;
      offered = offered;
      named = refl;
    })
    | inr e ↦ rw e (elim good [
      | inl most ↦ absurd (true-is-not-false (sym low ∙ sym (ap (int_lt n) most) ∙ e))
      | inr listed ↦ listed
    ])
  ]

  pub probe-Returns :
      {P : DatabaseRequest → Type 0} (type : String) (p : RelationalDatabaseProvider)
      (c : Connection) (best : Best)
      → OneOf p ps
      → OneOf c p.spec.connections
      → Good ps best
      → Returns P (probe env type p c best) (λ b o. P o × Listed ps b)
  unfolding probe
  probe-Returns {P} type p c best among offered good =
      Returns-attempt (λ _. P) _ _ _ (connection_password-Returns _ _ p c among offered)
        (λ password.
          Returns-attempt _ _ _ _
            (Returns-wrapping _ _ (Returns-call {P = P} _ _ _ (client.load _ type)))
            (λ n.
              Returns-given _
                (λ low. Returns-pure _ (λ o x. (x, better p c n best among offered low good)))))
