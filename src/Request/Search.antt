-- ===== src/Request/Search.antt =====
-- The search for a provider in a cluster that answers: it finds one if there is room.
use mathlib.Core.Path.{subst}
use dbaas_controller.Prelude.{
  String, true, true-is-not-false, none-is-not-some, sym, ap, ◌∙◌, inl, inr, List, [], ◌∷◌, Option,
  none, some, ◌≡◌, refl, if◌then◌else◌,
}
use dbaas_controller.Api.{Connection, DatabaseRequest, RelationalDatabaseProvider}
use dbaas_controller.Cluster.{Env, Exec, pure}
use dbaas_controller.Cluster.Returning.{
  Returns, Returns-pure, Returns-call, Returns-if, Returns-weaken, Returns-attempt, Returns-read,
  Returns-given, Returns-wrapping,
}
use dbaas_controller.Request.Lowest.{OneOf}
use dbaas_controller.Request.Providers.{
  Best, no_best, matches, probe, probe_connections, probe_providers, found_provider,
  find_relational_database_provider,
}
use dbaas_controller.Request.Serving.{ClusterServes, ClientServes, HasRoom}
use dbaas_controller.Request.Asked.{IsListed, Good, Listed, probe-Returns}

module _ (env : Env) (ps : List RelationalDatabaseProvider) (cluster : ClusterServes env ps)
    (client : ClientServes env) where
  -- One connection, which is asked if it is enabled
  abbrev asked : String → RelationalDatabaseProvider → Connection → Best → Exec DatabaseRequest Best
  asked type p c best = if c.enabled then probe env type p c best else pure best

  abbrev Within : RelationalDatabaseProvider → List Connection → Type 0
  Within p cs = (c : Connection) → OneOf c cs → OneOf c p.spec.connections

  abbrev AllOf : List RelationalDatabaseProvider → Type 0
  AllOf qs = (q : RelationalDatabaseProvider) → OneOf q qs → OneOf q ps

  -- What the loops keep: any condition `K` between the two
  module _ (K : Best → Type 0) (weak : (b : Best) → K b → Good ps b)
      (strong : (b : Best) → Listed ps b → K b) where
    asked-Returns :
        {P : DatabaseRequest → Type 0} (type : String) (p : RelationalDatabaseProvider)
        (c : Connection) (best : Best)
        → OneOf p ps
        → OneOf c p.spec.connections
        → K best
        → Returns P (asked type p c best) (λ b o. P o × K b)
    asked-Returns type p c best among offered k =
        Returns-if c.enabled _ _
          (λ _.
            Returns-weaken _ (λ b o (x, l). (x, strong b l))
              (probe-Returns env ps cluster client type p c best among offered (weak best k)))
          (λ _. Returns-pure best (λ o x. (x, k)))

    connections-Returns :
        {P : DatabaseRequest → Type 0} (type : String) (p : RelationalDatabaseProvider)
        (cs : List Connection) (best : Best)
        → OneOf p ps
        → Within p cs
        → K best
        → Returns P (probe_connections env type p cs best) (λ b o. P o × K b)
    unfolding probe_connections
    connections-Returns type p [] best among sub k = Returns-pure best (λ o x. (x, k))
    connections-Returns type p (c ∷ cs) best among sub k =
        Returns-attempt _ _ _ _ (asked-Returns type p c best among (sub c (inl refl)) k)
          (λ b. Returns-given _ (connections-Returns type p cs b among (λ d m. sub d (inr m))))

    providers-Returns :
        {P : DatabaseRequest → Type 0} (selector type : String)
        (qs : List RelationalDatabaseProvider) (best : Best)
        → AllOf qs
        → K best
        → Returns P (probe_providers env selector type qs best) (λ b o. P o × K b)
    unfolding probe_providers
    providers-Returns selector type [] best sub k = Returns-pure best (λ o x. (x, k))
    providers-Returns selector type (q ∷ qs) best sub k =
        Returns-attempt _ _ _ _
          (Returns-if (matches selector type q) _ _
            (λ _.
              connections-Returns type q q.spec.connections best (sub q (inl refl)) (λ c m. m) k)
            (λ _. Returns-pure best (λ o x. (x, k))))
          (λ b. Returns-given _ (providers-Returns selector type qs b (λ d m. sub d (inr m))))

  connections-Listed :
      {P : DatabaseRequest → Type 0} (type : String) (p : RelationalDatabaseProvider)
      (cs : List Connection) (best : Best) (c : Connection)
      → OneOf p ps
      → Within p cs
      → Good ps best
      → OneOf c cs
      → c.enabled ≡ true
      → Returns P (probe_connections env type p cs best) (λ b o. P o × Listed ps b)
  unfolding probe_connections
  connections-Listed type p [] best c among sub good m e = absurd m
  connections-Listed type p (d ∷ cs) best c among sub good (inl same) e =
      Returns-attempt _ _ _ _
        (Returns-if d.enabled _ _
          (λ _. probe-Returns env ps cluster client type p d best among (sub d (inl refl)) good)
          (λ no. absurd (true-is-not-false (sym e ∙ ap (λ (x : Connection). x.enabled) same ∙ no))))
        (λ b. Returns-given _ (
          connections-Returns (Listed ps) (λ b. inr) (λ b l. l) type p cs b among
            (λ x m. sub x (inr m))))
  connections-Listed type p (d ∷ cs) best c among sub good (inr m) e =
      Returns-attempt _ _ _ _
        (asked-Returns (Good ps) (λ b g. g) (λ b. inr) type p d best among (sub d (inl refl)) good)
        (λ b.
          Returns-given _
            (λ g. connections-Listed type p cs b c among (λ x m. sub x (inr m)) g m e))

  providers-Listed :
      {P : DatabaseRequest → Type 0} (selector type : String) (qs : List RelationalDatabaseProvider)
      (best : Best) (p : RelationalDatabaseProvider)
      → AllOf qs
      → Good ps best
      → OneOf p qs
      → HasRoom selector type p
      → Returns P (probe_providers env selector type qs best) (λ b o. P o × Listed ps b)
  unfolding probe_providers
  providers-Listed selector type [] best p sub good m room = absurd m
  providers-Listed selector type (q ∷ qs) best p sub good (inl same) room =
      let here = subst (HasRoom selector type) same room in
      Returns-attempt _ _ _ _
        (Returns-if (matches selector type q) _ _
          (λ _.
            connections-Listed type q q.spec.connections best here.connection (sub q (inl refl))
              (λ c m. m) good here.offered here.enabled)
          (λ no. absurd (true-is-not-false (sym here.matching ∙ no))))
        (λ b. Returns-given _ (
          providers-Returns (Listed ps) (λ b. inr) (λ b l. l) selector type qs b
            (λ x m. sub x (inr m))))
  providers-Listed selector type (q ∷ qs) best p sub good (inr m) room =
      Returns-attempt _ _ _ _
        (Returns-if (matches selector type q) _ _
          (λ _.
            connections-Returns (Good ps) (λ b g. g) (λ b. inr) type q q.spec.connections best
              (sub q (inl refl)) (λ c m. m) good)
          (λ _. Returns-pure best (λ o x. (x, good))))
        (λ b.
          Returns-given _
            (λ g. providers-Listed selector type qs b p (λ x m. sub x (inr m)) g m room))

  found-Returns :
      {P : DatabaseRequest → Type 0} (type : String) (provider : Option RelationalDatabaseProvider)
      (name : String)
      → IsListed ps provider name
      → Returns P (found_provider env type provider name) (λ (q, n) o. P o × IsListed ps (some q) n)
  unfolding found_provider
  found-Returns type none name l = absurd (none-is-not-some l.found)
  found-Returns type (some q) name l = Returns-pure _ (λ o x. (x, l))

  -- A provider is found if one of them has room.
  pub find-Returns :
      (x : DatabaseRequest) (p : RelationalDatabaseProvider)
      → OneOf p ps
      → HasRoom x.spec.selector x.spec.type p
      → Returns
          (λ o. o ≡ x)
          (find_relational_database_provider env)
          (λ (q, name) o. (o ≡ x) × IsListed ps (some q) name)
  unfolding find_relational_database_provider
  find-Returns x p m room = Returns-read _ _ (λ y same. rw same (
      Returns-attempt _ _ _ _
        (Returns-wrapping _ _ (
          Returns-call {P = λ o. o ≡ x} _ _ _
            (record { value = λ h. ps; given = cluster.lists; holds = λ h. refl {a = ps} })))
        (λ items. Returns-given _ (λ (all : items ≡ ps). rw all (
          Returns-attempt _ _ _ _
            (providers-Listed x.spec.selector x.spec.type ps no_best p (λ q n. n) (inl refl) m room)
            (λ b. Returns-given _ (found-Returns x.spec.type b.provider b.conn_name)))))))
