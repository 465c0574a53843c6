-- ===== src/Request/Lowest.antt =====
-- `findRelationalDatabaseProvider` as a whole: whose load the choice rests on.
use mathlib.Core.Path.{subst}
use dbaas_controller.Prelude.{
  String, ◌≡◌, refl, true, false, ◌⊎◌, inl, inr, Option, none, some, List, [], ◌∷◌, All, ℤ,
}
use dbaas_controller.Go.{ok, Result-cases}
use dbaas_controller.Api.{DatabaseRequest, Connection, RelationalDatabaseProvider}
use dbaas_controller.Cluster.{Call, done, Env, History, Run, attempt, raise}
use dbaas_controller.Cluster.Triple.{
  Assertion, Triple, Triple-attempt, Triple-pure, Triple-raise, After, After-ok,
}
use dbaas_controller.Cluster.Order.{Made}
use dbaas_controller.Cluster.Since.{Since, Since-weaken}
use dbaas_controller.Conn.{get_dsn}
use dbaas_controller.Request.Providers.{
  Best, no_best, conn_of, matches, probe_providers, found_provider,
  find_relational_database_provider,
}
use dbaas_controller.Request.Choice.{
  AtLeast, MeasuredAt, IsBest, Backed, BestSoFar, Anything, Fits, probe_providers-IsBest,
}

abbrev pub OneOf : {A : Type 0} → A → List A → Type 0
OneOf a [] = ⊥
OneOf a (b ∷ bs) = (a ≡ b) ⊎ OneOf a bs

-- The connection `name` of `p` may be chosen, and `dsn` is its DSN with some password: `p` is one of
-- the providers that the cluster listed, has the selector and the type, and the connection is enabled.
pub record IsOffer (env : Env) (selector type : String) (p : RelationalDatabaseProvider)
    (name dsn : String) : Type 0 where
  pub asked : History
  pub items : List RelationalDatabaseProvider
  pub listed : env.list_providers asked ≡ ok items
  pub among : OneOf p items
  pub matching : matches selector type p ≡ true
  pub connection : Connection
  pub offered : OneOf connection p.spec.connections
  pub enabled : connection.enabled ≡ true
  pub named : connection.name ≡ name
  pub password : String
  pub reached : dsn ≡ get_dsn (conn_of type connection password) false

-- The load of `p` at `name` was measured to be `n`, and no measured load was lower.
abbrev pub IsLowest : Env → DatabaseRequest → RelationalDatabaseProvider → String → History → Type 0
IsLowest env o p name a =
    (n : ℤ) × All (AtLeast n) a
    × Made (MeasuredAt (IsOffer env o.spec.selector o.spec.type p name) n) a

pub All-OneOf :
    {A : Type 0} (P : A → Type 0) (xs : List A) → ((x : A) → OneOf x xs → P x) → All P xs
All-OneOf P [] f = tt
All-OneOf P (x ∷ xs) f = (f x (inl refl), All-OneOf P xs (λ y m. f y (inr m)))

module _ (env : Env) (selector type : String) where
  fits :
      (g : History) (items : List RelationalDatabaseProvider)
      → env.list_providers g ≡ ok items
      → All
          (λ p.
            matches selector type p ≡ true
            → All (Fits (IsOffer env selector type) env type g p) p.spec.connections)
          items
  fits g items e = All-OneOf _ items λ p m matching.
      All-OneOf _ p.spec.connections λ c o enabled password. record {
        asked = g;
        items = items;
        listed = e;
        among = m;
        matching = matching;
        connection = c;
        offered = o;
        enabled = enabled;
        named = refl;
        password = password;
        reached = refl;
      }

  abbrev Post : History → RelationalDatabaseProvider × String → Assertion DatabaseRequest
  Post h (p, name) =
      Since
        (λ a.
          (n : ℤ) × All (AtLeast n) a × Made (MeasuredAt (IsOffer env selector type p name) n) a)
        h

  found-lowest :
      (h : History) (b : Best) (o : Option RelationalDatabaseProvider)
      → b.provider ≡ o
      → Triple
          (BestSoFar (IsOffer env selector type) env type h b)
          (found_provider env type o b.conn_name)
          (Post h)
          (Anything (IsOffer env selector type) env type h)
  unfolding found_provider
  found-lowest h b none e = Triple-raise _ (λ s k. tt)
  found-lowest h b (some p) e =
      Triple-pure _
        (λ s k. Since-weaken (IsBest (IsOffer env selector type) b) _ (λ a q. chosen a q) k)
    where
      chosen :
          (a : History)
          → IsBest (IsOffer env selector type) b a
          → (n : ℤ) × All (AtLeast n) a
            × Made (MeasuredAt (IsOffer env selector type p b.conn_name) n) a
      chosen a (low, backed) = (
        b.load,
        low,
        subst (λ x. Backed (IsOffer env selector type) b.load x b.conn_name a) e backed,
      )

  search-lowest :
      (h g : History) (items : List RelationalDatabaseProvider)
      → env.list_providers g ≡ ok items
      → Triple
          (BestSoFar (IsOffer env selector type) env type h no_best)
          (attempt
            (probe_providers env selector type items no_best)
            raise
            (λ best. found_provider env type best.provider best.conn_name))
          (Post h)
          (Anything (IsOffer env selector type) env type h)
  search-lowest h g items e =
      Triple-attempt (BestSoFar (IsOffer env selector type) env type h)
        (Anything (IsOffer env selector type) env type h) _ _ _
        (probe_providers-IsBest (IsOffer env selector type) env type h selector items no_best
          (fits g items e))
        (λ x. Triple-raise x (λ s k. tt)) (λ b. found-lowest h b b.provider refl) (λ s k. tt)

module _ (env : Env) where
  find-After :
      (s : Run DatabaseRequest)
      → After
          (Post env s.object.spec.selector s.object.spec.type s.history)
          (λ _. Unit)
          (find_relational_database_provider env s).0
          (find_relational_database_provider env s).1
  unfolding find_relational_database_provider attempt
  find-After s = elim (Result-cases (env.list_providers s.history)) [
    | inl (items, e) ↦ rw e (
        (search-lowest env s.object.spec.selector s.object.spec.type s.history s.history items e).at
          _
          (record {
            added = record { call = Call.list_providers; outcome = done } ∷ [];
            grows = refl;
            holds = ((tt, tt), tt);
          }))
    | inr (inl (x, e)) ↦ rw e tt
    | inr (inr e) ↦ rw e tt
  ]

  -- If a provider and a connection are found, then some provider that the cluster listed, with the
  -- selector and the type of the request, is that provider, its enabled connection of that name was
  -- asked for its load, and no load that was measured in the search is lower.
  pub find_relational_database_provider-IsLowest :
      (s : Run DatabaseRequest) (p : RelationalDatabaseProvider) (name : String)
      → (find_relational_database_provider env s).0 ≡ ok (p, name)
      → Since (IsLowest env s.object p name) s.history (find_relational_database_provider env s).1
  find_relational_database_provider-IsLowest s p name found =
      After-ok (Post env s.object.spec.selector s.object.spec.type s.history) (λ _. Unit) _ _
        (p, name) found (find-After s)
