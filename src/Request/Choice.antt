-- ===== src/Request/Choice.antt =====
-- `findRelationalDatabaseProvider` chooses a connection with the lowest load of those that it asked.
use dbaas_controller.Prelude.{
  String, ◌≡◌, refl, Bool, true, false, inl, inr, Option, none, some, List, [], ◌∷◌, ◌++◌, All, ℤ,
  ◌≤ℤ◌, int_lt, if◌then◌else◌, arith,
}
use dbaas_controller.Go.{Result-cases}
use dbaas_controller.Api.{DatabaseRequest, Connection, RelationalDatabaseProvider}
use dbaas_controller.Cluster.{
  Call, Outcome, measured, Event, Env, History, pure, raise, call_as, outcome_of_load, attempt,
  wrapping,
}
use dbaas_controller.Cluster.Triple.{Assertion, Triple, Triple-attempt, Triple-pure, Triple-raise}
use dbaas_controller.Cluster.Order.{Made}
use dbaas_controller.Cluster.Since.{Since, IsStable, Made-append, Keeps-Since, Since-one}
use dbaas_controller.Conn.{get_dsn}
use dbaas_controller.Request.Providers.{
  Best, conn_of, matches, probe, probe_connections, probe_providers,
}
use dbaas_controller.Request.Calls.{connection_password-Only}

abbrev NotLoad : Call → Type 0
NotLoad (Call.load dsn type) = ⊥
NotLoad _ = Unit

abbrev pub IsLoadOf : ℤ → Call → Outcome → Type 0
IsLoadOf n (Call.load dsn type) (measured m) = n ≤ℤ m
IsLoadOf n _ _ = Unit

-- A load that was measured is at least `n`.
abbrev pub AtLeast : ℤ → Event → Type 0
AtLeast n e = IsLoadOf n e.call e.outcome

abbrev pub IsMeasuredOf : (String → Type 0) → ℤ → Call → Outcome → Type 0
IsMeasuredOf D n (Call.load dsn type) (measured m) = (m ≡ n) × D dsn
IsMeasuredOf D n _ _ = ⊥

-- The load at a DSN of the sort `D` was measured to be `n`.
abbrev pub MeasuredAt : (String → Type 0) → ℤ → Event → Type 0
MeasuredAt D n e = IsMeasuredOf D n e.call e.outcome

IsLoadOf-NotLoad : (n : ℤ) (c : Call) (o : Outcome) → NotLoad c → IsLoadOf n c o
IsLoadOf-NotLoad n (Call.load dsn type) o h = absurd h
IsLoadOf-NotLoad n _ o h = tt

AtLeast-mono : (m n : ℤ) (c : Call) (o : Outcome) → m ≤ℤ n → IsLoadOf n c o → IsLoadOf m c o
AtLeast-mono m n (Call.load dsn type) (measured k) l h = omega arith
AtLeast-mono m n (Call.load dsn type) _ l h = tt
AtLeast-mono m n _ _ l h = tt

int_lt→le : (a b : ℤ) → int_lt a b ≡ true → a ≤ℤ b
int_lt→le a b h = ground arith

int_ge_of_not_lt : (a b : ℤ) → int_lt a b ≡ false → b ≤ℤ a
int_ge_of_not_lt a b h = ground arith

-- `Ok p name dsn`: a choice of the connection `name` of `p` may rest on the load at `dsn`.
module _ (Ok : RelationalDatabaseProvider → String → String → Type 0) where
  abbrev pub Backed : ℤ → Option RelationalDatabaseProvider → String → History → Type 0
  Backed n none name a = Unit
  Backed n (some p) name a = Made (MeasuredAt (Ok p name) n) a

  -- No load was lower than the best one, and the best one was measured where it was found.
  abbrev pub IsBest : Best → History → Type 0
  IsBest b a = All (AtLeast b.load) a × Backed b.load b.provider b.conn_name a

  Backed-append :
      (n : ℤ) (o : Option RelationalDatabaseProvider) (name : String) (b a : History)
      → Backed n o name a
      → Backed n o name (b ++ a)
  Backed-append n none name b a h = tt
  Backed-append n (some p) name b a h = Made-append (MeasuredAt (Ok p name) n) b a h

  AtLeast-append :
      (n : ℤ) (b a : History)
      → All (λ e. NotLoad e.call) b
      → All (AtLeast n) a
      → All (AtLeast n) (b ++ a)
  AtLeast-append n [] a _ h = h
  AtLeast-append n (e ∷ b) a (p, ps) h =
      (IsLoadOf-NotLoad n e.call e.outcome p, AtLeast-append n b a ps h)

  All-mono : (m n : ℤ) (a : History) → m ≤ℤ n → All (AtLeast n) a → All (AtLeast m) a
  All-mono m n [] l _ = tt
  All-mono m n (e ∷ a) l (h, hs) = (AtLeast-mono m n e.call e.outcome l h, All-mono m n a l hs)

  IsBest-IsStable : (b : Best) → IsStable NotLoad (IsBest b)
  IsBest-IsStable b = record {
    extend = λ c a p (h, k).
        (AtLeast-append b.load c a p h, Backed-append b.load b.provider b.conn_name c a k);
  }

  better-IsBest :
      (p : RelationalDatabaseProvider) (name dsn type : String) (l : ℤ) (b : Best) (a : History)
      (lower : Bool)
      → int_lt l b.load ≡ lower
      → Ok p name dsn
      → IsBest b a
      → IsBest
          (if lower then record { load = l; provider = some p; conn_name = name } else b)
          (record { call = Call.load dsn type; outcome = measured l } ∷ a)
  better-IsBest p name dsn type l b a true e here (h, k) =
      ((omega arith, All-mono l b.load a (int_lt→le l b.load e) h), inl (refl, here))
  better-IsBest p name dsn type l b a false e here (h, k) = (
    (int_ge_of_not_lt l b.load e, h),
    Backed-append b.load b.provider b.conn_name
        (record { call = Call.load dsn type; outcome = measured l } ∷ []) a k,
  )

  module _ (env : Env) (type : String) (h : History) where
    abbrev pub BestSoFar : Best → Assertion DatabaseRequest
    BestSoFar b = Since (IsBest b) h

    abbrev pub Anything : Assertion DatabaseRequest
    Anything s = Unit

    -- The load is measured, and compared.
    measure-IsBest :
        (p : RelationalDatabaseProvider) (c : Connection) (b : Best) (dsn prefix : String)
        → Ok p c.name dsn
        → Triple
            (BestSoFar b)
            (attempt
              (wrapping prefix
                (call_as outcome_of_load (Call.load dsn type) (λ g. env.load g dsn type)))
              raise
              (λ db_load. pure (
                if int_lt db_load b.load
                then record { load = db_load; provider = some p; conn_name = c.name }
                else b)))
            BestSoFar
            Anything
    unfolding attempt
    measure-IsBest p c b dsn prefix here = record {
      at = λ s k. elim (Result-cases (env.load s.history dsn type)) [
        | inl (l, e) ↦ rw e (
            Since-one
              (IsBest (
                if int_lt l b.load
                then record { load = l; provider = some p; conn_name = c.name }
                else b))
              _ k (better-IsBest p c.name dsn type l b k.added (int_lt l b.load) refl here k.holds))
        | inr (inl (x, e)) ↦ rw e tt
        | inr (inr e) ↦ rw e tt
      ];
    }

    probe-IsBest :
        (p : RelationalDatabaseProvider) (c : Connection) (b : Best)
        → ((password : String) → Ok p c.name (get_dsn (conn_of type c password) false))
        → Triple (BestSoFar b) (probe env type p c b) BestSoFar Anything
    unfolding probe
    probe-IsBest p c b here =
        Triple-attempt (λ _. BestSoFar b) (BestSoFar b) _ _ _
          (Keeps-Since NotLoad (IsBest b) h _ (IsBest-IsStable b)
            (λ g. connection_password-Only env (λ key. tt) _ _ c.password_secret_ref))
          (λ e. Triple-raise e (λ s k. tt)) (λ password. measure-IsBest p c b _ _ (here password))
          (λ s k. tt)

    -- The loops, where each enabled connection of a matching provider is an admissible choice
    abbrev pub Fits : RelationalDatabaseProvider → Connection → Type 0
    Fits p c =
        c.enabled ≡ true
        → (password : String) → Ok p c.name (get_dsn (conn_of type c password) false)

    connection-IsBest :
        (p : RelationalDatabaseProvider) (c : Connection) (b : Best) (enabled : Bool)
        → c.enabled ≡ enabled
        → Fits p c
        → Triple (BestSoFar b) (if enabled then probe env type p c b else pure b) BestSoFar Anything
    connection-IsBest p c b true e fits = probe-IsBest p c b (fits e)
    connection-IsBest p c b false e fits = Triple-pure b (λ s k. k)

    probe_connections-IsBest :
        (p : RelationalDatabaseProvider) (cs : List Connection) (b : Best)
        → All (Fits p) cs
        → Triple (BestSoFar b) (probe_connections env type p cs b) BestSoFar Anything
    unfolding probe_connections
    probe_connections-IsBest p [] b _ = Triple-pure b (λ s k. k)
    probe_connections-IsBest p (c ∷ cs) b (fits, rest) =
        Triple-attempt BestSoFar Anything _ _ _ (connection-IsBest p c b c.enabled refl fits)
          (λ e. Triple-raise e (λ s k. tt)) (λ b'. probe_connections-IsBest p cs b' rest)
          (λ s k. tt)

    provider-IsBest :
        (p : RelationalDatabaseProvider) (b : Best) (matching : Bool)
        → (matching ≡ true → All (Fits p) p.spec.connections)
        → Triple
            (BestSoFar b)
            (if matching then probe_connections env type p p.spec.connections b else pure b)
            BestSoFar
            Anything
    provider-IsBest p b true fits = probe_connections-IsBest p p.spec.connections b (fits refl)
    provider-IsBest p b false fits = Triple-pure b (λ s k. k)

    pub probe_providers-IsBest :
        (selector : String) (ps : List RelationalDatabaseProvider) (b : Best)
        → All (λ p. matches selector type p ≡ true → All (Fits p) p.spec.connections) ps
        → Triple (BestSoFar b) (probe_providers env selector type ps b) BestSoFar Anything
    unfolding probe_providers
    probe_providers-IsBest selector [] b _ = Triple-pure b (λ s k. k)
    probe_providers-IsBest selector (p ∷ ps) b (fits, rest) =
        Triple-attempt BestSoFar Anything _ _ _ (provider-IsBest p b (matches selector type p) fits)
          (λ e. Triple-raise e (λ s k. tt)) (λ b'. probe_providers-IsBest selector ps b' rest)
          (λ s k. tt)
