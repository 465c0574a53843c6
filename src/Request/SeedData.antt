-- ===== src/Request/SeedData.antt =====
-- The credentials of a seed: what `dbInfoFromSeed` takes from its secret.
use mathlib.Core.Path.{subst}
use dbaas_controller.Prelude.{ℤ, pos, inl, inr, String, ◌≡◌, refl, Option, none, some}
use dbaas_controller.Go.{Result, ok, err, panic, ok-injective, Result-cases}
use dbaas_controller.Api.{Dict, lookup, SecretReference, Secret, DatabaseRequest}
use dbaas_controller.Cluster.{Env, History, attempt, Exec, Run}
use dbaas_controller.Cluster.Triple.{
  After, Triple, Triple-attempt, Triple-wrapping, Triple-raised, Triple-pure,
}
use dbaas_controller.Request.Info.{DbInfo, required, with_port, convert_port, db_info_from_seed}
use dbaas_controller.Request.Providers.{
  secret_key, seed_database, relational_database_info_from_seed,
}

-- The secret has the credentials under their keys.
pub record IsData (secret : Dict String) (i : DbInfo) : Type 0 where
  pub database : lookup "database" secret ≡ some i.database
  pub host_name : lookup "hostname" secret ≡ some i.host_name
  pub user_name : lookup "username" secret ≡ some i.user_name
  pub password : lookup "password" secret ≡ some i.password

err-is-not : {A : Type 0} {e : _} {a : A} → err e ≡ ok a → ⊥
err-is-not {A} p = subst (λ (r : Result A). elim r [ ok a ↦ ⊥ | err e ↦ Unit | panic ↦ ⊥ ]) p tt

panic-is-not : {A : Type 0} {a : A} → panic ≡ ok a → ⊥
panic-is-not {A} p = subst (λ (r : Result A). elim r [ ok a ↦ ⊥ | err e ↦ ⊥ | panic ↦ Unit ]) p tt

-- A key that is required is there.
required-there :
    (key missing : String) (secret : Dict String) (next : String → Result DbInfo) (i : DbInfo)
    → required key missing secret next ≡ ok i
    → (val : String) × (lookup key secret ≡ some val) × (next val ≡ ok i)
required-there key missing secret next i e = go (lookup key secret) refl
  where
    go :
        (o : Option String)
        → lookup key secret ≡ o
        → (val : String) × (lookup key secret ≡ some val) × (next val ≡ ok i)
    go none k = absurd (err-is-not (rw (k, required) at e))
    go (some val) k = (val, k, rw (k, required) at e)

with_port-ported :
    (m i : DbInfo) (r : Result ℤ) → with_port m r ≡ ok i → (n : ℤ) × (record m { port = n } ≡ i)
with_port-ported m i (ok n) e = (n, ok-injective _ i e)
with_port-ported m i (err x) e = absurd (err-is-not e)
with_port-ported m i panic e = absurd (panic-is-not e)

db_info_from_seed-IsData :
    (quote : String → String) (secret : Dict String) (i : DbInfo)
    → db_info_from_seed quote secret ≡ ok i
    → IsData secret i
unfolding db_info_from_seed
db_info_from_seed-IsData quote secret i e =
    let (database, d, e₁) = required-there _ _ secret _ i e in
    let (host_name, h, e₂) = required-there _ _ secret _ i e₁ in
    let (user_name, u, e₃) = required-there _ _ secret _ i e₂ in
    let (password, p, e₄) = required-there _ _ secret _ i e₃ in
    let (val, v, e₅) = required-there _ _ secret _ i e₄ in
    let unported : DbInfo = record {
      database = database;
      host_name = host_name;
      user_name = user_name;
      password = password;
      port = pos 0;
    } in
    let (n, same) = with_port-ported unported i (convert_port quote val) e₅ in
    subst (IsData secret) same (record { database = d; host_name = h; user_name = u; password = p })

module _ (env : Env) (seed : SecretReference) where
  -- The connection data stand in a secret that the cluster gives for the seed.
  abbrev pub IsSeed : DbInfo → Type 0
  IsSeed i =
      (g : History) × (x : Secret) × (env.get_secret g (secret_key seed) ≡ ok x)
      × IsData x.content i

  ignored :
      {A : Type 0} {i : DbInfo} (m : Exec DatabaseRequest A)
      → Triple (λ _. IsSeed i) m (λ _ _. IsSeed i) (λ _. Unit)
  ignored m = record { at = λ s k. After-value (m s).0 (m s).1 k }
    where
      After-value :
          {A : Type 0} {i : DbInfo} (r : Result A) (s : Run DatabaseRequest)
          → IsSeed i
          → After (λ _ _. IsSeed i) (λ _. Unit) r s
      After-value (ok a) s k = k
      After-value (err e) s k = tt
      After-value panic s k = tt

  read_seed :
      (s : Run DatabaseRequest)
      → After
          (λ i _. IsSeed i)
          (λ _. Unit)
          (seed_database env seed s).0
          (seed_database env seed s).1
  unfolding seed_database attempt
  read_seed s = elim (Result-cases (env.get_secret s.history (secret_key seed))) [
    | inl (x, e) ↦ rw e (elim (Result-cases (db_info_from_seed env.quote x.content)) [
      | inl (i, d) ↦ rw d (s.history, x, e, db_info_from_seed-IsData env.quote x.content i d)
      | inr (inl (f, d)) ↦ rw d tt
      | inr (inr d) ↦ rw d tt
    ])
    | inr (inl (f, e)) ↦ rw e tt
    | inr (inr e) ↦ rw e tt
  ]

  pub seed_info :
      (type selector : String)
      → Triple
          (λ _. Unit)
          (relational_database_info_from_seed env seed type selector)
          (λ i _. IsSeed i.db_info)
          (λ _. Unit)
  unfolding relational_database_info_from_seed
  seed_info type selector =
      Triple-attempt (λ i _. IsSeed i) (λ _. Unit) _ _ _
        (Triple-wrapping _ _ (record { at = λ s _. read_seed s })) Triple-raised
        (λ i.
          Triple-attempt (λ _ _. IsSeed i) (λ _. Unit) _ _ _ (ignored _) Triple-raised
            (λ _.
              Triple-attempt (λ _ _. IsSeed i) (λ _. Unit) _ _ _ (ignored _) Triple-raised
                (λ items.
                  Triple-attempt (λ _ _. IsSeed i) (λ _. Unit) _ _ _ (ignored _) Triple-raised
                    (λ (c, ref).
                      Triple-attempt (λ _ _. IsSeed i) (λ _. Unit) _ _ _ (ignored _) Triple-raised
                        (λ password. Triple-pure _ (λ s k. k)) (λ s k. tt))
                    (λ s k. tt))
                (λ s k. tt))
            (λ s k. tt))
        (λ s k. tt)
