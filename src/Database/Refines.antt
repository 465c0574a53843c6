-- ===== src/Database/Refines.antt =====
-- The client against the registry of the credentials: what it promises, and what follows from it.
use dbaas_controller.Prelude.{
  ◌≡◌, refl, sym, ◌∙◌, String, some, inl, inr, eq_refl, some-injective, none-is-not-some,
}
use dbaas_controller.Go.{ok}
use dbaas_controller.Cluster.{Run, Exec, pure, attempt, ◌>>=◌, ◌>>◌}
use dbaas_controller.Cluster.Triple.{
  Assertion, After, Triple, Keeps, After-ok, After-const, Triple-attempt, Triple-wrapping,
  Triple-pure, Triple-raise, Triple-weaken,
}
use dbaas_controller.Database.{RelationalDatabaseInfo}
use dbaas_controller.Database.Server.{Sql, World, exec}
use dbaas_controller.Database.Users.{
  get_database_info, set_database_info, insert_user_mysql, insert_user_postgres, row_of,
}
use dbaas_controller.Database.Registry.{
  Registry, enter, Same, Ensured, known, entered, Dialect, my, pg, insert_ignore_of, handle_of,
  IsTable, IsFor,
}
use dbaas_controller.Database.Ensure.{
  Unchanged, HasEnsured, serve-Unchanged, connected-Triple, database_info-HasEnsured,
}

enter-same : (n m : String) (i : RelationalDatabaseInfo) (R : Registry) → enter n m i R n m ≡ some i
enter-same n m i R = rw (eq_refl n) (rw (eq_refl m) refl)

-- What was given or taken is what the registry now has.
Ensured-some :
    {R R' : Registry} {n m : String} {i : RelationalDatabaseInfo}
    → Ensured R n m i R'
    → R' n m ≡ some i
Ensured-some {n} {m} (known e s) = s n m ∙ e
Ensured-some {R} {n} {m} {i} (entered e s) = s n m ∙ enter-same n m i R

-- A registry that has credentials gives these.
Ensured-old :
    {R R' : Registry} {n m : String} {old i : RelationalDatabaseInfo}
    → R n m ≡ some old
    → Ensured R n m i R'
    → i ≡ old
Ensured-old {old} {i} o (known e s) = some-injective i old (sym e ∙ o)
Ensured-old o (entered e s) = absurd (none-is-not-some (sym e ∙ o))

-- A call made twice
abbrev pub twice : {S A : Type 0} → Exec (World S) A → Exec (World S) (A × A)
twice m = do a ← m; b ← m; pure (a, b)

module _ {S : Type 0} (sql : Sql S) (dsn : String) {type : String} (d : Dialect type)
    (rows : S → Registry) (table : IsTable sql dsn d rows) (n m : String) where
  -- The client refines the registry: if the server at the dsn has a table of the users, and the cache has
  -- no other connection for the dsn, then `GetDatabaseInfo` gives the credentials of the name and the
  -- namespace and changes no row, or enters the new ones that it gives if there were none; if it returns
  -- an error, no row has changed.
  pub get_database_info-refines :
      (s : Run (World S))
      → IsFor dsn type s.object
      → After
          (λ i t. Ensured (rows s.object.servers) n m i (rows t.object.servers))
          (λ t. Same (rows s.object.servers) (rows t.object.servers))
          (get_database_info sql dsn n m type s).0
          (get_database_info sql dsn n m type s).1
  get_database_info-refines s c =
      let R : Registry = rows s.object.servers in
      (Triple-weaken {post' = λ i t. Ensured R n m i (rows t.object.servers)}
          {fail' = λ t. Same R (rows t.object.servers)} (Unchanged sql dsn d rows table R)
          (HasEnsured sql dsn d rows table R n m) (Unchanged sql dsn d rows table R) _ (λ t k. k)
          (λ i t k. k.ensured) (λ t k. k.same)
          (database_info-HasEnsured sql dsn rows R n m d table)).at
        s (record { cached = c; same = λ a b. refl })

  -- Credentials of the name and the namespace are in the registry.
  record Holds (old : RelationalDatabaseInfo) (s : Run (World S)) : Type 0 where
    pub cached : IsFor dsn type s.object
    pub held : rows s.object.servers n m ≡ some old

  get-Holds :
      (old : RelationalDatabaseInfo)
      → Triple (Holds old) (get_database_info sql dsn n m type) (λ i _. i ≡ old) (λ _. Unit)
  get-Holds old = record {
    at = λ s k.
        (Triple-weaken {post' = λ i _. i ≡ old} {fail' = λ _. Unit}
            (Unchanged sql dsn d rows table (rows s.object.servers))
            (HasEnsured sql dsn d rows table (rows s.object.servers) n m)
            (Unchanged sql dsn d rows table (rows s.object.servers)) _ (λ t c. c)
            (λ i t c. Ensured-old k.held c.ensured) (λ t c. tt)
            (database_info-HasEnsured sql dsn rows (rows s.object.servers) n m d table)).at
          s (record { cached = k.cached; same = λ a b. refl });
  }

  -- `GetDatabaseInfo` twice gives the same credentials, if both calls return them, the server at the dsn
  -- has a table of the users, and the cache has no other connection for the dsn.
  pub get_database_info_twice :
      (s : Run (World S)) (i j : RelationalDatabaseInfo)
      → IsFor dsn type s.object
      → (twice (get_database_info sql dsn n m type) s).0 ≡ ok (i, j)
      → j ≡ i
  get_database_info_twice s i j c e =
      let R : Registry = rows s.object.servers in
      After-ok (λ p _. p.1 ≡ p.0) (λ _. Unit) _ _ (i, j) e
        ((Triple-attempt (HasEnsured sql dsn d rows table R n m) (Unchanged sql dsn d rows table R)
            _ _ _ (database_info-HasEnsured sql dsn rows R n m d table)
            (λ x. Triple-raise x (λ t k. tt))
            (λ a.
              Triple-weaken (Holds a) (λ p _. p.1 ≡ p.0) (λ _. Unit) _
                (λ t k. record { cached = k.cached; held = Ensured-some k.ensured }) (λ _ t k. k)
                (λ t k. k)
                (Triple-attempt (λ b _. b ≡ a) (λ _. Unit) _ _ _ (get-Holds a)
                  (λ x. Triple-raise x (λ t k. k)) (λ b. Triple-pure (a, b) (λ t k. k)) (λ t k. k)))
            (λ t k. tt)).at
          s (record { cached = c; same = λ a b. refl }))

  module _ (R : Registry) (old : RelationalDatabaseInfo) (has : R n m ≡ some old) where
    abbrev Kept : Assertion (World S)
    Kept = Unchanged sql dsn d rows table R

    ignored-Kept :
        (i : RelationalDatabaseInfo)
        → Keeps Kept (exec sql (handle_of dsn type) (insert_ignore_of d) (row_of n m i))
    unfolding attempt
    ignored-Kept i = record {
      at = λ s k.
          After-const Kept
            (sql.exec (handle_of dsn type) (insert_ignore_of d) (row_of n m i) s.object.servers).1 _
            (record {
              cached = k.cached;
              same = elim (table.ignores n m i s.object.servers) [
                | inl same ↦ (λ a b. same a b ∙ k.same a b)
                | inr (free, full) ↦ absurd (none-is-not-some (sym free ∙ (k.same n m ∙ has)))
              ];
            });
    }

module _ {S : Type 0} (sql : Sql S) (dsn : String) (rows : S → Registry) (n m : String)
    (R : Registry) (old : RelationalDatabaseInfo) (has : R n m ≡ some old)
    (i : RelationalDatabaseInfo) where
  set_database_info-Kept :
      {type : String} (d : Dialect type) (table : IsTable sql dsn d rows)
      → Keeps (Unchanged sql dsn d rows table R) (set_database_info sql dsn n m type i)
  unfolding set_database_info insert_user_mysql insert_user_postgres
  set_database_info-Kept my table = connected-Triple sql dsn my rows table R _ _ (
      Triple-attempt (λ _. Unchanged sql dsn my rows table R) (Unchanged sql dsn my rows table R) _
        _ _ (Triple-wrapping _ _ (serve-Unchanged sql dsn my rows table R _ _ table.used))
        (λ e. Triple-raise e (λ s c. c))
        (λ _. Triple-wrapping _ _ (ignored-Kept sql dsn my rows table n m R old has i)) (λ s c. c))
  set_database_info-Kept pg table =
      connected-Triple sql dsn pg rows table R _ _
        (Triple-wrapping _ _ (ignored-Kept sql dsn pg rows table n m R old has i))

-- The credentials are set, and then asked for.
abbrev pub set_then_get :
    {S : Type 0}
    → Sql S
    → String
    → String
    → String
    → String
    → RelationalDatabaseInfo
    → Exec (World S) RelationalDatabaseInfo
set_then_get sql dsn n m type i = do
  set_database_info sql dsn n m type i
  get_database_info sql dsn n m type

module _ {S : Type 0} (sql : Sql S) (dsn : String) {type : String} (d : Dialect type)
    (rows : S → Registry) (table : IsTable sql dsn d rows) where
  -- If the server at the dsn has a table of the users, the cache has no other connection for the dsn, and
  -- the table has credentials of the name and the namespace, then `SetDatabaseInfo` does not change them:
  -- after it, `GetDatabaseInfo` gives the old ones, whatever credentials were set.
  pub set_database_info_keeps :
      (n m : String) (old i j : RelationalDatabaseInfo) (s : Run (World S))
      → IsFor dsn type s.object
      → rows s.object.servers n m ≡ some old
      → (set_then_get sql dsn n m type i s).0 ≡ ok j
      → j ≡ old
  set_database_info_keeps n m old i j s c has e =
      let R : Registry = rows s.object.servers in
      After-ok (λ a _. a ≡ old) (λ _. Unit) _ _ j e
        ((Triple-attempt (λ _. Unchanged sql dsn d rows table R) (Unchanged sql dsn d rows table R)
            _ _ _ (set_database_info-Kept sql dsn rows n m R old has i d table)
            (λ x. Triple-raise x (λ t k. tt))
            (λ _.
              Triple-weaken {post' = λ a _. a ≡ old} {fail' = λ _. Unit}
                (Unchanged sql dsn d rows table R) (HasEnsured sql dsn d rows table R n m)
                (Unchanged sql dsn d rows table R) _ (λ t k. k) (λ a t k. Ensured-old has k.ensured)
                (λ t k. tt) (database_info-HasEnsured sql dsn rows R n m d table))
            (λ t k. tt)).at
          s (record { cached = c; same = λ a b. refl }))
