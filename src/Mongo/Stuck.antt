-- ===== src/Mongo/Stuck.antt =====
-- A user whose document is left but whose account is gone, as after a `DropUserAndDatabase` whose last call
-- failed.
use dbaas_controller.Prelude.{
  ◌≡◌, ◌≢◌, sym, ◌∙◌, String, Bool, false, some, inl, inr, Bool-cases, some-injective,
  none-is-not-some,
}
use mathlib.Core.Path.{subst}
use dbaas_controller.Go.{Error, err, Result-cases, wrap}
use dbaas_controller.Cluster.{Run, attempt}
use dbaas_controller.Cluster.Triple.{
  After, Triple, Keeps, After-const, Triple-attempt, Triple-wrapping, Triple-raise, Keeps-run,
}
use dbaas_controller.Mongo.{MongoDbInfo, MongoDbClientOptions, client_options, Command}
use dbaas_controller.Mongo.Driver.{
  Driver, MongoDbImpl, find_client, is_no_documents, find_one, drop_user_db, run_command,
}
use dbaas_controller.Mongo.Client.{users, get_user, drop_all, drop_user_and_database}
use dbaas_controller.Mongo.Options.{get_client-cached}
use dbaas_controller.Mongo.Users.{Users, Grows, named, IsCollection}

-- The accounts of the servers: a drop of one that is missing is refused, and the rest of the calls of
-- `DropUserAndDatabase` make none.
pub record HasAccounts {S : Type 0} (driver : Driver S) (mop : MongoDbClientOptions)
    (docs : S → Users) (accounts : S → String → Bool) : Type 0 where
  pub collection : IsCollection driver (client_options mop) docs
  pub finds :
      (n m u : String) (t : S)
      → accounts t u ≡ false
      → accounts (driver.find_one (users (client_options mop)) (named n m) t).0 u ≡ false
  pub drops :
      (db : String) (t : S)
      → db ≢ "dbaas_controller"
      → Grows (docs t) (docs (driver.drop (client_options mop) db t).0)
  pub drop_accounts :
      (db u : String) (t : S)
      → accounts t u ≡ false
      → accounts (driver.drop (client_options mop) db t).0 u ≡ false
  pub refuses :
      (u : String) (t : S)
      → accounts t u ≡ false
      → (e : Error) × ((driver.run_command (client_options mop) "admin" (Command.drop_user u) t).1
          ≡ err e)
  pub refusal_accounts :
      (u : String) (t : S)
      → accounts t u ≡ false
      → accounts (driver.run_command (client_options mop) "admin" (Command.drop_user u) t).0 u
        ≡ false

module _ {S : Type 0} (driver : Driver S) (mop : MongoDbClientOptions) (docs : S → Users)
    (accounts : S → String → Bool) (n m : String) (i : MongoDbInfo) where
  -- The client is connected, and the user has its document but no account.
  pub record IsStuck (s : Run (MongoDbImpl S)) : Type 0 where
    pub cached : find_client mop s.object.connection_cache ≡ some (client_options mop)
    pub document : docs s.object.servers n m ≡ some i
    pub missing : accounts s.object.servers i.username ≡ false

  module _ (law : HasAccounts driver mop docs accounts) (own : i.dbname ≢ "dbaas_controller") where
    drop-IsStuck : Keeps IsStuck (drop_user_db driver (client_options mop) i.dbname)
    unfolding attempt
    drop-IsStuck = record {
      at = λ s k.
          After-const IsStuck (driver.drop (client_options mop) i.dbname s.object.servers).1 _
            (record {
              cached = k.cached;
              document = law.drops i.dbname s.object.servers own n m i k.document;
              missing = law.drop_accounts i.dbname i.username s.object.servers k.missing;
            });
    }

    drop_user-refused :
        Triple IsStuck
          (run_command driver (client_options mop) "admin" (Command.drop_user i.username))
          (λ _ _. ⊥)
          IsStuck
    unfolding attempt
    drop_user-refused = record {
      at = λ s k.
          let (e, r) = law.refuses i.username s.object.servers k.missing in
          rw r (record {
            cached = k.cached;
            document =
                law.collection.runs (Command.drop_user i.username) s.object.servers n m i
                  k.document;
            missing = law.refusal_accounts i.username s.object.servers k.missing;
          });
    }

    drop_all-IsStuck :
        Triple IsStuck (drop_all driver (client_options mop) i n m) (λ _ _. ⊥) IsStuck
    unfolding drop_all
    drop_all-IsStuck =
        Triple-attempt (λ _. IsStuck) IsStuck _ _ _ (Triple-wrapping _ _ drop-IsStuck)
          (λ e. Triple-raise e (λ s k. k))
          (λ _.
            Triple-attempt (λ _ _. ⊥) IsStuck _ _ _ (Triple-wrapping _ _ drop_user-refused)
              (λ e. Triple-raise e (λ s k. k)) (λ _. record { at = λ s x. absurd x }) (λ s k. k))
          (λ s k. k)

    find_one-IsStuck : Keeps IsStuck (find_one driver (users (client_options mop)) (named n m))
    unfolding attempt
    find_one-IsStuck = record {
      at = λ s k.
          After-const IsStuck
            (driver.find_one (users (client_options mop)) (named n m) s.object.servers).1 _
            (record {
              cached = k.cached;
              document = law.collection.reads n m s.object.servers n m i k.document;
              missing = law.finds n m i.username s.object.servers k.missing;
            });
    }

    drop_found :
        (j : MongoDbInfo)
        → j ≡ i
        → (t : Run (MongoDbImpl S)) → IsStuck t
        → After
            (λ _ _. ⊥)
            IsStuck
            (drop_all driver (client_options mop) j n m t).0
            (drop_all driver (client_options mop) j n m t).1
    drop_found j e t k =
        subst
          (λ x.
            After (λ _ _. ⊥) IsStuck (drop_all driver (client_options mop) x n m t).0
              (drop_all driver (client_options mop) x n m t).1)
          (sym e) (drop_all-IsStuck.at t k)

    -- If the client for the options is in the cache, the document of a user is left, but its account is gone,
    -- the server refuses to drop an account that is missing, and the database of the user is not
    -- dbaas_controller, then `DropUserAndDatabase` does not return without an error, and it leaves the
    -- document, so each retry ends in the same way.
    pub drop_user_and_database-IsStuck :
        (s : Run (MongoDbImpl S))
        → IsStuck s
        → After
            (λ _ _. ⊥)
            IsStuck
            (drop_user_and_database driver mop n m s).0
            (drop_user_and_database driver mop n m s).1
    unfolding drop_user_and_database get_user attempt wrap
    drop_user_and_database-IsStuck s k =
        let t = s.object.servers in
        let still = Keeps-run IsStuck _ find_one-IsStuck s k in
        rw (get_client-cached driver mop s k.cached) (
          rw (get_client-cached driver mop s k.cached)
            (elim (Result-cases (driver.find_one (users (client_options mop)) (named n m) t).1) [
              | inl (j, o) ↦ rw o (
                  drop_found j
                    (some-injective j i (sym (law.collection.finds n m t j o) ∙ k.document)) _
                    (record {
                      cached = still.cached;
                      document = still.document;
                      missing = still.missing;
                    }))
              | inr (inl (x, o)) ↦ elim (Bool-cases (is_no_documents x)) [
                | inl gone ↦
                    absurd
                      (none-is-not-some (sym (law.collection.misses n m t x o gone) ∙ k.document))
                | inr other ↦ rw o (
                    rw other (
                      rw other (record {
                        cached = still.cached;
                        document = still.document;
                        missing = still.missing;
                      })))
              ]
              | inr (inr o) ↦ rw o (record {
                cached = still.cached;
                document = still.document;
                missing = still.missing;
              })
            ]))
