-- ===== src/Mongo/Growth.antt =====
-- What the operations of the client keep and find in the collection of the users.
use dbaas_controller.Prelude.{◌≡◌, refl, sym, String, Option, none, some, inl, inr, Bool-cases}
use mathlib.Core.Path.{subst}
use dbaas_controller.Go.{Result, Result-cases}
use dbaas_controller.Cluster.{Call, Run, Exec, raise, attempt, wrapping}
use dbaas_controller.Cluster.Triple.{
  Assertion, After, Triple, Keeps, After-const, Triple-attempt, Triple-if, Triple-wrapping,
  Triple-pure, Triple-raise, Triple-weaken, triple_rules,
}
use dbaas_controller.Mongo.{MongoDbInfo, MongoDbClientOptions, ClientOptions, client_options}
use dbaas_controller.Mongo.Driver.{
  Driver, MongoDbImpl, find_client, is_no_documents, fresh_user, mongo_info_result, serve, find_one,
}
use dbaas_controller.Mongo.Client.{
  users, set_client, connect, cached_client, get_client, get_user, known_user, upsert_user,
  ensure_account, mongo_user_exists, create_user_and_database,
}
use dbaas_controller.Mongo.Users.{Users, Grows, named, IsCollection, IsClientOf}
use dbaas_controller.Mongo.Options.{set_client-IsClientOf}

module _ {S : Type 0} (driver : Driver S) (mop : MongoDbClientOptions) (docs : S → Users)
    (law : IsCollection driver (client_options mop) docs) where
  -- The cache is right, and no credentials of the users were lost.
  pub record Growing (R : Users) (s : Run (MongoDbImpl S)) : Type 0 where
    pub cached : IsClientOf mop s.object
    pub grown : Grows R (docs s.object.servers)

  -- The users have the credentials.
  pub record HasUser (R : Users) (n m : String) (i : MongoDbInfo) (s : Run (MongoDbImpl S))
      : Type 0 where
    pub growing : Growing R s
    pub user : docs s.object.servers n m ≡ some i

  module _ (R : Users) where
    pub serve-Growing :
        {A : Type 0} (c : Call) (answer : S → S × Result A)
        → ((t : S) → Grows (docs t) (docs (answer t).0))
        → Keeps (Growing R) (serve c answer)
    unfolding attempt
    serve-Growing c answer keeps = record {
      at = λ s k. After-const (Growing R) (answer s.object.servers).1 _ (record {
        cached = k.cached;
        grown = λ a b i e. keeps s.object.servers a b i (k.grown a b i e);
      });
    }

    fresh_user-Growing : (namespace : String) → Keeps (Growing R) (fresh_user {S = S} namespace)
    unfolding fresh_user attempt
    fresh_user-Growing namespace = record {
      at = λ s k.
          After-const (Growing R) (mongo_info_result _) _
            (record { cached = k.cached; grown = k.grown });
    }

    abbrev Connected : ClientOptions → Assertion (MongoDbImpl S)
    Connected c s = Growing R s × (c ≡ client_options mop)

    cached_client-Connected :
        (o : Option ClientOptions) (s : Run (MongoDbImpl S))
        → Growing R s
        → find_client mop s.object.connection_cache ≡ o
        → After Connected
            (Growing R)
            (cached_client driver o mop s).0
            (cached_client driver o mop s).1
    unfolding cached_client connect attempt set_client
    cached_client-Connected (some c) s k e = (k, k.cached c e)
    cached_client-Connected none s k e = elim (Result-cases (driver.connect (client_options mop))) [
      | inl (u, o) ↦
          rw o (record { cached = set_client-IsClientOf mop s.object; grown = k.grown }, refl)
      | inr (inl (x, o)) ↦ rw o (record { cached = k.cached; grown = k.grown })
      | inr (inr o) ↦ rw o (record { cached = k.cached; grown = k.grown })
    ]

    get_client-Connected : Triple (Growing R) (get_client driver mop) Connected (Growing R)
    unfolding get_client attempt
    get_client-Connected = record { at = λ s k. cached_client-Connected _ s k refl }

    pub connected-Triple :
        {A : Type 0} {post : A → Assertion (MongoDbImpl S)} (prefix : String)
        (next : ClientOptions → Exec (MongoDbImpl S) A)
        → Triple (Growing R) (next (client_options mop)) post (Growing R)
        → Triple
            (Growing R)
            (attempt (wrapping prefix (get_client driver mop)) raise next)
            post
            (Growing R)
    connected-Triple {post = post} prefix next k =
        Triple-attempt Connected (Growing R) _ _ _ (Triple-wrapping prefix _ get_client-Connected)
          (λ e. Triple-raise e (λ s c. c))
          (λ h. record {
            at = λ s (c, e).
                subst (λ x. After post (Growing R) (next x s).0 (next x s).1) (sym e) (k.at s c);
          })
          (λ s c. c)

    module _ (n m : String) where
      find_one-HasUser :
          Triple
            (Growing R)
            (find_one driver (users (client_options mop)) (named n m))
            (HasUser R n m)
            (Growing R)
      unfolding attempt
      find_one-HasUser = record {
        at = λ s k.
            let t = s.object.servers in
            let after : Grows R
                (docs (driver.find_one (users (client_options mop)) (named n m) t).0) =
              λ a b i e. law.reads n m t a b i (k.grown a b i e) in
            elim (Result-cases (driver.find_one (users (client_options mop)) (named n m) t).1) [
              | inl (i, o) ↦ rw o (record {
                growing = record { cached = k.cached; grown = after };
                user = law.reads n m t n m i (law.finds n m t i o);
              })
              | inr (inl (x, o)) ↦ rw o (record { cached = k.cached; grown = after })
              | inr (inr o) ↦ rw o (record { cached = k.cached; grown = after })
            ];
      }

      pub get_user-HasUser :
          Triple (Growing R) (get_user driver mop n m) (HasUser R n m) (Growing R)
      unfolding get_user
      get_user-HasUser = connected-Triple _ _ (
          Triple-attempt (HasUser R n m) (Growing R) _ _ _ find_one-HasUser
            (λ e.
              Triple-if (is_no_documents e) _ _ (λ _. Triple-raise _ (λ s c. c))
                (λ _. Triple-raise _ (λ s c. c)))
            (λ i. Triple-pure i (λ s c. c)) (λ s c. c))

      known_user-Growing : Keeps (Growing R) (known_user driver mop n m)
      unfolding known_user
      known_user-Growing =
          Triple-attempt (HasUser R n m) (Growing R) _ _ _ get_user-HasUser
            (λ e.
              Triple-if (is_no_documents e) _ _ (λ _. fresh_user-Growing m)
                (λ _. Triple-raise _ (λ s c. c)))
            (λ i. Triple-pure i (λ s c. c.growing)) (λ s c. c)

      upsert_user-HasUser :
          (i : MongoDbInfo)
          → Triple
              (Growing R)
              (upsert_user driver (client_options mop) i n m)
              (HasUser R n m)
              (Growing R)
      unfolding upsert_user attempt
      upsert_user-HasUser i = record {
        at = λ s k.
            let t = s.object.servers in
            let answer = driver.find_one_and_update (users (client_options mop)) (named n m) i t in
            let after : Grows R (docs answer.0) =
              λ a b j e. law.update_grows n m i t a b j (k.grown a b j e) in
            elim (Result-cases answer.1) [
              | inl (j, o) ↦ rw o (record {
                growing = record { cached = k.cached; grown = after };
                user = law.updates n m i j t o;
              })
              | inr (inl (x, o)) ↦ elim (Bool-cases (is_no_documents x)) [
                | inl none_before ↦ rw o (
                    rw none_before (record {
                      growing = record { cached = k.cached; grown = after };
                      user = law.upserts n m i t x o none_before;
                    }))
                | inr other ↦ rw o (rw other (record { cached = k.cached; grown = after }))
              ]
              | inr (inr o) ↦ rw o (record { cached = k.cached; grown = after })
            ];
      }

      serve-HasUser :
          {A : Type 0} (i : MongoDbInfo) (c : Call) (answer : S → S × Result A)
          → ((t : S) → Grows (docs t) (docs (answer t).0))
          → Keeps (HasUser R n m i) (serve c answer)
      unfolding attempt
      serve-HasUser i c answer keeps = record {
        at = λ s k. After-const (HasUser R n m i) (answer s.object.servers).1 _ (record {
          growing = record {
            cached = k.growing.cached;
            grown = λ a b j e. keeps s.object.servers a b j (k.growing.grown a b j e);
          };
          user = keeps s.object.servers n m i k.user;
        });
      }

      ensure_account-HasUser :
          (i : MongoDbInfo)
          → Triple
              (HasUser R n m i)
              (ensure_account driver (client_options mop) i)
              (HasUser R n m)
              (HasUser R n m i)
      unfolding ensure_account mongo_user_exists
      ensure_account-HasUser i =
          Triple-attempt (λ _. HasUser R n m i) (HasUser R n m i) _ _ _
            (search (triple_rules, serve-HasUser, law.runs) depth 12)
            (λ e. Triple-raise e (λ s c. c))
            (λ b.
              Triple-if b _ _ (λ _. Triple-pure i (λ s c. c))
                (λ _.
                  Triple-attempt (λ _. HasUser R n m i) (HasUser R n m i) _ _ _
                    (search (triple_rules, serve-HasUser, law.runs) depth 12)
                    (λ e. Triple-raise e (λ s c. c)) (λ _. Triple-pure i (λ s c. c)) (λ s c. c)))
            (λ s c. c)

      pub create-HasUser :
          Triple (Growing R) (create_user_and_database driver mop n m) (HasUser R n m) (Growing R)
      unfolding create_user_and_database
      create-HasUser = connected-Triple _ _ (
          Triple-attempt (λ _. Growing R) (Growing R) _ _ _ known_user-Growing
            (λ e. Triple-raise e (λ s c. c))
            (λ i.
              Triple-attempt (λ _. Growing R) (Growing R) _ _ _
                (Triple-wrapping _ _ (serve-Growing _ _ (law.inserts i.dbname)))
                (λ e. Triple-raise e (λ s c. c))
                (λ _.
                  Triple-attempt (HasUser R n m) (Growing R) _ _ _ (upsert_user-HasUser i)
                    (λ e. Triple-raise e (λ s c. c))
                    (λ j.
                      Triple-weaken (HasUser R n m j) (HasUser R n m) (HasUser R n m j) _ (λ s c. c)
                        (λ _ s c. c) (λ s c. c.growing) (ensure_account-HasUser j))
                    (λ s c. c))
                (λ s c. c))
            (λ s c. c))
