-- ===== src/Mongo/Created.antt =====
-- `GetUser` and `CreateUserAndDatabase` against the collection of the users.
use dbaas_controller.Prelude.{◌≡◌, sym, ◌∙◌, String, some-injective}
use dbaas_controller.Go.{ok}
use dbaas_controller.Cluster.{Run, Exec}
use dbaas_controller.Cluster.Triple.{After, Triple, After-ok}
use dbaas_controller.Mongo.{MongoDbInfo, MongoDbClientOptions, client_options}
use dbaas_controller.Mongo.Driver.{Driver, MongoDbImpl}
use dbaas_controller.Mongo.Client.{get_user, create_user_and_database}
use dbaas_controller.Mongo.Users.{Users, IsCollection, IsClientOf}
use dbaas_controller.Mongo.Growth.{Growing, HasUser, get_user-HasUser, create-HasUser}

module _ {S : Type 0} (driver : Driver S) (mop : MongoDbClientOptions) (docs : S → Users)
    (law : IsCollection driver (client_options mop) docs) where
  module _ (n m : String) where
    -- If the servers have a collection of the users, and the cache has no other client for the options, then
    -- `CreateUserAndDatabase` loses no credentials, and if it returns some, they are those of the name and
    -- the namespace in the collection.
    pub create_user_and_database-HasUser :
        (s : Run (MongoDbImpl S))
        → IsClientOf mop s.object
        → After
            (HasUser driver mop docs law (docs s.object.servers) n m)
            (Growing driver mop docs law (docs s.object.servers))
            (create_user_and_database driver mop n m s).0
            (create_user_and_database driver mop n m s).1
    create_user_and_database-HasUser s c =
        (create-HasUser driver mop docs law (docs s.object.servers) n m).at s
          (record { cached = c; grown = λ a b i e. e })

    kept_user :
        {R : Users} (m' : Exec (MongoDbImpl S) MongoDbInfo) (s : Run (MongoDbImpl S))
        (i j : MongoDbInfo)
        → ((R : Users)
            → Triple
                (Growing driver mop docs law R)
                m'
                (HasUser driver mop docs law R n m)
                (Growing driver mop docs law R))
        → HasUser driver mop docs law R n m i s
        → (m' s).0 ≡ ok j
        → i ≡ j
    kept_user m' s i j t k e =
        let R = docs s.object.servers in
        let k' =
          After-ok (HasUser driver mop docs law R n m) (Growing driver mop docs law R) _ _ j e
            ((t R).at s (record { cached = k.growing.cached; grown = λ a b x p. p })) in
        some-injective i j (sym (k'.growing.grown n m i k.user) ∙ k'.user)

    created_user :
        (s : Run (MongoDbImpl S)) (i : MongoDbInfo)
        → IsClientOf mop s.object
        → (create_user_and_database driver mop n m s).0 ≡ ok i
        → HasUser driver mop docs law
            (docs s.object.servers)
            n
            m
            i
            (create_user_and_database driver mop n m s).1
    created_user s i c e =
        After-ok (HasUser driver mop docs law _ n m) (Growing driver mop docs law _) _ _ i e
          (create_user_and_database-HasUser s c)

    -- If the servers have a collection of the users, and the cache has no other client for the options, then
    -- `CreateUserAndDatabase` twice gives the same credentials, if both calls return them.
    pub create_user_and_database_twice :
        (s : Run (MongoDbImpl S)) (i j : MongoDbInfo)
        → IsClientOf mop s.object
        → (create_user_and_database driver mop n m s).0 ≡ ok i
        → (create_user_and_database driver mop n m (create_user_and_database driver mop n m s).1).0
          ≡ ok j
        → i ≡ j
    create_user_and_database_twice s i j c e e' =
        kept_user _ _ i j (λ R. create-HasUser driver mop docs law R n m) (created_user s i c e) e'

    -- If the servers have a collection of the users, and the cache has no other client for the options, then
    -- `GetUser` gives the credentials that `CreateUserAndDatabase` returned before, if it returns some.
    pub create_user_and_database_then_get_user :
        (s : Run (MongoDbImpl S)) (i j : MongoDbInfo)
        → IsClientOf mop s.object
        → (create_user_and_database driver mop n m s).0 ≡ ok i
        → (get_user driver mop n m (create_user_and_database driver mop n m s).1).0 ≡ ok j
        → i ≡ j
    create_user_and_database_then_get_user s i j c e e' =
        kept_user _ _ i j (λ R. get_user-HasUser driver mop docs law R n m) (created_user s i c e)
          e'
