-- ===== src/Mongo/Dropped.antt =====
-- The order of the calls of `DropUserAndDatabase`.
use dbaas_controller.Prelude.{refl, String, Option, none, some, All}
use dbaas_controller.Cluster.{History, Run, Exec}
use dbaas_controller.Cluster.Triple.{
  Assertion, Triple, Keeps, Triple-attempt, Triple-if, Triple-wrapping, Triple-pure, Triple-raise,
  Triple-weaken, Triple-run, Triple-value, Triple-given,
}
use dbaas_controller.Cluster.Order.{Only, only_rules, Made, Follows, Follows-none}
use dbaas_controller.Cluster.Since.{
  Since, IsStable, Follows-IsStable, Made-append, All-IsStable, Made-IsStable, Keeps-Since,
  Since-weaken, Since-refl,
}
use dbaas_controller.Mongo.{MongoDbInfo, MongoDbClientOptions, ClientOptions}
use dbaas_controller.Mongo.Driver.{Driver, MongoDbImpl, is_no_documents}
use dbaas_controller.Mongo.Client.{
  connect, cached_client, get_client, get_user, drop_all, drop_user_and_database,
}
use dbaas_controller.Mongo.Drops.{
  IsDocumentDelete, NotDelete, DatabaseDropped, UserDropped, DropDone, IsStored, get_user-IsStored,
  serve-Made,
}

module _ {S : Type 0} (driver : Driver S) (name namespace : String) (h : History) where
  abbrev NoDeletes : History → Type 0
  NoDeletes = All (λ e. NotDelete e.call)

  abbrev Ordered : Assertion (MongoDbImpl S)
  Ordered = Since (Follows IsDocumentDelete (DropDone driver name namespace)) h

  DropDone-IsStable : IsStable (λ c. Unit) (DropDone driver name namespace)
  DropDone-IsStable = record {
    extend = λ b a p d. record {
      info = d.info;
      stored = d.stored;
      database = Made-append _ b a d.database;
      user = Made-append _ b a d.user;
    };
  }

  connect-Only :
      (g : History) (mop : MongoDbClientOptions) → Keeps (Only NotDelete g) (connect driver mop)
  unfolding connect
  connect-Only g mop = search only_rules depth 14

  cached_client-Only :
      (g : History) (o : Option ClientOptions) (mop : MongoDbClientOptions)
      → Keeps (Only NotDelete g) (cached_client driver o mop)
  unfolding cached_client
  cached_client-Only g none mop = connect-Only g mop
  cached_client-Only g (some c) mop = search only_rules

  get_client-Only :
      (g : History) (mop : MongoDbClientOptions) → Keeps (Only NotDelete g) (get_client driver mop)
  unfolding get_client
  get_client-Only g mop = search (only_rules, cached_client-Only) depth 9

  get_user-Only :
      (g : History) (mop : MongoDbClientOptions)
      → Keeps (Only NotDelete g) (get_user driver mop name namespace)
  unfolding get_user
  get_user-Only g mop = search (only_rules, get_client-Only) depth 14

  module _ (i : MongoDbInfo) (stored : IsStored driver name namespace i) where
    abbrev WithoutDatabase : History → Type 0
    WithoutDatabase a = NoDeletes a × Made (DatabaseDropped i) a

    abbrev WithoutUser : History → Type 0
    WithoutUser a = WithoutDatabase a × Made (UserDropped i) a

    WithoutDatabase-IsStable : IsStable NotDelete WithoutDatabase
    WithoutDatabase-IsStable =
        Made-IsStable NotDelete NoDeletes (DatabaseDropped i) (All-IsStable NotDelete)

    give_up : (s : Run (MongoDbImpl S)) → Since NoDeletes h s → Ordered s
    give_up s c =
        Since-weaken NoDeletes _
          (λ a n. Follows-none IsDocumentDelete (DropDone driver name namespace) a n) c

    give_up_later : (s : Run (MongoDbImpl S)) → Since WithoutDatabase h s → Ordered s
    give_up_later s c = give_up s (Since-weaken WithoutDatabase _ (λ a q. q.0) c)

    -- Once both are dropped, any calls may follow.
    dropped-Ordered :
        {A : Type 0} (m : Exec (MongoDbImpl S) A)
        → ((g : History) → Keeps (Only (λ c. Unit) g) m)
        → Triple (Since WithoutUser h) m (λ _. Ordered) Ordered
    dropped-Ordered m k =
        Triple-weaken _ _ _ _
          (λ s c.
            Since-weaken WithoutUser
              (λ a.
                DropDone driver name namespace a
                × Follows IsDocumentDelete (DropDone driver name namespace) a)
              (λ a ((n, d), u). (
                record { info = i; stored = stored; database = d; user = u },
                Follows-none IsDocumentDelete (DropDone driver name namespace) a n,
              ))
              c)
          (λ _ s c. Since-weaken _ _ (λ a q. q.1) c) (λ s c. Since-weaken _ _ (λ a q. q.1) c)
          (Keeps-Since (λ c. Unit) _ h m
            (Follows-IsStable IsDocumentDelete (DropDone driver name namespace) DropDone-IsStable)
            k)

    drop_all-Ordered :
        (client : ClientOptions)
        → Triple
            (Since NoDeletes h)
            (drop_all driver client i name namespace)
            (λ _. Ordered)
            Ordered
    unfolding drop_all
    drop_all-Ordered client =
        Triple-attempt (λ _. Since WithoutDatabase h) (Since NoDeletes h) _ _ _
          (Triple-wrapping _ _ (
            serve-Made NotDelete NoDeletes h (All-IsStable NotDelete) _ (DatabaseDropped i) _
              (λ x. x) refl))
          (λ e. Triple-raise e give_up)
          (λ _.
            Triple-attempt (λ _. Since WithoutUser h) (Since WithoutDatabase h) _ _ _
              (Triple-wrapping _ _ (
                serve-Made NotDelete WithoutDatabase h WithoutDatabase-IsStable _ (UserDropped i) _
                  (λ x. x) refl))
              (λ e. Triple-raise e give_up_later)
              (λ _. dropped-Ordered _ (λ g. search only_rules depth 14)) give_up_later)
          give_up

  drop-Ordered :
      (mop : MongoDbClientOptions)
      → Triple
          (Since NoDeletes h)
          (drop_user_and_database driver mop name namespace)
          (λ _. Ordered)
          Ordered
  unfolding drop_user_and_database
  drop-Ordered mop =
      Triple-attempt (λ _. Since NoDeletes h) (Since NoDeletes h) _ _ _
        (Triple-wrapping _ _ (
          Keeps-Since NotDelete NoDeletes h _ (All-IsStable NotDelete)
            (λ g. get_client-Only g mop)))
        (λ e. Triple-raise e no_deletes)
        (λ client.
          Triple-attempt (λ i s. IsStored driver name namespace i × Since NoDeletes h s)
            (Since NoDeletes h) _ _ _
            (Triple-value (IsStored driver name namespace) _
              (get_user-IsStored driver name namespace mop)
              (Keeps-Since NotDelete NoDeletes h _ (All-IsStable NotDelete)
                (λ g. get_user-Only g mop)))
            (λ e.
              Triple-if (is_no_documents e) _ _ (λ _. Triple-pure tt no_deletes)
                (λ _. Triple-raise _ no_deletes))
            (λ i. Triple-given _ (λ v. drop_all-Ordered i v client)) no_deletes)
        no_deletes
    where
      no_deletes : (s : Run (MongoDbImpl S)) → Since NoDeletes h s → Ordered s
      no_deletes s c =
          Since-weaken NoDeletes _
            (λ a n. Follows-none IsDocumentDelete (DropDone driver name namespace) a n) c

-- Whatever the driver answers, `DropUserAndDatabase` deletes a document only after it dropped the database
-- and the account of credentials that the driver finds in a document of the name and namespace.
pub drop_user_and_database-order :
    {S : Type 0} (driver : Driver S) (mop : MongoDbClientOptions) (name namespace : String)
    (s : Run (MongoDbImpl S))
    → Since
        (Follows IsDocumentDelete (DropDone driver name namespace))
        s.history
        (drop_user_and_database driver mop name namespace s).1
drop_user_and_database-order driver mop name namespace s =
    Triple-run _ (Ordered driver name namespace s.history) _
      (drop-Ordered driver name namespace s.history mop) s (Since-refl _ s tt)
