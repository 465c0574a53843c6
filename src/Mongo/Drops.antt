-- ===== src/Mongo/Drops.antt =====
-- The calls of a drop, as they stand in the history, and what a call of the driver leaves there.
use dbaas_controller.Prelude.{String, ◌≡◌, inl, inr, [], ◌∷◌}
use dbaas_controller.Go.{ok, Result, Result-cases}
use dbaas_controller.Cluster.{Call, Outcome, Event, done, failed, panicked, Exec, History, attempt}
use dbaas_controller.Cluster.Triple.{
  After-const, Triple, Keeps, Triple-attempt, Triple-raised, Triple-if, Triple-pure,
}
use dbaas_controller.Cluster.Order.{Only, only_rules, Made}
use dbaas_controller.Cluster.Since.{Since, IsStable, Since-one}
use dbaas_controller.Mongo.{ClientOptions, MongoDbClientOptions, MongoDbInfo, Command, DriverCall}
use dbaas_controller.Mongo.Driver.{Driver, find_one, is_no_documents, serve}
use dbaas_controller.Mongo.Client.{users, get_user}

abbrev pub IsDocumentDelete : Call → Type 0
IsDocumentDelete (Call.mongo client (DriverCall.delete_one db coll f)) = Unit
IsDocumentDelete _ = ⊥

abbrev pub NotDelete : Call → Type 0
NotDelete c = IsDocumentDelete c → ⊥

abbrev DatabaseDroppedBy : MongoDbInfo → Call → Outcome → Type 0
DatabaseDroppedBy i (Call.mongo client (DriverCall.drop db)) done = db ≡ i.dbname
DatabaseDroppedBy i _ _ = ⊥

-- The database of the user was dropped.
abbrev pub DatabaseDropped : MongoDbInfo → Event → Type 0
DatabaseDropped i e = DatabaseDroppedBy i e.call e.outcome

abbrev UserDroppedBy : MongoDbInfo → Call → Outcome → Type 0
UserDroppedBy i (Call.mongo client (DriverCall.run_command db (Command.drop_user u))) done =
    u ≡ i.username
UserDroppedBy i _ _ = ⊥

-- The account of the user was dropped.
abbrev pub UserDropped : MongoDbInfo → Event → Type 0
UserDropped i e = UserDroppedBy i e.call e.outcome

-- The driver finds the credentials in a document of the name and namespace, of some client's collection.
abbrev pub IsStored : {S : Type 0} → Driver S → String → String → MongoDbInfo → Type 0
IsStored {S} driver name namespace i =
    (client : ClientOptions) × (t : S) × ((driver.find_one (users client)
        (record { name = name; namespace = namespace }) t).1
      ≡ ok i)

-- The database and the account of credentials that are stored for the name and namespace were dropped.
pub record DropDone {S : Type 0} (driver : Driver S) (name namespace : String) (a : History)
    : Type 0 where
  pub info : MongoDbInfo
  pub stored : IsStored driver name namespace info
  pub database : Made (DatabaseDropped info) a
  pub user : Made (UserDropped info) a

module _ {S : Type 0} (driver : Driver S) (name namespace : String) where
  nothing :
      {O A : Type 0} (m : Exec O A) → Triple (λ _. Unit {0}) m (λ _ _. Unit {0}) (λ _. Unit {0})
  nothing m = record { at = λ s _. After-const (λ _. Unit) (m s).0 (m s).1 tt }

  find_one-IsStored :
      (client : ClientOptions)
      → Triple
          (λ _. Unit)
          (find_one driver (users client) (record { name = name; namespace = namespace }))
          (λ i _. IsStored driver name namespace i)
          (λ _. Unit)
  unfolding attempt
  find_one-IsStored client = record {
    at = λ s _.
        elim (Result-cases
          (driver.find_one (users client) (record { name = name; namespace = namespace })
            s.object.servers).1) [
              | inl (i, e) ↦ rw e (client, s.object.servers, e)
              | inr (inl (x, e)) ↦ rw e tt
              | inr (inr e) ↦ rw e tt
            ];
  }

  pub get_user-IsStored :
      (mop : MongoDbClientOptions)
      → Triple
          (λ _. Unit)
          (get_user driver mop name namespace)
          (λ i _. IsStored driver name namespace i)
          (λ _. Unit)
  unfolding get_user
  get_user-IsStored mop =
      Triple-attempt (λ _ _. Unit) (λ _. Unit) _ _ _ (nothing _) Triple-raised
        (λ client.
          Triple-attempt (λ i _. IsStored driver name namespace i) (λ _. Unit) _ _ _
            (find_one-IsStored client)
            (λ e. Triple-if (is_no_documents e) _ _ (λ _. Triple-raised _) (λ _. Triple-raised _))
            (λ i. Triple-pure i (λ s k. k)) (λ s k. tt))
        (λ s k. tt)

module _ {S : Type 0} where
  serve-Only :
      {A : Type 0} {P : Call → Type 0} {g : History} (c : Call) (answer : S → S × Result A)
      → P c
      → Keeps (Only P g) (serve c answer)
  serve-Only c answer p = search only_rules

  -- A call to the servers that is kept in the assertion, and made if it returns
  pub serve-Made :
      {A : Type 0} (P : Call → Type 0) (Q : History → Type 0) (h : History) (st : IsStable P Q)
      (c : Call) (E : Event → Type 0) (answer : S → S × Result A)
      → P c
      → E (record { call = c; outcome = done })
      → Triple (Since Q h) (serve c answer) (λ _. Since (λ a. Q a × Made E a) h) (Since Q h)
  unfolding attempt
  serve-Made P Q h st c E answer p returned = record {
    at = λ s k. elim (Result-cases (answer s.object.servers).1) [
      | inl (u, e) ↦ rw e (
          Since-one (λ a. Q a × Made E a) _ k
            (
              st.extend (record { call = c; outcome = done } ∷ []) k.added (p, tt) k.holds,
              inl returned,
            ))
      | inr (inl (x, e)) ↦ rw e (
          Since-one Q _ k
            (st.extend (record { call = c; outcome = failed x } ∷ []) k.added (p, tt) k.holds))
      | inr (inr e) ↦ rw e (
          Since-one Q _ k
            (st.extend (record { call = c; outcome = panicked } ∷ []) k.added (p, tt) k.holds))
    ];
  }
