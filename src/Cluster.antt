-- ===== src/Cluster.antt =====
-- What the controllers call and do not implement: the Kubernetes client, the database client that
-- they are given as an interface, the event recorder and the metrics. Every call goes into the
-- history, and the environment answers from the history before the call. So a theorem for every
-- environment holds whatever others write in between and however often calls fail.
pub mod Triple
pub mod Order
pub mod Held
pub mod Since
pub mod Failing
pub mod Returning
use dbaas_controller.Prelude.{String, ◌<>◌, Bool, List, [], ◌∷◌, Option, none, some, ℕ, ℤ}
use dbaas_controller.Go.{Error, Result, ok, err, panic, wrap}
use dbaas_controller.Api.{
  Dict, NamespacedName, Condition, DatabaseRequest, RelationalDatabaseProvider, Secret, Service,
  MongoDbProvider,
}
use dbaas_controller.Database.{RelationalDatabaseInfo}
use dbaas_controller.Mongo.{ClientOptions, DriverCall, MongoDbClientOptions}

-- One call, with its arguments. An object stands for the whole of what is sent.
pub data Call : Type 0 where
  get_request : NamespacedName → Call
  update_request : DatabaseRequest → Call
  update_request_status : DatabaseRequest → Call
  get_secret : NamespacedName → Call
  create_secret : Secret → Call
  update_secret : Secret → Call
  delete_secret : NamespacedName → Call
  get_service : NamespacedName → Call
  create_service : Service → Call
  update_service : Service → Call
  delete_service : NamespacedName → Call
  list_providers : Call
  get_provider : NamespacedName → Call
  update_provider : RelationalDatabaseProvider → Call
  update_provider_status : RelationalDatabaseProvider → Call
  ping : String → String → Call
  version : String → String → Call
  load : String → String → Call
  initialize : String → String → Call
  create_database : String → String → String → String → String → Call
  drop_database : String → String → String → String → Call
  get_database_info : String → String → String → String → Call
  set_database_info : String → String → String → String → RelationalDatabaseInfo → Call
  record_event : String → String → String → Call
  inc_counter : String → Dict String → Call
  set_gauge : String → Dict String → ℕ → Call
  delete_gauge : String → Dict String → Call
  sql_open : String → String → Call
  sql_ping : String → Call
  sql_exec : String → String → List String → Call
  sql_query : String → String → List String → Call
  mongo : ClientOptions → DriverCall → Call
  get_mongodb_provider : NamespacedName → Call
  update_mongodb_provider : MongoDbProvider → Call
  update_mongodb_provider_status : MongoDbProvider → Call
  mongo_ping : MongoDbClientOptions → Call
  mongo_version : MongoDbClientOptions → Call
  lock : String → Call
  unlock : String → Call

-- How a call ended: without a value that is kept, with a number, with an error or a panic.
pub data Outcome : Type 0 where
  done : Outcome
  measured : ℤ → Outcome
  failed : Error → Outcome
  panicked : Outcome

pub record Event : Type 0 where
  pub call : Call
  pub outcome : Outcome

-- The newest event comes first.
abbrev pub History : Type 0
History = List Event

abbrev pub outcome_of : {A : Type 0} → Result A → Outcome
outcome_of (ok a) = done
outcome_of (err e) = failed e
outcome_of panic = panicked

abbrev pub outcome_of_load : Result ℤ → Outcome
outcome_of_load (ok n) = measured n
outcome_of_load (err e) = failed e
outcome_of_load panic = panicked

-- An update of an object also writes the object that the caller holds.
pub record Env : Type 0 where
  pub get_request : History → NamespacedName → Result DatabaseRequest
  pub update_request : History → DatabaseRequest → DatabaseRequest × Result (Unit {0})
  pub update_request_status : History → DatabaseRequest → DatabaseRequest × Result (Unit {0})
  pub get_secret : History → NamespacedName → Result Secret
  pub create_secret : History → Secret → Result (Unit {0})
  pub update_secret : History → Secret → Result (Unit {0})
  pub delete_secret : History → NamespacedName → Result (Unit {0})
  pub get_service : History → NamespacedName → Result Service
  pub create_service : History → Service → Result (Unit {0})
  pub update_service : History → Service → Result (Unit {0})
  pub delete_service : History → NamespacedName → Result (Unit {0})
  pub list_providers : History → Result (List RelationalDatabaseProvider)
  pub get_provider : History → NamespacedName → Result RelationalDatabaseProvider
  pub update_provider :
      History → RelationalDatabaseProvider → RelationalDatabaseProvider × Result (Unit {0})
  pub update_provider_status :
      History → RelationalDatabaseProvider → RelationalDatabaseProvider × Result (Unit {0})
  -- the interface `RelationalDatabaseInterface`: dsn, name, namespace, type
  pub ping : History → String → String → Result (Unit {0})
  pub version : History → String → String → Result String
  pub load : History → String → String → Result ℤ
  pub initialize : History → String → String → Result (Unit {0})
  pub create_database :
      History → String → String → String → String → String → Result RelationalDatabaseInfo
  pub drop_database : History → String → String → String → String → Result (Unit {0})
  pub get_database_info :
      History → String → String → String → String → Result RelationalDatabaseInfo
  pub set_database_info :
      History → String → String → String → String → RelationalDatabaseInfo → Result (Unit {0})
  -- packages `meta` and `controllerutil`, go-cmp, golang.org/x/text and `strconv.Quote`, which
  -- keep no state
  pub is_status_condition_true : List Condition → String → Bool
  pub set_status_condition : List Condition → Condition → List Condition × Bool
  pub remove_status_condition : List Condition → String → List Condition
  pub add_finalizer : List String → String → List String × Bool
  pub remove_finalizer : List String → String → List String × Bool
  pub diff : Dict String → Dict String → String
  pub title : String → String
  pub quote : String → String

-- The object that a reconciler holds in memory and the calls made so far.
pub record Run (O : Type 0) : Type 0 where
  pub object : O
  pub history : History

abbrev pub Exec : Type 0 → Type 0 → Type 0
Exec O A = Run O → Result A × Run O

module _ {O : Type 0} where
  module _ {A : Type 0} where
    pub pure : A → Exec O A
    pure a s = (ok a, s)

    pub raise : Error → Exec O A
    raise e s = (err e, s)

    pub crash : Exec O A
    crash s = (panic, s)

    -- A value that is computed, and may be an error
    pub lift : Result A → Exec O A
    lift r s = (r, s)

    -- A call whose answer stands in the history as `outcome` tells.
    pub call_as : (Result A → Outcome) → Call → (History → Result A) → Exec O A
    call_as outcome c answer s =
        let r : Result A = answer s.history in
        (r, record s { history = record { call = c; outcome = outcome r } ∷ s.history })

    abbrev pub call : Call → (History → Result A) → Exec O A
    call = call_as outcome_of

    -- A call that also writes the object.
    pub call_object : (O → Call) → (History → O → O × Result A) → Exec O A
    call_object c answer s =
        let (o, r) = answer s.history s.object in
        (
          r,
          record {
            object = o;
            history = record { call = c s.object; outcome = outcome_of r } ∷ s.history;
          },
        )

  pub get_object : Exec O O
  get_object s = (ok s.object, s)

  pub put_object : O → Exec O (Unit {0})
  put_object o s = (ok tt, record s { object = o })

  -- A call that gives no answer.
  pub emit : Call → Exec O (Unit {0})
  emit c s = (ok tt, record s { history = record { call = c; outcome = done } ∷ s.history })

module _ {O A B : Type 0} where
  abbrev pub settle : Result A → (Error → Exec O B) → (A → Exec O B) → Exec O B
  settle (ok a) handle next s = next a s
  settle (err e) handle next s = handle e s
  settle panic handle next s = (panic, s)

  -- `if err != nil { return handle(err) }`, and then the rest
  unfoldable pub attempt : Exec O A → (Error → Exec O B) → (A → Exec O B) → Exec O B
  unfolding pure raise crash lift call_as call_object get_object put_object emit
  attempt m handle next s = let (r, s') = m s in settle r handle next s'

  infixl 10 ◌>>=◌ ◌>>◌
  abbrev pub ◌>>=◌ : Exec O A → (A → Exec O B) → Exec O B
  m >>= f = attempt m raise f

  abbrev pub ◌>>◌ : Exec O A → Exec O B → Exec O B
  m >> n = m >>= λ _. n

module _ {O A : Type 0} where
  -- `if err != nil { return fmt.Errorf("…: %w", err) }`
  abbrev pub wrapping : String → Exec O A → Exec O A
  wrapping prefix m = attempt m (λ e. raise (wrap prefix e)) pure
