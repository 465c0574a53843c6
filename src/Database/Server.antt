-- ===== src/Database/Server.antt =====
-- What the client of internal/database/database.go works with: the package database/sql with its drivers
-- and the servers behind them, whose state is of any type, and the client's own state.
use dbaas_controller.Prelude.{
  ℕ, suc, String, Bool, true, false, List, [], ◌∷◌, Option, none, some, ◌<>◌,
}
use dbaas_controller.Go.{Error, no_rows, Result, ok, err, panic}
use dbaas_controller.Api.{Dict, lookup}
use dbaas_controller.Cluster.{
  Call, Exec, pure, call, call_object, get_object, put_object, lift, ◌>>=◌, ◌>>◌, wrapping,
}
use dbaas_controller.Database.{RelationalDatabaseInfo}
use dbaas_controller.Database.Credentials.{Draws, Credentials, create_user_info}
use dbaas_controller.Database.Bytes.{bytes_of, text_of}

-- An open `*sql.DB`
pub record Handle : Type 0 where
  pub db_type : String
  pub dsn : String

-- `sql.Open`, `PingContext`, `ExecContext`, and `QueryRowContext` with the `Scan` of a text, of a number, and
-- of the three columns of a user
pub record Sql (S : Type 0) : Type 0 where
  pub open_db : String → String → Result (Unit {0})
  pub ping : Handle → S → S × Result (Unit {0})
  pub exec : Handle → String → List String → S → S × Result (Unit {0})
  pub query_text : Handle → String → S → S × Result String
  pub query_number : Handle → String → S → S × Result ℕ
  pub query_user : Handle → String → List String → S → S × Result RelationalDatabaseInfo

-- `connectionCache`, the servers, and the random numbers: one sequence for each use
pub record World (S : Type 0) : Type 0 where
  pub cache : Dict Handle
  pub servers : S
  pub draws : ℕ → Draws
  pub used : ℕ

abbrev pub is_no_rows : Error → Bool
is_no_rows e = elim e.kind [ no_rows ↦ true | _ ↦ false ]

abbrev info_of : Credentials → RelationalDatabaseInfo
info_of c = record {
  username = text_of c.username;
  password = text_of c.password;
  dbname = text_of c.dbname;
}

abbrev pub info_result : Result Credentials → Result RelationalDatabaseInfo
info_result (ok c) = ok (info_of c)
info_result (err e) = err e
info_result panic = panic

module _ {S : Type 0} where
  unfoldable pub set_cache : String → Handle → World S → World S
  set_cache dsn h w = record w { cache = (dsn, h) ∷ w.cache }

  -- `createUserInfo`, with the next random numbers
  unfoldable pub fresh_info : String → Exec (World S) RelationalDatabaseInfo
  fresh_info namespace = do
    w ← get_object
    put_object (record w { used = suc w.used })
    lift (info_result (create_user_info (w.draws w.used) 0 (bytes_of namespace)))

  module _ (sql : Sql S) where
    -- A call that the servers answer
    abbrev pub serve : {A : Type 0} → Call → (S → S × Result A) → Exec (World S) A
    serve c answer =
        call_object (λ w. c) (λ h w. let (s, r) = answer w.servers in (record w { servers = s }, r))

    abbrev pub exec : Handle → String → List String → Exec (World S) (Unit {0})
    exec h statement args = serve (Call.sql_exec h.dsn statement args) (sql.exec h statement args)

    abbrev pub query_text : Handle → String → Exec (World S) String
    query_text h statement = serve (Call.sql_query h.dsn statement []) (sql.query_text h statement)

    abbrev pub query_number : Handle → String → Exec (World S) ℕ
    query_number h statement =
        serve (Call.sql_query h.dsn statement []) (sql.query_number h statement)

    abbrev pub query_user : Handle → String → List String → Exec (World S) RelationalDatabaseInfo
    query_user h statement args =
        serve (Call.sql_query h.dsn statement args) (sql.query_user h statement args)

    unfoldable pub open_connection : String → String → Exec (World S) Handle
    open_connection dsn type = do
      wrapping ("failed to open " <> type <> " database: ")
          (call (Call.sql_open type dsn) (λ g. sql.open_db type dsn))
      let h : Handle = record { db_type = type; dsn = dsn }
      w ← get_object
      put_object (set_cache dsn h w)
      pure h

    unfoldable pub cached : Option Handle → String → String → Exec (World S) Handle
    cached none dsn type = open_connection dsn type
    cached (some h) dsn type = pure h

    unfoldable pub get_connection : String → String → Exec (World S) Handle
    unfolding lookup
    get_connection dsn type = do w ← get_object; cached (lookup dsn w.cache) dsn type
