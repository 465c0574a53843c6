-- ===== src/Tests/Servers.antt =====
-- A toy server with a table of users, and the theorems about the database client at concrete input.
use dbaas_controller.Prelude.{
  ◌≡◌, refl, ◌≢◌, String, ◌==◌, ◌&&◌, Option, none, some, ◌⊎◌, inl, inr, Bool-cases, List, [], ◌∷◌,
  if◌then◌else◌,
}
use mathlib.Core.Path.{subst}
use dbaas_controller.Go.{Error, new_error, no_rows, Result, ok, err, panic}
use dbaas_controller.Database.{RelationalDatabaseInfo, mysql}
use dbaas_controller.Database.Server.{Sql}
use dbaas_controller.Database.Users.{insert_mysql, insert_ignore_mysql}
use dbaas_controller.Database.Registry.{Registry, enter, Same, my, handle_of, IsTable}
use dbaas_controller.Database.Databases.{
  create_mysql_database, create_mysql_user, grant_mysql, flush_privileges,
}
use dbaas_controller.Database.Created.{IsApart}

pub record Row : Type 0 where
  pub name : String
  pub namespace : String
  pub info : RelationalDatabaseInfo

abbrev pub find : List Row → Registry
find [] n m = none
find (r ∷ rs) n m =
    let rest = find rs n m in if r.name == n && r.namespace == m then some r.info else rest

abbrev duplicate : Error
duplicate = new_error "duplicate entry"

abbrev no_row : Error
no_row = record { message = "sql: no rows in result set"; kind = no_rows }

abbrev as_row : String → String → List String → Row
as_row n m (u ∷ p ∷ d ∷ []) = record {
  name = n;
  namespace = m;
  info = record { username = u; password = p; dbname = d };
}
as_row n m _ = record {
  name = n;
  namespace = m;
  info = record { username = ""; password = ""; dbname = "" };
}

abbrev insert_into :
    Option RelationalDatabaseInfo
    → Result (Unit {0})
    → Row
    → List Row
    → List Row × Result (Unit {0})
insert_into none taken r rows = (r ∷ rows, ok tt)
insert_into (some i) taken r rows = (rows, taken)

abbrev insert : List String → Result (Unit {0}) → List Row → List Row × Result (Unit {0})
insert (n ∷ m ∷ rest) taken rows = insert_into (find rows n m) taken (as_row n m rest) rows
insert _ taken rows = (rows, err duplicate)

abbrev found : Option RelationalDatabaseInfo → Result RelationalDatabaseInfo
found none = err no_row
found (some i) = ok i

abbrev select : List String → List Row → Result RelationalDatabaseInfo
select (n ∷ m ∷ []) rows = found (find rows n m)
select _ rows = err no_row

-- It executes the statements of the client for MySQL, and only these.
abbrev pub toy : Sql (List Row)
toy = record {
  open_db = λ type dsn. ok tt;
  ping = λ h rows. (rows, ok tt);
  exec = λ h statement args rows.
      if statement == insert_mysql
      then insert args (err duplicate) rows
      else if statement == insert_ignore_mysql
      then insert args (ok tt) rows
      else (rows, ok tt);
  query_text = λ h statement rows. (rows, ok "8.0");
  query_number = λ h statement rows. (rows, ok 1);
  query_user = λ h statement args rows. (rows, select args rows);
}

found-ok :
    (o : Option RelationalDatabaseInfo) (i : RelationalDatabaseInfo) → found o ≡ ok i → o ≡ some i
found-ok none i e = absurd (
    subst (λ (r : Result RelationalDatabaseInfo). elim r [ ok x ↦ ⊥ | err x ↦ Unit | panic ↦ ⊥ ]) e
      tt)
found-ok (some x) i e =
    subst
      (λ (r : Result RelationalDatabaseInfo). elim r [
        | ok y ↦ some x ≡ some y
        | err y ↦ Unit
        | panic ↦ Unit
      ])
      e refl

inserted :
    (o : Option RelationalDatabaseInfo) (n m : String) (i : RelationalDatabaseInfo)
    (rows : List Row)
    → find rows n m ≡ o
    → (insert_into o (err duplicate) (record { name = n; namespace = m; info = i }) rows).1 ≡ ok tt
    → (find rows n m ≡ none)
      × Same (enter n m i (find rows)) (
          find
            (insert_into o (err duplicate) (record { name = n; namespace = m; info = i }) rows).0)
inserted none n m i rows e h = (e, λ a b. refl)
inserted (some x) n m i rows e h =
    absurd (subst (λ (r : Result (Unit {0})). elim r [ ok y ↦ ⊥ | err y ↦ Unit | panic ↦ ⊥ ]) h tt)

not_inserted :
    (o : Option RelationalDatabaseInfo) (r : Row) (rows : List Row)
    → (insert_into o (err duplicate) r rows).1 ≢ ok tt
    → Same (find rows) (find (insert_into o (err duplicate) r rows).0)
not_inserted none r rows h = absurd (h refl)
not_inserted (some x) r rows h = λ a b. refl

ignored :
    (o : Option RelationalDatabaseInfo) (n m : String) (i : RelationalDatabaseInfo)
    (rows : List Row)
    → find rows n m ≡ o
    → Same
        (find rows)
        (find (insert_into o (ok tt) (record { name = n; namespace = m; info = i }) rows).0)
      ⊎ ((find rows n m ≡ none)
          × Same
              (enter n m i (find rows))
              (find (insert_into o (ok tt) (record { name = n; namespace = m; info = i }) rows).0))
ignored none n m i rows e = inr (e, λ a b. refl)
ignored (some x) n m i rows e = inl (λ a b. refl)

pub toy-IsTable : IsTable toy "server" my find
toy-IsTable = record {
  used = λ t a b. refl;
  reads = λ n m t a b. refl;
  selects = λ n m t i e. found-ok (find t n m) i e;
  inserts = λ n m i t e. inserted (find t n m) n m i t refl e;
  insert_fails = λ n m i t h. not_inserted (find t n m) _ t h;
  ignores = λ n m i t. ignored (find t n m) n m i t refl;
}

-- Without arguments no statement changes a row.
unchanged :
    (statement : String) (t : List Row)
    → Same (find t) (find (toy.exec (handle_of "server" mysql) statement [] t).0)
unchanged statement t = elim (Bool-cases (statement == insert_mysql)) [
  | inl e ↦ rw e (λ a b. refl)
  | inr e ↦ elim (Bool-cases (statement == insert_ignore_mysql)) [
    | inl f ↦ rw e (rw f (λ a b. refl))
    | inr f ↦ rw e (rw f (λ a b. refl))
  ]
]

pub toy-IsApart : IsApart toy "server" find my
toy-IsApart = record {
  creates = λ i user. (
    unchanged (create_mysql_database i),
    (
      unchanged (create_mysql_user i),
      (unchanged (grant_mysql i), (unchanged flush_privileges, tt)),
    ),
  );
  counts = λ statement t a b. refl;
}
