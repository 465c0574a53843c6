-- ===== src/Request/Info.antt =====
-- `dbInfo`, what goes into the secret of a request, and the seed secret.
use dbaas_controller.Prelude.{String, ◌<>◌, none, some, [], ◌∷◌, ℤ, pos}
use dbaas_controller.Prelude.Texts.{dashes_to_underscores, to_upper, itoa, atoi, atoi_fault}
use dbaas_controller.Go.{Error, Result, ok, err, panic, new_error, wrap}
use dbaas_controller.Api.{Dict, lookup}

pub record DbInfo : Type 0 where
  pub database : String
  pub host_name : String
  pub user_name : String
  pub password : String
  pub port : ℤ

-- `dbInfo{}`
abbrev pub empty_info : DbInfo
empty_info = record { database = ""; host_name = ""; user_name = ""; password = ""; port = pos 0 }

-- The prefix is raised to capitals where it is made and once more in each key.
unfoldable pub get_secret_data : DbInfo → String → String → Dict String
get_secret_data m name service_name =
    let upper_name = to_upper (dashes_to_underscores name) in
    (to_upper upper_name <> "_USERNAME", m.user_name)
    ∷ (to_upper upper_name <> "_PASSWORD", m.password)
    ∷ (to_upper upper_name <> "_DATABASE", m.database)
    ∷ (to_upper upper_name <> "_HOST", service_name)
    ∷ (to_upper upper_name <> "_PORT", itoa m.port)
    ∷ []

-- `if val, ok := secret.Data[key]; !ok { return nil, errors.New(missing) }`
abbrev pub required : String → String → Dict String → (String → Result DbInfo) → Result DbInfo
required key missing secret next = elim (lookup key secret) [
  | none ↦ err (new_error missing)
  | some val ↦ next val
]

abbrev port_error : (String → String) → String → Error
port_error quote val =
    wrap "failed to convert port to int: "
      (new_error ("strconv.Atoi: parsing " <> quote val <> ": " <> atoi_fault val))

-- `strconv.Atoi(string(val))` with its error wrapped
unfoldable pub convert_port : (String → String) → String → Result ℤ
unfolding atoi atoi_fault wrap
convert_port quote val = elim (atoi val) [ none ↦ err (port_error quote val) | some port ↦ ok port ]

abbrev pub with_port : DbInfo → Result ℤ → Result DbInfo
with_port m (ok port) = ok (record m { port = port })
with_port m (err e) = err e
with_port m panic = panic

unfoldable pub db_info_from_seed : (String → String) → Dict String → Result DbInfo
unfolding lookup convert_port
db_info_from_seed quote secret =
    required "database" "missing database key in seed secret" secret λ database.
      required "hostname" "missing hostname key in seed secret" secret λ host_name.
        required "username" "missing username key in seed secret" secret λ user_name.
          required "password" "missing password key in seed secret" secret λ password.
            required "port" "missing port key in seed secret" secret λ val.
              with_port
                (record {
                  database = database;
                  host_name = host_name;
                  user_name = user_name;
                  password = password;
                  port = pos 0;
                })
                (convert_port quote val)
