-- ===== src/Database/Credentials.antt =====
-- `generateRandomString` and `createUserInfo` of internal/database/database.go, and
-- `createMongoDBUserInfo` and `CreateMongoDBInfo` of internal/database/mongodb/mongodb.go. A Go string
-- is its bytes. The results of `rand.Intn` are a sequence that is given, and `at` is the place of the next.
use dbaas_controller.Prelude.{
  ℕ, zero, suc, ◌+◌, ◌-◌, ℤ, pos, negsuc, Option, none, some, List, [], ◌∷◌, ◌++◌, length, ltb, leb,
  if◌then◌else◌,
}
use dbaas_controller.Go.{Result, ok, err, panic}
use dbaas_controller.Database.{max_username_length, max_password_length, max_database_name_length}

abbrev pub Bytes : Type 0
Bytes = List ℕ

abbrev pub Draws : Type 0
Draws = ℕ → ℕ

-- Bytes that follow one another
abbrev pub run_of : ℕ → ℕ → Bytes
run_of first zero = []
run_of first (suc n) = first ∷ run_of (suc first) n

-- a to z, A to Z and 0 to 9
abbrev pub chars : Bytes
chars = run_of 97 26 ++ (run_of 65 26 ++ run_of 48 10)

-- `chars[i]`: out of range is a panic
unfoldable pub char_at : ℕ → Bytes → Option ℕ
char_at i [] = none
char_at zero (c ∷ cs) = some c
char_at (suc i) (c ∷ cs) = char_at i cs

-- The loop that fills the slice
unfoldable pub random_bytes : Draws → ℕ → ℕ → Result Bytes
unfolding char_at
random_bytes draws at zero = ok []
random_bytes draws at (suc n) = put (char_at (draws at) chars) (random_bytes draws (suc at) n)
  where
    put : Option ℕ → Result Bytes → Result Bytes
    put none rest = panic
    put (some c) (ok bytes) = ok (c ∷ bytes)
    put (some c) (err e) = err e
    put (some c) panic = panic

-- `make` panics at a negative length.
unfoldable pub generate_random_string : Draws → ℕ → ℤ → Result Bytes
unfolding random_bytes
generate_random_string draws at (pos n) = random_bytes draws at n
generate_random_string draws at (negsuc n) = panic

-- The difference of two lengths, as an int
unfoldable pub minus : ℕ → ℕ → ℤ
minus a b = if leb b a then pos (a - b) else negsuc (b - a - 1)

abbrev pub take : ℕ → Bytes → Bytes
take zero bytes = []
take (suc n) [] = []
take (suc n) (b ∷ bytes) = b ∷ take n bytes

-- The credentials, as bytes
pub record Credentials : Type 0 where
  pub username : Bytes
  pub password : Bytes
  pub dbname : Bytes

abbrev assemble : Bytes → Result Bytes → Result Bytes → Result Bytes → Result Credentials
assemble prefix (ok u) (ok p) (ok r) =
    ok (record { username = u; password = p; dbname = prefix ++ (95 ∷ r) })
assemble prefix _ _ _ = panic

-- Random credentials, where the name of the database begins with the prefix and `_`
unfoldable pub with_prefix : Draws → ℕ → Bytes → Result Credentials
unfolding generate_random_string minus
with_prefix draws at prefix =
    assemble prefix (generate_random_string draws at (pos max_username_length))
      (generate_random_string draws (at + max_username_length) (pos max_password_length))
      (generate_random_string draws (at + max_username_length + max_password_length)
        (minus max_database_name_length (suc (length prefix))))

-- `if len(dbnamePrefix) > 50 { dbnamePrefix = dbnamePrefix[:50] }`
unfoldable pub shorten : Bytes → Bytes
shorten namespace = if ltb 50 (length namespace) then take 50 namespace else namespace

unfoldable pub create_user_info : Draws → ℕ → Bytes → Result Credentials
unfolding shorten with_prefix
create_user_info draws at namespace = with_prefix draws at (shorten namespace)

unfoldable pub create_mongodb_info : Draws → ℕ → Bytes → Result Credentials
unfolding shorten with_prefix
create_mongodb_info draws at namespace = with_prefix draws at (shorten namespace)

-- It does not shorten the namespace.
unfoldable pub create_mongodb_user_info : Draws → ℕ → Bytes → Result Credentials
unfolding with_prefix
create_mongodb_user_info draws at namespace = with_prefix draws at namespace
