-- ===== src/Database/Lengths.antt =====
-- The lengths of random credentials.
use dbaas_controller.Prelude.{
  ℕ, zero, suc, ◌+◌, ◌-◌, ◌≤◌, ◌<◌, ◌≡◌, refl, pos, negsuc, some, [], ◌∷◌, ◌++◌, length, ltb, inl,
  inr, Bool-cases, arith,
}
use dbaas_controller.Go.{Result, ok, panic}
use dbaas_controller.Database.Credentials.{
  Bytes, Draws, chars, char_at, random_bytes, generate_random_string, minus, take, Credentials,
  with_prefix, shorten, create_user_info, create_mongodb_user_info,
}

-- The draws are indices of the characters.
abbrev pub InRange : Draws → Type 0
InRange draws = (i : ℕ) → draws i < 62

-- The call returns credentials of the greatest lengths.
pub record HasLengths (r : Result Credentials) : Type 0 where
  pub credentials : Credentials
  pub returned : r ≡ ok credentials
  pub username_length : length credentials.username ≡ 16
  pub password_length : length credentials.password ≡ 24
  pub dbname_length : length credentials.dbname ≡ 63

char_at-some : (i : ℕ) (cs : Bytes) → i < length cs → (c : ℕ) × (char_at i cs ≡ some c)
unfolding char_at
char_at-some i [] h = absurd (omega arith)
char_at-some zero (c ∷ cs) h = (c, refl)
char_at-some (suc i) (c ∷ cs) h = char_at-some i cs (omega arith)

random_bytes-length :
    (draws : Draws)
    → InRange draws
    → (at n : ℕ) → (bytes : Bytes) × (random_bytes draws at n ≡ ok bytes) × (length bytes ≡ n)
unfolding random_bytes
random_bytes-length draws range at zero = ([], refl, refl)
random_bytes-length draws range at (suc n) =
    let (c, e) = char_at-some (draws at) chars (range at) in
    let (bytes, f, l) = random_bytes-length draws range (suc at) n in
    (c ∷ bytes, rw e (rw f refl), omega arith)

length-append : (a b : Bytes) → length (a ++ b) ≡ length a + length b
length-append [] b = omega arith
length-append (x ∷ a) b = let k = length-append a b in omega arith

length-take : (n : ℕ) (bytes : Bytes) → length (take n bytes) ≤ n
length-take zero bytes = omega arith
length-take (suc n) [] = omega arith
length-take (suc n) (b ∷ bytes) = let k = length-take n bytes in omega arith

length-shorten : (bytes : Bytes) → length (shorten bytes) ≤ 50
unfolding shorten
length-shorten bytes = elim (Bool-cases (ltb 50 (length bytes))) [
  | inl long ↦ rw long (length-take 50 bytes)
  | inr short ↦ rw short (ground arith)
]

minus-pos : (a b : ℕ) → b ≤ a → minus a b ≡ pos (a - b)
unfolding minus
minus-pos a b h = ground arith

minus-negative : (a b : ℕ) → a < b → minus a b ≡ negsuc (b - a - 1)
unfolding minus
minus-negative a b h = ground arith

with_prefix-HasLengths :
    (draws : Draws)
    → InRange draws
    → (at : ℕ) (prefix : Bytes) → length prefix ≤ 62
    → HasLengths (with_prefix draws at prefix)
unfolding with_prefix generate_random_string
with_prefix-HasLengths draws range at prefix h =
    let (u, eu, lu) = random_bytes-length draws range at 16 in
    let (p, ep, lp) = random_bytes-length draws range (at + 16) 24 in
    let (r, er, lr) = random_bytes-length draws range (at + 16 + 24) (63 - suc (length prefix)) in
    let m = minus-pos 63 (suc (length prefix)) (omega arith) in
    let l = length-append prefix (95 ∷ r) in
    record {
      credentials = record { username = u; password = p; dbname = prefix ++ (95 ∷ r) };
      returned = rw m (rw eu (rw ep (rw er refl)));
      username_length = lu;
      password_length = lp;
      dbname_length = omega arith;
    }

-- If the draws are below 62, the credentials for a namespace of any length are made, with a user name
-- of 16 bytes, a password of 24 bytes and a database name of 63 bytes.
pub create_user_info-HasLengths :
    (draws : Draws)
    → InRange draws
    → (at : ℕ) (namespace : Bytes) → HasLengths (create_user_info draws at namespace)
unfolding create_user_info
create_user_info-HasLengths draws range at namespace =
    let short = length-shorten namespace in
    with_prefix-HasLengths draws range at (shorten namespace) (omega arith)

-- If the draws are below 62, the credentials of the MongoDB client for a namespace of more than 62 bytes
-- are not made: the client panics, as it asks for a random text of negative length.
pub create_mongodb_user_info-panic :
    (draws : Draws)
    → InRange draws
    → (at : ℕ) (namespace : Bytes) → 62 < length namespace
    → create_mongodb_user_info draws at namespace ≡ panic
unfolding create_mongodb_user_info with_prefix generate_random_string
create_mongodb_user_info-panic draws range at namespace h =
    let (u, eu, lu) = random_bytes-length draws range at 16 in
    let (p, ep, lp) = random_bytes-length draws range (at + 16) 24 in
    let m = minus-negative 63 (suc (length namespace)) (omega arith) in rw m (rw eu (rw ep refl))
