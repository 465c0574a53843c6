-- ===== src/Mongo/Options.antt =====
-- The cache of the clients: an entry for some options is found under them.
use dbaas_controller.Prelude.{
  ◌≡◌, refl, sym, Bool, true, false, ℤ, some-injective, ℕ, nat_eq, arith, int_eq, eq_refl, pos,
  negsuc, some,
}
use dbaas_controller.Go.{ok}
use dbaas_controller.Cluster.{Run, attempt}
use dbaas_controller.Mongo.{MongoDbClientOptions, client_options, same_options, same_flag}
use dbaas_controller.Mongo.Driver.{Driver, MongoDbImpl, find_client}
use dbaas_controller.Mongo.Client.{set_client, cached_client, get_client}
use dbaas_controller.Mongo.Users.{IsClientOf}

nat_eq_refl : (n : ℕ) → nat_eq n n ≡ true
nat_eq_refl n = ground arith

int_eq_refl : (a : ℤ) → int_eq a a ≡ true
int_eq_refl (pos n) = nat_eq_refl _
int_eq_refl (negsuc n) = nat_eq_refl _

same_flag_refl : (b : Bool) → same_flag b b ≡ true
same_flag_refl true = refl
same_flag_refl false = refl

same_options_refl : (mop : MongoDbClientOptions) → same_options mop mop ≡ true
unfolding same_options
same_options_refl mop = rw (eq_refl mop.name) (
    rw (eq_refl mop.hostname) (
      rw (int_eq_refl mop.port) (
        rw (eq_refl mop.username) (
          rw (eq_refl mop.password) (
            rw (eq_refl mop.mechanism)
              (rw (eq_refl mop.source) (rw (same_flag_refl mop.tls) refl)))))))

pub set_client-IsClientOf :
    {S : Type 0} (mop : MongoDbClientOptions) (w : MongoDbImpl S)
    → IsClientOf mop (set_client mop (client_options mop) w)
unfolding set_client find_client
set_client-IsClientOf mop w c e = sym (some-injective _ _ (rw (same_options_refl mop) at e))

-- A client that is in the cache is returned without a call.
pub get_client-cached :
    {S : Type 0} (driver : Driver S) (mop : MongoDbClientOptions) (s : Run (MongoDbImpl S))
    → find_client mop s.object.connection_cache ≡ some (client_options mop)
    → get_client driver mop s ≡ (ok (client_options mop), s)
unfolding get_client attempt cached_client
get_client-cached driver mop s c = rw c refl
