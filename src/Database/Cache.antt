-- ===== src/Database/Cache.antt =====
-- The cache of the connections: each entry is a connection to its key.
use dbaas_controller.Prelude.{
  ◌≡◌, refl, String, ◌==◌, inl, inr, Bool-cases, Option, none, some, eq_iff,
}
use mathlib.Core.Path.{subst}
use dbaas_controller.Go.{Result}
use dbaas_controller.Api.{lookup}
use dbaas_controller.Cluster.{Call, Run, Exec, History, raise, attempt, wrapping, get_object, call}
use dbaas_controller.Cluster.Triple.{
  Assertion, After, Triple, Keeps, Keeps-attempt, Triple-attempt, Triple-wrapping, Triple-pure,
  Triple-raise, After-const,
}
use dbaas_controller.Cluster.Order.{Only, added_one}
use dbaas_controller.Database.Server.{
  info_result, Handle, Sql, World, serve, set_cache, fresh_info, open_connection, cached,
  get_connection,
}

-- Every call to a server goes to the dsn.
abbrev pub AtDsn : String → Call → Type 0
AtDsn dsn (Call.sql_open type d) = d ≡ dsn
AtDsn dsn (Call.sql_ping d) = d ≡ dsn
AtDsn dsn (Call.sql_exec d statement args) = d ≡ dsn
AtDsn dsn (Call.sql_query d statement args) = d ≡ dsn
AtDsn dsn _ = Unit

-- The connection in the cache for a dsn is one to that dsn.
abbrev pub IsCache : {S : Type 0} → World S → Type 0
IsCache w = (d : String) (h : Handle) → lookup d w.cache ≡ some h → h.dsn ≡ d

module _ {S : Type 0} (dsn : String) (g : History) where
  pub record Talks (s : Run (World S)) : Type 0 where
    pub cached : IsCache s.object
    pub only : Only (AtDsn dsn) g s

set_cache-IsCache :
    {S : Type 0} (dsn type : String) (w : World S)
    → IsCache w
    → IsCache (set_cache dsn (record { db_type = type; dsn = dsn }) w)
unfolding set_cache lookup
set_cache-IsCache dsn type w c d h e = elim (Bool-cases (dsn == d)) [
  | inl same ↦
      subst (λ (o : Option Handle). elim o [ none ↦ Unit | some x ↦ x.dsn ≡ d ]) (rw same at e)
        ((eq_iff dsn d).0 same)
  | inr other ↦ c d h (rw other at e)
]

module _ {S : Type 0} (sql : Sql S) (dsn : String) (g : History) where
  pub serve-Talks :
      {A : Type 0} (c : Call) (answer : S → S × Result A)
      → AtDsn dsn c
      → Keeps (Talks dsn g) (serve sql c answer)
  unfolding attempt
  serve-Talks c answer p = record {
    at = λ s k.
        After-const (Talks dsn g) (answer s.object.servers).1 _
          (record { cached = k.cached; only = added_one _ p k.only });
  }

  pub get_object-Talks : Keeps (Talks {S = S} dsn g) get_object
  unfolding attempt
  get_object-Talks = record { at = λ s k. k }

  open_call-Talks :
      (type : String)
      → Keeps (Talks {S = S} dsn g) (call (Call.sql_open type dsn) (λ h. sql.open_db type dsn))
  unfolding attempt
  open_call-Talks type = record {
    at = λ s k.
        After-const (Talks dsn g) (sql.open_db type dsn) _
          (record { cached = k.cached; only = added_one _ refl k.only });
  }

  abbrev TalksWith : Handle → Assertion (World S)
  TalksWith h s = Talks dsn g s × (h.dsn ≡ dsn)

  open_connection-TalksWith :
      (type : String) → Triple (Talks dsn g) (open_connection sql dsn type) TalksWith (Talks dsn g)
  unfolding open_connection attempt
  open_connection-TalksWith type =
      Triple-attempt (λ _. Talks dsn g) (Talks dsn g) _ _ _
        (Keeps-attempt _ _ _ (open_call-Talks type) (λ e. Triple-raise _ (λ s k. k))
          (λ x. Triple-pure x (λ s k. k)))
        (λ e. Triple-raise e (λ s k. k))
        (λ _. record {
          at = λ s k. (
            record {
              cached = set_cache-IsCache dsn type s.object k.cached;
              only = record { added = k.only.added; grows = k.only.grows; calls = k.only.calls };
            },
            refl,
          );
        })
        (λ s k. k)

  cached-TalksWith :
      (o : Option Handle) (type : String) (s : Run (World S))
      → Talks dsn g s
      → lookup dsn s.object.cache ≡ o
      → After TalksWith (Talks dsn g) (cached sql o dsn type s).0 (cached sql o dsn type s).1
  unfolding cached attempt
  cached-TalksWith none type s k e = (open_connection-TalksWith type).at s k
  cached-TalksWith (some h) type s k e = (k, k.cached dsn h e)

  get_connection-TalksWith :
      (type : String) → Triple (Talks dsn g) (get_connection sql dsn type) TalksWith (Talks dsn g)
  unfolding get_connection attempt
  get_connection-TalksWith type = record { at = λ s k. cached-TalksWith _ type s k refl }

  -- What follows a connection may rely on its dsn.
  pub connected-Talks :
      {A : Type 0} (prefix type : String) (next : Handle → Exec (World S) A)
      → ((h : Handle) → h.dsn ≡ dsn → Keeps (Talks dsn g) (next h))
      → Keeps (Talks dsn g) (attempt (wrapping prefix (get_connection sql dsn type)) raise next)
  connected-Talks prefix type next k =
      Triple-attempt TalksWith (Talks dsn g) _ _ _
        (Triple-wrapping prefix _ (get_connection-TalksWith type)) (λ e. Triple-raise e (λ s t. t))
        (λ h. record { at = λ s (t, e). (k h e).at s t }) (λ s t. t)

  pub fresh_info-Talks : (namespace : String) → Keeps (Talks dsn g) (fresh_info {S = S} namespace)
  unfolding fresh_info attempt
  fresh_info-Talks namespace = record {
    at = λ s k. After-const (Talks dsn g) (info_result _) _ (record {
      cached = k.cached;
      only = record { added = k.only.added; grows = k.only.grows; calls = k.only.calls };
    });
  }
