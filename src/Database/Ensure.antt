-- ===== src/Database/Ensure.antt =====
-- `GetDatabaseInfo` and `SetDatabaseInfo` refine the registry of the credentials.
use dbaas_controller.Prelude.{
  ◌≡◌, ◌≢◌, refl, sym, ap, ◌∙◌, String, ◌==◌, ◌&&◌, Option, none, some, inl, inr, [], ◌∷◌,
  if◌then◌else◌, eq_refl,
}
use mathlib.Core.Path.{subst}
use dbaas_controller.Go.{Error, Result, ok, err, panic, Result-cases}
use dbaas_controller.Api.{lookup}
use dbaas_controller.Cluster.{Call, Run, Exec, raise, attempt, wrapping}
use dbaas_controller.Cluster.Triple.{
  Assertion, After, Triple, Keeps, After-const, Triple-attempt, Triple-if, Triple-wrapping,
  Triple-pure, Triple-raise,
}
use dbaas_controller.Database.{RelationalDatabaseInfo}
use dbaas_controller.Database.Server.{
  Handle, Sql, World, is_no_rows, serve, exec, query_user, set_cache, fresh_info, info_result,
  open_connection, cached, get_connection,
}
use dbaas_controller.Database.Users.{
  register, find_user, database_info_mysql, database_info_postgres, get_database_info, row_of,
}
use dbaas_controller.Database.Registry.{
  Registry, Same, Ensured, known, entered, Dialect, my, pg, select_of, insert_of, handle_of,
  IsTable, IsFor,
}

err-is-not-ok : {e : Error} → err e ≡ ok (tt {0}) → ⊥
err-is-not-ok e =
    subst (λ (r : Result (Unit {0})). elim r [ ok u ↦ ⊥ | err x ↦ Unit | panic ↦ ⊥ ]) e tt

panic-is-not-ok : panic ≡ ok (tt {0}) → ⊥
panic-is-not-ok e =
    subst (λ (r : Result (Unit {0})). elim r [ ok u ↦ ⊥ | err x ↦ ⊥ | panic ↦ Unit ]) e tt

module _ {S : Type 0} (sql : Sql S) (dsn : String) {type : String} (d : Dialect type)
    (rows : S → Registry) (table : IsTable sql dsn d rows) where
  -- The registry is as it was.
  pub record Unchanged (R : Registry) (s : Run (World S)) : Type 0 where
    pub cached : IsFor dsn type s.object
    pub same : Same R (rows s.object.servers)

  pub record HasEnsured (R : Registry) (n m : String) (i : RelationalDatabaseInfo)
      (s : Run (World S)) : Type 0 where
    pub cached : IsFor dsn type s.object
    pub ensured : Ensured R n m i (rows s.object.servers)

  module _ (R : Registry) where
    -- A statement that changes no row
    pub serve-Unchanged :
        {A : Type 0} (c : Call) (answer : S → S × Result A)
        → ((t : S) → Same (rows t) (rows (answer t).0))
        → Keeps (Unchanged R) (serve sql c answer)
    unfolding attempt
    serve-Unchanged c answer keeps = record {
      at = λ s k.
          After-const (Unchanged R) (answer s.object.servers).1 _
            (record { cached = k.cached; same = λ a b. keeps s.object.servers a b ∙ k.same a b });
    }

    fresh_info-Unchanged : (namespace : String) → Keeps (Unchanged R) (fresh_info {S = S} namespace)
    unfolding fresh_info attempt
    fresh_info-Unchanged namespace = record {
      at = λ s k.
          After-const (Unchanged R) (info_result _) _ (record { cached = k.cached; same = k.same });
    }

    abbrev Connected : Handle → Assertion (World S)
    Connected h s = Unchanged R s × (h ≡ handle_of dsn type)

    set_cache-IsFor : (w : World S) → IsFor dsn type (set_cache dsn (handle_of dsn type) w)
    unfolding set_cache lookup
    set_cache-IsFor w h e =
        subst (λ (o : Option Handle). elim o [ none ↦ Unit | some x ↦ x ≡ handle_of dsn type ])
          (rw (eq_refl dsn) at e) refl

    cached-Connected :
        (o : Option Handle) (s : Run (World S))
        → Unchanged R s
        → lookup dsn s.object.cache ≡ o
        → After Connected (Unchanged R) (cached sql o dsn type s).0 (cached sql o dsn type s).1
    unfolding cached open_connection attempt set_cache
    cached-Connected (some h) s k e = (k, k.cached h e)
    cached-Connected none s k e = elim (Result-cases (sql.open_db type dsn)) [
      | inl (u, o) ↦ rw o (record { cached = set_cache-IsFor s.object; same = k.same }, refl)
      | inr (inl (x, o)) ↦ rw o (record { cached = k.cached; same = k.same })
      | inr (inr o) ↦ rw o (record { cached = k.cached; same = k.same })
    ]

    get_connection-Connected :
        Triple (Unchanged R) (get_connection sql dsn type) Connected (Unchanged R)
    unfolding get_connection attempt
    get_connection-Connected = record { at = λ s k. cached-Connected _ s k refl }

    pub connected-step :
        {A : Type 0} {post : A → Assertion (World S)} {fail : Assertion (World S)} (prefix : String)
        (next : Handle → Exec (World S) A)
        → ((s : Run (World S)) → Unchanged R s → fail s)
        → Triple (Unchanged R) (next (handle_of dsn type)) post fail
        → Triple
            (Unchanged R)
            (attempt (wrapping prefix (get_connection sql dsn type)) raise next)
            post
            fail
    connected-step {post = post} {fail = fail} prefix next up k =
        Triple-attempt Connected (Unchanged R) _ _ _
          (Triple-wrapping prefix _ get_connection-Connected) (λ e. Triple-raise e up)
          (λ h. record {
            at = λ s (c, e).
                subst (λ x. After post fail (next x s).0 (next x s).1) (sym e) (k.at s c);
          })
          up

    pub connected-Triple :
        {A : Type 0} {post : A → Assertion (World S)} (prefix : String)
        (next : Handle → Exec (World S) A)
        → Triple (Unchanged R) (next (handle_of dsn type)) post (Unchanged R)
        → Triple
            (Unchanged R)
            (attempt (wrapping prefix (get_connection sql dsn type)) raise next)
            post
            (Unchanged R)
    connected-Triple prefix next k = connected-step prefix next (λ s c. c) k

    module _ (n m : String) where
      insert-HasEnsured :
          (i : RelationalDatabaseInfo)
          → Triple
              (Unchanged R)
              (exec sql (handle_of dsn type) (insert_of d) (row_of n m i))
              (λ _. HasEnsured R n m i)
              (Unchanged R)
      unfolding attempt
      insert-HasEnsured i = record {
        at = λ s k.
            elim (Result-cases
              (sql.exec (handle_of dsn type) (insert_of d) (row_of n m i) s.object.servers).1) [
                | inl (u, o) ↦ rw o (record {
                  cached = k.cached;
                  ensured =
                      let (free, full) = table.inserts n m i s.object.servers o in
                      entered (sym (k.same n m) ∙ free) (λ a b.
                        full a b
                        ∙ ap
                            (λ (x : Option RelationalDatabaseInfo).
                              if n == a && m == b then some i else x)
                            (k.same a b));
                })
                | inr (inl (x, o)) ↦ rw o (record {
                  cached = k.cached;
                  same = failing i s k (λ e. err-is-not-ok (sym o ∙ e));
                })
                | inr (inr o) ↦ rw o (record {
                  cached = k.cached;
                  same = failing i s k (λ e. panic-is-not-ok (sym o ∙ e));
                })
              ];
      }
        where
          failing :
              (i : RelationalDatabaseInfo) (s : Run (World S))
              → Unchanged R s
              → (sql.exec (handle_of dsn type) (insert_of d) (row_of n m i) s.object.servers).1
                ≢ ok tt
              → Same R (
                  rows
                    (sql.exec (handle_of dsn type) (insert_of d) (row_of n m i) s.object.servers).0)
          failing i s k bad a b = table.insert_fails n m i s.object.servers bad a b ∙ k.same a b

      register-HasEnsured :
          Triple
            (Unchanged R)
            (register sql (handle_of dsn type) (insert_of d) n m)
            (HasEnsured R n m)
            (Unchanged R)
      unfolding register
      register-HasEnsured =
          Triple-attempt (λ _. Unchanged R) (Unchanged R) _ _ _ (fresh_info-Unchanged m)
            (λ e. Triple-raise e (λ s c. c))
            (λ i.
              Triple-attempt (λ _. HasEnsured R n m i) (Unchanged R) _ _ _
                (Triple-wrapping _ _ (insert-HasEnsured i)) (λ e. Triple-raise e (λ s c. c))
                (λ _. Triple-pure i (λ s c. c)) (λ s c. c))
            (λ s c. c)

      select-HasEnsured :
          Triple
            (Unchanged R)
            (query_user sql (handle_of dsn type) (select_of d) (n ∷ m ∷ []))
            (HasEnsured R n m)
            (Unchanged R)
      unfolding attempt
      select-HasEnsured = record {
        at = λ s k.
            let same : Same R (
                rows
                  (sql.query_user (handle_of dsn type) (select_of d) (n ∷ m ∷ [])
                    s.object.servers).0) =
              λ a b. table.reads n m s.object.servers a b ∙ k.same a b in
            elim (Result-cases
              (sql.query_user (handle_of dsn type) (select_of d) (n ∷ m ∷ []) s.object.servers).1) [
                | inl (i, o) ↦ rw o (record {
                  cached = k.cached;
                  ensured = known (sym (k.same n m) ∙ table.selects n m s.object.servers i o) same;
                })
                | inr (inl (x, o)) ↦ rw o (record { cached = k.cached; same = same })
                | inr (inr o) ↦ rw o (record { cached = k.cached; same = same })
              ];
      }

      find_user-HasEnsured :
          Triple
            (Unchanged R)
            (find_user sql (handle_of dsn type) type (select_of d) (insert_of d) n m)
            (HasEnsured R n m)
            (Unchanged R)
      unfolding find_user
      find_user-HasEnsured =
          Triple-attempt (HasEnsured R n m) (Unchanged R) _ _ _ select-HasEnsured
            (λ e.
              Triple-if (is_no_rows e) _ _ (λ _. register-HasEnsured)
                (λ _. Triple-raise _ (λ s c. c)))
            (λ i. Triple-pure i (λ s c. c)) (λ s c. c)

module _ {S : Type 0} (sql : Sql S) (dsn : String) (rows : S → Registry) (R : Registry)
    (n m : String) where
  pub database_info-HasEnsured :
      {type : String} (d : Dialect type) (table : IsTable sql dsn d rows)
      → Triple
          (Unchanged sql dsn d rows table R)
          (get_database_info sql dsn n m type)
          (HasEnsured sql dsn d rows table R n m)
          (Unchanged sql dsn d rows table R)
  unfolding get_database_info database_info_mysql database_info_postgres
  database_info-HasEnsured my table = connected-Triple sql dsn my rows table R _ _ (
      Triple-attempt (λ _. Unchanged sql dsn my rows table R) (Unchanged sql dsn my rows table R) _
        _ _ (Triple-wrapping _ _ (serve-Unchanged sql dsn my rows table R _ _ table.used))
        (λ e. Triple-raise e (λ s c. c)) (λ _. find_user-HasEnsured sql dsn my rows table R n m)
        (λ s c. c))
  database_info-HasEnsured pg table =
      connected-Triple sql dsn pg rows table R _ _
        (find_user-HasEnsured sql dsn pg rows table R n m)
