-- ===== src/Request/Safety.antt =====
-- What a reconciliation can never do, whatever the environment answers.
use dbaas_controller.Prelude.{
  ◌≡◌, Bool, true, false, ◌&&◌, inl, inr, Bool-cases, ◌∷◌, ◌++◌, ap, All, arith,
}
use dbaas_controller.Go.{ok}
use dbaas_controller.Api.{NamespacedName, DatabaseRequest}
use dbaas_controller.Cluster.{Call, Env, Event, History, Run, attempt, done}
use dbaas_controller.Cluster.Triple.{Keeps, Keeps-run}
use dbaas_controller.Cluster.Order.{Only, Only-refl}
use dbaas_controller.Request.Faults.{reconcile_counter}
use dbaas_controller.Request.Deletion.{drops, delete_resources, delete_database}
use dbaas_controller.Request.Reconcile.{
  lock_key, request_labels, is_deleted, reconcile_live, reconcile_fetched, reconcile_locked,
  with_lock, reconcile,
}
use dbaas_controller.Request.Frame.{reconcile_locked-Only, reconcile-Only}
use dbaas_controller.Request.LiveCalls.{reconcile_live-Only}
use dbaas_controller.Request.DeletionCalls.{delete_resources-Only, delete_database-Only}

-- Not one of the calls that provide for a request. (`DropDatabase` is none of them, though it looks up
-- the credentials that it drops and enters new ones if there are none.)
abbrev pub NotCreate : Call → Type 0
NotCreate (Call.create_database dsn name namespace type username) = ⊥
NotCreate (Call.set_database_info dsn name namespace type i) = ⊥
NotCreate (Call.get_database_info dsn name namespace type) = ⊥
NotCreate (Call.create_service s) = ⊥
NotCreate (Call.update_service s) = ⊥
NotCreate (Call.create_secret s) = ⊥
NotCreate (Call.update_secret s) = ⊥
NotCreate _ = Unit

-- Neither a lock nor an unlock
abbrev pub NotLock : Call → Type 0
NotLock (Call.lock key) = ⊥
NotLock (Call.unlock key) = ⊥
NotLock _ = Unit

-- Not a call that drops a database
abbrev pub NotDrop : Call → Type 0
NotDrop (Call.drop_database dsn name namespace type) = ⊥
NotDrop _ = Unit

-- A call without an answer
abbrev pub quiet : Call → Event
quiet c = record { call = c; outcome = done }

-- The history after the counter and the lock
abbrev pub entered : NamespacedName → History → History
entered key h =
    quiet (Call.lock (lock_key key))
    ∷ quiet (Call.inc_counter reconcile_counter (request_labels key))
    ∷ h

-- The database of the request is to be dropped now.
abbrev pub drops_now : DatabaseRequest → Bool
drops_now o = is_deleted o.meta.deletion_timestamp && drops o

module _ (env : Env) {h : History} where
  live-NotDrop : Keeps (Only NotDrop h) (reconcile_live env)
  live-NotDrop = reconcile_live-Only env (omega arith) (omega arith) (omega arith)

  resources-NotDrop : Keeps (Only NotDrop h) (delete_resources env)
  resources-NotDrop = delete_resources-Only env (omega arith) (omega arith) (omega arith)

  deleted-NotDrop :
      (s : Run DatabaseRequest)
      → drops s.object ≡ false
      → Only NotDrop h s
      → Only NotDrop h (delete_database env s).1
  unfolding delete_database attempt
  deleted-NotDrop s kept k = rw kept (Keeps-run (Only NotDrop h) _ resources-NotDrop s k)

  fetched-NotDrop :
      (s : Run DatabaseRequest)
      → drops_now s.object ≡ false
      → Only NotDrop h s
      → Only NotDrop h (reconcile_fetched env s).1
  unfolding reconcile_fetched attempt
  fetched-NotDrop s kept k = elim (Bool-cases (is_deleted s.object.meta.deletion_timestamp)) [
    | inl d ↦ rw d (deleted-NotDrop s (rw d at kept) k)
    | inr live ↦ rw live (Keeps-run (Only NotDrop h) _ live-NotDrop s k)
  ]

  fetched-NotCreate :
      (s : Run DatabaseRequest)
      → is_deleted s.object.meta.deletion_timestamp ≡ true
      → Only NotCreate h s
      → Only NotCreate h (reconcile_fetched env s).1
  unfolding reconcile_fetched attempt
  fetched-NotCreate s d k = rw d (
      Keeps-run (Only NotCreate h) _
        (delete_database-Only env (omega arith) (omega arith) (omega arith) (omega arith)
          (omega arith))
        s k)

  fetched-NotLock :
      (s : Run DatabaseRequest) → Only NotLock h s → Only NotLock h (reconcile_fetched env s).1
  unfolding reconcile_fetched attempt
  fetched-NotLock s k = elim (Bool-cases (is_deleted s.object.meta.deletion_timestamp)) [
    | inl d ↦ rw d (
        Keeps-run (Only NotLock h) _
          (delete_database-Only env (omega arith) (omega arith) (omega arith) (omega arith)
            (omega arith))
          s k)
    | inr live ↦ rw live (
        Keeps-run (Only NotLock h) _
          (reconcile_live-Only env (omega arith) (omega arith) (omega arith)) s k)
  ]

module _ (env : Env) where
  locked-NotLock :
      (key : NamespacedName) (s : Run DatabaseRequest)
      → Only NotLock s.history (reconcile_locked env key s).1
  locked-NotLock key s =
      reconcile_locked-Only env key (omega arith) tt (λ g t _ k. fetched-NotLock env t k) s
        (Only-refl NotLock s)

  -- A reconciliation drops no database, unless the request that the cluster returns is being deleted,
  -- has no seed and asks for the drop.
  pub reconcile-NotDrop :
      (key : NamespacedName)
      → ((g : History) (o : DatabaseRequest) → env.get_request g key ≡ ok o → drops_now o ≡ false)
      → (s : Run DatabaseRequest) → Only NotDrop s.history (reconcile env key s).1
  reconcile-NotDrop key kept s =
      reconcile-Only env key (omega arith) (λ g t found k. fetched-NotDrop env t (kept g _ found) k)
        s (Only-refl NotDrop s)

  -- The reconciliation of a request that is being deleted calls neither `CreateDatabase` nor
  -- `GetDatabaseInfo` nor `SetDatabaseInfo`, and creates and updates no service and no secret.
  pub reconcile-NotCreate :
      (key : NamespacedName)
      → ((g : History) (o : DatabaseRequest)
          → env.get_request g key ≡ ok o
          → is_deleted o.meta.deletion_timestamp ≡ true)
      → (s : Run DatabaseRequest) → Only NotCreate s.history (reconcile env key s).1
  reconcile-NotCreate key deleted s =
      reconcile-Only env key (omega arith)
        (λ g t found k. fetched-NotCreate env t (deleted g _ found) k) s (Only-refl NotCreate s)

  -- A reconciliation makes its calls in one critical section: it counts itself, locks the key of the
  -- request, and ends, also in an error or a panic, by the unlock of that key. No call in between
  -- locks or unlocks.
  pub reconcile_in_lock :
      (key : NamespacedName) (s : Run DatabaseRequest)
      → (body : History) × ((reconcile env key s).1.history
          ≡ quiet (Call.unlock (lock_key key)) ∷ (body ++ entered key s.history))
        × All (λ e. NotLock e.call) body
  unfolding reconcile with_lock attempt
  reconcile_in_lock key s =
      let k = locked-NotLock key (record s { history = entered key s.history }) in
      (k.added, ap (λ (l : History). quiet (Call.unlock (lock_key key)) ∷ l) k.grows, k.calls)
