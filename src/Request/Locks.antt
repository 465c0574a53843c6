-- ===== src/Request/Locks.antt =====
-- `lock` and `unlock` of internal/controller/databaserequest_controller.go, and the reconciliations that run
-- in parallel, each of which locks the key of its request.
use dbaas_controller.Prelude.{
  ℕ, String, Bool, true, false, Option, none, some, [], ◌∷◌, ◌≡◌, nat_eq, if◌then◌else◌,
}
use dbaas_controller.Go.{Result, ok, panic}
use dbaas_controller.Api.{Dict, NamespacedName, lookup}
use dbaas_controller.Request.Reconcile.{lock_key}

-- `Locks`: the mutexes by their keys, and whether they are locked; the newest entry of a key counts.
abbrev pub Locks : Type 0
Locks = Dict Bool

abbrev pub stored : Option Bool → String → Locks → Locks
stored none key locks = (key, false) ∷ locks
stored (some b) key locks = locks

-- `LoadOrStore` with a new mutex
unfoldable pub load_or_store : String → Locks → Locks
unfolding lookup
load_or_store key locks = stored (lookup key locks) key locks

abbrev pub locked : Option Bool → String → Locks → Option Locks
locked (some false) key locks = some ((key, true) ∷ locks)
locked _ key locks = none

-- `Lock` of the mutex: without a result while it is locked
unfoldable pub lock_mutex : String → Locks → Option Locks
unfolding lookup
lock_mutex key locks = locked (lookup key locks) key locks

abbrev pub unlocked : Option Bool → String → Locks → Result Locks
unlocked none key locks = ok locks
unlocked (some true) key locks = ok ((key, false) ∷ locks)
unlocked (some false) key locks = panic

-- `unlock`: the unlock of a mutex that is not locked is fatal.
unfoldable pub unlock : String → Locks → Result Locks
unfolding lookup
unlock key locks = unlocked (lookup key locks) key locks

-- Where a worker of the controller stands: in no reconciliation, in `lock`, after `LoadOrStore`, or between
-- `lock` and `unlock`
pub data Phase : Type 0 where
  idle : Phase
  waiting : NamespacedName → Phase
  inside : NamespacedName → Phase

pub record System : Type 0 where
  pub locks : Locks
  pub workers : ℕ → Phase

unfoldable pub put_worker : ℕ → Phase → (ℕ → Phase) → ℕ → Phase
put_worker i p workers j = if nat_eq i j then p else workers j

abbrev pub move : ℕ → Phase → Locks → System → System
move i p locks s = record { locks = locks; workers = put_worker i p s.workers }

-- One worker goes on: it begins a reconciliation of any request, takes its mutex, or ends.
pub data Step (s : System) : System → Type 0 where
  begin :
      (i : ℕ) (key : NamespacedName)
      → s.workers i ≡ idle
      → Step s (move i (waiting key) (load_or_store (lock_key key) s.locks) s)
  take :
      (i : ℕ) (key : NamespacedName) (locks : Locks)
      → s.workers i ≡ waiting key
      → lock_mutex (lock_key key) s.locks ≡ some locks
      → Step s (move i (inside key) locks s)
  leave :
      (i : ℕ) (key : NamespacedName) (locks : Locks)
      → s.workers i ≡ inside key
      → unlock (lock_key key) s.locks ≡ ok locks
      → Step s (move i idle locks s)

abbrev pub new_system : System
new_system = record { locks = []; workers = λ i. idle }

pub data Reach : System → Type 0 where
  start : Reach new_system
  next : {s t : System} → Reach s → Step s t → Reach t
