-- ===== src/Provider/Statuses.antt =====
-- What the statuses of a provider's connections tell of the second loop.
use dbaas_controller.Prelude.{
  ℕ, suc, ◌≡◌, refl, sym, ◌∙◌, ap, String, ◌==◌, ◌&&◌, ◌||◌, Bool, true, false, List, [], ◌∷◌, ◌++◌,
  length, if◌then◌else◌,
}
use mathlib.Core.List.{append_assoc, append-nil}
use mathlib.Core.Path.{subst}
use dbaas_controller.Go.{Error, ok}
use dbaas_controller.Api.{ConnectionStatus, RelationalDatabaseProvider}
use dbaas_controller.Cluster.{Env, Run, Exec}
use dbaas_controller.Cluster.Triple.{
  Triple, After-const, After-ok, Triple-attempt, Triple-pure, Triple-raise,
}
use dbaas_controller.Conn.{ReldbConn}
use dbaas_controller.Provider.Connections.{
  Checks, no_checks, unavailable, available, add_fault, add_success, fault, check, check_all,
}

abbrev pub status_names : List ConnectionStatus → List String
status_names [] = []
status_names (s ∷ ss) = s.name ∷ status_names ss

abbrev pub conn_names : List ReldbConn → List String
conn_names [] = []
conn_names (c ∷ cs) = c.name ∷ conn_names cs

abbrev is_available : ConnectionStatus → Bool
is_available s = s.status == "available"

abbrev pub count_unavailable : List ConnectionStatus → ℕ
count_unavailable [] = 0
count_unavailable (s ∷ ss) = let n = count_unavailable ss in if is_available s then n else suc n

abbrev pub any_usable : List ConnectionStatus → Bool
any_usable [] = false
any_usable (s ∷ ss) = (s.enabled && is_available s) || any_usable ss

-- The statuses have these names, in their order, one is unavailable for each error, and an enabled one is
-- available exactly if one was found.
pub record IsReport (names : List String) (k : Checks) : Type 0 where
  pub named : status_names k.statuses ≡ names
  pub faults : count_unavailable k.statuses ≡ length k.errors
  pub found : any_usable k.statuses ≡ k.found_enabled

names-append :
    (ss : List ConnectionStatus) (s : ConnectionStatus)
    → status_names (ss ++ (s ∷ [])) ≡ status_names ss ++ (s.name ∷ [])
names-append [] s = refl
names-append (x ∷ ss) s = ap (λ (l : List String). x.name ∷ l) (names-append ss s)

length-append_one : (es : List Error) (e : Error) → length (es ++ (e ∷ [])) ≡ suc (length es)
length-append_one [] e = refl
length-append_one (x ∷ es) e = ap (λ (n : ℕ). suc n) (length-append_one es e)

add_count :
    (x : Bool) (m n : ℕ) → m ≡ suc n → (if x then m else suc m) ≡ suc (if x then n else suc n)
add_count true m n e = e
add_count false m n e = ap (λ (l : ℕ). suc l) e

count-fault :
    (ss : List ConnectionStatus) (c : ReldbConn)
    → count_unavailable (ss ++ (unavailable c ∷ [])) ≡ suc (count_unavailable ss)
count-fault [] c = refl
count-fault (x ∷ ss) c = add_count (is_available x) _ _ (count-fault ss c)

count-success :
    (ss : List ConnectionStatus) (c : ReldbConn) (v : String)
    → count_unavailable (ss ++ (available c v ∷ [])) ≡ count_unavailable ss
count-success [] c v = refl
count-success (x ∷ ss) c v =
    ap (λ (n : ℕ). if is_available x then n else suc n) (count-success ss c v)

and_false : (b : Bool) → ((b && false) || false) ≡ false
and_false true = refl
and_false false = refl

and_true : (b : Bool) → ((b && true) || false) ≡ (if b then true else false)
and_true true = refl
and_true false = refl

if_or : (x b y : Bool) → (x || (if b then true else y)) ≡ (if b then true else (x || y))
if_or true true y = refl
if_or true false y = refl
if_or false b y = refl

usable-fault :
    (ss : List ConnectionStatus) (c : ReldbConn)
    → any_usable (ss ++ (unavailable c ∷ [])) ≡ any_usable ss
usable-fault [] c = and_false c.enabled
usable-fault (x ∷ ss) c = ap (λ (b : Bool). (x.enabled && is_available x) || b) (usable-fault ss c)

usable-success :
    (ss : List ConnectionStatus) (c : ReldbConn) (v : String)
    → any_usable (ss ++ (available c v ∷ [])) ≡ (if c.enabled then true else any_usable ss)
usable-success [] c v = and_true c.enabled
usable-success (x ∷ ss) c v =
    ap (λ (b : Bool). (x.enabled && is_available x) || b) (usable-success ss c v)
    ∙ if_or (x.enabled && is_available x) c.enabled (any_usable ss)

module _ (names : List String) (conn : ReldbConn) (k : Checks) (r : IsReport names k) where
  add_fault-IsReport : (e : Error) → IsReport (names ++ (conn.name ∷ [])) (add_fault conn e k)
  unfolding add_fault
  add_fault-IsReport e = record {
    named = names-append k.statuses _ ∙ ap (λ (l : List String). l ++ (conn.name ∷ [])) r.named;
    faults =
        count-fault k.statuses conn
        ∙ ap (λ (n : ℕ). suc n) r.faults
        ∙ sym (length-append_one k.errors e);
    found = usable-fault k.statuses conn ∙ r.found;
  }

  add_success-IsReport : (v : String) → IsReport (names ++ (conn.name ∷ [])) (add_success conn v k)
  unfolding add_success
  add_success-IsReport v = record {
    named = names-append k.statuses _ ∙ ap (λ (l : List String). l ++ (conn.name ∷ [])) r.named;
    faults = count-success k.statuses conn v ∙ r.faults;
    found =
        usable-success k.statuses conn v
        ∙ ap (λ (b : Bool). if conn.enabled then true else b) r.found;
  }

module _ (env : Env) (o : RelationalDatabaseProvider) (name : String) where
  always :
      {A : Type 0} (P : Type 0) (m : Exec RelationalDatabaseProvider A)
      → Triple (λ _. P) m (λ _ _. P) (λ _. P)
  always P m = record { at = λ s p. After-const (λ _. P) (m s).0 (m s).1 p }

  module _ (names : List String) (conn : ReldbConn) (k : Checks) where
    abbrev Reported : Checks → Run RelationalDatabaseProvider → Type 0
    Reported k' _ = IsReport (names ++ (conn.name ∷ [])) k'

    fault-IsReport :
        (version : String) (e : Error)
        → Triple (λ _. IsReport names k) (fault env o name conn version e k) Reported (λ _. Unit)
    unfolding fault
    fault-IsReport version e =
        Triple-attempt (λ _ _. IsReport names k) (λ _. IsReport names k) _ _ _ (always _ _)
          (λ x. Triple-raise x (λ s r. tt))
          (λ _. Triple-pure _ (λ s r. add_fault-IsReport names conn k r e)) (λ s r. tt)

    check-IsReport : Triple (λ _. IsReport names k) (check env o name conn k) Reported (λ _. Unit)
    unfolding check
    check-IsReport =
        Triple-attempt (λ _ _. IsReport names k) (λ _. IsReport names k) _ _ _ (always _ _)
          (fault-IsReport "")
          (λ _.
            Triple-attempt (λ _ _. IsReport names k) (λ _. IsReport names k) _ _ _ (always _ _)
              (fault-IsReport "")
              (λ version.
                Triple-attempt (λ _ _. IsReport names k) (λ _. IsReport names k) _ _ _ (always _ _)
                  (fault-IsReport version)
                  (λ _.
                    Triple-attempt (λ _ _. IsReport names k) (λ _. IsReport names k) _ _ _
                      (always _ _) (λ x. Triple-raise x (λ s r. tt))
                      (λ _. Triple-pure _ (λ s r. add_success-IsReport names conn k r version))
                      (λ s r. tt))
                  (λ s r. tt))
              (λ s r. tt))
          (λ s r. tt)

  loop-IsReport :
      (conns : List ReldbConn) (names : List String) (k : Checks)
      → Triple
          (λ _. IsReport names k)
          (check_all env o name conns k)
          (λ k' _. IsReport (names ++ conn_names conns) k')
          (λ _. Unit)
  unfolding check_all
  loop-IsReport [] names k =
      Triple-pure k (λ s r. subst (λ l. IsReport l k) (sym (append-nil names)) r)
  loop-IsReport (conn ∷ conns) names k =
      Triple-attempt (λ k' _. IsReport (names ++ (conn.name ∷ [])) k') (λ _. Unit) _ _ _
        (check-IsReport names conn k) (λ e. Triple-raise e (λ s r. tt))
        (λ k'.
          subst
            (λ l.
              Triple (λ _. IsReport (names ++ (conn.name ∷ [])) k') (check_all env o name conns k')
                (λ k'' _. IsReport l k'') (λ _. Unit))
            (append_assoc names (conn.name ∷ []) (conn_names conns))
            (loop-IsReport conns (names ++ (conn.name ∷ [])) k'))
        (λ s r. tt)

  -- If the loop over the connections of a provider returns, then it has one status for each connection,
  -- in their order, one of them is unavailable for each error, and an enabled one is available exactly
  -- if the loop tells of a working enabled connection.
  pub check_all-IsReport :
      (conns : List ReldbConn) (s : Run RelationalDatabaseProvider) (k : Checks)
      → (check_all env o name conns no_checks s).0 ≡ ok k
      → IsReport (conn_names conns) k
  check_all-IsReport conns s k e =
      After-ok (λ k' _. IsReport (conn_names conns) k') (λ _. Unit) _ _ k e
        ((loop-IsReport conns [] no_checks).at s
          (record { named = refl; faults = refl; found = refl }))
