-- ===== src/Cluster/Failing.antt =====
-- Actions that cannot return a value, from any state and in any environment.
use dbaas_controller.Prelude.{◌≢◌, Bool, true, false, if◌then◌else◌}
use mathlib.Core.Path.{subst}
use dbaas_controller.Go.{Error, Result, ok, err, panic}
use dbaas_controller.Cluster.{Run, Exec, raise, crash, attempt}
use dbaas_controller.Cluster.Triple.{Assertion, After, Triple}

abbrev pub Failed : {A : Type 0} → Result A → Type 0
Failed (ok a) = ⊥
Failed (err e) = Unit
Failed panic = Unit

-- The action ends in an error or a panic, from every state.
pub record Fails {O A : Type 0} (m : Exec O A) : Type 0 where
  pub at : (s : Run O) → Failed (m s).0

pub Failed-NotOk : {A : Type 0} (r : Result A) (a : A) → Failed r → r ≢ ok a
Failed-NotOk r a f e = subst Failed e f

module _ {O A : Type 0} where
  pub Fails-raise : (e : Error) → Fails (raise {O = O} {A = A} e)
  unfolding attempt
  Fails-raise e = record { at = λ s. tt }

  pub Fails-crash : Fails (crash {O = O} {A = A})
  unfolding attempt
  Fails-crash = record { at = λ s. tt }

  pub Fails-if : (b : Bool) (m n : Exec O A) → Fails m → Fails n → Fails (if b then m else n)
  Fails-if true m n fm fn = fm
  Fails-if false m n fm fn = fn

module _ {O A B : Type 0} (m : Exec O A) (handle : Error → Exec O B) (next : A → Exec O B)
    (faults : (e : Error) → Fails (handle e)) where
  settle-Failed :
      (r : Result A) (s : Run O)
      → ((a : A) → Fails (next a))
      → Failed (attempt (λ _. (r, s)) handle next s).0
  unfolding attempt
  settle-Failed (ok a) s f = (f a).at s
  settle-Failed (err e) s f = (faults e).at s
  settle-Failed panic s f = tt

  pub Fails-attempt : ((a : A) → Fails (next a)) → Fails (attempt m handle next)
  unfolding attempt
  Fails-attempt f = record { at = λ s. settle-Failed (m s).0 (m s).1 f }

  first-Failed :
      (r : Result A) (s : Run O) → Failed r → Failed (attempt (λ _. (r, s)) handle next s).0
  unfolding attempt
  first-Failed (ok a) s f = absurd f
  first-Failed (err e) s f = (faults e).at s
  first-Failed panic s f = tt

  pub Fails-first : Fails m → Fails (attempt m handle next)
  unfolding attempt
  Fails-first f = record { at = λ s. first-Failed (m s).0 (m s).1 (f.at s) }

pub ruleset failing_rules = (Fails-raise, Fails-crash, Fails-if, Fails-attempt)

After-Failed :
    {O A : Type 0} (post : A → Assertion O) (fail : Assertion O) (r : Result A) (s : Run O)
    → Failed r
    → fail s
    → After post fail r s
After-Failed post fail (ok a) s f h = absurd f
After-Failed post fail (err e) s f h = h
After-Failed post fail panic s f h = h

-- Whatever is claimed of its values holds.
pub Fails-Triple :
    {O A : Type 0} {pre : Assertion O} {post : A → Assertion O} (m : Exec O A)
    → Fails m
    → Triple pre m post (λ _. Unit)
Fails-Triple {post} m f = record {
  at = λ s h. After-Failed post (λ _. Unit) (m s).0 (m s).1 (f.at s) tt;
}
