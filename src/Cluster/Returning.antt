-- ===== src/Cluster/Returning.antt =====
-- Actions that return, from every state whose object meets a condition, and whatever was called before.
use mathlib.Core.Path.{subst}
use dbaas_controller.Prelude.{sym, String, Bool, true, false, ◌≡◌, refl, if◌then◌else◌}
use dbaas_controller.Go.{Error, Result, ok, err, panic}
use dbaas_controller.Cluster.{
  Call, Outcome, History, Run, Exec, pure, call_as, call_object, get_object, put_object, emit,
  attempt, wrapping,
}

abbrev Returned : {O A : Type 0} → (A → O → Type 0) → Result A → O → Type 0
Returned Q (ok a) o = Q a o
Returned Q (err e) o = ⊥
Returned Q panic o = ⊥

-- From an object with `P` the action returns a value, and `Q` holds of it and of the object then.
pub record Returns {O A : Type 0} (P : O → Type 0) (m : Exec O A) (Q : A → O → Type 0)
    : Type 0 where
  pub at : (s : Run O) → P s.object → Returned Q (m s).0 (m s).1.object

-- An answer that is given at any time
pub record Answered {A : Type 0} (answer : History → Result A) (Q : A → Type 0) : Type 0 where
  pub value : History → A
  pub given : (h : History) → answer h ≡ ok (value h)
  pub holds : (h : History) → Q (value h)

module _ {O A : Type 0} {P : O → Type 0} where
  pub Returns-pure : {Q : A → O → Type 0} (a : A) → ((o : O) → P o → Q a o) → Returns P (pure a) Q
  unfolding attempt
  Returns-pure a w = record { at = λ s p. w s.object p }

  pub Returns-call :
      {Q : A → Type 0} (outcome : Result A → Outcome) (c : Call) (answer : History → Result A)
      → Answered answer Q
      → Returns P (call_as outcome c answer) (λ a o. P o × Q a)
  unfolding attempt
  Returns-call outcome c answer k = record {
    at = λ s p. rw (k.given s.history) (p, k.holds s.history);
  }

  -- A call that also writes the object
  pub Returns-call_object :
      {Q : O → Type 0} (c : O → Call) (answer : History → O → O × Result A)
      → ((h : History) (o : O) → P o → (a : A) × ((answer h o).1 ≡ ok a) × Q (answer h o).0)
      → Returns P (call_object c answer) (λ _. Q)
  unfolding attempt
  Returns-call_object c answer k = record {
    at = λ s p. let (a, e, q) = k s.history s.object p in rw e q;
  }

  pub Returns-if :
      {Q : A → O → Type 0} (b : Bool) (m n : Exec O A)
      → (b ≡ true → Returns P m Q)
      → (b ≡ false → Returns P n Q)
      → Returns P (if b then m else n) Q
  Returns-if true m n km kn = km refl
  Returns-if false m n km kn = kn refl

  pub Returns-weaken :
      {Q Q' : A → O → Type 0} (m : Exec O A)
      → ((a : A) (o : O) → Q a o → Q' a o)
      → Returns P m Q
      → Returns P m Q'
  Returns-weaken {Q} {Q'} m w k = record { at = λ s p. go (m s).0 (m s).1.object (k.at s p) }
    where
      go : (r : Result A) (o : O) → Returned Q r o → Returned Q' r o
      go (ok a) o q = w a o q
      go (err e) o q = absurd q
      go panic o q = absurd q

module _ {O : Type 0} {P : O → Type 0} where
  pub Returns-emit : (c : Call) → Returns P (emit c) (λ _. P)
  unfolding attempt
  Returns-emit c = record { at = λ s p. p }

  pub Returns-get_object : Returns P get_object (λ x o. (x ≡ o) × P o)
  unfolding attempt
  Returns-get_object = record { at = λ s p. (refl, p) }

  pub Returns-put_object :
      {Q : O → Type 0} (x : O) → ((o : O) → P o → Q x) → Returns P (put_object x) (λ _. Q)
  unfolding attempt
  Returns-put_object x w = record { at = λ s p. w s.object p }

  pub Returns-put_known : (x : O) → Returns P (put_object x) (λ _ o. o ≡ x)
  unfolding attempt
  Returns-put_known x = record { at = λ s p. refl }

module _ {O A B : Type 0} {Q : B → O → Type 0} where
  continued :
      {M : A → O → Type 0} (r : Result A) (s : Run O) (handle : Error → Exec O B)
      (next : A → Exec O B)
      → Returned M r s.object
      → ((a : A) → Returns (M a) (next a) Q)
      → Returned Q
          (attempt (λ _. (r, s)) handle next s).0
          (attempt (λ _. (r, s)) handle next s).1.object
  unfolding attempt
  continued (ok a) s handle next m k = (k a).at s m
  continued (err e) s handle next m k = absurd m
  continued panic s handle next m k = absurd m

  -- The error's handler is not reached.
  pub Returns-attempt :
      {P : O → Type 0} (M : A → O → Type 0) (m : Exec O A) (handle : Error → Exec O B)
      (next : A → Exec O B)
      → Returns P m M
      → ((a : A) → Returns (M a) (next a) Q)
      → Returns P (attempt m handle next) Q
  unfolding attempt
  Returns-attempt M m handle next k l = record {
    at = λ s p. continued (m s).0 (m s).1 handle next (k.at s p) l;
  }

module _ {O B : Type 0} {Q : B → O → Type 0} where
  -- The object is read: from then on it is known.
  pub Returns-read :
      {P : O → Type 0} (handle : Error → Exec O B) (next : O → Exec O B)
      → ((x : O) → P x → Returns (λ o. o ≡ x) (next x) Q)
      → Returns P (attempt get_object handle next) Q
  unfolding attempt
  Returns-read handle next k = record { at = λ s p. (k s.object p).at s refl }

  -- A fact that does not depend on the object
  pub Returns-given :
      {P : O → Type 0} {F : Type 0} (m : Exec O B)
      → (F → Returns P m Q)
      → Returns (λ o. P o × F) m Q
  Returns-given m k = record { at = λ s (p, f). (k f).at s p }

-- Less is known before.
pub Returns-anyhow :
    {O A : Type 0} {P : O → Type 0} {Q : A → O → Type 0} (m : Exec O A)
    → Returns (λ o. Unit {0}) m Q
    → Returns P m Q
Returns-anyhow m k = record { at = λ s p. k.at s tt }

-- The object is one with `P`.
pub Returns-known :
    {O A : Type 0} {P : O → Type 0} {Q : A → O → Type 0} (x : O) (m : Exec O A)
    → P x
    → Returns P m Q
    → Returns (λ o. o ≡ x) m Q
Returns-known {P} x m p k = record { at = λ s e. k.at s (subst P (sym e) p) }

pub Returns-wrapping :
    {O A : Type 0} {P : O → Type 0} {Q : A → O → Type 0} (prefix : String) (m : Exec O A)
    → Returns P m Q
    → Returns P (wrapping prefix m) Q
Returns-wrapping {Q} prefix m k = Returns-attempt Q m _ _ k (λ a. Returns-pure a (λ o q. q))

-- The action returns, with what is claimed of the object then.
pub Returns-both :
    {O : Type 0} {P : O → Type 0} {Q : Unit {0} → O → Type 0} (m : Exec O (Unit {0}))
    → Returns P m Q
    → (s : Run O) → P s.object
    → ((m s).0 ≡ ok tt) × Q tt (m s).1.object
Returns-both {O} {Q} m k s p = go (m s).0 (m s).1.object (k.at s p)
  where
    go : (r : Result (Unit {0})) (o : O) → Returned Q r o → (r ≡ ok tt) × Q tt o
    go (ok tt) o q = (refl, q)
    go (err e) o q = absurd q
    go panic o q = absurd q
