-- ===== src/Cluster/Triple.antt =====
-- Hoare triples for actions: from `pre`, a call that returns establishes `post`, and one that ends
-- in an error or a panic establishes `fail`. One rule for each way to build an action.
use mathlib.Core.Path.{subst}
use dbaas_controller.Prelude.{String, Bool, true, false, ◌≡◌, refl, if◌then◌else◌}
use dbaas_controller.Go.{Error, Result, ok, err, panic}
use dbaas_controller.Cluster.{Run, Exec, pure, raise, crash, lift, get_object, attempt, wrapping}

abbrev pub Assertion : Type 0 → Type 1
Assertion O = Run O → Type 0

abbrev pub After : {O A : Type 0} → (A → Assertion O) → Assertion O → Result A → Run O → Type 0
After post fail (ok a) s = post a s
After post fail (err e) s = fail s
After post fail panic s = fail s

pub record Triple {O A : Type 0} (pre : Assertion O) (m : Exec O A) (post : A → Assertion O)
    (fail : Assertion O) : Type 0 where
  pub at : (s : Run O) → pre s → After post fail (m s).0 (m s).1

pub After-const :
    {O A : Type 0} (i : Assertion O) (r : Result A) (s : Run O) → i s → After (λ _. i) i r s
After-const i (ok a) s h = h
After-const i (err e) s h = h
After-const i panic s h = h

-- An assertion that is kept, however the action ends.
abbrev pub Keeps : {O A : Type 0} → Assertion O → Exec O A → Type 0
Keeps i m = Triple i m (λ _. i) i

module _ {O A : Type 0} {post : A → Assertion O} {fail : Assertion O} where
  pub Triple-pure :
      {pre : Assertion O} (a : A) → ((s : Run O) → pre s → post a s) → Triple pre (pure a) post fail
  unfolding attempt
  Triple-pure a h = record { at = h }

  pub Triple-raise :
      {pre : Assertion O} (e : Error)
      → ((s : Run O) → pre s → fail s)
      → Triple pre (raise {A = A} e) post fail
  unfolding attempt
  Triple-raise e h = record { at = h }

  pub Triple-if :
      {pre : Assertion O} (b : Bool) (m n : Exec O A)
      → (b ≡ true → Triple pre m post fail)
      → (b ≡ false → Triple pre n post fail)
      → Triple pre (if b then m else n) post fail
  Triple-if true m n tm tn = tm refl
  Triple-if false m n tm tn = tn refl

module _ {O A : Type 0} {i : Assertion O} where
  pub Keeps-pure : (a : A) → Keeps i (pure a)
  Keeps-pure a = Triple-pure a (λ s h. h)

  pub Keeps-raise : (e : Error) → Keeps i (raise {A = A} e)
  Keeps-raise e = Triple-raise e (λ s h. h)

  pub Keeps-crash : Keeps i (crash {A = A})
  unfolding attempt
  Keeps-crash = record { at = λ s h. h }

  pub Keeps-lift : (r : Result A) → Keeps i (lift r)
  unfolding attempt
  Keeps-lift r = record { at = After-const i r }

  pub Keeps-if :
      (b : Bool) (m n : Exec O A)
      → (b ≡ true → Keeps i m)
      → (b ≡ false → Keeps i n)
      → Keeps i (if b then m else n)
  Keeps-if true m n km kn = km refl
  Keeps-if false m n km kn = kn refl

module _ {O A B : Type 0} where
  settle_at :
      {post : B → Assertion O} {fail : Assertion O} (mid : A → Assertion O) (mid_fail : Assertion O)
      (r : Result A) (s : Run O) (handle : Error → Exec O B) (next : A → Exec O B)
      → After mid mid_fail r s
      → ((e : Error) → Triple mid_fail (handle e) post fail)
      → ((a : A) → Triple (mid a) (next a) post fail)
      → ((t : Run O) → mid_fail t → fail t)
      → After post fail
          (attempt (λ _. (r, s)) handle next s).0
          (attempt (λ _. (r, s)) handle next s).1
  unfolding attempt
  settle_at mid mid_fail (ok a) s handle next h kh kn kp = (kn a).at s h
  settle_at mid mid_fail (err e) s handle next h kh kn kp = (kh e).at s h
  settle_at mid mid_fail panic s handle next h kh kn kp = kp s h

  pub Triple-attempt :
      {pre : Assertion O} {post : B → Assertion O} {fail : Assertion O} (mid : A → Assertion O)
      (mid_fail : Assertion O) (m : Exec O A) (handle : Error → Exec O B) (next : A → Exec O B)
      → Triple pre m mid mid_fail
      → ((e : Error) → Triple mid_fail (handle e) post fail)
      → ((a : A) → Triple (mid a) (next a) post fail)
      → ((t : Run O) → mid_fail t → fail t)
      → Triple pre (attempt m handle next) post fail
  unfolding attempt
  Triple-attempt mid mid_fail m handle next km kh kn kp = record {
    at = λ s h. settle_at mid mid_fail (m s).0 (m s).1 handle next (km.at s h) kh kn kp;
  }

  pub Keeps-attempt :
      {i : Assertion O} (m : Exec O A) (handle : Error → Exec O B) (next : A → Exec O B)
      → Keeps i m
      → ((e : Error) → Keeps i (handle e))
      → ((a : A) → Keeps i (next a))
      → Keeps i (attempt m handle next)
  Keeps-attempt {i} m handle next km kh kn =
      Triple-attempt (λ _. i) i m handle next km kh kn (λ t h. h)

pub ruleset triple_rules =
    (Keeps-pure, Keeps-raise, Keeps-crash, Keeps-lift, Keeps-if, Keeps-attempt)

after_kept :
    {O A : Type 0} (i : Assertion O) (r : Result A) (s : Run O) → After (λ _. i) i r s → i s
after_kept i (ok a) s h = h
after_kept i (err e) s h = h
after_kept i panic s h = h

pub Keeps-run :
    {O A : Type 0} (i : Assertion O) (m : Exec O A) → Keeps i m → (s : Run O) → i s → i (m s).1
Keeps-run i m k s h = after_kept i (m s).0 (m s).1 (k.at s h)

-- The rule of consequence
After-weaken :
    {O A : Type 0} (post post' : A → Assertion O) (fail fail' : Assertion O) (r : Result A)
    (s : Run O)
    → ((a : A) → post a s → post' a s)
    → (fail s → fail' s)
    → After post fail r s
    → After post' fail' r s
After-weaken _ _ _ _ (ok a) s p f h = p a h
After-weaken _ _ _ _ (err e) s p f h = f h
After-weaken _ _ _ _ panic s p f h = f h

pub Triple-weaken :
    {O A : Type 0} {pre' : Assertion O} {post' : A → Assertion O} {fail' : Assertion O}
    (pre : Assertion O) (post : A → Assertion O) (fail : Assertion O) (m : Exec O A)
    → ((s : Run O) → pre' s → pre s)
    → ((a : A) (s : Run O) → post a s → post' a s)
    → ((s : Run O) → fail s → fail' s)
    → Triple pre m post fail
    → Triple pre' m post' fail'
Triple-weaken {post'} {fail'} pre post fail m w p f t = record {
  at = λ s h.
      After-weaken post post' fail fail' (m s).0 (m s).1 (λ a. p a (m s).1) (f (m s).1)
        (t.at s (w s h));
}

pub Keeps-get_object : {O : Type 0} {i : Assertion O} → Keeps i (get_object {O = O})
unfolding attempt
Keeps-get_object = record { at = λ s h. h }

pub Triple-run :
    {O A : Type 0} (i j : Assertion O) (m : Exec O A)
    → Triple i m (λ _. j) j
    → (s : Run O) → i s
    → j (m s).1
Triple-run i j m t s h = after_kept j (m s).0 (m s).1 (t.at s h)

pub After-ok :
    {O A : Type 0} (post : A → Assertion O) (fail : Assertion O) (r : Result A) (s : Run O) (a : A)
    → r ≡ ok a
    → After post fail r s
    → post a s
After-ok post fail r s a e h = subst (λ x. After post fail x s) e h

pub Triple-wrapping :
    {O A : Type 0} {pre : Assertion O} {post : A → Assertion O} {fail : Assertion O}
    (prefix : String) (m : Exec O A)
    → Triple pre m post fail
    → Triple pre (wrapping prefix m) post fail
Triple-wrapping {post} {fail} prefix m t =
    Triple-attempt post fail m _ _ t (λ e. Triple-raise _ (λ s f. f))
      (λ a. Triple-pure a (λ s p. p)) (λ s f. f)

-- An error, where nothing is asked of it
pub Triple-raised :
    {O A : Type 0} {post : A → Assertion O} (e : Error)
    → Triple (λ _. Unit {0}) (raise e) post (λ _. Unit {0})
Triple-raised e = Triple-raise e (λ s c. tt)

After-value :
    {O A : Type 0} (V : A → Type 0) (post : A → Assertion O) (fail : Assertion O) (r : Result A)
    (s : Run O)
    → After (λ a _. V a) (λ _. Unit {0}) r s
    → After post fail r s
    → After (λ a t. V a × post a t) fail r s
After-value V post fail (ok a) s v k = (v, k)
After-value V post fail (err e) s v k = k
After-value V post fail panic s v k = k

-- What is known of the value that an action returns, beside the rest
pub Triple-value :
    {O A : Type 0} {pre : Assertion O} {post : A → Assertion O} {fail : Assertion O}
    (V : A → Type 0) (m : Exec O A)
    → Triple (λ _. Unit {0}) m (λ a _. V a) (λ _. Unit {0})
    → Triple pre m post fail
    → Triple pre m (λ a s. V a × post a s) fail
Triple-value {post} {fail} V m v t = record {
  at = λ s p. After-value V post fail (m s).0 (m s).1 (v.at s tt) (t.at s p);
}

pub Triple-given :
    {O A : Type 0} {pre : Assertion O} {post : A → Assertion O} {fail : Assertion O} {V : Type 0}
    (m : Exec O A)
    → (V → Triple pre m post fail)
    → Triple (λ s. V × pre s) m post fail
Triple-given m k = record { at = λ s (v, p). (k v).at s p }
