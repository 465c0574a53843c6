-- ===== src/Cluster/Since.antt =====
-- Statements about the calls since a point of the history, and how they survive further calls.
use dbaas_controller.Prelude.{◌≡◌, refl, ap, ◌∙◌, sym, inl, inr, [], ◌∷◌, ◌++◌, All}
use dbaas_controller.Go.{Error, Result, Result-cases}
use dbaas_controller.Cluster.{
  Call, Event, History, Run, Exec, attempt, raise, call, done, failed, panicked,
}
use dbaas_controller.Cluster.Triple.{
  Assertion, Triple, Keeps, After-const, Keeps-run, Triple-raise, Triple-attempt, Triple-weaken,
}
use dbaas_controller.Cluster.Order.{Only, Only-refl, Made, Follows}
use mathlib.Core.List.{append_assoc}

-- `Q` holds of the calls since the history was `h`.
pub record Since {O : Type 0} (Q : History → Type 0) (h : History) (s : Run O) : Type 0 where
  pub added : History
  pub grows : s.history ≡ added ++ h
  pub holds : Q added

-- `Q` survives further calls of the sort `P`.
pub record IsStable (P : Call → Type 0) (Q : History → Type 0) : Type 0 where
  pub extend : (b a : History) → All (λ e. P e.call) b → Q a → Q (b ++ a)

All-append : (P : Event → Type 0) (b a : History) → All P b → All P a → All P (b ++ a)
All-append P [] a _ k = k
All-append P (e ∷ b) a (p, ps) k = (p, All-append P b a ps k)

pub Made-append : (E : Event → Type 0) (b a : History) → Made E a → Made E (b ++ a)
Made-append E [] a m = m
Made-append E (e ∷ b) a m = inr (Made-append E b a m)

pub All-IsStable : (P : Call → Type 0) → IsStable P (All (λ e. P e.call))
All-IsStable P = record { extend = All-append (λ e. P e.call) }

pub Made-IsStable :
    (P : Call → Type 0) (Q : History → Type 0) (E : Event → Type 0)
    → IsStable P Q
    → IsStable P (λ a. Q a × Made E a)
Made-IsStable P Q E st = record {
  extend = λ b a p (q, m). (st.extend b a p q, Made-append E b a m);
}

-- What was done stays done, so any further calls may follow.
pub Follows-IsStable :
    (L : Call → Type 0) (R : History → Type 0)
    → IsStable (λ c. Unit {0}) R
    → IsStable (λ c. Unit {0}) (λ a. R a × Follows L R a)
Follows-IsStable L R st = record { extend = extend }
  where
    extend :
        (b a : History)
        → All (λ e. Unit {0}) b
        → R a × Follows L R a
        → R (b ++ a) × Follows L R (b ++ a)
    extend [] a _ k = k
    extend (e ∷ b) a (_, p) k =
        let k' = extend b a p k in (st.extend (e ∷ []) (b ++ a) (tt, tt) k'.0, (λ _. k'.0, k'.1))

-- `Q`, and an event as `E` says was made
abbrev pub And : (History → Type 0) → (Event → Type 0) → History → Type 0
And Q E a = Q a × Made E a

-- The frame rule: an action whose calls are of the sort `P` keeps what is stable under them.
pub Keeps-Since :
    {O A : Type 0} (P : Call → Type 0) (Q : History → Type 0) (h : History) (m : Exec O A)
    → IsStable P Q
    → ((g : History) → Keeps (Only P g) m)
    → Keeps (Since Q h) m
Keeps-Since P Q h m st k = record {
  at = λ s c.
      let o = Keeps-run (Only P s.history) m (k s.history) s (Only-refl P s) in
      After-const (Since Q h) (m s).0 (m s).1 (record {
        added = o.added ++ c.added;
        grows =
            o.grows
            ∙ ap (λ (l : History). o.added ++ l) c.grows
            ∙ sym (append_assoc o.added c.added h);
        holds = st.extend o.added c.added o.calls c.holds;
      });
}

-- A first action that keeps the assertion, and then the rest
pub Triple-then :
    {O A B : Type 0} (i : Assertion O) (post : B → Assertion O) (m : Exec O A) (next : A → Exec O B)
    → Keeps i m
    → ((a : A) → Triple i (next a) post i)
    → Triple i (attempt m raise next) post i
Triple-then i post m next k t =
    Triple-attempt (λ _. i) i m raise next k (λ e. Triple-raise e (λ s f. f)) t (λ s h. h)

-- One more event
pub Since-one :
    {O O' : Type 0} {Q : History → Type 0} {h : History} {s : Run O} {o : O'}
    (Q' : History → Type 0) (e : Event) (c : Since Q h s)
    → Q' (e ∷ c.added)
    → Since Q' h (record { object = o; history = e ∷ s.history })
Since-one Q' e c q = record {
  added = e ∷ c.added;
  grows = ap (λ (l : History). e ∷ l) c.grows;
  holds = q;
}

pub Since-weaken :
    {O : Type 0} (Q Q' : History → Type 0) {h : History} {s : Run O}
    → ((a : History) → Q a → Q' a)
    → Since Q h s
    → Since Q' h s
Since-weaken Q Q' w c = record { added = c.added; grows = c.grows; holds = w c.added c.holds }

pub Since-refl : {O : Type 0} (Q : History → Type 0) (s : Run O) → Q [] → Since Q s.history s
Since-refl Q s q = record { added = []; grows = refl; holds = q }

-- A call that is kept in the assertion, and made if it returns
module _ {O A : Type 0} (P : Call → Type 0) (Q : History → Type 0) (h : History) (st : IsStable P Q)
    (c : Call) (E : Event → Type 0) (answer : History → Result A) (keeps : P c)
    (returned : E (record { call = c; outcome = done })) where
  pub Triple-Made :
      Triple {O = O} (Since Q h) (call c answer) (λ _. Since (λ a. Q a × Made E a) h) (Since Q h)
  unfolding attempt
  Triple-Made = record {
    at = λ s k. elim (Result-cases (answer s.history)) [
      | inl (u, e) ↦ rw e (
          Since-one (λ a. Q a × Made E a) _ k
            (
              st.extend (record { call = c; outcome = done } ∷ []) k.added (keeps, tt) k.holds,
              inl returned,
            ))
      | inr (inl (x, e)) ↦ rw e (
          Since-one Q _ k
            (st.extend (record { call = c; outcome = failed x } ∷ []) k.added (keeps, tt) k.holds))
      | inr (inr e) ↦ rw e (
          Since-one Q _ k
            (st.extend (record { call = c; outcome = panicked } ∷ []) k.added (keeps, tt) k.holds))
    ];
  }

-- An action after which nothing more is asked if it fails
pub Triple-kept :
    {O A : Type 0} (Q : History → Type 0) (h : History) (m : Exec O A)
    → IsStable (λ c. Unit {0}) Q
    → ((g : History) → Keeps (Only (λ c. Unit {0}) g) m)
    → Triple (Since Q h) m (λ _. Since Q h) (λ _. Unit)
Triple-kept Q h m st k =
    Triple-weaken _ (λ _. Since Q h) (Since Q h) m (λ s c. c) (λ _ s c. c) (λ s c. tt)
      (Keeps-Since (λ c. Unit) Q h m st k)

-- A call that is made if it returns, and after which nothing more is asked if it fails
pub Triple-called :
    {O A : Type 0} (Q : History → Type 0) (h : History) (c : Call) (E : Event → Type 0)
    (answer : History → Result A)
    → IsStable (λ c. Unit {0}) Q
    → E (record { call = c; outcome = done })
    → Triple {O = O} (Since Q h) (call c answer) (λ _. Since (λ a. Q a × Made E a) h) (λ _. Unit)
Triple-called Q h c E answer st returned =
    Triple-weaken (Since Q h) (λ _. Since (λ a. Q a × Made E a) h) (Since Q h) _ (λ s k. k)
      (λ _ s k. k) (λ s k. tt) (Triple-Made (λ c. Unit) Q h st c E answer tt returned)

-- An action after which more is known, and then the rest, where nothing is asked of an error
pub Triple-step :
    {O A B : Type 0} {post : B → Assertion O} (h : History) (Q Q' : History → Type 0) (m : Exec O A)
    (handle : Error → Exec O B) (next : A → Exec O B)
    → Triple (Since Q h) m (λ _. Since Q' h) (λ _. Unit)
    → ((e : Error) → Triple (λ _. Unit) (handle e) post (λ _. Unit))
    → ((a : A) → Triple (Since Q' h) (next a) post (λ _. Unit))
    → Triple (Since Q h) (attempt m handle next) post (λ _. Unit)
Triple-step h Q Q' m handle next k kh kn =
    Triple-attempt (λ _. Since Q' h) (λ _. Unit) m handle next k kh kn (λ s c. tt)
