-- ===== src/Cluster/Held.antt =====
-- What is known of the object that a reconciler holds, beside what is known of the calls.
use dbaas_controller.Go.{Result, ok, err, panic}
use dbaas_controller.Cluster.{
  Call, Outcome, History, Run, Exec, call_as, call_object, raise, get_object, put_object, emit,
  attempt,
}
use dbaas_controller.Cluster.Triple.{
  Assertion, After, Triple, Keeps, After-const, Keeps-run, triple_rules,
}

-- `J` holds of the object.
pub record Holds {O : Type 0} (J : O → Type 0) (s : Run O) : Type 0 where
  pub it : J s.object

module _ {O A : Type 0} {J : O → Type 0} where
  pub Holds-call_as :
      (outcome : Result A → Outcome) (c : Call) (answer : History → Result A)
      → Keeps (Holds J) (call_as outcome c answer)
  unfolding attempt
  Holds-call_as outcome c answer = record {
    at = λ s k. After-const (Holds J) (answer s.history) _ (record { it = k.it });
  }

  -- A call that also writes the object
  pub Holds-call_object :
      (c : O → Call) (answer : History → O → O × Result A)
      → ((h : History) (o : O) → J o → J (answer h o).0)
      → Keeps (Holds J) (call_object c answer)
  unfolding attempt
  Holds-call_object c answer w = record {
    at = λ s k.
        After-const (Holds J) (answer s.history s.object).1 _
          (record { it = w s.history s.object k.it });
  }

module _ {O : Type 0} {J : O → Type 0} where
  pub Holds-emit : (c : Call) → Keeps (Holds J) (emit c)
  unfolding attempt
  Holds-emit c = record { at = λ s k. record { it = k.it } }

  pub Holds-get_object : Keeps (Holds J) get_object
  unfolding attempt
  Holds-get_object = record { at = λ s k. k }

  pub Holds-put_object : (o : O) → J o → Keeps (Holds J) (put_object o)
  unfolding attempt
  Holds-put_object o j = record { at = λ s k. record { it = j } }

pub ruleset held_rules =
    (triple_rules, Holds-call_as, Holds-call_object, Holds-emit, Holds-get_object, Holds-put_object)

-- Both are known.
abbrev pub With : {O : Type 0} → (O → Type 0) → Assertion O → Assertion O
With J pre s = Holds J s × pre s

After-both :
    {O A : Type 0} (J : O → Type 0) (post : A → Assertion O) (fail : Assertion O) (r : Result A)
    (s : Run O)
    → Holds J s
    → After post fail r s
    → After (λ a. With J (post a)) fail r s
After-both J post fail (ok a) s j k = (j, k)
After-both J post fail (err e) s j k = k
After-both J post fail panic s j k = k

module _ {O A : Type 0} (J : O → Type 0) {pre : Assertion O} {post : A → Assertion O}
    {fail : Assertion O} where
  pub Triple-with :
      (m : Exec O A)
      → Keeps (Holds J) m
      → Triple pre m post fail
      → Triple (With J pre) m (λ a. With J (post a)) fail
  Triple-with m k t = record {
    at =
        λ s (j, p). After-both J post fail (m s).0 (m s).1 (Keeps-run (Holds J) m k s j) (t.at s p);
  }

  pub Triple-holding :
      (m : Exec O A)
      → Keeps (Holds J) m
      → Triple (With J pre) m post fail
      → Triple (With J pre) m (λ a. With J (post a)) fail
  Triple-holding m k t = record {
    at = λ s (j, p).
        After-both J post fail (m s).0 (m s).1 (Keeps-run (Holds J) m k s j) (t.at s (j, p));
  }

  -- The object is not asked for any more.
  pub Triple-under : (m : Exec O A) → Triple pre m post fail → Triple (With J pre) m post fail
  Triple-under m t = record { at = λ s (j, p). t.at s p }

  -- The object is read, and the rest depends on it.
  pub Triple-read :
      (next : O → Exec O A)
      → ((o : O) → J o → Triple (With J pre) (next o) post fail)
      → Triple (With J pre) (attempt get_object raise next) post fail
  unfolding attempt
  Triple-read next k = record { at = λ s (j, p). (k s.object j.it).at s (j, p) }

pub Holds-read :
    {O A : Type 0} {J : O → Type 0} (next : O → Exec O A)
    → ((o : O) → J o → Keeps (Holds J) (next o))
    → Keeps (Holds J) (attempt get_object raise next)
unfolding attempt
Holds-read next k = record { at = λ s j. (k s.object j.it).at s j }
