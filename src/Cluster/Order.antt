-- ===== src/Cluster/Order.antt =====
-- Statements about histories: which calls they hold, that a call was made with a given outcome, and
-- that every call of one sort comes after others.
use dbaas_controller.Prelude.{◌≡◌, refl, ap, ◌⊎◌, [], ◌∷◌, ◌++◌, All}
use dbaas_controller.Go.{Result}
use dbaas_controller.Cluster.{
  Call, Outcome, Event, History, Run, call_as, call_object, get_object, put_object, emit, attempt,
  outcome_of, done,
}
use dbaas_controller.Cluster.Triple.{Keeps, After-const, triple_rules}

-- Every call that was made since the history was `h` is of the sort `P`.
pub record Only {O : Type 0} (P : Call → Type 0) (h : History) (s : Run O) : Type 0 where
  pub added : History
  pub grows : s.history ≡ added ++ h
  pub calls : All (λ e. P e.call) added

-- Some event of the history is as `E` says.
abbrev pub Made : (Event → Type 0) → History → Type 0
Made E [] = ⊥
Made E (e ∷ h) = E e ⊎ Made E h

-- Each call of the sort `L` was made at a history of which `R` held.
abbrev pub Follows : (Call → Type 0) → (History → Type 0) → History → Type 0
Follows L R [] = Unit
Follows L R (e ∷ h) = (L e.call → R h) × Follows L R h

pub added_one :
    {O O' : Type 0} {P : Call → Type 0} {h : History} {s : Run O} {o : O'} (e : Event)
    → P e.call
    → Only P h s
    → Only P h (record { object = o; history = e ∷ s.history })
added_one e p k = record {
  added = e ∷ k.added;
  grows = ap (λ (l : History). e ∷ l) k.grows;
  calls = (p, k.calls);
}

pub Only-refl : {O : Type 0} (P : Call → Type 0) (s : Run O) → Only P s.history s
Only-refl P s = record { added = []; grows = refl; calls = tt }

module _ {O A : Type 0} {P : Call → Type 0} {h : History} where
  pub Only-call_as :
      (outcome : Result A → Outcome) (c : Call) (answer : History → Result A)
      → P c
      → Keeps (Only P h) (call_as {O = O} outcome c answer)
  unfolding attempt
  Only-call_as outcome c answer p = record {
    at = λ s k.
        After-const (Only P h) (answer s.history) _
          (added_one (record { call = c; outcome = outcome (answer s.history) }) p k);
  }

  pub Only-call_object :
      (c : O → Call) (answer : History → O → O × Result A)
      → ((o : O) → P (c o))
      → Keeps (Only P h) (call_object c answer)
  unfolding attempt
  Only-call_object c answer p = record {
    at = λ s k. After-const (Only P h) (answer s.history s.object).1 _ (
        added_one (record { call = c s.object; outcome = outcome_of (answer s.history s.object).1 })
          (p s.object) k);
  }

module _ {O : Type 0} {P : Call → Type 0} {h : History} where
  pub Only-emit : (c : Call) → P c → Keeps (Only P h) (emit {O = O} c)
  unfolding attempt
  Only-emit c p = record { at = λ s k. added_one (record { call = c; outcome = done }) p k }

  pub Only-get_object : Keeps (Only P h) (get_object {O = O})
  unfolding attempt
  Only-get_object = record { at = λ s h. h }

  pub Only-put_object : (o : O) → Keeps (Only P h) (put_object o)
  unfolding attempt
  Only-put_object o = record {
    at = λ s k. record { added = k.added; grows = k.grows; calls = k.calls };
  }

pub ruleset only_rules =
    (triple_rules, Only-call_as, Only-call_object, Only-emit, Only-get_object, Only-put_object)

-- Later calls of another sort change nothing.
module _ (L : Call → Type 0) (R : History → Type 0) where
  pub Follows-none : (h : History) → All (λ e. L e.call → ⊥) h → Follows L R h
  Follows-none [] n = tt
  Follows-none (e ∷ h) (ne, n) = (λ l. absurd (ne l), Follows-none h n)
