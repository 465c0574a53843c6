-- ===== src/Request/LockLaws.antt =====
-- What `load_or_store`, `lock_mutex` and `unlock` do to the mutexes of all keys, and a step to the workers.
use dbaas_controller.Prelude.{
  ℕ, ◌≡◌, refl, sym, ◌∙◌, ap, String, ◌==◌, Bool, true, false, Option, none, some, ◌⊎◌, inl, inr,
  Bool-cases, ◌∷◌, nat_eq, arith, eq_iff, eq_refl, some-injective, none-is-not-some,
  false-is-not-true,
}
use mathlib.Core.Path.{subst}
use dbaas_controller.Go.{ok}
use dbaas_controller.Api.{NamespacedName, lookup}
use dbaas_controller.Request.Locks.{
  Locks, stored, locked, unlocked, Phase, idle, waiting, inside, put_worker,
}

-- The locks.
pub lookup-here : (k : String) (b : Bool) (l : Locks) → lookup k ((k, b) ∷ l) ≡ some b
unfolding lookup
lookup-here k b l = rw (eq_refl k) refl

lookup-other :
    (k d : String) (b : Bool) (l : Locks) → (k == d) ≡ false → lookup d ((k, b) ∷ l) ≡ lookup d l
unfolding lookup
lookup-other k d b l e = rw e refl

same_key : (k d : String) → (k == d) ≡ true → k ≡ d
same_key k d e = (eq_iff k d).0 e

-- An entry for a key is seen under that key only.
pub lookup-set :
    (k d : String) (b : Bool) (l : Locks)
    → ((k ≡ d) × (lookup d ((k, b) ∷ l) ≡ some b))
      ⊎ (((k == d) ≡ false) × (lookup d ((k, b) ∷ l) ≡ lookup d l))
lookup-set k d b l = elim (Bool-cases (k == d)) [
  | inl e ↦ inl (
    same_key k d e,
    subst (λ x. lookup x ((k, b) ∷ l) ≡ some b) (same_key k d e) (lookup-here k b l),
  )
  | inr e ↦ inr (e, lookup-other k d b l e)
]

pub stored-keeps :
    (o : Option Bool) (k d : String) (b : Bool) (l : Locks)
    → lookup k l ≡ o
    → lookup d l ≡ some b
    → lookup d (stored o k l) ≡ some b
stored-keeps (some c) k d b l e h = h
stored-keeps none k d b l e h = elim (lookup-set k d false l) [
  | inl (same, _) ↦
      absurd (none-is-not-some (sym e ∙ subst (λ x. lookup x l ≡ some b) (sym same) h))
  | inr (_, e') ↦ e' ∙ h
]

pub stored-has :
    (o : Option Bool) (k : String) (l : Locks)
    → lookup k l ≡ o
    → (b : Bool) × (lookup k (stored o k l) ≡ some b)
stored-has none k l e = (false, lookup-here k false l)
stored-has (some b) k l e = (b, e)

pub some_bool : (b c : Bool) → some b ≡ some c → b ≡ c
some_bool b c e = some-injective b c e

pub stored-locked :
    (o : Option Bool) (k d : String) (l : Locks)
    → lookup d (stored o k l) ≡ some true
    → lookup d l ≡ some true
stored-locked (some c) k d l h = h
stored-locked none k d l h = elim (lookup-set k d false l) [
  | inl (_, e) ↦ absurd (false-is-not-true (some_bool false true (sym e ∙ h)))
  | inr (_, e) ↦ sym e ∙ h
]

pub locked-inv :
    (o : Option Bool) (k : String) (l l' : Locks)
    → locked o k l ≡ some l'
    → (o ≡ some false) × (((k, true) ∷ l) ≡ l')
locked-inv none k l l' e = absurd (none-is-not-some e)
locked-inv (some true) k l l' e = absurd (none-is-not-some e)
locked-inv (some false) k l l' e = (refl, some-injective _ _ e)

ok_locks : (l l' : Locks) → ok l ≡ ok l' → l ≡ l'
ok_locks l l' e = cc

pub unlocked-inv :
    (o : Option Bool) (k : String) (l l' : Locks)
    → o ≡ some true
    → unlocked o k l ≡ ok l'
    → ((k, false) ∷ l) ≡ l'
unlocked-inv none k l l' h e = absurd (none-is-not-some h)
unlocked-inv (some true) k l l' h e = ok_locks _ _ e
unlocked-inv (some false) k l l' h e = absurd (false-is-not-true (some_bool false true h))

-- The workers.
nat_same : (i j : ℕ) → nat_eq i j ≡ true → i ≡ j
nat_same i j e = ground arith

pub nat_refl : (i : ℕ) → nat_eq i i ≡ true
nat_refl i = ground arith

pub put_worker-cases :
    (i j : ℕ) (p q : Phase) (ws : ℕ → Phase)
    → put_worker i p ws j ≡ q
    → ((i ≡ j) × (p ≡ q)) ⊎ ((nat_eq i j ≡ false) × (ws j ≡ q))
unfolding put_worker
put_worker-cases i j p q ws e = elim (Bool-cases (nat_eq i j)) [
  | inl same ↦ inl (nat_same i j same, rw same at e)
  | inr other ↦ inr (other, rw other at e)
]

pub put_worker-here : (i : ℕ) (p : Phase) (ws : ℕ → Phase) → put_worker i p ws i ≡ p
unfolding put_worker
put_worker-here i p ws = rw (nat_refl i) refl

-- A worker in another phase is another worker.
pub put_worker-other :
    (i j : ℕ) (p q : Phase) (ws : ℕ → Phase) → ws j ≡ q → (ws i ≡ q → ⊥) → put_worker i p ws j ≡ q
unfolding put_worker
put_worker-other i j p q ws e d = elim (Bool-cases (nat_eq i j)) [
  | inl same ↦ absurd (d (subst (λ x. ws x ≡ q) (sym (nat_same i j same)) e))
  | inr other ↦ rw other e
]

pub idle-is-not-inside : {a : NamespacedName} → idle ≡ inside a → ⊥
idle-is-not-inside e = subst (λ p. elim p [ idle ↦ Unit | waiting b ↦ ⊥ | inside b ↦ ⊥ ]) e tt

pub idle-is-not-waiting : {a : NamespacedName} → idle ≡ waiting a → ⊥
idle-is-not-waiting e = subst (λ p. elim p [ idle ↦ Unit | waiting b ↦ ⊥ | inside b ↦ ⊥ ]) e tt

pub waiting-is-not-inside : {a b : NamespacedName} → waiting a ≡ inside b → ⊥
waiting-is-not-inside e = subst (λ p. elim p [ idle ↦ ⊥ | waiting b ↦ Unit | inside b ↦ ⊥ ]) e tt

abbrev key_of : NamespacedName → Phase → NamespacedName
key_of d idle = d
key_of d (waiting a) = a
key_of d (inside a) = a

pub waiting-injective : {a b : NamespacedName} → waiting a ≡ waiting b → a ≡ b
waiting-injective {a} e = ap (key_of a) e

pub inside-injective : {a b : NamespacedName} → inside a ≡ inside b → a ≡ b
inside-injective {a} e = ap (key_of a) e
