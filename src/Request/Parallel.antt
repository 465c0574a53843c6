-- ===== src/Request/Parallel.antt =====
-- Reconciliations in parallel: one request is never reconciled twice at once, a reconciliation can always
-- end, and only one of the same request keeps another waiting.
use dbaas_controller.Prelude.{
  ℕ, ◌≡◌, ◌≢◌, refl, sym, ◌∙◌, ap, String, ◌<>◌, Bool, true, false, not, ◌&&◌, some, inl, inr,
  Bool-cases, nat_eq, ◌∷◌, false-is-not-true, if◌then◌else◌,
}
use Prim.Native.Char.{code}
use Prim.Native.String.{char_at}
use Prim.Native.String.append
use mathlib.Core.Path.{subst}
use text.Mathlib.TextLemmas.{append_cancel_left}
use dbaas_controller.Go.{ok}
use dbaas_controller.Api.{NamespacedName, lookup}
use dbaas_controller.Request.Reconcile.{lock_key}
use dbaas_controller.Request.Locks.{
  lock_mutex, unlock, waiting, inside, System, move, Step, take, Reach,
}
use dbaas_controller.Request.Exclusion.{Holder, Reach-IsExclusive}

-- The text before the first slash
abbrev before_slash : String → String
before_slash String.[] = ""
before_slash (String.◌∷◌ c s) =
    let rest = before_slash s in if nat_eq (code c) b'/' then "" else String.◌∷◌ c rest

-- The text has no slash.
abbrev pub has_no_slash : String → Bool
has_no_slash String.[] = true
has_no_slash (String.◌∷◌ c s) = not (nat_eq (code c) b'/') && has_no_slash s

before_slash-append : (s t : String) → has_no_slash s ≡ true → before_slash (s <> ("/" <> t)) ≡ s
before_slash-append String.[] t h =
    rw append.nil (ap before_slash (append.cons (char_at "/" 0) "" t))
before_slash-append (String.◌∷◌ c s) t h = elim (Bool-cases (nat_eq (code c) b'/')) [
  | inl slash ↦ absurd (false-is-not-true (rw slash at h))
  | inr other ↦
      rw append.cons
        (rw other (ap (λ (x : String). String.◌∷◌ c x) (before_slash-append s t (rw other at h))))
]

-- Requests whose namespaces have no slash have different keys.
lock_key-injective :
    (a b : NamespacedName)
    → has_no_slash a.namespace ≡ true
    → has_no_slash b.namespace ≡ true
    → lock_key a ≡ lock_key b
    → a ≡ b
lock_key-injective a b va vb e =
    let same : a.namespace ≡ b.namespace =
      sym (before_slash-append a.namespace a.name va)
      ∙ (ap before_slash e ∙ before_slash-append b.namespace b.name vb) in
    let rest : a.name ≡ b.name = append_cancel_left "/" _ _ (
      append_cancel_left b.namespace _ _
        (subst (λ x. x <> ("/" <> a.name) ≡ b.namespace <> ("/" <> b.name)) same e)) in
    ap (λ (x : String). record { name = x; namespace = a.namespace }) rest
    ∙ ap (λ (x : String). record { name = b.name; namespace = x }) same

module _ (s : System) (r : Reach s) where
  -- In every state that the workers can reach, two workers that run reconciliations of one request are one
  -- worker.
  pub Reach-alone :
      (i j : ℕ) (a : NamespacedName) → s.workers i ≡ inside a → s.workers j ≡ inside a → i ≡ j
  Reach-alone i j a e e' = (Reach-IsExclusive s r).alone i j a a e e' refl

  -- In every state that the workers can reach, a reconciliation that runs can end: `unlock` finds the mutex
  -- of its key, and it is locked.
  pub Reach-unlock :
      (i : ℕ) (a : NamespacedName)
      → s.workers i ≡ inside a
      → unlock (lock_key a) s.locks ≡ ok ((lock_key a, false) ∷ s.locks)
  unfolding unlock
  Reach-unlock i a e = rw ((Reach-IsExclusive s r).held i a e) refl

  free_mutex :
      (a : NamespacedName) (b : Bool)
      → lookup (lock_key a) s.locks ≡ some b
      → (Holder s (lock_key a) → ⊥)
      → lock_mutex (lock_key a) s.locks ≡ some ((lock_key a, true) ∷ s.locks)
  unfolding lock_mutex
  free_mutex a false e n = rw e refl
  free_mutex a true e n = absurd (n ((Reach-IsExclusive s r).owned (lock_key a) e))

  -- In every state that the workers can reach, a worker that waits for a request can go on and run its
  -- reconciliation, if no worker runs one of the same request, and no namespace of the requests has a
  -- slash: reconciliations of other requests do not hold it up.
  pub Reach-take :
      (i : ℕ) (a : NamespacedName)
      → s.workers i ≡ waiting a
      → has_no_slash a.namespace ≡ true
      → ((j : ℕ) (b : NamespacedName)
          → s.workers j ≡ inside b
          → (has_no_slash b.namespace ≡ true) × (b ≢ a))
      → Step s (move i (inside a) ((lock_key a, true) ∷ s.locks) s)
  Reach-take i a e va others =
      let (b, f) = (Reach-IsExclusive s r).stored i a e in
      take i a _ e (
        free_mutex a b f (λ h.
          let (vb, d) = others h.worker h.request h.runs in
          d (lock_key-injective h.request a vb va h.same)))
