-- ===== src/Request/Exclusion.antt =====
-- The invariant of the locks: each reconciliation that runs holds the mutex of its key, alone.
use dbaas_controller.Prelude.{
  ℕ, ◌≡◌, refl, sym, ◌∙◌, ap, String, ◌==◌, Bool, true, false, some, inl, inr, ◌∷◌, nat_eq, eq_iff,
  none-is-not-some, true-is-not-false, false-is-not-true,
}
use mathlib.Core.Path.{subst}
use dbaas_controller.Api.{NamespacedName, lookup}
use dbaas_controller.Request.Reconcile.{lock_key}
use dbaas_controller.Request.Locks.{
  Locks, load_or_store, lock_mutex, unlock, Phase, idle, waiting, inside, System, move, Step, begin,
  take, leave, new_system, Reach, start, next,
}
use dbaas_controller.Request.LockLaws.{
  lookup-here, lookup-set, stored-keeps, stored-has, stored-locked, locked-inv, unlocked-inv,
  put_worker-cases, put_worker-here, put_worker-other, idle-is-not-inside, idle-is-not-waiting,
  waiting-is-not-inside, waiting-injective, inside-injective, some_bool, nat_refl,
}

-- Some worker runs a reconciliation with the key.
pub record Holder (s : System) (k : String) : Type 0 where
  pub worker : ℕ
  pub request : NamespacedName
  pub runs : s.workers worker ≡ inside request
  pub same : lock_key request ≡ k

pub record IsExclusive (s : System) : Type 0 where
  pub stored :
      (i : ℕ) (a : NamespacedName)
      → s.workers i ≡ waiting a
      → (b : Bool) × (lookup (lock_key a) s.locks ≡ some b)
  pub held :
      (i : ℕ) (a : NamespacedName)
      → s.workers i ≡ inside a
      → lookup (lock_key a) s.locks ≡ some true
  pub alone :
      (i j : ℕ) (a b : NamespacedName)
      → s.workers i ≡ inside a
      → s.workers j ≡ inside b
      → lock_key a ≡ lock_key b
      → i ≡ j
  pub owned : (k : String) → lookup k s.locks ≡ some true → Holder s k

new_system-IsExclusive : IsExclusive new_system
unfolding lookup
new_system-IsExclusive = record {
  stored = λ i a e. absurd (idle-is-not-waiting e);
  held = λ i a e. absurd (idle-is-not-inside e);
  alone = λ i j a b e e' k. absurd (idle-is-not-inside e);
  owned = λ k e. absurd (none-is-not-some e);
}

other_worker : (i j : ℕ) → nat_eq i j ≡ false → i ≡ j → ⊥
other_worker i j d e = true-is-not-false (sym (nat_refl j) ∙ subst (λ x. nat_eq x j ≡ false) e d)

-- A holder that is not the worker that moves stays one.
move-Holder :
    (s : System) (i : ℕ) (p : Phase) (locks : Locks) (k : String) (h : Holder s k)
    → (s.workers i ≡ inside h.request → ⊥)
    → Holder (move i p locks s) k
move-Holder s i p locks k h d = record {
  worker = h.worker;
  request = h.request;
  runs = put_worker-other i h.worker p _ s.workers h.runs d;
  same = h.same;
}

module _ (s : System) (inv : IsExclusive s) (i : ℕ) (a : NamespacedName) where
  begin-IsExclusive :
      s.workers i ≡ idle → IsExclusive (move i (waiting a) (load_or_store (lock_key a) s.locks) s)
  unfolding load_or_store
  begin-IsExclusive at_rest = record {
    stored = λ j b e. elim (put_worker-cases i j _ _ s.workers e) [
      | inl (_, w) ↦
          subst
            (λ x. (y : Bool) × (lookup (lock_key x) (load_or_store (lock_key a) s.locks) ≡ some y))
            (waiting-injective w) (stored-has _ (lock_key a) s.locks refl)
      | inr (_, w) ↦
          (let (y, f) = inv.stored j b w in (y, stored-keeps _ (lock_key a) _ y s.locks refl f))
    ];
    held = λ j b e. elim (put_worker-cases i j _ _ s.workers e) [
      | inl (_, w) ↦ absurd (waiting-is-not-inside w)
      | inr (_, w) ↦ stored-keeps _ (lock_key a) _ true s.locks refl (inv.held j b w)
    ];
    alone = λ j l b c e e' k. elim (put_worker-cases i j _ _ s.workers e) [
      | inl (_, w) ↦ absurd (waiting-is-not-inside w)
      | inr (_, w) ↦ elim (put_worker-cases i l _ _ s.workers e') [
        | inl (_, w') ↦ absurd (waiting-is-not-inside w')
        | inr (_, w') ↦ inv.alone j l b c w w' k
      ]
    ];
    owned = λ k e.
        move-Holder s i _ _ k (inv.owned k (stored-locked _ (lock_key a) k s.locks e))
          (λ w. idle-is-not-inside (sym at_rest ∙ w));
  }

  take-IsExclusive :
      s.workers i ≡ waiting a
      → lookup (lock_key a) s.locks ≡ some false
      → IsExclusive (move i (inside a) ((lock_key a, true) ∷ s.locks) s)
  take-IsExclusive at_lock free = record {
    stored = λ j b e. elim (put_worker-cases i j _ _ s.workers e) [
      | inl (_, w) ↦ absurd (waiting-is-not-inside (sym w))
      | inr (_, w) ↦ elim (lookup-set (lock_key a) (lock_key b) true s.locks) [
        | inl (_, f) ↦ (true, f)
        | inr (_, f) ↦ (let (y, g) = inv.stored j b w in (y, f ∙ g))
      ]
    ];
    held = λ j b e. elim (put_worker-cases i j _ _ s.workers e) [
      | inl (_, w) ↦
          subst (λ x. lookup (lock_key x) ((lock_key a, true) ∷ s.locks) ≡ some true)
            (inside-injective w) (lookup-here (lock_key a) true s.locks)
      | inr (_, w) ↦ elim (lookup-set (lock_key a) (lock_key b) true s.locks) [
        | inl (_, f) ↦ f
        | inr (_, f) ↦ f ∙ inv.held j b w
      ]
    ];
    alone = λ j l b c e e' k. elim (put_worker-cases i j _ _ s.workers e) [
      | inl (same, w) ↦ elim (put_worker-cases i l _ _ s.workers e') [
        | inl (same', _) ↦ sym same ∙ same'
        | inr (_, w') ↦ absurd (not_held l c w' (ap lock_key (inside-injective w) ∙ k))
      ]
      | inr (_, w) ↦ elim (put_worker-cases i l _ _ s.workers e') [
        | inl (_, w') ↦ absurd (not_held j b w (ap lock_key (inside-injective w') ∙ sym k))
        | inr (_, w') ↦ inv.alone j l b c w w' k
      ]
    ];
    owned = λ k e. elim (lookup-set (lock_key a) k true s.locks) [
      | inl (same, _) ↦ record {
        worker = i;
        request = a;
        runs = put_worker-here i _ s.workers;
        same = same;
      }
      | inr (_, f) ↦
          move-Holder s i _ _ k (inv.owned k (sym f ∙ e))
            (λ w. waiting-is-not-inside (sym at_lock ∙ w))
    ];
  }
    where
      not_held : (j : ℕ) (b : NamespacedName) → s.workers j ≡ inside b → lock_key a ≡ lock_key b → ⊥
      not_held j b w k =
          false-is-not-true
            (some_bool false true (sym free ∙ (ap (λ x. lookup x s.locks) k ∙ inv.held j b w)))

  leave-IsExclusive :
      s.workers i ≡ inside a → IsExclusive (move i idle ((lock_key a, false) ∷ s.locks) s)
  leave-IsExclusive running = record {
    stored = λ j b e. elim (put_worker-cases i j _ _ s.workers e) [
      | inl (_, w) ↦ absurd (idle-is-not-waiting w)
      | inr (_, w) ↦ elim (lookup-set (lock_key a) (lock_key b) false s.locks) [
        | inl (_, f) ↦ (false, f)
        | inr (_, f) ↦ (let (y, g) = inv.stored j b w in (y, f ∙ g))
      ]
    ];
    held = λ j b e. elim (put_worker-cases i j _ _ s.workers e) [
      | inl (_, w) ↦ absurd (idle-is-not-inside w)
      | inr (d, w) ↦ elim (lookup-set (lock_key a) (lock_key b) false s.locks) [
        | inl (same, _) ↦ absurd (other_worker i j d (inv.alone i j a b running w same))
        | inr (_, f) ↦ f ∙ inv.held j b w
      ]
    ];
    alone = λ j l b c e e' k. elim (put_worker-cases i j _ _ s.workers e) [
      | inl (_, w) ↦ absurd (idle-is-not-inside w)
      | inr (_, w) ↦ elim (put_worker-cases i l _ _ s.workers e') [
        | inl (_, w') ↦ absurd (idle-is-not-inside w')
        | inr (_, w') ↦ inv.alone j l b c w w' k
      ]
    ];
    owned = λ k e. elim (lookup-set (lock_key a) k false s.locks) [
      | inl (_, f) ↦ absurd (false-is-not-true (some_bool false true (sym f ∙ e)))
      | inr (d, f) ↦
          (let h = inv.owned k (sym f ∙ e) in
            move-Holder s i _ _ k h
              (λ w. different k d (ap lock_key (inside-injective (sym running ∙ w)) ∙ h.same)))
    ];
  }
    where
      different : (k : String) → (lock_key a == k) ≡ false → lock_key a ≡ k → ⊥
      different k d e = true-is-not-false (sym ((eq_iff (lock_key a) k).1 e) ∙ d)

-- Every step keeps the invariant.
Step-IsExclusive : (s t : System) → Step s t → IsExclusive s → IsExclusive t
unfolding lock_mutex unlock
Step-IsExclusive s _ (begin i a e) inv = begin-IsExclusive s inv i a e
Step-IsExclusive s _ (take i a locks e f) inv =
    let (free, g) = locked-inv _ (lock_key a) s.locks locks f in
    subst (λ x. IsExclusive (move i (inside a) x s)) g (take-IsExclusive s inv i a e free)
Step-IsExclusive s _ (leave i a locks e f) inv =
    let g = unlocked-inv _ (lock_key a) s.locks locks (inv.held i a e) f in
    subst (λ x. IsExclusive (move i idle x s)) g (leave-IsExclusive s inv i a e)

pub Reach-IsExclusive : (s : System) → Reach s → IsExclusive s
Reach-IsExclusive _ start = new_system-IsExclusive
Reach-IsExclusive _ (next {s} {t} r st) = Step-IsExclusive s t st (Reach-IsExclusive s r)
