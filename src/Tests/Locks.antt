-- ===== src/Tests/Locks.antt =====
-- Two workers, with two requests and with one.
use dbaas_controller.Prelude.{
  ℕ, ◌≡◌, ◌≢◌, refl, ◌==◌, true, inl, inr, [], ◌∷◌, false-is-not-true, false,
}
use mathlib.Core.Path.{subst}
use dbaas_controller.Go.{ok}
use dbaas_controller.Api.{NamespacedName, lookup}
use dbaas_controller.Request.Locks.{
  load_or_store, lock_mutex, unlock, waiting, inside, System, put_worker, move, Step, begin, take,
  new_system, Reach, start, next,
}
use dbaas_controller.Request.LockLaws.{
  put_worker-cases, idle-is-not-inside, waiting-is-not-inside, inside-injective,
}
use dbaas_controller.Request.Parallel.{has_no_slash, Reach-alone, Reach-unlock, Reach-take}

abbrev first : NamespacedName
first = record { name = "mariadb"; namespace = "shop" }

abbrev second : NamespacedName
second = record { name = "mariadb"; namespace = "blog" }

-- Worker 0 is at the lock of the first request.
abbrev one_waiting : System
one_waiting = move 0 (waiting first) (load_or_store "shop/mariadb" []) new_system

-- It runs.
abbrev one_inside : System
one_inside =
    move 0 (inside first) (("shop/mariadb", true) ∷ load_or_store "shop/mariadb" []) one_waiting

-- Worker 1 is at the lock of the second request.
abbrev both : System
both = move 1 (waiting second) (load_or_store "blog/mariadb" one_inside.locks) one_inside

one_inside-Reach : Reach one_inside
unfolding put_worker load_or_store lock_mutex lookup
one_inside-Reach = next (next start (begin 0 first refl)) (take 0 first _ refl refl)

both-Reach : Reach both
unfolding put_worker load_or_store lock_mutex lookup
both-Reach = next one_inside-Reach (begin 1 second refl)

abbrev worker : ℕ
worker = 0

Reach-alone_example : worker ≡ worker
unfolding put_worker
Reach-alone_example = Reach-alone both both-Reach 0 0 first refl refl

Reach-unlock_example : unlock "shop/mariadb" both.locks ≡ ok (("shop/mariadb", false) ∷ both.locks)
unfolding put_worker
Reach-unlock_example = Reach-unlock both both-Reach 0 first refl

others :
    (j : ℕ) (b : NamespacedName)
    → both.workers j ≡ inside b
    → (has_no_slash b.namespace ≡ true) × (b ≢ second)
others j b e = elim (put_worker-cases 1 j _ _ one_inside.workers e) [
  | inl (_, w) ↦ absurd (waiting-is-not-inside w)
  | inr (_, w) ↦ elim (put_worker-cases 0 j _ _ one_waiting.workers w) [
    | inl (_, v) ↦
        subst (λ x. (has_no_slash x.namespace ≡ true) × (x ≢ second)) (inside-injective v)
          (refl, different)
    | inr (_, v) ↦ elim (put_worker-cases 0 j _ _ new_system.workers v) [
      | inl (_, u) ↦ absurd (waiting-is-not-inside u)
      | inr (_, u) ↦ absurd (idle-is-not-inside u)
    ]
  ]
]
  where
    different : first ≢ second
    different e =
        false-is-not-true (subst (λ (x : NamespacedName). ("shop" == x.namespace) ≡ true) e refl)

Reach-take_example : Step both (move 1 (inside second) (("blog/mariadb", true) ∷ both.locks) both)
unfolding put_worker
Reach-take_example = Reach-take both both-Reach 1 second refl refl others
