-- ===== src/Provider/Names.antt =====
-- The names of a provider's connections: the map has as many keys as there are connections only if no
-- two have one name.
use dbaas_controller.Prelude.{true-is-not-false}
use dbaas_controller.Prelude.{
  ℕ, ◌+◌, ◌≤◌, ◌≡◌, String, ◌==◌, true, false, inl, inr, Bool-cases, List, [], ◌∷◌, length, nat_eq,
  All, arith,
}
use dbaas_controller.Api.{Connection}
use dbaas_controller.Provider.Connections.{has_name, add_name}

abbrev pub connection_name : Connection → String
connection_name c = c.name

pub nat_eq_sound : (a b : ℕ) → nat_eq a b ≡ true → a ≡ b
nat_eq_sound a b e = ground arith

-- Things with names
module _ {C : Type 0} (name_of : C → String) where
  -- The keys of the map after the loop
  unfoldable pub keys : List C → List String → List String
  keys [] ns = ns
  keys (c ∷ cs) ns = keys cs (add_name (name_of c) ns)

  -- No two connections have one name.
  abbrev pub Distinct : List C → Type 0
  Distinct [] = Unit
  Distinct (c ∷ cs) = All (λ d. (name_of c == name_of d) ≡ false) cs × Distinct cs

  length-keys : (cs : List C) (ns : List String) → length (keys cs ns) ≤ length ns + length cs
  unfolding keys add_name
  length-keys [] ns = omega arith
  length-keys (c ∷ cs) ns = elim (Bool-cases (has_name (name_of c) ns)) [
    | inl known ↦ rw known (let k = length-keys cs ns in omega arith)
    | inr new ↦ rw new (let k = length-keys cs (name_of c ∷ ns) in omega arith)
  ]

  has_name-rest :
      (n : String) (ns : List String) (cs : List C)
      → All (λ d. has_name (name_of d) (n ∷ ns) ≡ false) cs
      → All (λ d. (n == name_of d) ≡ false) cs × All (λ d. has_name (name_of d) ns ≡ false) cs
  unfolding has_name
  has_name-rest n ns [] _ = (tt, tt)
  has_name-rest n ns (d ∷ cs) (h, hs) =
      let k = has_name-rest n ns cs hs in
      elim (Bool-cases (n == name_of d)) [
        | inl same ↦ absurd (true-is-not-false (rw same at h))
        | inr other ↦ ((other, k.0), (rw other at h, k.1))
      ]

  pub keys-Distinct :
      (cs : List C) (ns : List String)
      → length (keys cs ns) ≡ length ns + length cs
      → Distinct cs × All (λ d. has_name (name_of d) ns ≡ false) cs
  unfolding keys add_name
  keys-Distinct [] ns e = (tt, tt)
  keys-Distinct (c ∷ cs) ns e = elim (Bool-cases (has_name (name_of c) ns)) [
    | inl known ↦ (let k = length-keys cs ns in let e' = rw known at e in absurd (omega arith))
    | inr new ↦
        (let (d, a) = keys-Distinct cs (name_of c ∷ ns) (let e' = rw new at e in omega arith) in
          let (x, y) = has_name-rest (name_of c) ns cs a in ((x, d), (new, y)))
  ]
