-- ===== src/Request/Reference.antt =====
-- References to a connection of a provider, and the connection that a name finds.
use dbaas_controller.Prelude.{
  eq_iff, String, ◌==◌, true, Bool-cases, sym, ap, ◌∙◌, ◌⊎◌, inl, inr, List, [], ◌∷◌, Option, some,
  ◌≡◌, refl, if◌then◌else◌,
}
use dbaas_controller.Api.{
  Connection, DatabaseConnectionReference, DatabaseRequest, DatabaseRequestSpec,
  RelationalDatabaseProvider,
}
use dbaas_controller.Request.Lowest.{OneOf}
use dbaas_controller.Request.Operation.{find_connection}

find-kept :
    (name : String) (cs : List Connection) (d : Connection)
    → (c : Connection) × (find_connection name cs (some d) ≡ some c) × ((c ≡ d) ⊎ OneOf c cs)
unfolding find_connection
find-kept name [] d = (d, refl, inl refl)
find-kept name (c ∷ cs) d = elim (Bool-cases (c.name == name)) [
  | inl e ↦
      let (x, q, m) = find-kept name cs c in
      (x, rw e q, inr (elim m [ inl s ↦ inl s | inr n ↦ inr n ]))
  | inr e ↦
      let (x, q, m) = find-kept name cs d in
      (x, rw e q, elim m [ inl s ↦ inl s | inr n ↦ inr (inr n) ])
]

-- The name of a connection finds one: that or a later one of the name.
pub find-listed :
    (name : String) (cs : List Connection) (found : Option Connection) (c : Connection)
    → OneOf c cs
    → name ≡ c.name
    → (d : Connection) × (find_connection name cs found ≡ some d) × OneOf d cs
unfolding find_connection
find-listed name [] found c m e = absurd m
find-listed name (d ∷ cs) found c (inr m) e =
    let (x, q, n) = find-listed name cs (if d.name == name then some d else found) c m e in
    (x, q, inr n)
find-listed name (d ∷ cs) found c (inl same) e =
    let hit : (d.name == name) ≡ true =
      (eq_iff d.name name).1 (ap (λ (x : Connection). x.name) (sym same) ∙ sym e) in
    let (x, q, m) = find-kept name cs d in (x, rw hit q, elim m [ inl s ↦ inl s | inr n ↦ inr n ])

-- A reference that leads to a connection of a provider
pub record Resolves (ps : List RelationalDatabaseProvider) (ref : DatabaseConnectionReference)
    : Type 0 where
  pub provider : RelationalDatabaseProvider
  pub among : OneOf provider ps
  pub provided : ref.database_object_reference.name ≡ provider.meta.name
  pub connection : Connection
  pub offered : OneOf connection provider.spec.connections
  pub named : ref.name ≡ connection.name

-- The request `x` with a reference that leads to a connection
pub record IsReferenced (ps : List RelationalDatabaseProvider) (spec : DatabaseRequestSpec)
    (o : DatabaseRequest) : Type 0 where
  pub ref : DatabaseConnectionReference
  pub referenced : o.spec ≡ record spec { database_connection_reference = some ref }
  pub resolves : Resolves ps ref
