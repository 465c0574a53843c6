-- ===== src/Request/SecretData.antt =====
-- What a client of the database reads in the secret of a request.
use dbaas_controller.Prelude.{
  ◌≡◌, refl, sym, ◌∙◌, String, ◌<>◌, ◌==◌, false, some, inl, inr, Bool-cases, eq_iff, eq_refl,
  true-is-not-false,
}
use dbaas_controller.Prelude.Texts.{dashes_to_underscores, to_upper, itoa}
use mathlib.Core.Path.{subst}
use text.Mathlib.TextLemmas.{append_cancel_left}
use dbaas_controller.Api.{Dict, lookup}
use dbaas_controller.Request.Info.{DbInfo, get_secret_data}

-- Different ends make different texts.
ends_differ : (p a b : String) → (a == b) ≡ false → (p <> a == p <> b) ≡ false
ends_differ p a b d = elim (Bool-cases (p <> a == p <> b)) [
  | inr e ↦ e
  | inl e ↦ absurd (
      true-is-not-false (
        sym (eq_refl b)
        ∙ subst (λ x. (x == b) ≡ false) (append_cancel_left p a b ((eq_iff (p <> a) (p <> b)).0 e))
            d))
]

-- The beginning of each key: the name of the request in capitals, with underscores
abbrev pub key_prefix : String → String
key_prefix name = to_upper (to_upper (dashes_to_underscores name))

-- The data of a secret give back each part of the connection data under its own key, for every name of a
-- request: the user name, the password, the database, the service as the host, and the port in decimals.
pub lookup-get_secret_data :
    (m : DbInfo) (name service_name : String)
    → let entries : Dict String = get_secret_data m name service_name in
      (lookup (key_prefix name <> "_USERNAME") entries ≡ some m.user_name)
      × (lookup (key_prefix name <> "_PASSWORD") entries ≡ some m.password)
      × (lookup (key_prefix name <> "_DATABASE") entries ≡ some m.database)
      × (lookup (key_prefix name <> "_HOST") entries ≡ some service_name)
      × (lookup (key_prefix name <> "_PORT") entries ≡ some (itoa m.port))
unfolding get_secret_data lookup
lookup-get_secret_data m name service_name =
    let p = key_prefix name in
    (
      rw (eq_refl (p <> "_USERNAME")) refl,
      rw (ends_differ p "_USERNAME" "_PASSWORD" refl) (rw (eq_refl (p <> "_PASSWORD")) refl),
      rw (ends_differ p "_USERNAME" "_DATABASE" refl)
          (rw (ends_differ p "_PASSWORD" "_DATABASE" refl) (rw (eq_refl (p <> "_DATABASE")) refl)),
      rw (ends_differ p "_USERNAME" "_HOST" refl) (
          rw (ends_differ p "_PASSWORD" "_HOST" refl)
            (rw (ends_differ p "_DATABASE" "_HOST" refl) (rw (eq_refl (p <> "_HOST")) refl))),
      rw (ends_differ p "_USERNAME" "_PORT" refl) (
          rw (ends_differ p "_PASSWORD" "_PORT" refl) (
            rw (ends_differ p "_DATABASE" "_PORT" refl)
              (rw (ends_differ p "_HOST" "_PORT" refl) (rw (eq_refl (p <> "_PORT")) refl)))),
    )
