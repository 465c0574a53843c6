-- ===== src/Go.antt =====
-- Go's error values and the results of calls. A value of the interface type `error` has a text and
-- the sentinel or driver error that it wraps, which `errors.Is`, `errors.As` and
-- `apierrors.IsNotFound` look at. `fmt.Errorf` with %w keeps that.
use dbaas_controller.Prelude.{ℕ, String, ◌<>◌, ◌≡◌, refl, Bool, true, false, ◌⊎◌, inl, inr}
use dbaas_controller.Prelude.Texts.{contains, contains-append_right}

pub data ErrorKind : Type 0 where
  other not_found no_rows no_documents : ErrorKind
  mysql_error : ℕ → ErrorKind
  postgres_error : String → ErrorKind

pub record Error : Type 0 where
  pub message : String
  pub kind : ErrorKind

-- `errors.New` and `fmt.Errorf` without %w
abbrev pub new_error : String → Error
new_error message = record { message = message; kind = other }

-- `fmt.Errorf` with %w as its last verb
unfoldable pub wrap : String → Error → Error
wrap prefix e = record e { message = prefix <> e.message }

abbrev pub is_kind_not_found : ErrorKind → Bool
is_kind_not_found not_found = true
is_kind_not_found _ = false

-- `apierrors.IsNotFound`
abbrev pub is_not_found : Error → Bool
is_not_found e = is_kind_not_found e.kind

-- What a call gives: its values with a nil error, an error, or a panic.
pub data Result {ℓ} (A : Type ℓ) : Type ℓ where
  ok : A → Result A
  err : Error → Result A
  panic : Result A

-- Wrapping an error loses no text that stands in it.
pub contains-wrap :
    (prefix sub : String) (e : Error)
    → contains e.message sub ≡ true
    → contains (wrap prefix e).message sub ≡ true
unfolding wrap
contains-wrap prefix sub e h = contains-append_right prefix e.message sub h

pub kind-wrap : (prefix : String) (e : Error) → (wrap prefix e).kind ≡ e.kind
unfolding wrap
kind-wrap prefix e = refl

-- To split on a result and keep the equation.
pub Result-cases {ℓ} :
    {A : Type ℓ} (r : Result A) → ((a : A) × (r ≡ ok a)) ⊎ ((e : Error) × (r ≡ err e)) ⊎ (r ≡ panic)
Result-cases (ok a) = inl (a, refl)
Result-cases (err e) = inr (inl (e, refl))
Result-cases panic = inr (inr refl)

pub ok-injective {ℓ} : {A : Type ℓ} (a b : A) → ok a ≡ ok b → a ≡ b
ok-injective a b e = cc
