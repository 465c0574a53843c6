-- ===== src/Tests/Documents.antt =====
-- A small MongoDB server: the documents of the users and the accounts.
use dbaas_controller.Prelude.{
  ◌≡◌, refl, sym, ◌∙◌, String, ◌==◌, ◌&&◌, Bool, true, false, Option, none, some, inl, inr,
  Bool-cases, List, [], ◌∷◌, if◌then◌else◌, eq_iff, eq_refl, none-is-not-some,
}
use mathlib.Core.Path.{subst}
use dbaas_controller.Go.{Error, no_documents, other, Result, ok, err, panic}
use dbaas_controller.Api.{Dict}
use dbaas_controller.Mongo.{
  MongoDbInfo, MongoDbClientOptions, ClientOptions, client_options, Command, build_info, users_info,
  create_user, drop_user, Value, text, array,
}
use dbaas_controller.Mongo.Driver.{Driver}
use dbaas_controller.Mongo.Users.{Users, Grows, IsCollection}
use dbaas_controller.Mongo.Stuck.{HasAccounts}

pub record Document : Type 0 where
  pub name : String
  pub namespace : String
  pub info : MongoDbInfo

pub record Store : Type 0 where
  pub documents : List Document
  pub accounts : List String

abbrev pub find : List Document → Users
find [] a b = none
find (d ∷ ds) a b = if d.name == a && d.namespace == b then some d.info else find ds a b

abbrev pub find_in : Store → Users
find_in t = find t.documents

abbrev has : List String → String → Bool
has [] u = false
has (v ∷ vs) u = if v == u then true else has vs u

abbrev pub has_account : Store → String → Bool
has_account t = has t.accounts

abbrev without : List String → String → List String
without [] u = []
without (v ∷ vs) u = let rest = without vs u in if v == u then rest else v ∷ rest

abbrev pub no_document : Error
no_document = record { message = "mongo: no documents in result"; kind = no_documents }

abbrev pub user_not_found : Error
user_not_found = record { message = "(UserNotFound)"; kind = other }

abbrev found : Option MongoDbInfo → Result MongoDbInfo
found none = err no_document
found (some i) = ok i

abbrev upserted : Option MongoDbInfo → Document → Store → Store × Result MongoDbInfo
upserted none d t = (record t { documents = d ∷ t.documents }, err no_document)
upserted (some j) d t = (t, ok j)

abbrev drop_account : Bool → String → Store → Store × Result (Dict Value)
drop_account true u t = (record t { accounts = without t.accounts u }, ok [])
drop_account false u t = (t, err user_not_found)

abbrev run : Command → Store → Store × Result (Dict Value)
run build_info t = (t, ok (("version", text "7.0.5") ∷ []))
run (users_info u db) t = (t, ok (("users", array (if has_account t u then 1 else 0)) ∷ []))
run (create_user u p roles) t = (record t { accounts = u ∷ t.accounts }, ok [])
run (drop_user u) t = drop_account (has_account t u) u t

abbrev pub toy : Driver Store
toy = record {
  connect = λ c. ok tt;
  ping = λ c t. (t, ok tt);
  run_command = λ c db command t. run command t;
  drop = λ c db t. (t, ok tt);
  find_one = λ c f t. (t, found (find_in t f.name f.namespace));
  insert_init = λ c t. (t, ok tt);
  find_one_and_update = λ c f i t.
      upserted (find_in t f.name f.namespace)
        (record { name = f.name; namespace = f.namespace; info = i }) t;
  delete_one = λ c f t. (record t { documents = [] }, ok 1);
}

err-is-not-ok : {e : Error} {i : MongoDbInfo} → err e ≡ ok i → ⊥
err-is-not-ok e =
    subst (λ (r : Result MongoDbInfo). elim r [ ok u ↦ ⊥ | err x ↦ Unit | panic ↦ ⊥ ]) e tt

ok-is-not-err : {e : Error} {i : MongoDbInfo} → ok i ≡ err e → ⊥
ok-is-not-err e =
    subst (λ (r : Result MongoDbInfo). elim r [ ok u ↦ Unit | err x ↦ ⊥ | panic ↦ ⊥ ]) e tt

found-ok : (o : Option MongoDbInfo) (i : MongoDbInfo) → found o ≡ ok i → o ≡ some i
found-ok none i e = absurd (err-is-not-ok e)
found-ok (some j) i e = cc

found-err : (o : Option MongoDbInfo) (x : Error) → found o ≡ err x → o ≡ none
found-err none x e = refl
found-err (some j) x e = absurd (ok-is-not-err e)

upserted-ok :
    (o : Option MongoDbInfo) (d : Document) (t : Store) (j : MongoDbInfo)
    → find_in t d.name d.namespace ≡ o
    → (upserted o d t).1 ≡ ok j
    → find_in (upserted o d t).0 d.name d.namespace ≡ some j
upserted-ok none d t j h e = absurd (err-is-not-ok e)
upserted-ok (some k) d t j h e = cc

upserted-err :
    (o : Option MongoDbInfo) (d : Document) (t : Store) (x : Error)
    → (upserted o d t).1 ≡ err x
    → find_in (upserted o d t).0 d.name d.namespace ≡ some d.info
upserted-err none d t x e = rw (eq_refl d.name) (rw (eq_refl d.namespace) refl)
upserted-err (some k) d t x e = absurd (ok-is-not-err e)

upserted-Grows :
    (o : Option MongoDbInfo) (d : Document) (t : Store)
    → find_in t d.name d.namespace ≡ o
    → Grows (find_in t) (find_in (upserted o d t).0)
upserted-Grows (some k) d t h a b i e = e
upserted-Grows none d t h a b i e = elim (Bool-cases (d.name == a)) [
  | inr different ↦ rw different e
  | inl same ↦ elim (Bool-cases (d.namespace == b)) [
    | inr different ↦ rw same (rw different e)
    | inl same' ↦ absurd (
        none-is-not-some (
          sym h
          ∙ subst (λ x. find_in t x d.namespace ≡ some i) (sym ((eq_iff d.name a).0 same))
              (subst (λ x. find_in t a x ≡ some i) (sym ((eq_iff d.namespace b).0 same')) e)))
  ]
]

run-Grows : (c : Command) (t : Store) → Grows (find_in t) (find_in (run c t).0)
run-Grows build_info t a b i e = e
run-Grows (users_info u db) t a b i e = e
run-Grows (create_user u p roles) t a b i e = e
run-Grows (drop_user u) t a b i e = dropped (has_account t u)
  where
    dropped : (x : Bool) → find_in (drop_account x u t).0 a b ≡ some i
    dropped true = e
    dropped false = e

pub toy-IsCollection : (client : ClientOptions) → IsCollection toy client find_in
toy-IsCollection client = record {
  finds = λ n m t i e. found-ok (find_in t n m) i e;
  misses = λ n m t e h k. found-err (find_in t n m) e h;
  reads = λ n m t a b i e. e;
  inserts = λ db t a b i e. e;
  runs = run-Grows;
  updates = λ n m i j t e. upserted-ok (find_in t n m) _ t j refl e;
  upserts = λ n m i t e h k. upserted-err (find_in t n m) _ t e h;
  update_grows = λ n m i t. upserted-Grows (find_in t n m) _ t refl;
}

pub toy-HasAccounts : (mop : MongoDbClientOptions) → HasAccounts toy mop find_in has_account
toy-HasAccounts mop = record {
  collection = toy-IsCollection (client_options mop);
  finds = λ n m u t e. e;
  drops = λ db t own a b i e. e;
  drop_accounts = λ db u t e. e;
  refuses = λ u t e. (user_not_found, rw e refl);
  refusal_accounts = λ u t e. rw e e;
}
