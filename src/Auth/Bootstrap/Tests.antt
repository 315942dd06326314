-- ===== src/Auth/Bootstrap/Tests.antt =====
-- The theorems on the bootstrap at empty tables and unset variables.
use dodo_payments_backend.Base.{
  ◌+◌, ◌≡◌, refl, false, Option, none, some, [], ◌∷◌, ◌++◌, arith, find_row, any_row,
}
use dodo_payments_backend.Base.Result.{ok}
use dodo_payments_backend.Base.Text.{Text, text, text_eq, trim_space, Lacks}
use dodo_payments_backend.Base.Hex.{hex_encode}
use dodo_payments_backend.Db.{RowId, ApiKey, empty_db}
use dodo_payments_backend.Db.Tx.{Session, query, exec, settle, next_id}
use dodo_payments_backend.Db.Queries.Resources.{
  get_business_by_name, create_business, get_api_key_by_prefix, create_api_key,
}
use dodo_payments_backend.Http.{Env}
use dodo_payments_backend.Auth.Middleware.{authenticate}
use dodo_payments_backend.Auth.Bootstrap.{
  Settings, BootstrapResult, resolve_secret, create_demo_business, resolve_business,
  create_demo_key, resolve_key, bootstrap_with, bootstrap_demo_data, default_demo_business_name,
}
use dodo_payments_backend.Auth.Bootstrap.Written.{new_key, bootstrap_again}
use dodo_payments_backend.Auth.Bootstrap.Admits.{bearer, authenticate-bootstrap}

abbrev env : Env
env = record {
  ids = λ n. 100 + n;
  fault = λ _. false;
  lost = λ _. false;
  now = 60;
  jsonb = λ s. s;
  marshal = λ _. [];
  encode = λ prefix id. none;
  decode = λ prefix s. none;
  sha256_hex = λ s. text "h" ++ s;
}

abbrev session : Session
session = record { db = empty_db; drawn = 0; ticks = 0; aborted = false }

abbrev unset : Settings
unset = record { demo_business_name = []; demo_api_key_prefix = []; demo_api_key_secret = [] }

abbrev random : Option Text
random = some (15 ∷ 160 ∷ [])

abbrev result : BootstrapResult
result = record {
  business_id = 100;
  key_prefix = text "dp_test_demo";
  full_api_key = text "dp_test_demo_0fa0";
}

abbrev after : Session
after = record {
  db = record empty_db {
    businesses =
        record { id = 100; name = default_demo_business_name; created_at = 60; updated_at = 60 }
        ∷ [];
    api_keys = new_key 60 101 100 (text "dp_test_demo") (text "h0fa0") ∷ [];
  };
  drawn = 2;
  ticks = 4;
  aborted = false;
}

bootstrap_run : bootstrap_demo_data env unset random session ≡ (ok result, after)
unfolding bootstrap_demo_data resolve_secret hex_encode bootstrap_with resolve_business
    create_demo_business resolve_key create_demo_key query exec settle next_id get_business_by_name
    create_business get_api_key_by_prefix create_api_key find_row any_row
bootstrap_run = refl

secret_run : resolve_secret unset random ≡ some (text "0fa0", text "0fa0")
unfolding resolve_secret hex_encode
secret_run = refl

bootstrap_again_example :
    bootstrap_demo_data env unset random after
    ≡ (ok (record result { full_api_key = [] }), record after { ticks = 6 })
bootstrap_again_example =
    bootstrap_again env unset random random session after bootstrap_run refl secret_run refl refl

trimmed : trim_space (text "dp_test_demo_0fa0") ≡ text "dp_test_demo_0fa0"
unfolding trim_space
trimmed = refl

digits-Lacks : Lacks 95 (text "0fa0")
digits-Lacks = ground arith

no_key : find_row (λ (k : ApiKey). text_eq k.key_prefix (text "dp_test_demo")) [] ≡ none
unfolding find_row
no_key = refl

authenticate-bootstrap_example :
    (id : RowId) × (authenticate env (bearer (text "dp_test_demo_0fa0")) after
      ≡ (ok (100, id), record after { ticks = 5 }))
authenticate-bootstrap_example =
    authenticate-bootstrap env unset random session after bootstrap_run secret_run no_key refl refl
      refl digits-Lacks trimmed
