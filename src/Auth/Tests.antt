-- ===== src/Auth/Tests.antt =====
-- Runs of the authentication, and its theorems at a concrete key.
use dodo_payments_backend.Base.{◌≡◌, refl, false, none, some, [], ◌∷◌, ◌++◌, arith, find_row}
use dodo_payments_backend.Base.Result.{ok}
use dodo_payments_backend.Base.Text.{text, text_eq, trim_space, split_n2, Lacks}
use dodo_payments_backend.Db.{ApiKey, empty_db}
use dodo_payments_backend.Db.Tx.{Session, settle, exec, query}
use dodo_payments_backend.Db.Queries.Resources.{get_api_key_by_prefix}
use dodo_payments_backend.Http.{Env}
use dodo_payments_backend.Auth.Keys.{split_last, parse_api_key, parse_api_key-append}
use dodo_payments_backend.Auth.Middleware.{
  fold, check_key, check_parsed, check_parts, authenticate, IsAdmitted, authenticate-IsAdmitted,
}

abbrev env : Env
env = record {
  ids = λ n. n;
  fault = λ _. false;
  lost = λ _. false;
  now = 60;
  jsonb = λ s. s;
  marshal = λ _. [];
  encode = λ prefix id. none;
  decode = λ prefix s. none;
  sha256_hex = λ s. text "h" ++ s;
}

abbrev api_key : ApiKey
api_key = record {
  id = 4;
  business_id = 1;
  key_prefix = text "dp_test_a";
  secret_hash = text "hxyz";
  created_at = 50;
  revoked_at = none;
}

abbrev session : Session
session = record {
  db = record empty_db { api_keys = api_key ∷ [] };
  drawn = 0;
  ticks = 0;
  aborted = false;
}

trimmed : trim_space (text "dp_test_a" ++ 95 ∷ text "xyz") ≡ text "dp_test_a" ++ 95 ∷ text "xyz"
unfolding trim_space
trimmed = refl

xyz-Lacks : Lacks 95 (text "xyz")
xyz-Lacks = ground arith

parse_api_key-append_example :
    parse_api_key (text "dp_test_a" ++ 95 ∷ text "xyz") ≡ some (text "dp_test_a", text "xyz")
parse_api_key-append_example =
    parse_api_key-append (text "dp_test_a") (text "xyz") refl refl xyz-Lacks trimmed

no_secret : parse_api_key (text "dp_test_") ≡ none
unfolding parse_api_key trim_space split_last
no_secret = refl

admitted_run :
    authenticate env (text "bearer  dp_test_a_xyz ") session
    ≡ (ok (1, 4), record session { ticks = 1 })
unfolding authenticate check_parts check_parsed check_key fold split_n2 trim_space parse_api_key
    split_last query exec settle get_api_key_by_prefix find_row text_eq
admitted_run = refl

authenticate-IsAdmitted_example :
    IsAdmitted env (text "bearer  dp_test_a_xyz ") session 1 4 × (session.db ≡ session.db)
authenticate-IsAdmitted_example =
    authenticate-IsAdmitted env (text "bearer  dp_test_a_xyz ") session admitted_run
