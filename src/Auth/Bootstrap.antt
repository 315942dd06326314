-- ===== src/Auth/Bootstrap.antt =====
-- `BootstrapDemoData` of internal/auth/bootstrap.go. The settings are the variables of the process,
-- empty where they are not set; `random` is what `rand.Read` has put into 32 bytes, or `none` for
-- an error.
pub mod Written
pub mod Admits
mod Tests
use dodo_payments_backend.Base.{ℕ, ◌+◌, Option, none, some, [], ◌∷◌, ◌++◌, if◌then◌else◌}
use dodo_payments_backend.Base.Text.{Text, text, is_empty}
use dodo_payments_backend.Base.Hex.{hex_encode}
use dodo_payments_backend.Db.{RowId, Business, ApiKey}
use dodo_payments_backend.Db.Tx.{
  failure, Session, Tx, pure, fail, ◌>>=◌, ◌>>◌, optional, query, next_id,
}
use dodo_payments_backend.Db.Queries.Resources.{
  get_business_by_name, create_business, get_api_key_by_prefix, create_api_key,
}
use dodo_payments_backend.Http.{Env}

pub record Settings : Type 0 where
  pub demo_business_name : Text
  pub demo_api_key_prefix : Text
  pub demo_api_key_secret : Text

pub record BootstrapResult : Type 0 where
  pub business_id : RowId
  pub key_prefix : Text
  pub full_api_key : Text

abbrev pub default_demo_business_name : Text
default_demo_business_name = text "Dodo Demo Business"

abbrev pub default_demo_key_prefix : Text
default_demo_key_prefix = text "dp_test_demo"

abbrev pub or_default : Text → Text → Text
or_default s default = if is_empty s then default else s

-- The secret, and the part of it that was generated: nothing where one is set.
unfoldable pub resolve_secret : Settings → Option Text → Option (Text × Text)
resolve_secret cfg random =
    if is_empty cfg.demo_api_key_secret
    then elim random [ none ↦ none | some b ↦ some (hex_encode b, hex_encode b) ]
    else some (cfg.demo_api_key_secret, [])

-- `fmt.Sprintf("%s_%s", keyPrefix, secret)`.
abbrev pub full_key : Text → Text → Text
full_key prefix secret = prefix ++ 95 ∷ secret

module _ (env : Env) where
  unfoldable pub create_demo_business : Text → Tx Business
  create_demo_business name = do
    id ← next_id env.ids
    query env.fault (create_business env.now id name)

  unfoldable pub resolve_business : Text → Tx Business
  resolve_business name = do
    existing ← optional (query env.fault (get_business_by_name name))
    elim existing [ none ↦ create_demo_business name | some biz ↦ pure biz ]

  -- The insert, and the full key.
  unfoldable pub create_demo_key : RowId → Text → Text → Tx Text
  create_demo_key business_id prefix secret = do
    id ← next_id env.ids
    query env.fault (create_api_key env.now id business_id prefix (env.sha256_hex secret))
    pure (full_key prefix secret)

  -- The full key; empty where the key is there and its secret is not known.
  unfoldable pub resolve_key : RowId → Text → Text → Text → Tx Text
  resolve_key business_id prefix secret generated = do
    existing ← optional (query env.fault (get_api_key_by_prefix prefix))
    elim existing [
      | none ↦ create_demo_key business_id prefix secret
      | some key ↦ pure (if is_empty generated then full_key prefix secret else [])
    ]

  unfoldable pub bootstrap_with : Text → Text → Text → Text → Tx BootstrapResult
  bootstrap_with name prefix secret generated = do
    biz ← resolve_business name
    key ← resolve_key biz.id prefix secret generated
    pure (record { business_id = biz.id; key_prefix = prefix; full_api_key = key })

  unfoldable pub bootstrap_demo_data : Settings → Option Text → Tx BootstrapResult
  bootstrap_demo_data cfg random = elim (resolve_secret cfg random) [
    | none ↦ fail failure
    | some (secret, generated) ↦
        bootstrap_with (or_default cfg.demo_business_name default_demo_business_name)
          (or_default cfg.demo_api_key_prefix default_demo_key_prefix) secret generated
  ]
