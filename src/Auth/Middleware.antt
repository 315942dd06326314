-- ===== src/Auth/Middleware.antt =====
-- `Middleware` of internal/auth/auth.go: the ids that it puts into the context, or the message of
-- its response 401.
use dodo_payments_backend.Base.{
  ℕ, ◌-◌, ◌≡◌, refl, Bool, true, false, ◌&&◌, Option, none, some, [], ◌∷◌, arith, find_row, leb,
  if◌then◌else◌, Bool-cases, Option-cases, inl, inr,
}
use dodo_payments_backend.Base.Result.{Result, ok, err}
use dodo_payments_backend.Base.Text.{Text, text, text_eq, is_empty, split_n2, trim_space}
use dodo_payments_backend.Db.{RowId, ApiKey}
use dodo_payments_backend.Db.Tx.{Error, Session, settle, exec, query}
use dodo_payments_backend.Db.Queries.Resources.{get_api_key_by_prefix}
use dodo_payments_backend.Http.{Env}
use dodo_payments_backend.Auth.Keys.{parse_api_key}

-- `strings.EqualFold` against an ASCII word none of whose letters has a fold outside ASCII.
abbrev fold_byte : ℕ → ℕ
fold_byte c = if leb 97 c && leb c 122 then c - 32 else c

unfoldable pub fold : Text → Text
fold [] = []
fold (c ∷ s) = fold_byte c ∷ fold s

abbrev is_some : {A : Type 0} → Option A → Bool
is_some none = false
is_some (some a) = true

module _ (env : Env) where
  abbrev pub Admission : Type 0
  Admission = Result Text (RowId × RowId) × Session

  -- From the key in the table on.
  unfoldable pub check_key : Text → Result Error ApiKey × Session → Admission
  check_key secret (err e, s) = (err (text "Invalid API key"), s)
  check_key secret (ok k, s) =
      if is_some k.revoked_at
      then (err (text "API key has been revoked"), s)
      else if text_eq k.secret_hash (env.sha256_hex secret)
      then (ok (k.business_id, k.id), s)
      else (err (text "Invalid API key"), s)

  unfoldable pub check_parsed : Option (Text × Text) → Session → Admission
  check_parsed none s = (err (text "Invalid API key format"), s)
  check_parsed (some (prefix, secret)) s =
      check_key secret (query env.fault (get_api_key_by_prefix prefix) s)

  unfoldable pub check_parts : Option (Text × Text) → Session → Admission
  check_parts none s =
      (err (text "Invalid Authorization header format, expected 'Bearer <api_key>'"), s)
  check_parts (some (scheme, rest)) s =
      if text_eq (fold scheme) (fold (text "Bearer"))
      then check_parsed (parse_api_key (trim_space rest)) s
      else (err (text "Invalid Authorization header format, expected 'Bearer <api_key>'"), s)

  unfoldable pub authenticate : Text → Session → Admission
  authenticate header s =
      if is_empty header
      then (err (text "Missing Authorization header"), s)
      else check_parts (split_n2 32 header) s

  -- What the header of an admitted request has shown.
  pub record IsAdmitted (header : Text) (s : Session) (b id : RowId) : Type 0 where
    pub scheme : Text
    pub rest : Text
    pub prefix : Text
    pub secret : Text
    pub key : ApiKey
    pub parts : split_n2 32 header ≡ some (scheme, rest)
    pub parsed : parse_api_key (trim_space rest) ≡ some (prefix, secret)
    pub found : find_row (λ (k : ApiKey). text_eq k.key_prefix prefix) s.db.api_keys ≡ some key
    pub live : key.revoked_at ≡ none
    pub matches : text_eq key.secret_hash (env.sha256_hex secret) ≡ true
    pub business : key.business_id ≡ b
    pub key_id : key.id ≡ id

  check_key_ok :
      (prefix secret : Text) (s : Session) {b id : RowId} {s' : Session}
      → check_key secret (query env.fault (get_api_key_by_prefix prefix) s) ≡ (ok (b, id), s')
      → (k : ApiKey) × (find_row (λ (k : ApiKey). text_eq k.key_prefix prefix) s.db.api_keys
          ≡ some k)
        × (k.revoked_at ≡ none)
        × (text_eq k.secret_hash (env.sha256_hex secret) ≡ true)
        × (k.business_id ≡ b)
        × (k.id ≡ id)
        × (s'.db ≡ s.db)
  unfolding check_key query exec settle get_api_key_by_prefix
  check_key_ok prefix secret s h =
      elim (Option-cases (find_row (λ (k : ApiKey). text_eq k.key_prefix prefix) s.db.api_keys)) [
        | inl e ↦ absurd (ground arith)
        | inr (k, e) ↦ (k, e, ground arith, ground arith, ground arith, ground arith, ground arith)
      ]

  check_parsed_ok :
      (o : Option (Text × Text)) (s : Session) {b id : RowId} {s' : Session}
      → check_parsed o s ≡ (ok (b, id), s')
      → (prefix : Text) × (secret : Text) × (o ≡ some (prefix, secret))
        × (check_key secret (query env.fault (get_api_key_by_prefix prefix) s) ≡ (ok (b, id), s'))
  unfolding check_parsed
  check_parsed_ok none s h = absurd (ground arith)
  check_parsed_ok (some (prefix, secret)) s h = (prefix, secret, refl, h)

  check_parts_ok :
      (o : Option (Text × Text)) (s : Session) {b id : RowId} {s' : Session}
      → check_parts o s ≡ (ok (b, id), s')
      → (scheme : Text) × (rest : Text) × (o ≡ some (scheme, rest))
        × (check_parsed (parse_api_key (trim_space rest)) s ≡ (ok (b, id), s'))
  unfolding check_parts
  check_parts_ok none s h = absurd (ground arith)
  check_parts_ok (some (scheme, rest)) s h =
      elim (Bool-cases (text_eq (fold scheme) (fold (text "Bearer")))) [
        | inl e ↦ (scheme, rest, refl, rw e at h)
        | inr e ↦ absurd (ground arith)
      ]

  -- A request that is let through has named a key of the table that is not revoked and whose hash
  -- is the one of the secret that it has shown, and acts for the business of that key; the tables
  -- are as before.
  pub authenticate-IsAdmitted :
      (header : Text) (s : Session) {b id : RowId} {s' : Session}
      → authenticate header s ≡ (ok (b, id), s')
      → IsAdmitted header s b id × (s'.db ≡ s.db)
  unfolding authenticate
  authenticate-IsAdmitted header s h = elim (Bool-cases (is_empty header)) [
    | inl e ↦ absurd (ground arith)
    | inr e ↦
        let (scheme, rest, parts, next) = check_parts_ok (split_n2 32 header) s (rw e at h) in
        let (prefix, secret, parsed, last) =
          check_parsed_ok (parse_api_key (trim_space rest)) s next in
        let (k, found, live, matches, business, key_id, same) = check_key_ok prefix secret s last in
        (
          record {
            scheme = scheme;
            rest = rest;
            prefix = prefix;
            secret = secret;
            key = k;
            parts = parts;
            parsed = parsed;
            found = found;
            live = live;
            matches = matches;
            business = business;
            key_id = key_id;
          },
          same,
        )
  ]
