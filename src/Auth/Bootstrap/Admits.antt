-- ===== src/Auth/Bootstrap/Admits.antt =====
-- The key of `BootstrapDemoData` (internal/auth/bootstrap.go) is accepted by `Middleware`
-- (internal/auth/auth.go).
use dodo_payments_backend.Base.{
  ◌+◌, ◌≡◌, refl, sym, ap, ◌∙◌, true, false, Option, none, some, [], ◌∷◌, ◌++◌, arith, find_row,
  Bool-cases, inl, inr,
}
use dodo_payments_backend.Base.Result.{ok}
use dodo_payments_backend.Base.Text.{
  Text, text, is_empty, trim_space, text_eq, text_eq_refl, Lacks, split_n2-append,
}
use dodo_payments_backend.Db.{RowId, ApiKey}
use dodo_payments_backend.Db.Tx.{Session, query, exec, settle}
use dodo_payments_backend.Db.Queries.Resources.{get_api_key_by_prefix}
use dodo_payments_backend.Http.{Env}
use dodo_payments_backend.Auth.Keys.{parse_api_key, parse_api_key-append}
use dodo_payments_backend.Auth.Middleware.{fold, check_key, check_parsed, check_parts, authenticate}
use dodo_payments_backend.Auth.Bootstrap.{
  Settings, BootstrapResult, resolve_secret, full_key, bootstrap_demo_data,
}
use dodo_payments_backend.Auth.Bootstrap.Written.{
  prefixed, prefix_of, name_of, new_key, resolve_business_ok, resolve_key_ok, bootstrap_with_ok,
  bootstrap_ok,
}

-- The header that a client sends.
abbrev pub bearer : Text → Text
bearer key = text "Bearer" ++ 32 ∷ key

some_prefix : (cfg : Settings) → is_empty (prefix_of cfg) ≡ false
some_prefix cfg = elim (Bool-cases (is_empty cfg.demo_api_key_prefix)) [
  | inl e ↦ rw e refl
  | inr e ↦ rw (e, e) refl
]

abbrev first_or_empty : Option (Text × Text) → Text
first_or_empty none = []
first_or_empty (some p) = p.0

module _ (env : Env) where
  -- A live key of the table is accepted with the secret of its hash.
  key_admitted :
      (prefix secret : Text) (k : ApiKey) (t : Session)
      → env.fault t.ticks ≡ false
      → find_row (prefixed prefix) t.db.api_keys ≡ some k
      → k.revoked_at ≡ none
      → k.secret_hash ≡ env.sha256_hex secret
      → check_key env secret (query env.fault (get_api_key_by_prefix prefix) t)
        ≡ (ok (k.business_id, k.id), record t { ticks = t.ticks + 1; aborted = false })
  unfolding check_key query exec settle get_api_key_by_prefix
  key_admitted prefix secret k t calm hit live hash =
      let same : text_eq k.secret_hash (env.sha256_hex secret) ≡ true = rw hash (text_eq_refl _) in
      ground arith

  header_parts :
      (key : Text) (t : Session)
      → authenticate env (bearer key) t ≡ check_parsed env (parse_api_key (trim_space key)) t
  unfolding authenticate check_parts fold text_eq
  header_parts key t = rw (split_n2-append 32 (text "Bearer") key (ground arith)) refl

  -- A bootstrap that finds no key of its prefix and goes well gives a full key with which a request
  -- is let through, for the business of the result, at any later time at which the tables are as
  -- the bootstrap left them and the statement does not fail. The secret, set or generated, must not
  -- be empty nor hold an underscore, and no space may stand at an end of the full key.
  pub authenticate-bootstrap :
      (cfg : Settings) (random : Option Text) (s t : Session) {r : BootstrapResult} {s' : Session}
      {secret generated : Text}
      → bootstrap_demo_data env cfg random s ≡ (ok r, s')
      → resolve_secret cfg random ≡ some (secret, generated)
      → find_row (prefixed (prefix_of cfg)) s.db.api_keys ≡ none
      → t.db ≡ s'.db
      → env.fault t.ticks ≡ false
      → is_empty secret ≡ false
      → Lacks 95 secret
      → trim_space (full_key (prefix_of cfg) secret) ≡ full_key (prefix_of cfg) secret
      → (id : RowId) × (authenticate env (bearer r.full_api_key) t
          ≡ (ok (r.business_id, id), record t { ticks = t.ticks + 1; aborted = false }))
  unfolding check_parsed
  authenticate-bootstrap cfg random s t {r} {s'} {secret} {generated} h is free same calm
        some_secret lacks trimmed =
      let prefix = prefix_of cfg in
      let (secret', generated', is', run) = bootstrap_ok env cfg random s h in
      let one : secret' ≡ secret =
        ap (λ (o : Option (Text × Text)). first_or_empty o) (sym is' ∙ is) in
      let (biz, u, got_biz, got_key, biz_id, _) =
        bootstrap_with_ok env (name_of cfg) prefix secret' generated' s run in
      let (_, keys) = resolve_business_ok env (name_of cfg) s got_biz in
      let free' : find_row (prefixed prefix) u.db.api_keys ≡ none = rw keys free in
      let (_, outcome) = resolve_key_ok env biz.id prefix secret' generated' u got_key in
      elim outcome [
        | inl (k, hit, _, _) ↦ absurd (ground (arith, free', hit))
        | inr (_, hit, full) ↦
            let k = new_key env.now (env.ids u.drawn) biz.id prefix (env.sha256_hex secret') in
            let key : r.full_api_key ≡ full_key prefix secret = full ∙ ap (full_key prefix) one in
            let parsed =
              parse_api_key-append prefix secret (some_prefix cfg) some_secret lacks trimmed in
            let let_in =
              key_admitted prefix secret k t calm (rw same hit) refl (ap env.sha256_hex one) in
            (
              env.ids u.drawn,
              ap (λ (x : Text). authenticate env (bearer x) t) key
                  ∙ header_parts (full_key prefix secret) t
                  ∙ rw (trimmed, parsed, check_parsed, let_in)
                      (ap
                        (λ (b : RowId). (
                          ok (b, env.ids u.drawn),
                          record t { ticks = t.ticks + 1; aborted = false },
                        ))
                        (sym biz_id)),
            )
      ]
