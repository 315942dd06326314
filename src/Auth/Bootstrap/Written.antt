-- ===== src/Auth/Bootstrap/Written.antt =====
-- What `BootstrapDemoData` of internal/auth/bootstrap.go has written, and that it writes nothing
-- when it is run again.
use dodo_payments_backend.Base.{
  ◌+◌, ◌≡◌, ◌⊎◌, ap, ◌∙◌, Bool, false, Option, none, some, [], arith, if◌then◌else◌, find_row,
  Option-cases, inl, inr,
}
use dodo_payments_backend.Base.Rows.{any_row-of_none, find_row-append_last}
use dodo_payments_backend.Base.Result.{ok}
use dodo_payments_backend.Base.Text.{Text, is_empty, text_eq, text_eq_refl}
use dodo_payments_backend.Db.{RowId, Time, Business, ApiKey}
use dodo_payments_backend.Db.Tx.{Session, Tx, ◌>>=◌, pure, query, exec, settle, next_id}
use dodo_payments_backend.Db.Tx.Inversion.{bind_ok, bind_step}
use dodo_payments_backend.Db.Queries.Resources.{
  get_business_by_name, create_business, get_api_key_by_prefix, create_api_key,
}
use dodo_payments_backend.Http.{Env}
use dodo_payments_backend.Auth.Bootstrap.{
  Settings, BootstrapResult, or_default, default_demo_business_name, default_demo_key_prefix,
  resolve_secret, full_key, create_demo_business, resolve_business, create_demo_key, resolve_key,
  bootstrap_with, bootstrap_demo_data,
}

abbrev pub named : Text → Business → Bool
named name b = text_eq b.name name

abbrev pub prefixed : Text → ApiKey → Bool
prefixed prefix k = text_eq k.key_prefix prefix

abbrev pub new_key : Time → RowId → RowId → Text → Text → ApiKey
new_key now id business_id key_prefix secret_hash = record {
  id = id;
  business_id = business_id;
  key_prefix = key_prefix;
  secret_hash = secret_hash;
  created_at = now;
  revoked_at = none;
}

abbrev pub name_of : Settings → Text
name_of cfg = or_default cfg.demo_business_name default_demo_business_name

abbrev pub prefix_of : Settings → Text
prefix_of cfg = or_default cfg.demo_api_key_prefix default_demo_key_prefix

module _ (env : Env) where
  abbrev new_business : RowId → Text → Business
  new_business id name = record { id = id; name = name; created_at = env.now; updated_at = env.now }

  -- The business that is found or made is the one of its name afterwards.
  pub resolve_business_ok :
      (name : Text) (s : Session) {biz : Business} {s' : Session}
      → resolve_business env name s ≡ (ok biz, s')
      → (find_row (named name) s'.db.businesses ≡ some biz) × (s'.db.api_keys ≡ s.db.api_keys)
  unfolding resolve_business create_demo_business query exec settle get_business_by_name
      create_business next_id
  resolve_business_ok name s h = elim (Option-cases (find_row (named name) s.db.businesses)) [
    | inl e ↦
        let free = any_row-of_none (named name) s.db.businesses e in
        let last =
          find_row-append_last (named name) s.db.businesses (new_business (env.ids s.drawn) name)
            free (text_eq_refl name) in
        (ground arith, ground arith)
    | inr (b, e) ↦ (ground arith, ground arith)
  ]

  -- A key of the prefix is there afterwards: one that was there, or the one of this secret.
  pub resolve_key_ok :
      (business_id : RowId) (prefix secret generated : Text) (s : Session) {full : Text}
      {s' : Session}
      → resolve_key env business_id prefix secret generated s ≡ (ok full, s')
      → (s'.db.businesses ≡ s.db.businesses)
        × (((k : ApiKey) × (find_row (prefixed prefix) s.db.api_keys ≡ some k)
              × (s'.db ≡ s.db)
              × (full ≡ (if is_empty generated then full_key prefix secret else [])))
            ⊎ ((find_row (prefixed prefix) s.db.api_keys ≡ none)
                × (find_row (prefixed prefix) s'.db.api_keys
                    ≡ some (
                        new_key env.now
                          (env.ids s.drawn)
                          business_id
                          prefix
                          (env.sha256_hex secret)))
                × (full ≡ full_key prefix secret)))
  unfolding resolve_key create_demo_key query exec settle get_api_key_by_prefix create_api_key
      next_id
  resolve_key_ok business_id prefix secret generated s h =
      elim (Option-cases (find_row (prefixed prefix) s.db.api_keys)) [
        | inl e ↦
            let free = any_row-of_none (prefixed prefix) s.db.api_keys e in
            let last =
              find_row-append_last (prefixed prefix) s.db.api_keys
                (new_key env.now (env.ids s.drawn) business_id prefix (env.sha256_hex secret)) free
                (text_eq_refl prefix) in
            (ground arith, inr (e, ground arith, ground arith))
        | inr (k, e) ↦ (ground arith, inl (k, e, ground arith, ground arith))
      ]

  abbrev finish_with : Text → RowId → Text → Tx BootstrapResult
  finish_with prefix id key =
      pure (record { business_id = id; key_prefix = prefix; full_api_key = key })

  abbrev key_step : Text → Text → Text → Business → Tx BootstrapResult
  key_step prefix secret generated biz =
      resolve_key env biz.id prefix secret generated >>= finish_with prefix biz.id

  pub bootstrap_with_ok :
      (name prefix secret generated : Text) (s : Session) {r : BootstrapResult} {s' : Session}
      → bootstrap_with env name prefix secret generated s ≡ (ok r, s')
      → (biz : Business) × (t : Session) × (resolve_business env name s ≡ (ok biz, t))
        × (resolve_key env biz.id prefix secret generated t ≡ (ok r.full_api_key, s'))
        × (r.business_id ≡ biz.id)
        × (r.key_prefix ≡ prefix)
  unfolding bootstrap_with
  bootstrap_with_ok name prefix secret generated s {r} {s'} h =
      let (biz, t, first, next) =
        bind_ok (resolve_business env name) (key_step prefix secret generated) s h in
      let (full, u, second, last) =
        bind_ok (resolve_key env biz.id prefix secret generated) (finish_with prefix biz.id) t
          next in
      let shown : r ≡ record { business_id = biz.id; key_prefix = prefix; full_api_key = full } =
        ground (arith, last) in
      (
        biz,
        t,
        first,
        ground (arith, second, last),
        ap (λ (x : BootstrapResult). x.business_id) shown,
        ap (λ (x : BootstrapResult). x.key_prefix) shown,
      )

  resolve_business_found :
      (name : Text) (t : Session) (biz : Business)
      → env.fault t.ticks ≡ false
      → find_row (named name) t.db.businesses ≡ some biz
      → resolve_business env name t ≡ (ok biz, record t { ticks = t.ticks + 1; aborted = false })
  unfolding resolve_business query exec settle get_business_by_name
  resolve_business_found name t biz calm h = ground arith

  resolve_key_found :
      (business_id : RowId) (prefix secret generated : Text) (t : Session) (k : ApiKey)
      → env.fault t.ticks ≡ false
      → find_row (prefixed prefix) t.db.api_keys ≡ some k
      → resolve_key env business_id prefix secret generated t ≡ (
        ok (if is_empty generated then full_key prefix secret else []),
        record t { ticks = t.ticks + 1; aborted = false },
      )
  unfolding resolve_key query exec settle get_api_key_by_prefix
  resolve_key_found business_id prefix secret generated t k calm h = ground arith

  pub bootstrap_ok :
      (cfg : Settings) (random : Option Text) (s : Session) {r : BootstrapResult} {s' : Session}
      → bootstrap_demo_data env cfg random s ≡ (ok r, s')
      → (secret : Text) × (generated : Text) × (resolve_secret cfg random
          ≡ some (secret, generated))
        × (bootstrap_with env (name_of cfg) (prefix_of cfg) secret generated s ≡ (ok r, s'))
  unfolding bootstrap_demo_data
  bootstrap_ok cfg random s h = elim (Option-cases (resolve_secret cfg random)) [
    | inl e ↦ absurd (ground arith)
    | inr (p, e) ↦ (p.0, p.1, e, rw (e, bootstrap_demo_data) at h)
  ]

  key_there :
      (business_id : RowId) (prefix secret generated : Text) (s : Session) {full : Text}
      {s' : Session}
      → resolve_key env business_id prefix secret generated s ≡ (ok full, s')
      → (k : ApiKey) × (find_row (prefixed prefix) s'.db.api_keys ≡ some k)
  key_there business_id prefix secret generated s {full} {s'} h =
      elim (resolve_key_ok business_id prefix secret generated s h).1 [
        | inl (k, e, same, _) ↦ (k, rw same e)
        | inr (_, e, _) ↦ (_, e)
      ]

  same_result :
      (id : RowId) (prefix full : Text) (r : BootstrapResult) (t : Session)
      → r.business_id ≡ id
      → r.key_prefix ≡ prefix
      → finish_with prefix id full (record t { ticks = t.ticks + 1 + 1; aborted = false })
        ≡ (ok (record r { full_api_key = full }), record t { ticks = t.ticks + 2; aborted = false })
  same_result id prefix full r t same_id same_prefix = ground arith

  -- Once the bootstrap has gone well, each later one on those tables, with the same settings and
  -- without a fault, goes well too and changes no table and draws no id: it gives the same business
  -- and prefix, and the full key only where a secret is set.
  pub bootstrap_again :
      (cfg : Settings) (random random' : Option Text) (s t : Session) {r : BootstrapResult}
      {s' : Session} {secret generated : Text}
      → bootstrap_demo_data env cfg random s ≡ (ok r, s')
      → t.db ≡ s'.db
      → resolve_secret cfg random' ≡ some (secret, generated)
      → env.fault t.ticks ≡ false
      → env.fault (t.ticks + 1) ≡ false
      → bootstrap_demo_data env cfg random' t ≡ (
        ok (record r {
          full_api_key = if is_empty generated then full_key (prefix_of cfg) secret else [];
        }),
        record t { ticks = t.ticks + 2; aborted = false },
      )
  unfolding bootstrap_demo_data bootstrap_with
  bootstrap_again cfg random random' s t {r} {s'} {secret} {generated} h same now calm calm' =
      let name = name_of cfg in
      let prefix = prefix_of cfg in
      let (first, made, _, run) = bootstrap_ok cfg random s h in
      let (biz, u, got_biz, got_key, id, pre) = bootstrap_with_ok name prefix first made s run in
      let (there, _) = resolve_business_ok name s got_biz in
      let (kept, _) = resolve_key_ok biz.id prefix first made u got_key in
      let (k, key) = key_there biz.id prefix first made u got_key in
      let again = resolve_business_found name t biz calm (rw (same, kept) there) in
      let again_key =
        resolve_key_found biz.id prefix secret generated
          (record t { ticks = t.ticks + 1; aborted = false }) k calm' (rw same key) in
      let t₁ = record t { ticks = t.ticks + 1; aborted = false } in
      let steps =
        bind_step (resolve_business env name) (key_step prefix secret generated) t again
        ∙ bind_step (resolve_key env biz.id prefix secret generated) (finish_with prefix biz.id) t₁
            again_key in
      rw (now, bootstrap_demo_data)
        (steps
          ∙ same_result biz.id prefix (if is_empty generated then full_key prefix secret else []) r
              t id pre)
