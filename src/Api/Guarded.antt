-- ===== src/Api/Guarded.antt =====
-- Behind the authentication of cmd/api/main.go.
use dodo_payments_backend.Base.{
  ◌≡◌, ◌⊎◌, refl, sym, ap, ◌∙◌, Bool, Option, none, some, arith, Bool-cases, Option-cases, inl, inr,
}
use mathlib.Core.Path.{subst}
use dodo_payments_backend.Base.Result.{ok, err}
use dodo_payments_backend.Base.Text.{Text, text, text_eq, is_empty, split_n2, trim_space}
use dodo_payments_backend.Db.{RowId}
use dodo_payments_backend.Db.Tx.{Session, query, exec, settle}
use dodo_payments_backend.Db.Queries.Resources.{get_api_key_by_prefix}
use dodo_payments_backend.Http.{Env}
use dodo_payments_backend.Auth.Keys.{parse_api_key}
use dodo_payments_backend.Auth.Middleware.{
  Admission, fold, check_key, check_parsed, check_parts, authenticate, IsAdmitted,
  authenticate-IsAdmitted,
}
use dodo_payments_backend.Api.{
  Request, Outside, Route, route, Reply, unrouted, health, denied, handle, admit, is_health,
  serve_health, serve,
}

module _ (env : Env) where
  check_key_db :
      (prefix secret : Text) (s : Session)
      → (check_key env secret (query env.fault (get_api_key_by_prefix prefix) s)).1.db ≡ s.db
  unfolding check_key query exec settle get_api_key_by_prefix
  check_key_db prefix secret s = ground arith

  check_parsed_db : (o : Option (Text × Text)) (s : Session) → (check_parsed env o s).1.db ≡ s.db
  unfolding check_parsed
  check_parsed_db none s = refl
  check_parsed_db (some (prefix, secret)) s = check_key_db prefix secret s

  check_parts_db : (o : Option (Text × Text)) (s : Session) → (check_parts env o s).1.db ≡ s.db
  unfolding check_parts
  check_parts_db none s = refl
  check_parts_db (some (scheme, rest)) s =
      elim (Bool-cases (text_eq (fold scheme) (fold (text "Bearer")))) [
        | inl e ↦ rw e (check_parsed_db (parse_api_key (trim_space rest)) s)
        | inr e ↦ rw e refl
      ]

  authenticate_db : (header : Text) (s : Session) → (authenticate env header s).1.db ≡ s.db
  unfolding authenticate
  authenticate_db header s = elim (Bool-cases (is_empty header)) [
    | inl e ↦ rw e refl
    | inr e ↦ rw e (check_parts_db (split_n2 32 header) s)
  ]

-- What a request has got without a handler.
abbrev pub IsTurnedAway : Reply → Type 0
IsTurnedAway unrouted = Unit {0}
IsTurnedAway (health n) = Unit {0}
IsTurnedAway (denied m) = Unit {0}
IsTurnedAway _ = ⊥

module _ (out : Outside) where
  open out use {env}

  -- The handler of a route has run for the business of the key that the request has shown.
  pub record IsHandled (req : Request) (s : Session) (reply : Reply) (s' : Session) : Type 0 where
    pub target : Route
    pub routed : route req.method req.path ≡ some target
    pub business : RowId
    pub key_id : RowId
    pub from : Session
    pub admitted : IsAdmitted env req.authorization s business key_id
    pub same : from.db ≡ s.db
    pub handled : handle out target business req from ≡ (reply, s')

  turned_away :
      (s : Session) (x : Reply) (t : Session) {reply : Reply} {s' : Session}
      → IsTurnedAway x
      → t.db ≡ s.db
      → ◌≡◌ {A = Reply × Session} (x, t) (reply, s')
      → IsTurnedAway reply × (s'.db ≡ s.db)
  turned_away s x t away same e =
      subst (λ (p : Reply × Session). IsTurnedAway p.0 × (p.1.db ≡ s.db)) e (away, same)

  admit_lem :
      (r : Route) (req : Request) (s : Session) (p : Admission env) {reply : Reply} {s' : Session}
      → route req.method req.path ≡ some r
      → authenticate env req.authorization s ≡ p
      → admit out r req p ≡ (reply, s')
      → (IsTurnedAway reply × (s'.db ≡ s.db)) ⊎ IsHandled req s reply s'
  unfolding admit
  admit_lem r req s (err m, t) routed is h =
      let same : t.db ≡ s.db =
        sym (ap (λ (q : Admission env). q.1.db) is) ∙ authenticate_db env req.authorization s in
      inl (turned_away s (denied m) t tt same h)
  admit_lem r req s (ok (b, id), t) routed is h =
      let (admitted, same) = authenticate-IsAdmitted env req.authorization s is in
      inr (record {
        target = r;
        routed = routed;
        business = b;
        key_id = id;
        from = t;
        admitted = admitted;
        same = same;
        handled = h;
      })

  -- Whatever a request asks for, it has either got no more than the health check, the response to an
  -- unknown route or a refusal of the middleware, and left the tables as they were; or its header
  -- has shown the secret of a live key, and the reply and the tables are those of the handler of its
  -- route, run for the business of that key on the tables as they were.
  pub serve-IsHandled :
      (reachable : Bool) (req : Request) (s : Session) {reply : Reply} {s' : Session}
      → serve out reachable req s ≡ (reply, s')
      → (IsTurnedAway reply × (s'.db ≡ s.db)) ⊎ IsHandled req s reply s'
  unfolding serve
  serve-IsHandled reachable req s h = elim (Bool-cases (is_health out req)) [
    | inl e ↦ inl (turned_away s (health (serve_health out reachable)) s tt refl (rw e at h))
    | inr e ↦ elim (Option-cases (route req.method req.path)) [
      | inl n ↦ inl (turned_away s unrouted s tt refl (rw (e, n) at h))
      | inr (r, n) ↦
          admit_lem r req s (authenticate env req.authorization s) n refl (rw (e, n) at h)
    ]
  ]
