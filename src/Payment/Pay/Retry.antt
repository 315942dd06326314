-- ===== src/Payment/Pay/Retry.antt =====
-- A request of `PayInvoice` that is made again (internal/payment/payment.go).
use dodo_payments_backend.Base.{
  ◌==◌, ℕ, ◌≡◌, ◌≢◌, refl, sym, ap, ◌∙◌, false, ◌||◌, Option, some, [], ◌∷◌, arith, find_row,
  any_row, update_rows,
}
use mathlib.Core.Path.{subst}
use dodo_payments_backend.Base.Rows.{
  All-map, All-of_any_row, any_row-false, find_row-append_last, find_row-update_rows,
}
use dodo_payments_backend.Base.Result.{Result, ok, err}
use dodo_payments_backend.Base.Text.{Text, text_eq_refl}
use dodo_payments_backend.Db.{RowId, IdempotencyKey, PaymentAttempt, Invoice, Db}
use dodo_payments_backend.Db.Tx.{Error, Session}
use dodo_payments_backend.Db.Queries.Payment.{key_is, key_runs, completed_key}
use dodo_payments_backend.Http.{Env, Response, raw, failed_with, json}
use dodo_payments_backend.Psp.{ChargeRequest, ChargeResult}
use dodo_payments_backend.Payment.Types.{PayRequest, Claim, replayed, fresh}
use dodo_payments_backend.Payment.Claim.{fingerprint, claim}
use dodo_payments_backend.Payment.Claim.Effects.{IsClaimed, claim_fresh}
use dodo_payments_backend.Payment.Finalize.{finalize}
use dodo_payments_backend.Payment.Finalize.Verdict.{Verdict, verdict}
use dodo_payments_backend.Payment.Finalize.Effects.{finalized_db, finalize_ok}
use dodo_payments_backend.Payment.Pay.{finalized, proceed, pay_with, pay_invoice}
use dodo_payments_backend.Payment.Pay.Known.{
  IsValid, promised, pay_valid, known_promised, known_silent,
}

-- A response as the table gives it back: its JSON is stored as JSONB.
abbrev pub stored : (Text → Text) → Response Text → Response Text
stored jsonb r = record {
  status = r.status;
  body = elim r.body [ raw s ↦ raw (jsonb s) | failed_with e ↦ failed_with e | json a ↦ json a ];
}

module _ (env : Env) (decimal : RowId → Text) (charge : ChargeRequest → Option ChargeResult)
    (b : RowId) where
  -- What the table has for the key once the payment is finalized.
  abbrev Keeps : Db → Text → Text → Response Text → Type 0
  Keeps db key hash r =
      (k : IdempotencyKey) × (find_row (key_is b key) db.idempotency_keys ≡ some k)
      × (promised k hash ≡ stored env.jsonb r)

  finalized_key :
      (i : RowId) (key hash : Text) (before : Db) (s : Session) {idem : IdempotencyKey}
      {attempt : PaymentAttempt} {inv : Invoice} (v : Verdict) (status : ℕ) (body : Text)
      → IsClaimed env b i key hash before s.db idem attempt inv
      → Keeps
          (finalized_db env b idem attempt inv v status body s)
          key
          hash
          (record { status = status; body = raw body })
  finalized_key i key hash before s {idem} {attempt} {inv} v status body c = (
    completed_key env.jsonb env.now status body idem,
    found_it,
    rw c.new_key (rw (text_eq_refl hash) refl),
  )
    where
      unknown : any_row (key_is b key) before.idempotency_keys ≡ false
      unknown = any_row-false (key_is b key) before.idempotency_keys (
          All-map (λ k. ((k.id == idem.id) || key_is b key k) ≡ false) _ before.idempotency_keys
            (λ k e. ground arith)
            (All-of_any_row (λ k. (k.id == idem.id) || key_is b key k) before.idempotency_keys
              c.unknown_key))

      inserted : find_row (key_is b key) s.db.idempotency_keys ≡ some idem
      inserted =
          ap (λ d. find_row (key_is b key) d.idempotency_keys) c.written
          ∙ find_row-append_last (key_is b key) before.idempotency_keys idem unknown
              (rw c.new_key (ground (arith, text_eq_refl key)))

      found_it :
          find_row (key_is b key) (
            update_rows
              (key_runs idem.id)
              (completed_key env.jsonb env.now status body)
              s.db.idempotency_keys)
          ≡ some (completed_key env.jsonb env.now status body idem)
      found_it =
          find_row-update_rows (key_is b key) (key_runs idem.id)
            (completed_key env.jsonb env.now status body) s.db.idempotency_keys (λ x. refl) inserted
          ∙ ap some (rw c.new_key (ground arith))

  finalized-Keeps :
      (i : RowId) (key hash : Text) (before : Db) (request : ChargeRequest)
      (o : Option ChargeResult) (s : Session) {idem : IdempotencyKey} {attempt : PaymentAttempt}
      {inv : Invoice}
      → IsClaimed env b i key hash before s.db idem attempt inv
      → (r : Result Error (ℕ × Text) × Session) → finalize env b idem attempt inv o s ≡ r
      → let out = finalized env decimal charge b request r in
        out.response.status ≢ 500 → Keeps out.session.db key hash out.response
  unfolding finalized
  finalized-Keeps i key hash before request o s {idem} {attempt} {inv} c (err e, t) h ne =
      absurd (ne refl)
  finalized-Keeps i key hash before request o s {idem} {attempt} {inv} c (ok (status, body), t) h
        ne =
      subst (λ d. Keeps d key hash (record { status = status; body = raw body }))
        (sym (finalize_ok env b idem attempt inv o s h).1)
        (finalized_key i key hash before s (verdict o) status body c)

  proceed-Keeps :
      (i : RowId) (key hash token : Text) (s : Session) (c : ChargeRequest)
      (r : Result Error Claim × Session)
      → claim env b i key hash s ≡ r
      → let out = proceed env decimal charge b token r in
        out.charges ≡ c ∷ []
        → out.response.status ≢ 500
        → Keeps out.session.db key hash out.response
  unfolding proceed
  proceed-Keeps i key hash token s c (err e, t) h called ne = absurd (ground arith)
  proceed-Keeps i key hash token s c (ok (replayed idem), t) h called ne = absurd (ground arith)
  proceed-Keeps i key hash token s c (ok (fresh idem attempt inv), t) h called ne =
      finalized-Keeps i key hash s.db _ _ t (claim_fresh env b i key hash s h) _ refl ne

  -- A valid request that called the PSP and was not answered 500 is answered again, when it is
  -- repeated on the tables that it left, with the same status and with the JSON that PostgreSQL
  -- stored of the body, if no statement of the repetition fails for the connection. The repetition
  -- calls no PSP and changes no table.
  pub pay_again :
      (req : PayRequest) (i : RowId) (key token : Text) (s s' : Session) (c : ChargeRequest)
      → IsValid env req i key token
      → (pay_invoice env decimal charge b req s).charges ≡ c ∷ []
      → (pay_invoice env decimal charge b req s).response.status ≢ 500
      → s'.db ≡ (pay_invoice env decimal charge b req s).session.db
      → let again = pay_invoice (record env { fault = λ _. false }) decimal charge b req s' in
        (again.response ≡ stored env.jsonb (pay_invoice env decimal charge b req s).response)
        × (again.charges ≡ [])
        × (again.session.db ≡ s'.db)
  unfolding pay_with fingerprint
  pay_again req i key token s s' c v called ne same =
      let first = pay_valid env decimal charge b req s v in
      let hash = fingerprint env decimal i token in
      let (k, found, promise) =
        proceed-Keeps i key hash token s c _ refl (ap (λ o. o.charges) (sym first) ∙ called)
          (λ e. ne (ap (λ o. o.response.status) first ∙ e)) in
      let calm_env = record env { fault = λ _. false } in
      let v' : IsValid calm_env req i key token = record {
        trimmed = v.trimmed;
        bounded = v.bounded;
        decoded = v.decoded;
        card = v.card;
        given = v.given;
      } in
      let there : find_row (key_is b key) s'.db.idempotency_keys ≡ some k =
        ap (λ d. find_row (key_is b key) d.idempotency_keys) (same ∙ ap (λ o. o.session.db) first)
        ∙ found in
      let silent = known_silent calm_env decimal charge b req i key token s' k v' there in
      (
        known_promised calm_env decimal charge b req i key token s' k v' there (λ n. refl)
            ∙ promise
            ∙ ap (λ o. stored env.jsonb o.response) (sym first),
        silent.0,
        silent.1,
      )
