-- ===== src/Payment/Claim/Total.antt =====
-- When the `claim` of internal/payment/payment.go goes well.
use dodo_payments_backend.Base.{
  ℕ, ◌+◌, ◌==◌, ◌≡◌, refl, sym, ap, ◌∙◌, true, false, ◌||◌, none, some, [], ◌∷◌, ◌++◌, arith,
  find_row, any_row,
}
use mathlib.Core.Path.{subst}
use dodo_payments_backend.Base.Result.{ok, err}
use dodo_payments_backend.Base.Rows.{
  find_row-missing, find_row-holds, find_row-any, any_row-weaken, any_row-append_last,
}
use dodo_payments_backend.Base.Text.{Text}
use dodo_payments_backend.Db.{RowId, Invoice, Db, IdempotencyKey, PaymentAttempt, is_open}
use dodo_payments_backend.Db.Tx.{
  unique_violation, ◌>>=◌, pure, payment_in_progress, finish, run_tx, on_unique, optional, Error,
  Tx, Session, exec, settle, next_id, no_rows,
}
use dodo_payments_backend.Db.Queries.Payment.{
  one_row, key_is, invoice_is, clashes, new_idempotency_key, new_payment_attempt,
  create_idempotency_key, create_payment_attempt, get_idempotency_key, get_invoice_for_payment,
}
use dodo_payments_backend.Db.Tx.Inversion.{opened, bind_step, exec_calm}
use dodo_payments_backend.Http.{Env}
use dodo_payments_backend.Payment.Types.{Claim, fresh}
use dodo_payments_backend.Payment.Claim.{claim, claim_open, claim_new, claim_found, claim_body}

on_unique-ok :
    {A : Type 0} (e : Error) (m : Tx A) (s : Session) {a : A} {t : Session}
    → m s ≡ (ok a, t)
    → on_unique e m s ≡ (ok a, t)
on_unique-ok e m s h =
    ap
      (λ r.
        let (r', s') = r in
        elim r' [ ok a ↦ (ok a, s') | err unique_violation ↦ (err e, s') | err x ↦ (err x, s') ])
      h

optional-none :
    {A : Type 0} (m : Tx A) (s : Session) {t : Session}
    → m s ≡ (err no_rows, t)
    → optional m s ≡ (ok none, t)
optional-none m s h =
    ap
      (λ r.
        let (r', s') = r in
        elim r' [ ok a ↦ (ok (some a), s') | err no_rows ↦ (ok none, s') | err e ↦ (err e, s') ])
      h

module _ (env : Env) (b i : RowId) (key hash : Text) where
  -- A new request can be claimed: its invoice is OPEN and has no unresolved attempt, the key is
  -- new, and the ids that are drawn are.
  pub record IsFree (db : Db) (n : ℕ) (inv : Invoice) : Type 0 where
    pub found : find_row (invoice_is i b) db.invoices ≡ some inv
    pub payable : is_open inv.state ≡ true
    pub unknown_key : any_row (λ k. k.id == env.ids n || key_is b key k) db.idempotency_keys ≡ false
    pub business : any_row (λ x. x.id == b) db.businesses ≡ true
    pub alone :
        any_row (clashes (env.ids (n + 1)) i (env.ids n) (env.ids (n + 1 + 1))) db.payment_attempts
        ≡ false

  abbrev pub idem_of : Session → IdempotencyKey
  idem_of s = new_idempotency_key env.now (env.ids s.drawn) b key hash

  abbrev pub attempt_of : Session → PaymentAttempt
  attempt_of s =
      new_payment_attempt env.now (env.ids (s.drawn + 1)) i (env.ids s.drawn)
        (env.ids (s.drawn + 1 + 1))

  abbrev with_key : Session → Db
  with_key s = record s.db { idempotency_keys = s.db.idempotency_keys ++ idem_of s ∷ [] }

  abbrev pub claimed_db : Session → Db
  claimed_db s = record (with_key s) {
    payment_attempts = s.db.payment_attempts ++ attempt_of s ∷ [];
  }

  module _ (calm : (n : ℕ) → env.fault n ≡ false) (s : Session) (inv : Invoice)
      (f : IsFree s.db s.drawn inv) where
    key_made :
        create_idempotency_key env.now (env.ids s.drawn) b key hash s.db
        ≡ ok (idem_of s, with_key s)
    unfolding create_idempotency_key
    key_made = rw (f.unknown_key, f.business) refl

    attempt_made :
        create_payment_attempt env.now
          (env.ids (s.drawn + 1))
          i
          (env.ids s.drawn)
          (env.ids (s.drawn + 1 + 1))
          (with_key s)
        ≡ ok (attempt_of s, claimed_db s)
    unfolding create_payment_attempt
    attempt_made =
        let invoice_there : any_row (λ v. v.id == i) s.db.invoices ≡ true =
          find_row-any (invoice_is i b) (λ v. v.id == i) s.db.invoices f.found
            (let is = find_row-holds (invoice_is i b) s.db.invoices f.found in ground arith) in
        let key_there =
          any_row-append_last (λ k. k.id == env.ids s.drawn) s.db.idempotency_keys (idem_of s)
            (ground arith) in
        rw (f.alone, invoice_there, key_there) refl

    -- What is left once the key is there.
    abbrev attempts : IdempotencyKey → Tx Claim
    attempts idem = do
      attempt_id ← next_id env.ids
      psp_request_id ← next_id env.ids
      attempt ←
          on_unique payment_in_progress
            (exec env.fault (create_payment_attempt env.now attempt_id i idem.id psp_request_id))
      pure (fresh idem attempt inv)

    open_lem :
        s.aborted ≡ false
        → claim_open env b i key hash inv s ≡ (
          ok (fresh (idem_of s) (attempt_of s) inv),
          record s { db = claimed_db s; drawn = s.drawn + 1 + 1 + 1; ticks = s.ticks + 1 + 1 },
        )
    unfolding claim_open next_id
    open_lem live =
        let insert = create_idempotency_key env.now (env.ids s.drawn) b key hash in
        let try =
          create_payment_attempt env.now (env.ids (s.drawn + 1)) i (env.ids s.drawn)
            (env.ids (s.drawn + 1 + 1)) in
        let s₁ = record s { drawn = s.drawn + 1 } in
        let s₂ = record s { db = with_key s; drawn = s.drawn + 1 + 1 + 1; ticks = s.ticks + 1 } in
        let first =
          bind_step (exec env.fault insert) attempts s₁
            (exec_calm env.fault insert s₁ (calm s.ticks) live key_made) in
        let second =
          bind_step (on_unique payment_in_progress (exec env.fault try))
            (λ attempt. pure (fresh (idem_of s) attempt inv)) s₂
            (on_unique-ok payment_in_progress (exec env.fault try) s₂
              (exec_calm env.fault try s₂ (calm (s.ticks + 1)) live attempt_made)) in
        rw f.payable (first ∙ second)

    -- The key is not there, so the invoice is read.
    new_lem :
        s.aborted ≡ false
        → (let q = get_invoice_for_payment i b in
            let t = record s { ticks = s.ticks + 1 } in
            claim_open env b i key hash inv t ≡ claim_found env b i key hash none s)
    unfolding claim_found claim_new get_invoice_for_payment
    new_lem live =
        let q = get_invoice_for_payment i b in
        sym (
          bind_step (exec env.fault q) (claim_open env b i key hash) s
            (exec_calm env.fault q s (calm s.ticks) live (ap (λ o. one_row o s.db) f.found)))

    no_key : get_idempotency_key b key s.db ≡ err no_rows
    unfolding get_idempotency_key
    no_key =
        ap (λ o. one_row o s.db)
          (find_row-missing (key_is b key) s.db.idempotency_keys (
            any_row-weaken (key_is b key) (λ k. k.id == env.ids s.drawn || key_is b key k)
              s.db.idempotency_keys (λ k e. ground arith) f.unknown_key))

    body_lem :
        s.aborted ≡ false
        → claim_body env b i key hash s
          ≡ claim_found env b i key hash none (record s { ticks = s.ticks + 1 })
    unfolding claim_body exec settle
    body_lem live =
        let q = get_idempotency_key b key in
        let read : exec env.fault q s ≡ (err no_rows, record s { ticks = s.ticks + 1 }) =
          rw (live, calm s.ticks, no_key) refl in
        bind_step (optional (exec env.fault q)) (claim_found env b i key hash) s
          (optional-none (exec env.fault q) s read)

  -- The session after the claim.
  abbrev pub claimed : Session → Session
  claimed s = record s {
    db = claimed_db s;
    drawn = s.drawn + 1 + 1 + 1;
    ticks = s.ticks + 1 + 1 + 1 + 1 + 1 + 1;
    aborted = false;
  }

  pub claim_lem :
      (calm : (n : ℕ) → env.fault n ≡ false) (s : Session) (inv : Invoice)
      → IsFree s.db s.drawn inv
      → claim env b i key hash s ≡ (ok (fresh (idem_of s) (attempt_of s) inv), claimed s)
  unfolding claim run_tx finish
  claim_lem calm s inv f =
      let s₁ = opened s in
      let s₂ = record s₁ { ticks = s₁.ticks + 1 } in
      let s₃ = record s₂ { ticks = s₂.ticks + 1 } in
      let body =
        body_lem calm s₁ inv f refl
        ∙ (sym (new_lem calm s₂ inv f refl) ∙ open_lem calm s₃ inv f refl) in
      rw (calm s.ticks) (
        subst
          (λ r.
            finish env.fault env.lost s.db r
            ≡ (ok (fresh (idem_of s) (attempt_of s) inv), claimed s))
          (sym body) (rw (calm (s.ticks + 1 + 1 + 1 + 1 + 1)) refl))
