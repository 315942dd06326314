-- ===== src/Payment/System/Claims.antt =====
-- The first transaction of a payment keeps the invariant (`claim` of internal/payment/payment.go).
use dodo_payments_backend.Base.{
  ◌≡◌, ◌≢◌, inl, inr, refl, sym, ap, ◌∙◌, Bool, true, false, none, some, List, [], ◌∷◌, ◌==◌, arith,
  All, any_row, find_row, Bool-cases,
}
use dodo_payments_backend.Base.Rows.{
  AllPairs, All-map, All-zip, All-append, AllPairs-append, All-of_any_row, any_row-false,
  any_row-append, any_row-append_last, find_row-All, find_row-any, find_row-holds,
}
use dodo_payments_backend.Base.Text.{Text}
use dodo_payments_backend.Db.{
  RowId, IdempotencyKey, PaymentAttempt, Invoice, Db, is_failed, is_succeeded, is_unresolved,
}
use dodo_payments_backend.Db.Queries.Payment.{invoice_is, clashes}
use dodo_payments_backend.Http.{Env}
use dodo_payments_backend.Payment.Claim.Effects.{IsClaimed}
use dodo_payments_backend.Payment.System.{System, Flight, at}
use dodo_payments_backend.Payment.System.Rows.{
  Exclusive, AreDistinct, IsClosed, has_invoice, has_attempt, ClosesInvoice, AreSound, IsRunning,
  IsAloft, IsSafe,
}

-- Two rows of the table of invoices with one id are the same.
found_IsOnly :
    (p : Invoice → Bool) (vs : List Invoice) {v : Invoice}
    → AllPairs AreDistinct vs
    → find_row p vs ≡ some v
    → All (λ w. w.id ≡ v.id → w ≡ v) vs
unfolding find_row
found_IsOnly p [] h f = tt
found_IsOnly p (w ∷ ws) {v} h f = elim (Bool-cases (p w)) [
  | inl e ↦
      let same : w ≡ v = ground arith in
      (λ _. same, All-map (AreDistinct w) _ ws (λ u ne eq. absurd (ground arith)) h.0)
  | inr e ↦
      let later : find_row p ws ≡ some v = ground arith in
      let ne = (find_row-All (AreDistinct w) p ws later h.0).1 in
      (λ eq. absurd (ne eq), found_IsOnly p ws h.1 later)
]

module _ (env : Env) (b i : RowId) (key hash : Text) {before after : Db} {idem : IdempotencyKey}
    {attempt : PaymentAttempt} {inv : Invoice}
    (c : IsClaimed env b i key hash before after idem attempt inv)
    (h : AreSound before.invoices before.payment_attempts) where
  lone :
      All
        (λ x. clashes attempt.id i idem.id attempt.psp_request_id x ≡ false)
        before.payment_attempts
  lone =
      All-of_any_row (clashes attempt.id i idem.id attempt.psp_request_id) before.payment_attempts
        c.alone

  inv_lem : (inv.id ≡ i) × (inv.business_id ≡ b)
  inv_lem = let t = find_row-holds (invoice_is i b) before.invoices c.found in ground arith

  new_lem :
      (attempt.invoice_id ≡ i)
      × (is_unresolved attempt.status ≡ true)
      × (is_failed attempt.status ≡ false)
      × (is_succeeded attempt.status ≡ false)
  new_lem = rw c.new_attempt (refl, refl, refl, refl)

  -- Each earlier attempt has another id, and has failed if it is for the same invoice.
  apart : All (λ x. Exclusive x attempt) before.payment_attempts
  apart =
      All-zip (λ x. clashes attempt.id i idem.id attempt.psp_request_id x ≡ false)
        (ClosesInvoice before.invoices) _ before.payment_attempts one lone h.closed
    where
      one :
          (x : PaymentAttempt)
          → clashes attempt.id i idem.id attempt.psp_request_id x ≡ false
          → ClosesInvoice before.invoices x
          → Exclusive x attempt
      one x k closes =
          let apart_id : x.id ≢ attempt.id = ground arith in
          (
            apart_id,
            λ eq.
                let same : x.invoice_id ≡ i = ground (arith, new_lem) in
                elim (Bool-cases (is_succeeded x.status)) [
                  | inl s ↦
                      let (_, shut) =
                        find_row-All (IsClosed x.invoice_id) (invoice_is i b) before.invoices
                          c.found (closes s) in
                      let now_shut = shut (inv_lem.0 ∙ sym same) in
                      absurd (ground (arith, c.payable))
                  | inr n ↦ inl (ground (arith))
                ],
          )

  claimed_AreSound : AreSound after.invoices after.payment_attempts
  claimed_AreSound = rw c.written (record {
    exclusive = AllPairs-append Exclusive before.payment_attempts attempt h.exclusive apart;
    distinct = h.distinct;
    known = All-append _ before.payment_attempts attempt h.known (
        find_row-any (invoice_is i b) (has_invoice attempt.invoice_id) before.invoices c.found
          (ground (arith, new_lem, inv_lem)));
    closed =
        All-append (ClosesInvoice before.invoices) before.payment_attempts attempt h.closed
          (λ s. absurd (ground (arith, new_lem)));
  })

  -- The request that has claimed.
  claimed_IsAloft :
      (f : Flight)
      → f.attempt ≡ attempt
      → f.invoice ≡ inv
      → f.business_id ≡ b
      → IsAloft after.invoices after.payment_attempts attempt.id f
  claimed_IsAloft f fa fi fb = rw c.written (record {
    own = ap (λ x. x.id) fa;
    running =
        All-append (IsRunning attempt.id f.invoice.id) before.payment_attempts attempt
          (All-map (λ x. Exclusive x attempt) _ before.payment_attempts (λ x e eq. absurd (e.0 eq))
            apart)
          (λ _. ground (arith, new_lem, inv_lem, fi));
    present =
        any_row-append_last (has_attempt attempt.id) before.payment_attempts attempt (ground arith);
    owned =
        All-map (λ w. w.id ≡ inv.id → w ≡ inv) _ before.invoices
          (λ w only eq. let same = only (eq ∙ ap (λ v. v.id) fi) in ground (arith, inv_lem, fi, fb))
          (found_IsOnly (invoice_is i b) before.invoices h.distinct c.found);
    invoiced =
        find_row-any (invoice_is i b) (has_invoice f.invoice.id) before.invoices c.found
          (ground (arith, fi));
  })

  -- A request that was in flight before.
  still_IsAloft :
      (a : RowId) (f : Flight)
      → a ≢ attempt.id
      → IsAloft before.invoices before.payment_attempts a f
      → IsAloft after.invoices after.payment_attempts a f
  still_IsAloft a f ne k = rw c.written (record {
    own = k.own;
    running =
        All-append (IsRunning a f.invoice.id) before.payment_attempts attempt k.running
          (λ eq. absurd (ne (sym eq)));
    present = any_row-append (has_attempt a) before.payment_attempts attempt k.present;
    owned = k.owned;
    invoiced = k.invoiced;
  })

  no_attempt : any_row (has_attempt attempt.id) before.payment_attempts ≡ false
  no_attempt =
      any_row-false (has_attempt attempt.id) before.payment_attempts
        (All-map (λ x. Exclusive x attempt) _ before.payment_attempts (λ x e. ground arith) apart)

-- The claim of a request keeps the invariant.
pub claim-IsSafe :
    (env : Env) (b i : RowId) (key hash : Text) (sys : System) {before after : Db}
    {idem : IdempotencyKey} {attempt : PaymentAttempt} {inv : Invoice}
    → before ≡ sys.db
    → IsClaimed env b i key hash before after idem attempt inv
    → IsSafe sys
    → IsSafe (record sys {
      db = after;
      flights =
          at attempt.id
            (some (record {
              business_id = b;
              idem = idem;
              attempt = attempt;
              invoice = inv;
              answered = none;
            }))
            sys.flights;
    })
claim-IsSafe env b i key hash sys {before} {after} {idem} {attempt} {inv} same c₀ safe = record {
  sound = claimed_AreSound env b i key hash c safe.sound;
  aloft = λ a f now. elim (Bool-cases (a == attempt.id)) [
    | inl e ↦
        let own : a ≡ attempt.id = ground arith in
        let is : some flight ≡ some f = ground arith in
        rw own (
          claimed_IsAloft env b i key hash c safe.sound f (ground arith) (ground arith)
            (ground arith))
    | inr e ↦
        still_IsAloft env b i key hash c safe.sound a f (ground arith)
          (safe.aloft a f (ground arith))
  ];
  agrees = λ a f now. elim (Bool-cases (a == attempt.id)) [
    | inl e ↦
        let own : a ≡ attempt.id = ground arith in
        let unanswered : f.answered ≡ none = ground arith in
        rw (unanswered, own) (safe.new attempt.id (no_attempt env b i key hash c safe.sound))
    | inr e ↦ safe.agrees a f (ground arith)
  ];
  once = safe.once;
  new = λ a none_left.
      safe.new a (elim (Bool-cases (any_row (has_attempt a) sys.db.payment_attempts)) [
        | inl there ↦ absurd (
            ground (
              arith,
              any_row-append (has_attempt a) sys.db.payment_attempts attempt there,
              c.written,
            ))
        | inr gone ↦ gone
      ]);
  kept = rw c.written (
      All-append _ sys.db.payment_attempts attempt safe.kept
        (λ _. (new_lem env b i key hash c safe.sound).2));
}
  where
    c : IsClaimed env b i key hash sys.db after idem attempt inv
    c = rw (← same) c₀

    flight : Flight
    flight = record {
      business_id = b;
      idem = idem;
      attempt = attempt;
      invoice = inv;
      answered = none;
    }
