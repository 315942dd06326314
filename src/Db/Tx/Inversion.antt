-- ===== src/Db/Tx/Inversion.antt =====
-- What a statement or a transaction that went well has done (the transactions of
-- internal/payment/payment.go and WithTx in internal/invoice/invoice.go).
use dodo_payments_backend.Base.{ap, ◌⊎◌, ◌≢◌, ℕ, ◌+◌, ◌≡◌, refl, Bool, true, false, arith, inl, inr}
use dodo_payments_backend.Base.Result.{Result, ok, err}
use dodo_payments_backend.Db.Tx.{
  Db, query, Error, no_rows, failure, Session, Tx, Query, ◌>>=◌, settle, exec, finish, run_tx,
}

-- The session in which the body of a transaction starts.
abbrev pub opened : Session → Session
opened s = record s { ticks = s.ticks + 1; aborted = false }

module _ {A B : Type 0} where
  -- One step of a do block, by its result.
  continue_ok :
      (f : A → Tx B) (r : Result Error A × Session) {b : B} {s' : Session}
      → (let (r', t) = r in elim r' [ ok a ↦ f a t | err e ↦ (err e, t) ]) ≡ (ok b, s')
      → (a : A) × (t : Session) × (r ≡ (ok a, t)) × (f a t ≡ (ok b, s'))
  continue_ok f (ok a, t) h = (a, t, refl, h)
  continue_ok f (err e, t) h = cc

  pub bind_ok :
      (m : Tx A) (f : A → Tx B) (s : Session) {b : B} {s' : Session}
      → (m >>= f) s ≡ (ok b, s')
      → (a : A) × (t : Session) × (m s ≡ (ok a, t)) × (f a t ≡ (ok b, s'))
  bind_ok m f s h = continue_ok f (m s) h

  continue_err :
      (f : A → Tx B) (r : Result Error A × Session) {e : Error} {s' : Session}
      → (let (r', t) = r in elim r' [ ok a ↦ f a t | err x ↦ (err x, t) ]) ≡ (err e, s')
      → (r ≡ (err e, s')) ⊎ ((a : A) × (t : Session) × (r ≡ (ok a, t)) × (f a t ≡ (err e, s')))
  continue_err f (ok a, t) h = inr (a, t, refl, h)
  continue_err f (err x, t) h = inl (cc)

  pub bind_err :
      (m : Tx A) (f : A → Tx B) (s : Session) {e : Error} {s' : Session}
      → (m >>= f) s ≡ (err e, s')
      → (m s ≡ (err e, s')) ⊎ ((a : A) × (t : Session) × (m s ≡ (ok a, t)) × (f a t ≡ (err e, s')))
  bind_err m f s h = continue_err f (m s) h

module _ {A : Type 0} where
  -- A statement that went well has run its query, in a transaction that is not aborted.
  pub exec_ok :
      (fault : ℕ → Bool) (q : Query A) (s : Session) {a : A} {s' : Session}
      → exec fault q s ≡ (ok a, s')
      → (q s.db ≡ ok (a, s'.db)) × (s'.aborted ≡ false) × (s.aborted ≡ false) × (s'.drawn ≡ s.drawn)
  unfolding exec settle
  exec_ok fault q s h = ground arith

  -- A transaction that went well ended with the tables of its body, which was not aborted.
  pub run_tx_ok :
      (fault lost : ℕ → Bool) (m : Tx A) (s : Session) {a : A} {s' : Session}
      → run_tx fault lost m s ≡ (ok a, s')
      → let t = (m (opened s)).1 in
        (m (opened s) ≡ (ok a, t)) × (s'.db ≡ t.db) × (t.aborted ≡ false)
  unfolding run_tx finish
  run_tx_ok fault lost m s h = ground arith

  -- A statement in an aborted transaction fails and changes nothing.
  pub exec_aborted :
      (fault : ℕ → Bool) (q : Query A) (s : Session)
      → s.aborted ≡ true
      → exec fault q s ≡ (err failure, s)
  unfolding exec
  exec_aborted fault q s h = rw h

  -- A statement whose query finds no missing row aborts the transaction when it fails.
  pub exec_err :
      (fault : ℕ → Bool) (q : Query A) (s : Session) {e : Error} {s' : Session}
      → q s.db ≢ err no_rows
      → exec fault q s ≡ (err e, s')
      → s'.aborted ≡ true
  unfolding exec settle
  exec_err fault q s n h = ground arith

module _ {A : Type 0} (fault : ℕ → Bool) (q : Query A) (s : Session)
    (calm : fault s.ticks ≡ false) where
  -- A statement outside of a transaction, by the result of its query.
  pub query_ok :
      {a : A} {db' : Db}
      → q s.db ≡ ok (a, db')
      → query fault q s ≡ (ok a, record s { db = db'; ticks = s.ticks + 1; aborted = false })
  unfolding query exec settle
  query_ok h = rw (calm, h) refl

  pub query_none :
      q s.db ≡ err no_rows
      → query fault q s ≡ (err no_rows, record s { ticks = s.ticks + 1; aborted = false })
  unfolding query exec settle
  query_none h = rw (calm, h) refl

  -- A statement of a transaction that is not aborted.
  pub exec_calm :
      {a : A} {db' : Db}
      → s.aborted ≡ false
      → q s.db ≡ ok (a, db')
      → exec fault q s ≡ (ok a, record s { db = db'; ticks = s.ticks + 1 })
  unfolding exec settle
  exec_calm live h = rw (live, calm, h) refl

-- A step of a do block that goes well, forwards.
pub bind_step :
    {A B : Type 0} (m : Tx A) (f : A → Tx B) (s : Session) {a : A} {t : Session}
    → m s ≡ (ok a, t)
    → (m >>= f) s ≡ f a t
bind_step m f s h = ap (λ r. let (r', t) = r in elim r' [ ok a ↦ f a t | err e ↦ (err e, t) ]) h
