-- ===== src/Payment/System/Charges.antt =====
-- A call of the PSP keeps the invariant (`Charge` between the transactions of
-- internal/payment/payment.go).
use mathlib.Core.Path.{subst}
use dodo_payments_backend.Base.{
  ◌≡◌, ◌+◌, inl, inr, Bool, true, false, Option, none, some, ◌==◌, arith, Bool-cases, ◌||◌,
}
use dodo_payments_backend.Base.Rows.{All-zip}
use dodo_payments_backend.Db.{RowId, is_failed}
use dodo_payments_backend.Psp.{ChargeResult}
use dodo_payments_backend.Payment.Finalize.Verdict.{Verdict, uncertain, declined, charged, verdict}
use dodo_payments_backend.Payment.System.{System, Flight, at, IsHonest}
use dodo_payments_backend.Payment.System.Rows.{IsRunning, IsSafe, AgreesWith, IsTruthful}

-- The call of the PSP.
module _ (sys : System) (a : RowId) (f : Flight) (answer : Option ChargeResult) (took : Bool)
    (flying : sys.flights a ≡ some f) (waits : f.answered ≡ none)
    (honest : IsHonest (verdict answer) took) (safe : IsSafe sys) where
  fresh_call : (sys.calls a ≡ 0) × (sys.captured a ≡ false)
  fresh_call =
      subst (λ o. AgreesWith o (sys.calls a) (sys.captured a)) waits (safe.agrees a f flying)

  honest_lem : (v : Verdict) → IsHonest v took → IsTruthful v (sys.captured a || took)
  honest_lem uncertain h = tt
  honest_lem (declined r) h = ground (arith, fresh_call)
  honest_lem (charged r) h = ground (arith, h)

  pub charge-IsSafe : IsSafe (record sys {
    flights = at a (some (record f { answered = some answer })) sys.flights;
    calls = at a (sys.calls a + 1) sys.calls;
    captured = at a (sys.captured a || took) sys.captured;
  })
  charge-IsSafe = record {
    sound = safe.sound;
    aloft = λ a' g e. elim (Bool-cases (a' == a)) [
      | inl same ↦
          let own : a' ≡ a = ground arith in
          let is : g ≡ record f { answered = some answer } = ground arith in
          let k = safe.aloft a f flying in
          rw (own, is)
            (record {
              own = k.own;
              running = k.running;
              present = k.present;
              owned = k.owned;
              invoiced = k.invoiced;
            })
      | inr other ↦ safe.aloft a' g (ground arith)
    ];
    agrees = λ a' g e. elim (Bool-cases (a' == a)) [
      | inl same ↦
          let is : g.answered ≡ some answer = ground arith in
          rw (same, is) (ground (arith, fresh_call), honest_lem (verdict answer) honest)
      | inr other ↦ rw other (safe.agrees a' g (ground arith))
    ];
    once = λ a'. ground (arith, fresh_call, safe.once a');
    new = λ a' gone. ground (arith, safe.new a' gone, (safe.aloft a f flying).present);
    kept =
        All-zip (IsRunning a f.invoice.id)
          (λ x. sys.captured x.id ≡ true → is_failed x.status ≡ false) _ sys.db.payment_attempts
          (λ x r old c. elim (Bool-cases (x.id == a)) [
            | inl same ↦ let running = r (ground arith) in ground arith
            | inr other ↦ old (ground arith)
          ])
          (safe.aloft a f flying).running safe.kept;
  }
