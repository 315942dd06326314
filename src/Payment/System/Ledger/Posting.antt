-- ===== src/Payment/System/Ledger/Posting.antt =====
-- The steps of the payment endpoint as steps of its ledger (internal/payment/payment.go).
use dodo_payments_backend.Base.{
  ◌≡◌, refl, sym, ap, ◌∙◌, Bool, true, false, ◌&&◌, ◌||◌, List, [], ◌∷◌, ◌++◌, ◌==◌, arith, All,
  any_row, update_rows, inl, inr, Bool-cases,
}
use mathlib.Core.Path.{subst}
use dodo_payments_backend.Base.Rows.{AllPairs, AllPairs-mem, All-mem, All-map, All-zip, updated}
use dodo_payments_backend.Base.Members.{any_row-mem, All-of_mem}
use dodo_payments_backend.Db.{
  RowId, PaymentStatus, processing, succeeded, failed, unknown, PaymentAttempt, is_unresolved,
  is_failed, is_processing, is_succeeded,
}
use dodo_payments_backend.Payment.System.{at}
use dodo_payments_backend.Payment.System.Rows.{Exclusive, IsRunning, has_attempt}
use dodo_payments_backend.Payment.System.Ledger.{
  Account, account, nothing, Move, stays, begins, takes, gives_up, pays, Bill, ids_where,
  running_for, taken_for, paid_for, books,
}

pub stay-Bill : (l l' : RowId → Account) → ((j : RowId) → l' j ≡ l j) → Bill l l'
stay-Bill l l' same = record {
  invoice = 0;
  rest = λ j ne. same j;
  moves = rw (same 0) (stays (l 0));
}

ids_where-none :
    (p : PaymentAttempt → Bool) (xs : List PaymentAttempt)
    → All (λ x. p x ≡ false) xs
    → ids_where p xs ≡ []
unfolding ids_where
ids_where-none p [] h = refl
ids_where-none p (x ∷ xs) h = rw (h.0, ids_where-none p xs h.1) refl

ids_where-congr :
    (p q : PaymentAttempt → Bool) (xs : List PaymentAttempt)
    → All (λ x. p x ≡ q x) xs
    → ids_where p xs ≡ ids_where q xs
unfolding ids_where
ids_where-congr p q [] h = refl
ids_where-congr p q (x ∷ xs) h = rw (h.0, ids_where-congr p q xs h.1) refl

ids_where-append_not :
    (p : PaymentAttempt → Bool) (xs : List PaymentAttempt) (y : PaymentAttempt)
    → p y ≡ false
    → ids_where p (xs ++ y ∷ []) ≡ ids_where p xs
unfolding ids_where
ids_where-append_not p [] y h = rw h refl
ids_where-append_not p (x ∷ xs) y h = rw (ids_where-append_not p xs y h) refl

ids_where-append_only :
    (p : PaymentAttempt → Bool) (xs : List PaymentAttempt) (y : PaymentAttempt)
    → All (λ x. p x ≡ false) xs
    → p y ≡ true
    → ids_where p (xs ++ y ∷ []) ≡ y.id ∷ []
unfolding ids_where
ids_where-append_only p [] y h k = rw k refl
ids_where-append_only p (x ∷ xs) y h k = rw (h.0, ids_where-append_only p xs y h.1 k) refl

ids_where-update_rows :
    (p u : PaymentAttempt → Bool) (f : PaymentAttempt → PaymentAttempt) (xs : List PaymentAttempt)
    → ((x : PaymentAttempt) → (f x).id ≡ x.id)
    → ids_where p (update_rows u f xs) ≡ ids_where (λ x. p (updated u f x)) xs
unfolding ids_where update_rows
ids_where-update_rows p u f [] same = refl
ids_where-update_rows p u f (x ∷ xs) same =
    ground (arith, same x, ids_where-update_rows p u f xs same)

abbrev only : Bool → RowId → List RowId
only true a = a ∷ []
only false a = []

-- A test that only the attempt of an id may pass.
ids_where-own :
    (p : PaymentAttempt → Bool) (a : RowId) (q : Bool) (xs : List PaymentAttempt)
    → AllPairs Exclusive xs
    → any_row (has_attempt a) xs ≡ true
    → All (λ x. p x ≡ (x.id == a && q)) xs
    → ids_where p xs ≡ only q a
unfolding ids_where any_row
ids_where-own p a q [] apart there h = absurd (ground arith)
ids_where-own p a false (x ∷ xs) apart there h =
    ids_where-none p (x ∷ xs)
      (All-map (λ x. p x ≡ (x.id == a && false)) _ (x ∷ xs) (λ y e. ground (arith, e)) h)
ids_where-own p a true (x ∷ xs) apart there h = elim (Bool-cases (x.id == a)) [
  | inl e ↦
      let hit : p x ≡ true = ground (arith, h.0) in
      let id : x.id ≡ a = ground arith in
      rw
        (
          hit,
          ids_where-none p xs (
              All-zip (Exclusive x) (λ y. p y ≡ (y.id == a && true)) _ xs
                (λ y n k. ground (arith, n.0, k)) apart.0 h.1),
          id,
        )
        refl
  | inr e ↦
      let miss : p x ≡ false = ground (arith, h.0) in
      rw miss (ids_where-own p a true xs apart.1 (ground arith) h.1)
]

books_eq :
    (captured : RowId → Bool) (xs : List PaymentAttempt) (i : RowId) {r t p : List RowId}
    → ids_where (running_for i) xs ≡ r
    → ids_where (taken_for captured i) xs ≡ t
    → ids_where (paid_for i) xs ≡ p
    → books captured xs i ≡ account r t p
books_eq captured xs i e f g = rw (e, f, g) refl

-- No money was taken for an attempt that has failed.
abbrev pub IsKept : (RowId → Bool) → PaymentAttempt → Type 0
IsKept captured x = captured x.id ≡ true → is_failed x.status ≡ false

-- A claim appends an attempt that is PROCESSING, where all earlier ones of its invoice have failed.
pub claim-Bill :
    (captured : RowId → Bool) (xs : List PaymentAttempt) (attempt : PaymentAttempt)
    → is_processing attempt.status ≡ true
    → captured attempt.id ≡ false
    → All (λ (x : PaymentAttempt). x.invoice_id ≡ attempt.invoice_id → is_failed x.status ≡ true) xs
    → All (IsKept captured) xs
    → Bill (books captured xs) (books captured (xs ++ attempt ∷ []))
claim-Bill captured xs attempt runs untaken lost kept =
    let i = attempt.invoice_id in
    let Failed = λ (x : PaymentAttempt). x.invoice_id ≡ i → is_failed x.status ≡ true in
    let no_running =
      All-map Failed (λ x. running_for i x ≡ false) xs (λ x f. ground (arith, f)) lost in
    let no_paid = All-map Failed (λ x. paid_for i x ≡ false) xs (λ x f. ground (arith, f)) lost in
    let no_taken =
      All-zip Failed (IsKept captured) (λ x. taken_for captured i x ≡ false) xs
        (λ x f k. ground (arith, f, k)) lost kept in
    let before =
      books_eq captured xs i (ids_where-none (running_for i) xs no_running)
        (ids_where-none (taken_for captured i) xs no_taken)
        (ids_where-none (paid_for i) xs no_paid) in
    let after =
      books_eq captured (xs ++ attempt ∷ []) i
        (ids_where-append_only (running_for i) xs attempt no_running (ground (arith, runs)))
        (ids_where-append_not (taken_for captured i) xs attempt (ground (arith, untaken))
          ∙ ids_where-none (taken_for captured i) xs no_taken)
        (ids_where-append_not (paid_for i) xs attempt (ground (arith, runs))
          ∙ ids_where-none (paid_for i) xs no_paid) in
    record {
      invoice = i;
      rest = λ j ne.
          books_eq captured (xs ++ attempt ∷ []) j
            (ids_where-append_not (running_for j) xs attempt (ground (arith, ne)))
            (ids_where-append_not (taken_for captured j) xs attempt (ground (arith, ne)))
            (ids_where-append_not (paid_for j) xs attempt (ground (arith, ne)));
      moves =
          subst (λ m. Move m (books captured (xs ++ attempt ∷ []) attempt.invoice_id)) (sym before)
            (subst (Move nothing) (sym after) (begins attempt.id));
    }

-- The status that a finalization gives says whether the money was taken.
abbrev pub Says : Bool → PaymentStatus → Type 0
Says took processing = ⊥
Says took unknown = Unit {0}
Says took failed = took ≡ false
Says took succeeded = took ≡ true

-- An attempt in flight.
module _ (captured : RowId → Bool) (xs : List PaymentAttempt) (a i : RowId)
    (running : All (IsRunning a i) xs) (present : any_row (has_attempt a) xs ≡ true)
    (exclusive : AllPairs Exclusive xs) (kept : All (IsKept captured) xs) where
  -- All other attempts of the invoice have failed.
  abbrev IsAlone : PaymentAttempt → Type 0
  IsAlone x =
      IsRunning a i x
      × ((x.id == a) ≡ false → x.invoice_id ≡ i → is_failed x.status ≡ true)
      × IsKept captured x

  alone : All IsAlone xs
  alone =
      let (z, m, own) = any_row-mem (has_attempt a) xs present in
      let (runs, bill) = All-mem (IsRunning a i) xs z running m (ground arith) in
      All-of_mem IsAlone xs (λ x n. (
        All-mem (IsRunning a i) xs x running n,
        λ other same. elim (AllPairs-mem Exclusive xs x z exclusive n m) [
          | inl is ↦ absurd (ground (arith, ap (λ (y : PaymentAttempt). y.id) is))
          | inr (inl e) ↦ ground (arith, e.1)
          | inr (inr e) ↦ ground (arith, e.1)
        ],
        All-mem (IsKept captured) xs x kept n,
      ))

  in_books : books captured xs i ≡ account (a ∷ []) (only (captured a) a) []
  in_books =
      books_eq captured xs i
        (ids_where-own (running_for i) a true xs exclusive present
          (All-map IsAlone _ xs (λ x h. ground (arith, h.0, h.1)) alone))
        (ids_where-own (taken_for captured i) a (captured a) xs exclusive present
          (All-map IsAlone _ xs (λ x h. ground (arith, h.0, h.1, h.2)) alone))
        (ids_where-own (paid_for i) a false xs exclusive present
          (All-map IsAlone _ xs (λ x h. ground (arith, h.0, h.1)) alone))

  -- A call of the PSP, which has taken no money so far.
  pub charge-Bill :
      (took : Bool)
      → captured a ≡ false
      → Bill (books captured xs) (books (at a (captured a || took) captured) xs)
  charge-Bill took untaken =
      let captured' = at a (captured a || took) captured in
      let taken_now : ids_where (taken_for captured' i) xs ≡ only took a =
        ids_where-own (taken_for captured' i) a took xs exclusive present
          (All-map IsAlone _ xs (λ x h. ground (arith, h.0, h.1, h.2, untaken)) alone) in
      let running_now =
        ids_where-own (running_for i) a true xs exclusive present
          (All-map IsAlone _ xs (λ x h. ground (arith, h.0, h.1)) alone) in
      let paid_now =
        ids_where-own (paid_for i) a false xs exclusive present
          (All-map IsAlone _ xs (λ x h. ground (arith, h.0, h.1)) alone) in
      record {
        invoice = i;
        rest = λ j ne.
            books_eq captured' xs j refl
              (ids_where-congr (taken_for captured' j) (taken_for captured j) xs
                (All-map IsAlone _ xs (λ x h. ground (arith, h.0, ne)) alone))
              refl;
        moves =
            subst (λ m. Move m (books captured' xs i)) (sym in_books)
              (subst (Move (account (a ∷ []) (only (captured a) a) []))
                (sym (books_eq captured' xs i running_now taken_now paid_now))
                (rw untaken (taking took)));
      }
    where
      taking : (took : Bool) → Move (account (a ∷ []) [] []) (account (a ∷ []) (only took a) [])
      taking true = takes a
      taking false = stays _

  resolving :
      (st : PaymentStatus)
      → Says (captured a) st
      → Move
          (account (a ∷ []) (only (captured a) a) [])
          (account (only (is_unresolved st) a) (only (captured a) a) (only (is_succeeded st) a))
  resolving processing h = absurd h
  resolving unknown h = stays _
  resolving failed h = rw h (gives_up a)
  resolving succeeded h = rw h (pays a)

  -- A finalization, of the rows that it leaves behind.
  pub resolve-Bill :
      (st : PaymentStatus) (p : PaymentAttempt → Bool) (f : PaymentAttempt → PaymentAttempt)
      → Says (captured a) st
      → ((x : PaymentAttempt) → ((f x).id ≡ x.id) × ((f x).invoice_id ≡ x.invoice_id))
      → ((x : PaymentAttempt) → (f x).status ≡ st)
      → ((x : PaymentAttempt) → p x ≡ (x.id == a && is_processing x.status))
      → Bill (books captured xs) (books captured (update_rows p f xs))
  resolve-Bill st p f says same is own =
      let updates =
        λ (q : PaymentAttempt → Bool). ids_where-update_rows q p f xs (λ x. (same x).0) in
      let running_now =
        updates (running_for i)
        ∙ ids_where-own _ a (is_unresolved st) xs exclusive present
            (All-map IsAlone _ xs (λ x h. ground (arith, h.0, h.1, same x, is x, own x)) alone) in
      let taken_now =
        updates (taken_for captured i)
        ∙ ids_where-own _ a (captured a) xs exclusive present
            (All-map IsAlone _ xs (λ x h. ground (arith, h.0, h.1, h.2, same x, own x)) alone) in
      let paid_now =
        updates (paid_for i)
        ∙ ids_where-own _ a (is_succeeded st) xs exclusive present
            (All-map IsAlone _ xs (λ x h. ground (arith, h.0, h.1, same x, is x, own x)) alone) in
      record {
        invoice = i;
        rest = λ j ne.
            books_eq captured (update_rows p f xs) j
              (updates (running_for j)
                ∙ ids_where-congr _ (running_for j) xs
                    (All-map IsAlone _ xs (λ x h. ground (arith, h.0, ne, same x, own x)) alone))
              (updates (taken_for captured j)
                ∙ ids_where-congr _ (taken_for captured j) xs
                    (All-map IsAlone _ xs (λ x h. ground (arith, h.0, ne, same x, own x)) alone))
              (updates (paid_for j)
                ∙ ids_where-congr _ (paid_for j) xs
                    (All-map IsAlone _ xs (λ x h. ground (arith, h.0, ne, same x, own x)) alone));
        moves =
            subst (λ m. Move m (books captured (update_rows p f xs) i)) (sym in_books)
              (subst (Move (account (a ∷ []) (only (captured a) a) []))
                (sym (books_eq captured (update_rows p f xs) i running_now taken_now paid_now))
                (resolving st says));
      }
