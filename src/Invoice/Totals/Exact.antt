-- ===== src/Invoice/Totals/Exact.antt =====
-- The loop of `CreateInvoice` accepts exactly the items whose exact total is an int64
-- (internal/invoice/invoice.go).
use dodo_payments_backend.Base.{
  ℕ, ◌+◌, ◌*◌, ◌/◌, ◌%◌, ◌^◌, ltb, ◌<◌, ◌≤◌, ◌≡◌, ◌↔◌, refl, ap, ◌∙◌, true, false, List, [], ◌∷◌,
  arith, All, Bool-cases, inl, inr,
}
use native.Mathlib.Nat.{mul-div_cancel, div-lt_iff_lt-mul}
use dodo_payments_backend.Base.Int.{
  ℤ, pos, negsuc, ◌+ℤ◌, ◌*ℤ◌, ltb_ℤ, leb_ℤ, eqb_ℤ, quot, to_uint64, to_int64, wrap64, pos_part,
}
use dodo_payments_backend.Base.Result.{ok}
use dodo_payments_backend.Base.Text.{Text, is_empty, trim_space}
use dodo_payments_backend.Invoice.Types.{ItemInput}
use dodo_payments_backend.Invoice.Totals.{line_total, line_overflows, sum_items}

-- An item that may be billed: described, of a positive quantity and of no negative amount.
abbrev pub IsBillable : ItemInput → Type 0
IsBillable itm =
    (is_empty (trim_space itm.description) ≡ false)
    × (ltb_ℤ (pos 0) itm.quantity ≡ true)
    × (leb_ℤ (pos 0) itm.unit_amount_cents ≡ true)

-- The exact cents of the items.
abbrev pub cents : List ItemInput → ℕ
cents [] = 0
cents (itm ∷ items) = pos_part itm.quantity * pos_part itm.unit_amount_cents + cents items

wrap_pos : (n : ℕ) → n < 2 ^ 63 → wrap64 (pos n) ≡ pos n
unfolding wrap64 to_int64 to_uint64
wrap_pos n h = ground arith

-- A sum of two int64 values that is too large is negative.
wrap_over : (n : ℕ) → 2 ^ 63 ≤ n → n < 2 ^ 64 → ltb_ℤ (wrap64 (pos n)) (pos 0) ≡ true
unfolding wrap64 to_int64 to_uint64
wrap_over n h k = ground arith

mul_pos : (a b : ℕ) → pos a *ℤ pos b ≡ pos (a * b)
unfolding ◌*ℤ◌
mul_pos a b = ground arith

quot_pos : (a b : ℕ) → quot (pos a) (pos b) ≡ pos (a / b)
unfolding quot
quot_pos a b = ground arith

-- The quotient of what an overflow leaves is not the quantity.
quot_wrapped :
    (a b p : ℕ)
    → 0 < a
    → 0 < b
    → a * b ≡ p
    → 2 ^ 63 ≤ p
    → eqb_ℤ (quot (wrap64 (pos p)) (pos b)) (pos a) ≡ false
unfolding wrap64 to_int64 to_uint64 quot
quot_wrapped a b p ha hb e h =
    ground (arith, (div-lt_iff_lt-mul {k = b} {x = p % 2 ^ 64} {y = a} hb).1)

line_fits :
    (d : Text) (a b : ℕ)
    → a * b < 2 ^ 63
    → (line_total (record { description = d; quantity = pos a; unit_amount_cents = pos b })
        ≡ pos (a * b))
      × (line_overflows (record { description = d; quantity = pos a; unit_amount_cents = pos b })
          ≡ false)
unfolding line_total line_overflows
line_fits d a b h =
    rw (mul_pos a b, wrap_pos (a * b) h, quot_pos (a * b) b)
      (
        refl,
        elim (Bool-cases (ltb_ℤ (pos 0) (pos b))) [
          | inl e ↦ ground (arith, mul-div_cancel a {n = b} (ground arith))
          | inr e ↦ ground arith
        ],
      )

line_breaks :
    (d : Text) (a b : ℕ)
    → 0 < a
    → 2 ^ 63 ≤ a * b
    → line_overflows (record { description = d; quantity = pos a; unit_amount_cents = pos b })
      ≡ true
unfolding line_total line_overflows
line_breaks d a b ha h = elim (Bool-cases (ltb_ℤ (pos 0) (pos b))) [
  | inl e ↦ ground (arith, mul_pos a b, quot_wrapped a b (a * b) ha (ground arith) refl h)
  | inr e ↦ let zero_b : b ≡ 0 = ground arith in absurd (too_small zero_b)
]
  where
    too_small : b ≡ 0 → ⊥
    too_small e = let none_left : a * b ≡ 0 = rw e (ground arith) in omega (arith, h, none_left)

-- A sum of a total and a line, both of an int64.
add_fits :
    (t p : ℕ)
    → t + p < 2 ^ 63
    → (wrap64 (pos t +ℤ pos p) ≡ pos (t + p)) × (ltb_ℤ (wrap64 (pos t +ℤ pos p)) (pos t) ≡ false)
unfolding ◌+ℤ◌ wrap64 to_int64 to_uint64
add_fits t p h = ground arith

add_breaks :
    (t p : ℕ)
    → t < 2 ^ 63
    → p < 2 ^ 63
    → 2 ^ 63 ≤ t + p
    → ltb_ℤ (wrap64 (pos t +ℤ pos p)) (pos t) ≡ true
unfolding ◌+ℤ◌ wrap64 to_int64 to_uint64
add_breaks t p h k l = ground arith

-- What the loop promises for the items and the total so far.
abbrev Accepts : ℕ → List ItemInput → ℤ → Type 0
Accepts t items total =
    All IsBillable items × (t + cents items < 2 ^ 63) × (total ≡ pos (t + cents items))

abbrev item : Text → ℤ → ℤ → ItemInput
item d q u = record { description = d; quantity = q; unit_amount_cents = u }

step_sound :
    (n t : ℕ) (d : Text) (q u : ℤ) (items : List ItemInput) {total : ℤ}
    → t < 2 ^ 63
    → ((t' : ℕ)
        → t' < 2 ^ 63
        → sum_items (n + 1) (pos t') items ≡ ok total
        → Accepts t' items total)
    → sum_items n (pos t) (item d q u ∷ items) ≡ ok total
    → Accepts t (item d q u ∷ items) total
unfolding sum_items
step_sound n t d (negsuc a) u items h rest e = absurd (ground arith)
step_sound n t d (pos a) (negsuc b) items h rest e = absurd (ground arith)
step_sound n t d (pos a) (pos b) items {total} h rest e = elim (Bool-cases (ltb (a * b) (2 ^ 63))) [
  | inl fits ↦
      let (line, fine) = line_fits d a b (ground arith) in
      elim (Bool-cases (ltb (t + a * b) (2 ^ 63))) [
        | inl small ↦
            let (sum, rises) = add_fits t (a * b) (ground arith) in
            let later : sum_items (n + 1) (pos (t + a * b)) items ≡ ok total =
              ground (arith, line, fine, sum, rises) in
            let (billable, bound, exact) = rest (t + a * b) (ground arith) later in
            (
              ((ground arith, ground arith, ground arith), billable),
              ground arith,
              exact ∙ ap pos (omega arith),
            )
        | inr large ↦
            let falls = add_breaks t (a * b) h (ground arith) (ground arith) in
            absurd (ground (arith, line, falls))
      ]
  | inr over ↦
      let a_pos : 0 < a = ground arith in
      let breaks = line_breaks d a b a_pos (ground arith) in absurd (ground (arith, breaks))
]

sum_items_sound :
    (n t : ℕ) (items : List ItemInput) {total : ℤ}
    → t < 2 ^ 63
    → sum_items n (pos t) items ≡ ok total
    → Accepts t items total
unfolding sum_items
sum_items_sound n t [] h e = (tt, ground arith, ground arith)
sum_items_sound n t (itm ∷ items) h e =
    step_sound n t itm.description itm.quantity itm.unit_amount_cents items h
      (λ t' lt e'. sum_items_sound (n + 1) t' items lt e') e

step_complete :
    (n t : ℕ) (d : Text) (q u : ℤ) (items : List ItemInput)
    → IsBillable (item d q u)
    → t + (pos_part q * pos_part u + cents items) < 2 ^ 63
    → sum_items n (pos t) (item d q u ∷ items)
      ≡ sum_items (n + 1) (pos (t + pos_part q * pos_part u)) items
unfolding sum_items
step_complete n t d (negsuc a) u items k h = absurd (ground arith)
step_complete n t d (pos a) (negsuc b) items k h = absurd (ground arith)
step_complete n t d (pos a) (pos b) items k h =
    let (line, fine) = line_fits d a b (ground arith) in
    let (sum, rises) = add_fits t (a * b) (ground arith) in
    ground (arith, k, line, fine, sum, rises)

sum_items_complete :
    (n t : ℕ) (items : List ItemInput)
    → All IsBillable items
    → t + cents items < 2 ^ 63
    → sum_items n (pos t) items ≡ ok (pos (t + cents items))
unfolding sum_items
sum_items_complete n t [] k h = ap (λ x. ok (pos x)) (omega arith)
sum_items_complete n t (itm ∷ items) k h =
    step_complete n t itm.description itm.quantity itm.unit_amount_cents items k.0 h
    ∙ sum_items_complete (n + 1) _ items k.1 (ground arith)
    ∙ ap (λ x. ok (pos x)) (omega arith)

-- The loop over the line items of a request accepts them exactly when each is billable (described,
-- of a positive quantity, of no negative amount) and the exact sum of quantity times amount is an
-- int64; it then gives this exact sum, so no wrapped product or sum is ever accepted.
pub sum_items_iff :
    (items : List ItemInput) (total : ℤ)
    → (sum_items 1 (pos 0) items ≡ ok total)
      ↔ (All IsBillable items × (cents items < 2 ^ 63) × (total ≡ pos (cents items)))
sum_items_iff items total = (
  (λ e.
      let (billable, bound, exact) = sum_items_sound 1 0 items (omega arith) e in
      (billable, omega (arith, bound), exact ∙ ap pos (omega arith))),
  (λ h.
      rw h.2 (
        sum_items_complete 1 0 items h.0 (omega (arith, h.1))
        ∙ ap (λ x. ok (pos x)) (omega arith))),
)
