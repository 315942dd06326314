-- ===== src/Invoice/Totals.antt =====
-- The loop of `CreateInvoice` in internal/invoice/invoice.go over the line items.
pub mod Exact
use dodo_payments_backend.Base.{
  ℕ, ◌+◌, ◌<◌, ◌≤◌, ◌≡◌, Bool, true, false, not, ◌&&◌, List, [], ◌∷◌, if◌then◌else◌,
}
use dodo_payments_backend.Base.Int.{ℤ, pos, negsuc, ◌+ℤ◌, ◌*ℤ◌, ltb_ℤ, leb_ℤ, eqb_ℤ, quot, wrap64}
use dodo_payments_backend.Base.Result.{Result, ok, err}
use dodo_payments_backend.Base.Text.{Text, is_empty, trim_space}
use dodo_payments_backend.Invoice.Types.{ItemInput}

-- The reason for a refusal, with the number of the item where the message has it.
pub data Refusal : Type 0 where
  no_description bad_quantity bad_unit_amount line_overflow : ℕ → Refusal
  total_overflow : Refusal

-- `int64(itm.Quantity) * itm.UnitAmountCents`.
unfoldable pub line_total : ItemInput → ℤ
line_total itm = wrap64 (itm.quantity *ℤ itm.unit_amount_cents)

-- The division is not reached where the unit amount is 0.
unfoldable pub line_overflows : ItemInput → Bool
line_overflows itm =
    ltb_ℤ (pos 0) itm.unit_amount_cents
    && not (eqb_ℤ (quot (line_total itm) itm.unit_amount_cents) itm.quantity)

-- The sum of the lines from the item of the number `n` on.
unfoldable pub sum_items : ℕ → ℤ → List ItemInput → Result Refusal ℤ
sum_items n total [] = ok total
sum_items n total (itm ∷ items) =
    let new_total = wrap64 (total +ℤ line_total itm) in
    let rest = sum_items (n + 1) new_total items in
    if is_empty (trim_space itm.description)
    then err (no_description n)
    else if leb_ℤ itm.quantity (pos 0)
    then err (bad_quantity n)
    else if ltb_ℤ itm.unit_amount_cents (pos 0)
    then err (bad_unit_amount n)
    else if line_overflows itm
    then err (line_overflow n)
    else if ltb_ℤ new_total total
    then err total_overflow
    else rest
