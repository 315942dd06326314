-- ===== src/Base/Members.antt =====
-- Members of lists that are sorted, filtered and appended to.
use Prim.Native.Nat.{ℕ, zero, suc, ◌+◌, ◌≤◌}
use mathlib.Core.Option.{some}
use mathlib.Core.Path.{subst, ap, ◌≡◌, refl}
use mathlib.Core.Logic.{inl, inr}
use mathlib.Core.Bool.{Bool, true, ◌||◌}
use native.Mathlib.Omega.{arith}
use mathlib.Core.List.{List, [], ◌∷◌, ◌++◌, Memᴰ}
use dodo_payments_backend.Base.Tests.{if◌then◌else◌, leb, Bool-cases}
use dodo_payments_backend.Base.Lists.{
  find_row, length, take, All, rows_where, insert_by, sort_by, any_row, update_rows,
}
use dodo_payments_backend.Base.Rows.{AllPairs, All-mem, updated}

module _ {ℓ} {A : Type ℓ} where
  mem-insert_by : (key : A → ℕ) (x : A) (xs : List A) → Memᴰ x (insert_by key x xs)
  unfolding insert_by
  mem-insert_by key x [] = Memᴰ.head refl
  mem-insert_by key x (y ∷ ys) = elim (Bool-cases (leb (key x) (key y))) [
    | inl e ↦ rw e (Memᴰ.head refl)
    | inr e ↦ rw e (Memᴰ.tail (mem-insert_by key x ys))
  ]

  mem-insert_by_other :
      (key : A → ℕ) (x z : A) (xs : List A) → Memᴰ z xs → Memᴰ z (insert_by key x xs)
  unfolding insert_by
  mem-insert_by_other key x z [] m = elim m [ ]
  mem-insert_by_other key x z (y ∷ ys) (Memᴰ.head same) = elim (Bool-cases (leb (key x) (key y))) [
    | inl e ↦ rw e (Memᴰ.tail (Memᴰ.head same))
    | inr e ↦ rw e (Memᴰ.head same)
  ]
  mem-insert_by_other key x z (y ∷ ys) (Memᴰ.tail m) = elim (Bool-cases (leb (key x) (key y))) [
    | inl e ↦ rw e (Memᴰ.tail (Memᴰ.tail m))
    | inr e ↦ rw e (Memᴰ.tail (mem-insert_by_other key x z ys m))
  ]

  pub mem-sort_by : (key : A → ℕ) (z : A) (xs : List A) → Memᴰ z xs → Memᴰ z (sort_by key xs)
  unfolding sort_by
  mem-sort_by key z [] m = elim m [ ]
  mem-sort_by key z (x ∷ xs) (Memᴰ.head same) = rw same (mem-insert_by key x (sort_by key xs))
  mem-sort_by key z (x ∷ xs) (Memᴰ.tail m) =
      mem-insert_by_other key x z (sort_by key xs) (mem-sort_by key z xs m)

  pub mem-rows_where :
      (p : A → Bool) (z : A) (xs : List A) → p z ≡ true → Memᴰ z xs → Memᴰ z (rows_where p xs)
  unfolding rows_where
  mem-rows_where p z [] h m = elim m [ ]
  mem-rows_where p z (x ∷ xs) h (Memᴰ.head same) =
      let hit : p x ≡ true = rw (← same) h in rw hit (Memᴰ.head same)
  mem-rows_where p z (x ∷ xs) h (Memᴰ.tail m) = elim (Bool-cases (p x)) [
    | inl e ↦ rw e (Memᴰ.tail (mem-rows_where p z xs h m))
    | inr e ↦ rw e (mem-rows_where p z xs h m)
  ]

  pub mem-append_last : (xs : List A) (y : A) → Memᴰ y (xs ++ y ∷ [])
  mem-append_last [] y = Memᴰ.head refl
  mem-append_last (x ∷ xs) y = Memᴰ.tail (mem-append_last xs y)

  pub mem-append_left : (x : A) (xs ys : List A) → Memᴰ x xs → Memᴰ x (xs ++ ys)
  mem-append_left x [] ys m = elim m [ ]
  mem-append_left x (y ∷ xs) ys (Memᴰ.head same) = Memᴰ.head same
  mem-append_left x (y ∷ xs) ys (Memᴰ.tail m) = Memᴰ.tail (mem-append_left x xs ys m)

  pub mem-append_right : (x : A) (xs ys : List A) → Memᴰ x ys → Memᴰ x (xs ++ ys)
  mem-append_right x [] ys m = m
  mem-append_right x (y ∷ xs) ys m = Memᴰ.tail (mem-append_right x xs ys m)

-- Searches and members.
module _ {ℓ} {A : Type ℓ} where
  pub any_row-append_eq :
      (p : A → Bool) (xs : List A) (y : A) → any_row p (xs ++ y ∷ []) ≡ (any_row p xs || p y)
  unfolding any_row
  any_row-append_eq p [] y = ground arith
  any_row-append_eq p (x ∷ xs) y = ground (arith, any_row-append_eq p xs y)

  pub any_row-congr :
      (p q : A → Bool) (xs : List A) → All (λ x. p x ≡ q x) xs → any_row p xs ≡ any_row q xs
  unfolding any_row
  any_row-congr p q [] h = refl
  any_row-congr p q (x ∷ xs) h = rw (h.0, any_row-congr p q xs h.1) refl

  pub any_row-update_eq :
      (q p : A → Bool) (f : A → A) (xs : List A)
      → any_row q (update_rows p f xs) ≡ any_row (λ x. q (updated p f x)) xs
  unfolding any_row update_rows
  any_row-update_eq q p f [] = refl
  any_row-update_eq q p f (x ∷ xs) = rw (any_row-update_eq q p f xs) refl

  pub any_row-mem :
      (p : A → Bool) (xs : List A) → any_row p xs ≡ true → (z : A) × Memᴰ z xs × (p z ≡ true)
  unfolding any_row
  any_row-mem p [] h = absurd (ground arith)
  any_row-mem p (x ∷ xs) h = elim (Bool-cases (p x)) [
    | inl e ↦ (x, Memᴰ.head refl, e)
    | inr e ↦ let (z, m, k) = any_row-mem p xs (ground arith) in (z, Memᴰ.tail m, k)
  ]

  pub any_row-of_mem :
      (p : A → Bool) (z : A) (xs : List A) → Memᴰ z xs → p z ≡ true → any_row p xs ≡ true
  unfolding any_row
  any_row-of_mem p z [] m h = elim m [ ]
  any_row-of_mem p z (x ∷ xs) (Memᴰ.head same) h = rw (← same) (ground arith)
  any_row-of_mem p z (x ∷ xs) (Memᴰ.tail m) h = ground (arith, any_row-of_mem p z xs m h)

  pub All-of_mem : (P : A → Type 0) (xs : List A) → ((x : A) → Memᴰ x xs → P x) → All P xs
  All-of_mem P [] f = tt
  All-of_mem P (x ∷ xs) f = (f x (Memᴰ.head refl), All-of_mem P xs (λ y m. f y (Memᴰ.tail m)))

  pub AllPairs-last :
      (R : A → A → Type 0) (xs : List A) (y : A) → AllPairs R (xs ++ y ∷ []) → All (λ x. R x y) xs
  AllPairs-last R [] y h = tt
  AllPairs-last R (x ∷ xs) y h =
      (All-mem (R x) (xs ++ y ∷ []) y h.0 (mem-append_last xs y), AllPairs-last R xs y h.1)

-- What all rows satisfy, after a filter and a sort.
module _ {A : Type 0} (P : A → Type 0) where
  pub rows_where-All :
      (p : A → Bool) (xs : List A) → All P xs → All (λ x. P x × (p x ≡ true)) (rows_where p xs)
  unfolding rows_where
  rows_where-All p [] h = tt
  rows_where-All p (x ∷ xs) h = elim (Bool-cases (p x)) [
    | inl e ↦ rw e ((h.0, e), rows_where-All p xs h.1)
    | inr e ↦ rw e (rows_where-All p xs h.1)
  ]

  insert_by-All : (key : A → ℕ) (x : A) (xs : List A) → P x → All P xs → All P (insert_by key x xs)
  unfolding insert_by
  insert_by-All key x [] p h = (p, tt)
  insert_by-All key x (y ∷ ys) p h = elim (Bool-cases (leb (key x) (key y))) [
    | inl e ↦ rw e (p, (h.0, h.1))
    | inr e ↦ rw e (h.0, insert_by-All key x ys p h.1)
  ]

  pub sort_by-All : (key : A → ℕ) (xs : List A) → All P xs → All P (sort_by key xs)
  unfolding sort_by
  sort_by-All key [] h = tt
  sort_by-All key (x ∷ xs) h = insert_by-All key x (sort_by key xs) h.0 (sort_by-All key xs h.1)

-- Lengths and members of a sorted list and of its beginning.
length-insert_by :
    {A : Type 0} (key : A → ℕ) (x : A) (xs : List A) → length (insert_by key x xs) ≡ length xs + 1
unfolding insert_by
length-insert_by key x [] = ground arith
length-insert_by key x (y ∷ ys) = ground (arith, length-insert_by key x ys)

pub length-sort_by : {A : Type 0} (key : A → ℕ) (xs : List A) → length (sort_by key xs) ≡ length xs
unfolding sort_by
length-sort_by key [] = refl
length-sort_by key (x ∷ xs) =
    omega (arith, length-insert_by key x (sort_by key xs), length-sort_by key xs)

pub mem-take :
    {A : Type 0} (n : ℕ) (x : A) (xs : List A) → length xs ≤ n → Memᴰ x xs → Memᴰ x (take n xs)
mem-take zero x [] h m = elim m [ ]
mem-take zero x (y ∷ ys) h m = absurd (omega (arith, h))
mem-take (suc n) x [] h m = elim m [ ]
mem-take (suc n) x (y ∷ ys) h (Memᴰ.head e) = Memᴰ.head e
mem-take (suc n) x (y ∷ ys) h (Memᴰ.tail m) = Memᴰ.tail (mem-take n x ys (omega (arith, h)) m)

pub rows_where-length :
    {A : Type 0} (p : A → Bool) (xs : List A) → length (rows_where p xs) ≤ length xs
unfolding rows_where
rows_where-length p [] = omega arith
rows_where-length p (x ∷ xs) = ground (arith, rows_where-length p xs)

pub mem-update_rows :
    {A : Type 0} (p : A → Bool) (f : A → A) (x : A) (xs : List A)
    → Memᴰ x xs
    → Memᴰ (updated p f x) (update_rows p f xs)
unfolding update_rows
mem-update_rows p f x [] m = elim m [ ]
mem-update_rows p f x (y ∷ ys) (Memᴰ.head e) = Memᴰ.head (ap (updated p f) e)
mem-update_rows p f x (y ∷ ys) (Memᴰ.tail m) = Memᴰ.tail (mem-update_rows p f x ys m)

pub find_row-mem :
    {A : Type 0} (p : A → Bool) (xs : List A) {v : A}
    → find_row p xs ≡ some v
    → Memᴰ v xs × (p v ≡ true)
unfolding find_row
find_row-mem p [] h = absurd (ground arith)
find_row-mem p (x ∷ xs) {v} h = elim (Bool-cases (p x)) [
  | inl e ↦ let is : x ≡ v = ground arith in rw (← is) (Memᴰ.head refl, e)
  | inr e ↦ let (m, k) = find_row-mem p xs (ground arith) in (Memᴰ.tail m, k)
]

-- A row that an update finds is in the table as updated.
pub updated_mem :
    {A : Type 0} (p : A → Bool) (f : A → A) (xs : List A) {v : A}
    → find_row p xs ≡ some v
    → Memᴰ v xs × (p v ≡ true) × Memᴰ (f v) (update_rows p f xs)
updated_mem p f xs {v} h =
    let (m, hit) = find_row-mem p xs h in
    (
      m,
      hit,
      subst (λ (b : Bool). Memᴰ (if b then f v else v) (update_rows p f xs)) hit
          (mem-update_rows p f v xs m),
    )
