-- ===== src/Base/Rows.antt =====
-- Predicates over the rows of a table, and how inserts and updates keep them.
use mathlib.Core.Path.{◌≡◌, refl}
use mathlib.Core.Option.{none, some}
use mathlib.Core.Logic.{◌⊎◌, inl, inr}
use mathlib.Core.Bool.{Bool, true, false}
use mathlib.Core.List.{List, [], ◌∷◌, ◌++◌, Memᴰ}
use native.Mathlib.Omega.{arith}
use mathlib.Core.Path.{subst, sym, ◌∙◌}
use dodo_payments_backend.Base.Tests.{if◌then◌else◌, Bool-cases}
use dodo_payments_backend.Base.Lists.{All, any_row, find_row, update_rows}

-- What an update makes of one row.
abbrev pub updated {ℓ} : {A : Type ℓ} → (A → Bool) → (A → A) → A → A
updated p f x = if p x then f x else x

-- Every two rows, the earlier one first, are related.
abbrev pub AllPairs {ℓ} : {A : Type ℓ} → (A → A → Type 0) → List A → Type 0
AllPairs R [] = Unit {0}
AllPairs R (x ∷ xs) = All (R x) xs × AllPairs R xs

module _ {ℓ} {A : Type ℓ} where
  pub All-map : (P Q : A → Type 0) (xs : List A) → ((x : A) → P x → Q x) → All P xs → All Q xs
  All-map P Q [] f h = tt
  All-map P Q (x ∷ xs) f h = (f x h.0, All-map P Q xs f h.1)

  pub All-zip :
      (P Q R : A → Type 0) (xs : List A)
      → ((x : A) → P x → Q x → R x)
      → All P xs
      → All Q xs
      → All R xs
  All-zip P Q R [] f h k = tt
  All-zip P Q R (x ∷ xs) f h k = (f x h.0 k.0, All-zip P Q R xs f h.1 k.1)

  pub All-append : (P : A → Type 0) (xs : List A) (y : A) → All P xs → P y → All P (xs ++ y ∷ [])
  All-append P [] y h p = (p, tt)
  All-append P (x ∷ xs) y h p = (h.0, All-append P xs y h.1 p)

  pub All-update_rows :
      (P Q : A → Type 0) (p : A → Bool) (f : A → A) (xs : List A)
      → ((x : A) → P x → Q (updated p f x))
      → All P xs
      → All Q (update_rows p f xs)
  unfolding update_rows
  All-update_rows P Q p f [] step h = tt
  All-update_rows P Q p f (x ∷ xs) step h = (step x h.0, All-update_rows P Q p f xs step h.1)

  pub AllPairs-append :
      (R : A → A → Type 0) (xs : List A) (y : A)
      → AllPairs R xs
      → All (λ x. R x y) xs
      → AllPairs R (xs ++ y ∷ [])
  AllPairs-append R [] y h k = (tt, tt)
  AllPairs-append R (x ∷ xs) y h k = (All-append (R x) xs y h.0 k.0, AllPairs-append R xs y h.1 k.1)

  pub AllPairs-update_rows :
      (R : A → A → Type 0) (p : A → Bool) (f : A → A) (xs : List A)
      → ((x y : A) → R x y → R (updated p f x) (updated p f y))
      → AllPairs R xs
      → AllPairs R (update_rows p f xs)
  unfolding update_rows
  AllPairs-update_rows R p f [] step h = tt
  AllPairs-update_rows R p f (x ∷ xs) step h = (
    All-update_rows (R x) (R (updated p f x)) p f xs (step x) h.0,
    AllPairs-update_rows R p f xs step h.1,
  )

  pub All-of_any_row :
      (p : A → Bool) (xs : List A) → any_row p xs ≡ false → All (λ x. p x ≡ false) xs
  unfolding any_row
  All-of_any_row p [] h = tt
  All-of_any_row p (x ∷ xs) h = elim (Bool-cases (p x)) [
    | inl e ↦ absurd (ground arith)
    | inr e ↦ (e, All-of_any_row p xs (ground arith))
  ]

  pub any_row-append :
      (p : A → Bool) (xs : List A) (y : A) → any_row p xs ≡ true → any_row p (xs ++ y ∷ []) ≡ true
  unfolding any_row
  any_row-append p [] y h = cc
  any_row-append p (x ∷ xs) y h = ground (arith, any_row-append p xs y)

  -- An update that does not touch what the test reads.
  pub any_row-update_rows :
      (q p : A → Bool) (f : A → A) (xs : List A)
      → ((x : A) → q (f x) ≡ q x)
      → any_row q (update_rows p f xs) ≡ any_row q xs
  unfolding any_row update_rows
  any_row-update_rows q p f [] same = refl
  any_row-update_rows q p f (x ∷ xs) same =
      ground (arith, same x, any_row-update_rows q p f xs same)

  pub All-mem : (P : A → Type 0) (xs : List A) (x : A) → All P xs → Memᴰ x xs → P x
  All-mem P [] x h m = elim m [ ]
  All-mem P (y ∷ ys) x h (Memᴰ.head e) = subst P (sym e) h.0
  All-mem P (y ∷ ys) x h (Memᴰ.tail m) = All-mem P ys x h.1 m

  pub any_row-false :
      (p : A → Bool) (xs : List A) → All (λ x. p x ≡ false) xs → any_row p xs ≡ false
  unfolding any_row
  any_row-false p [] h = refl
  any_row-false p (x ∷ xs) h = ground (arith, any_row-false p xs h.1)

  pub any_row-append_last :
      (p : A → Bool) (xs : List A) (y : A) → p y ≡ true → any_row p (xs ++ y ∷ []) ≡ true
  unfolding any_row
  any_row-append_last p [] y h = ground arith
  any_row-append_last p (x ∷ xs) y h = ground (arith, any_row-append_last p xs y h)

  -- What a search finds satisfies its test and what all rows satisfy.
  pub find_row-All :
      (P : A → Type 0) (p : A → Bool) (xs : List A) {v : A}
      → find_row p xs ≡ some v
      → All P xs
      → (p v ≡ true) × P v
  unfolding find_row
  find_row-All P p [] h k = absurd (ground arith)
  find_row-All P p (x ∷ xs) {v} h k = elim (Bool-cases (p x)) [
    | inl e ↦ let same : x ≡ v = ground arith in (rw (← same) e, rw (← same) k.0)
    | inr e ↦ find_row-All P p xs (ground arith) k.1
  ]

  pub find_row-any :
      (p q : A → Bool) (xs : List A) {v : A}
      → find_row p xs ≡ some v
      → q v ≡ true
      → any_row q xs ≡ true
  unfolding find_row any_row
  find_row-any p q [] h k = absurd (ground arith)
  find_row-any p q (x ∷ xs) {v} h k = elim (Bool-cases (p x)) [
    | inl e ↦ let same : x ≡ v = ground arith in ground arith
    | inr e ↦ let rest = find_row-any p q xs (ground arith) k in ground arith
  ]

  pub find_row-holds : (p : A → Bool) (xs : List A) {v : A} → find_row p xs ≡ some v → p v ≡ true
  unfolding find_row
  find_row-holds p [] h = absurd (ground arith)
  find_row-holds p (x ∷ xs) {v} h = elim (Bool-cases (p x)) [
    | inl e ↦ let same : x ≡ v = ground arith in ground arith
    | inr e ↦ find_row-holds p xs (ground arith)
  ]

  -- Two members are the same, or related one way or the other.
  pub AllPairs-mem :
      (R : A → A → Type 0) (xs : List A) (x y : A)
      → AllPairs R xs
      → Memᴰ x xs
      → Memᴰ y xs
      → (x ≡ y) ⊎ (R x y ⊎ R y x)
  AllPairs-mem R [] x y h m n = elim m [ ]
  AllPairs-mem R (z ∷ zs) x y h (Memᴰ.head e) (Memᴰ.head d) = inl (e ∙ sym d)
  AllPairs-mem R (z ∷ zs) x y h (Memᴰ.head e) (Memᴰ.tail n) =
      inr (inl (subst (λ u. R u y) (sym e) (All-mem (R z) zs y h.0 n)))
  AllPairs-mem R (z ∷ zs) x y h (Memᴰ.tail m) (Memᴰ.head d) =
      inr (inr (subst (λ u. R u x) (sym d) (All-mem (R z) zs x h.0 m)))
  AllPairs-mem R (z ∷ zs) x y h (Memᴰ.tail m) (Memᴰ.tail n) = AllPairs-mem R zs x y h.1 m n

  -- The search after an insert at the end, and after an update that keeps the test.
  pub find_row-append_last :
      (p : A → Bool) (xs : List A) (y : A)
      → any_row p xs ≡ false
      → p y ≡ true
      → find_row p (xs ++ y ∷ []) ≡ some y
  unfolding find_row any_row
  find_row-append_last p [] y h k = ground arith
  find_row-append_last p (x ∷ xs) y h k = ground (arith, find_row-append_last p xs y)

  pub find_row-update_rows :
      (p q : A → Bool) (f : A → A) (xs : List A) {v : A}
      → ((x : A) → p (f x) ≡ p x)
      → find_row p xs ≡ some v
      → find_row p (update_rows q f xs) ≡ some (updated q f v)
  unfolding find_row update_rows
  find_row-update_rows p q f [] same h = absurd (ground arith)
  find_row-update_rows p q f (x ∷ xs) {v} same h = elim (Bool-cases (p x)) [
    | inl e ↦ let is : x ≡ v = ground arith in ground (arith, same x, e, is)
    | inr e ↦
        let later : find_row p xs ≡ some v = ground arith in
        ground (arith, same x, e, find_row-update_rows p q f xs same later)
  ]

  pub update_rows-none :
      (p : A → Bool) (f : A → A) (xs : List A) → find_row p xs ≡ none → update_rows p f xs ≡ xs
  unfolding find_row update_rows
  update_rows-none p f [] h = refl
  update_rows-none p f (x ∷ xs) h = ground (arith, update_rows-none p f xs)

  -- A test that holds for fewer rows.
  pub any_row-weaken :
      (p q : A → Bool) (xs : List A)
      → ((x : A) → p x ≡ true → q x ≡ true)
      → any_row q xs ≡ false
      → any_row p xs ≡ false
  unfolding any_row
  any_row-weaken p q [] f h = refl
  any_row-weaken p q (x ∷ xs) f h = elim (Bool-cases (p x)) [
    | inl e ↦ let hit = f x e in absurd (ground arith)
    | inr e ↦ ground (arith, any_row-weaken p q xs f)
  ]

  -- The search for a row that neither the table nor the new last row is.
  pub find_row-append_none :
      (p : A → Bool) (xs : List A) (y : A)
      → any_row p xs ≡ false
      → p y ≡ false
      → find_row p (xs ++ y ∷ []) ≡ none
  unfolding find_row any_row
  find_row-append_none p [] y h k = ground arith
  find_row-append_none p (x ∷ xs) y h k = ground (arith, find_row-append_none p xs y)

  pub any_row-of_none : (p : A → Bool) (xs : List A) → find_row p xs ≡ none → any_row p xs ≡ false
  unfolding find_row any_row
  any_row-of_none p [] h = refl
  any_row-of_none p (x ∷ xs) h = ground (arith, any_row-of_none p xs)

  pub find_row-missing : (p : A → Bool) (xs : List A) → any_row p xs ≡ false → find_row p xs ≡ none
  unfolding find_row any_row
  find_row-missing p [] h = refl
  find_row-missing p (x ∷ xs) h = ground (arith, find_row-missing p xs)

  pub find_row-of_any :
      (p : A → Bool) (xs : List A) → any_row p xs ≡ true → (v : A) × (find_row p xs ≡ some v)
  unfolding find_row any_row
  find_row-of_any p [] h = absurd (ground arith)
  find_row-of_any p (x ∷ xs) h = elim (Bool-cases (p x)) [
    | inl e ↦ (x, rw e refl)
    | inr e ↦ let (v, k) = find_row-of_any p xs (ground arith) in (v, rw e k)
  ]
