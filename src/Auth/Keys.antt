-- ===== src/Auth/Keys.antt =====
-- `ParseAPIKey` and `HashSecret` of internal/auth/auth.go.
use dodo_payments_backend.Base.{
  ℕ, ◌==◌, ◌≡◌, refl, false, ◌||◌, Option, none, some, [], ◌∷◌, ◌++◌, arith, if◌then◌else◌,
}
use dodo_payments_backend.Base.Text.{Text, is_empty, trim_space, Lacks}

-- The parts before and after the last separator.
unfoldable pub split_last : ℕ → Text → Option (Text × Text)
split_last sep [] = none
split_last sep (c ∷ s) = elim (split_last sep s) [
  | none ↦ if c == sep then some ([], s) else none
  | some (a, b) ↦ some (c ∷ a, b)
]

abbrev both_parts : Option (Text × Text) → Option (Text × Text)
both_parts none = none
both_parts (some (a, b)) = if is_empty a || is_empty b then none else some (a, b)

-- The prefix and the secret, parted by the last underscore; `none` is an error.
unfoldable pub parse_api_key : Text → Option (Text × Text)
parse_api_key token =
    let t = trim_space token in if is_empty t then none else both_parts (split_last 95 t)

split_last-Lacks : (sep : ℕ) (s : Text) → Lacks sep s → split_last sep s ≡ none
unfolding split_last
split_last-Lacks sep [] h = refl
split_last-Lacks sep (c ∷ s) h = ground (arith, split_last-Lacks sep s h.1)

split_last-append :
    (sep : ℕ) (a b : Text) → Lacks sep b → split_last sep (a ++ sep ∷ b) ≡ some (a, b)
unfolding split_last
split_last-append sep [] b h = ground (arith, split_last-Lacks sep b h)
split_last-append sep (c ∷ a) b h = rw (split_last-append sep a b h) refl

-- A key that was made of a prefix and a secret is parsed into them, whatever underscores the prefix
-- holds, if neither is empty, the secret has no underscore, and no space stands at an end.
pub parse_api_key-append :
    (prefix secret : Text)
    → is_empty prefix ≡ false
    → is_empty secret ≡ false
    → Lacks 95 secret
    → trim_space (prefix ++ 95 ∷ secret) ≡ prefix ++ 95 ∷ secret
    → parse_api_key (prefix ++ 95 ∷ secret) ≡ some (prefix, secret)
unfolding parse_api_key
parse_api_key-append prefix secret p q h t =
    let whole : is_empty (prefix ++ 95 ∷ secret) ≡ false = some_text prefix secret in
    rw (t, whole, split_last-append 95 prefix secret h, p, q) refl
  where
    some_text : (a b : Text) → is_empty (a ++ 95 ∷ b) ≡ false
    some_text [] b = refl
    some_text (c ∷ a) b = refl
