-- ===== src/Http/RequestId.antt =====
-- internal/middleware/requestId.go: the id that a request is given.
use dodo_payments_backend.Base.{
  false, inl, inr, Bool-cases, ◌≡◌, refl, Option, none, some, [], ◌++◌, if◌then◌else◌,
}
use dodo_payments_backend.Base.Hex.{hex_encode}
use dodo_payments_backend.Base.Text.{Text, text, is_empty}

-- What the middleware writes: the value in the context, and the header of the response.
record RequestContext : Type 0 where
  request_id : Option Text
  response_header : Text

-- Of 16 random bytes, or `none` where they cannot be read.
unfoldable generate_request_id : Option Text → Text
generate_request_id none = text "req_fallback"
generate_request_id (some random) = text "req_" ++ hex_encode random

-- The header of the request is `[]` where it is missing.
unfoldable tag_request : Text → Option Text → RequestContext → RequestContext
tag_request header random c =
    let id = if is_empty header then generate_request_id random else header in
    record c { request_id = some id; response_header = id }

unfoldable get_request_id : RequestContext → Text
get_request_id c = elim c.request_id [ none ↦ [] | some id ↦ id ]

not_empty : (random : Option Text) → is_empty (generate_request_id random) ≡ false
unfolding generate_request_id
not_empty none = refl
not_empty (some random) = refl

-- A request that went through the middleware has an id, and the response shows the same.
get_request_id-tag_request :
    (header : Text) (random : Option Text) (c : RequestContext)
    → (get_request_id (tag_request header random c) ≡ (tag_request header random c).response_header)
      × (is_empty (get_request_id (tag_request header random c)) ≡ false)
unfolding get_request_id tag_request
get_request_id-tag_request header random c = elim (Bool-cases (is_empty header)) [
  | inl e ↦ (refl, rw e (not_empty random))
  | inr e ↦ (refl, rw e e)
]
