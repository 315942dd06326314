-- ===== src/Webhook/Signature.antt =====
-- `ComputeSignature` and `VerifySignature` of internal/webhook/webhook.go. `hmac_sha256 key data`
-- is the digest in hexadecimal digits.
use dodo_payments_backend.Base.{[], ◌≡◌, ◌↔◌, Bool, true, ◌∷◌, ◌++◌, sym, ap, ◌∙◌, []}
use mathlib.Core.List.{append_assoc}
use dodo_payments_backend.Base.Text.{Text, text_eq, text_eq_iff}

module _ (hmac_sha256 : Text → Text → Text) where
  unfoldable pub compute_signature : Text → Text → Text → Text
  compute_signature secret timestamp payload =
      hmac_sha256 secret ((timestamp ++ 46 ∷ []) ++ payload)

  -- `hmac.Equal` compares the bytes.
  unfoldable pub verify_signature : Text → Text → Text → Text → Bool
  verify_signature secret timestamp payload signature =
      text_eq (compute_signature secret timestamp payload) signature

  -- A signature is accepted exactly when it is the HMAC of the timestamp, a dot and the payload.
  verify_signature_iff :
      (secret timestamp payload signature : Text)
      → (verify_signature secret timestamp payload signature ≡ true)
        ↔ (signature ≡ hmac_sha256 secret (timestamp ++ 46 ∷ payload))
  unfolding verify_signature compute_signature
  verify_signature_iff secret timestamp payload signature =
      let same : (timestamp ++ 46 ∷ []) ++ payload ≡ timestamp ++ 46 ∷ payload =
        append_assoc timestamp (46 ∷ []) payload in
      let iff = text_eq_iff (hmac_sha256 secret ((timestamp ++ 46 ∷ []) ++ payload)) signature in
      (
        (λ e. sym (iff.0 e) ∙ ap (hmac_sha256 secret) same),
        (λ e. iff.1 (sym (e ∙ ap (hmac_sha256 secret) (sym same)))),
      )
