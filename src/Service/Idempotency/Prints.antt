-- ===== src/Service/Idempotency/Prints.antt =====
-- internal/service/idempotency/fingerprint.go: what is hashed tells requests apart.
use disbursment_api.Base.{◌≡◌, ◌≢◌, [], ◌∷◌, ◌++◌, All, arith}
use disbursment_api.Base.Text.{Text}
use disbursment_api.Service.Idempotency.{fingerprint_bytes}

-- No zero byte.
abbrev pub HasNoZero : Text → Type 0
HasNoZero s = All (λ c. c ≢ 0) s

split_unique :
    (a b s t : Text) → HasNoZero a → HasNoZero b → a ++ 0 ∷ s ≡ b ++ 0 ∷ t → (a ≡ b) × (s ≡ t)
split_unique [] [] s t ha hb h = ground arith
split_unique [] (d ∷ b) s t ha hb h = ground (arith, hb.0)
split_unique (c ∷ a) [] s t ha hb h = ground (arith, ha.0)
split_unique (c ∷ a) (d ∷ b) s t ha hb h = ground (arith, split_unique a b s t ha.1 hb.1)

-- Two requests whose methods and endpoints have no zero byte hash the same bytes only if they have the
-- same method, endpoint and payload.
pub fingerprint_bytes-injective :
    (method endpoint payload method' endpoint' payload' : Text)
    → HasNoZero method
    → HasNoZero endpoint
    → HasNoZero method'
    → HasNoZero endpoint'
    → fingerprint_bytes method endpoint payload ≡ fingerprint_bytes method' endpoint' payload'
    → (method ≡ method') × (endpoint ≡ endpoint') × (payload ≡ payload')
unfolding fingerprint_bytes
fingerprint_bytes-injective method endpoint payload method' endpoint' payload' m e m' e' h =
    let first =
      split_unique method method' (endpoint ++ 0 ∷ payload) (endpoint' ++ 0 ∷ payload') m m' h in
    let second = split_unique endpoint endpoint' payload payload' e e' first.1 in
    (first.0, second.0, second.1)
