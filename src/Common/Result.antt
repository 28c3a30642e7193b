-- ===== src/Common/Result.antt =====
-- What a call that may throw gives: a value, or the message of the error.
use sagasmith.Common.Text.{Str}

pub data Result {ℓ} (A : Type ℓ) : Type ℓ where
  ok : A → Result A
  thrown : Str → Result A
