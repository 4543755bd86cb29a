-- ===== src/Domain/Errors.antt =====
-- crates/domain/src/error.rs: the failures that adapters report, and the result type.
use nyuka.Common.{Bool, true, false, Text, txt, ◌++◌}

pub data DomainError : Type 0 where
  not_found : DomainError
  conflict : Text → DomainError
  invalid : Text → DomainError
  source : Text → Bool → DomainError
  unsupported_capability : Text → DomainError
  storage : Text → DomainError
  insufficient_storage : DomainError
  internal : Text → DomainError

-- `Display`, derived from the messages in the attributes.
unfoldable pub error_text : DomainError → Text
error_text not_found = txt "not found"
error_text (conflict m) = txt "conflict: " ++ m
error_text (invalid m) = txt "invalid: " ++ m
error_text (source message retryable) = txt "source error: " ++ message
error_text (unsupported_capability m) = txt "unsupported source capability: " ++ m
error_text (storage m) = txt "storage error: " ++ m
error_text insufficient_storage = txt "insufficient storage"
error_text (internal m) = txt "internal error: " ++ m

-- `DomainError::is_retryable`
unfoldable pub is_retryable : DomainError → Bool
is_retryable (source message retryable) = retryable
is_retryable (storage m) = true
is_retryable not_found = false
is_retryable (conflict m) = false
is_retryable (invalid m) = false
is_retryable (unsupported_capability m) = false
is_retryable insufficient_storage = false
is_retryable (internal m) = false

pub data Result {ℓ} (A : Type ℓ) : Type ℓ where
  ok : A → Result A
  err : DomainError → Result A

infixl 5 ◌>>=◌
abbrev pub ◌>>=◌ {ℓ κ} : {A : Type ℓ} {B : Type κ} → Result A → (A → Result B) → Result B
ok a >>= f = f a
err e >>= f = err e
