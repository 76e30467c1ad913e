-- ===== src/Errors.antt =====
-- internal/transport/errors.go and classification.go: the code of an error in a tree of wrapped errors,
-- and what callers may do after it. The tree that `errors.Is` and `errors.As` walk is a data type.
pub mod Codes
pub mod Safety
mod Examples
use mail_cli.Common.{◌≡◌, Bool, true, false, not, ◌&&◌, ◌||◌, if◌then◌else◌}
use mail_cli.Common.{Option, none, some, List, [], ◌∷◌, Bytes, bytes_equal, contains}
use mail_cli.Errors.Codes.{
  smtp_submission_unknown, imap_append_outcome_unknown, imap_move_outcome_unknown,
  imap_ambiguous_message_id, imap_copy_outcome_unknown, imap_flags_outcome_unknown,
  imap_flags_partial, imap_connect_failed, imap_fetch_failed, imap_canceled, imap_disconnected,
  imap_timeout, smtp_timeout, smtp_transfer_timeout, smtp_auth_failed, smtp_credentials_missing,
  imap_auth_failed, smtp_tls_failed, transport_unsupported_provider, smtp_utf8_unsupported,
}

-- The causes outside of the package that the classification looks for.
pub data Cause : Type 0 where
  tls_verification network end_of_file closed other : Cause

-- An error with what it unwraps to: no error, one, or several of a join. `foreign_code` is an error
-- of another package with a method `ErrorCode` and no method `Is`.
mutual
  pub data Failure : Type 0 where
    transport_error : Bytes → Causes → Failure
    mutation_outcome_error : Bytes → Causes → Failure
    submission_error : Causes → Failure
    foreign_code : Bytes → Causes → Failure
    wrapped : Causes → Failure
    leaf : Cause → Failure

  pub data Causes : Type 0 where
    no_cause : Causes
    cause : Failure → Causes → Causes

-- `errors.As(err, &coded)`: the code of the first coded error.
unfoldable mutual
  pub first_code : Failure → Option Bytes
  first_code (transport_error code causes) = some code
  first_code (mutation_outcome_error code causes) = some code
  first_code (submission_error causes) = some smtp_submission_unknown
  first_code (foreign_code code causes) = some code
  first_code (wrapped causes) = first_code_of causes
  first_code (leaf c) = none

  pub first_code_of : Causes → Option Bytes
  first_code_of no_cause = none
  first_code_of (cause failure causes) =
      let later = first_code_of causes in
      elim (first_code failure) [ none ↦ later | some code ↦ some code ]

-- `errors.Is(err, transportCode(code))`.
unfoldable mutual
  pub has_code : Bytes → Failure → Bool
  has_code wanted (transport_error code causes) =
      bytes_equal code wanted || has_code_of wanted causes
  has_code wanted (mutation_outcome_error code causes) =
      bytes_equal code wanted || has_code_of wanted causes
  has_code wanted (submission_error causes) =
      bytes_equal smtp_submission_unknown wanted || has_code_of wanted causes
  has_code wanted (foreign_code code causes) = has_code_of wanted causes
  has_code wanted (wrapped causes) = has_code_of wanted causes
  has_code wanted (leaf c) = false

  pub has_code_of : Bytes → Causes → Bool
  has_code_of wanted no_cause = false
  has_code_of wanted (cause failure causes) = has_code wanted failure || has_code_of wanted causes

-- Whether a cause of one kind is in the tree.
unfoldable mutual
  pub has_cause : (Cause → Bool) → Failure → Bool
  has_cause p (transport_error code causes) = has_cause_of p causes
  has_cause p (mutation_outcome_error code causes) = has_cause_of p causes
  has_cause p (submission_error causes) = has_cause_of p causes
  has_cause p (foreign_code code causes) = has_cause_of p causes
  has_cause p (wrapped causes) = has_cause_of p causes
  has_cause p (leaf c) = p c

  pub has_cause_of : (Cause → Bool) → Causes → Bool
  has_cause_of p no_cause = false
  has_cause_of p (cause failure causes) = has_cause p failure || has_cause_of p causes

-- `errors.As(err, &fetch)`: the code and the causes of the first `TransportError`.
unfoldable mutual
  pub first_transport : Failure → Option (Bytes × Causes)
  first_transport (transport_error code causes) = some (code, causes)
  first_transport (mutation_outcome_error code causes) = first_transport_of causes
  first_transport (submission_error causes) = first_transport_of causes
  first_transport (foreign_code code causes) = first_transport_of causes
  first_transport (wrapped causes) = first_transport_of causes
  first_transport (leaf c) = none

  pub first_transport_of : Causes → Option (Bytes × Causes)
  first_transport_of no_cause = none
  first_transport_of (cause failure causes) =
      let later = first_transport_of causes in
      elim (first_transport failure) [ none ↦ later | some found ↦ some found ]

-- The codes that take precedence, in their order.
abbrev pub uncertain_codes : List Bytes
uncertain_codes =
    smtp_submission_unknown ∷ imap_append_outcome_unknown ∷ imap_move_outcome_unknown
    ∷ imap_ambiguous_message_id ∷ imap_copy_outcome_unknown ∷ imap_flags_outcome_unknown
    ∷ imap_flags_partial ∷ []

unfoldable pub first_match : List Bytes → Failure → (otherwise : Bytes) → Bytes
first_match [] err otherwise = otherwise
first_match (code ∷ codes) err otherwise =
    let later = first_match codes err otherwise in if has_code code err then code else later

abbrev pub or_blank : Option Bytes → Bytes
or_blank none = []
or_blank (some code) = code

unfoldable pub error_code : Failure → Bytes
error_code err = first_match uncertain_codes err (or_blank (first_code err))

abbrev is_verification : Cause → Bool
is_verification tls_verification = true
is_verification _ = false

abbrev is_connection_loss : Cause → Bool
is_connection_loss network = true
is_connection_loss end_of_file = true
is_connection_loss closed = true
is_connection_loss _ = false

unfoldable pub is_tls_verification_failure : Failure → Bool
is_tls_verification_failure err =
    bytes_equal (error_code err) imap_connect_failed && has_cause is_verification err

abbrev fetch_lost : Option (Bytes × Causes) → Bool
fetch_lost none = false
fetch_lost (some (code, causes)) =
    bytes_equal code imap_fetch_failed && has_cause_of is_connection_loss causes

unfoldable pub is_transient_read_failure : Failure → Bool
is_transient_read_failure err =
    let code = error_code err in
    if bytes_equal code imap_connect_failed
    then not (is_tls_verification_failure err)
    else if bytes_equal code imap_fetch_failed
    then fetch_lost (first_transport err)
    else contains code (imap_canceled ∷ imap_disconnected ∷ imap_timeout ∷ [])

unfoldable pub is_transient_transport_failure : Failure → Bool
is_transient_transport_failure err =
    contains (error_code err) (smtp_timeout ∷ smtp_transfer_timeout ∷ [])
    || is_transient_read_failure err

unfoldable pub is_mutation_outcome_unknown : Failure → Bool
is_mutation_outcome_unknown err =
    contains (error_code err)
      (imap_copy_outcome_unknown ∷ imap_move_outcome_unknown ∷ imap_flags_outcome_unknown ∷ [])

unfoldable pub is_mirror_outcome_uncertain : Failure → Bool
is_mirror_outcome_uncertain err =
    contains (error_code err) (imap_append_outcome_unknown ∷ imap_ambiguous_message_id ∷ [])

unfoldable pub is_submission_outcome_unknown : Failure → Bool
is_submission_outcome_unknown err = bytes_equal (error_code err) smtp_submission_unknown

unfoldable pub is_configuration_failure : Failure → Bool
is_configuration_failure err =
    is_tls_verification_failure err
    || contains (error_code err) (
        smtp_auth_failed ∷ smtp_credentials_missing ∷ imap_auth_failed ∷ smtp_tls_failed
        ∷ transport_unsupported_provider ∷ smtp_utf8_unsupported ∷ [])
