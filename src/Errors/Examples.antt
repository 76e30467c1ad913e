-- ===== src/Errors/Examples.antt =====
-- The theorem on internal/transport/classification.go at a timeout.
use mail_cli.Common.{◌≡◌, refl, true, false, bytes_equal, contains}
use mail_cli.Errors.Codes.{imap_timeout, imap_append_outcome_unknown}
use mail_cli.Errors.{
  Failure, transport_error, wrapped, leaf, network, cause, no_cause, has_code, first_code,
  first_match, error_code, uncertain_codes, is_transient_read_failure,
  is_transient_transport_failure,
}
use mail_cli.Errors.Safety.{transient-certain}

abbrev timed_out : Failure
timed_out = wrapped (cause (transport_error imap_timeout (cause (leaf network) no_cause)) no_cause)

timed_out_transient : is_transient_transport_failure timed_out ≡ true
unfolding is_transient_transport_failure is_transient_read_failure error_code first_match first_code
    has_code contains bytes_equal
timed_out_transient = refl

append_listed : contains imap_append_outcome_unknown uncertain_codes ≡ true
unfolding contains bytes_equal
append_listed = refl

transient-certain_example : has_code imap_append_outcome_unknown timed_out ≡ false
transient-certain_example =
    transient-certain timed_out imap_append_outcome_unknown timed_out_transient append_listed
