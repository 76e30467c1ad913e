-- ===== src/Drafts/Codes.antt =====
-- internal/mail: the codes of the errors that a send and its reconciliation make, and an
-- `OperationError` as an error with a code and no cause.
use mail_cli.Common.{Bytes, [], ◌∷◌}
use mail_cli.Errors.{Failure, foreign_code, no_cause, cause, wrapped, leaf, other}

abbrev pub operation : Bytes → Failure
operation code = foreign_code code no_cause

-- An error without a code: `errors.New` and `fmt.Errorf`.
abbrev pub plain : Failure
plain = leaf other

-- `errors.Join(a, b)` of two errors.
abbrev pub join : Failure → Failure → Failure
join a b = wrapped (cause a (cause b no_cause))

abbrev pub not_found : Bytes
not_found = 110 ∷ 111 ∷ 116 ∷ 95 ∷ 102 ∷ 111 ∷ 117 ∷ 110 ∷ 100 ∷ []

abbrev pub validation_error : Bytes
validation_error =
    118 ∷ 97 ∷ 108 ∷ 105 ∷ 100 ∷ 97 ∷ 116 ∷ 105 ∷ 111 ∷ 110 ∷ 95 ∷ 101 ∷ 114 ∷ 114 ∷ 111 ∷ 114 ∷ []

abbrev pub draft_state_error : Bytes
draft_state_error =
    100 ∷ 114 ∷ 97 ∷ 102 ∷ 116 ∷ 95 ∷ 115 ∷ 116 ∷ 97 ∷ 116 ∷ 101 ∷ 95 ∷ 101 ∷ 114 ∷ 114 ∷ 111 ∷ 114
    ∷ []

abbrev pub draft_revision_unavailable : Bytes
draft_revision_unavailable =
    100 ∷ 114 ∷ 97 ∷ 102 ∷ 116 ∷ 95 ∷ 114 ∷ 101 ∷ 118 ∷ 105 ∷ 115 ∷ 105 ∷ 111 ∷ 110 ∷ 95 ∷ 117 ∷ 110
    ∷ 97 ∷ 118 ∷ 97 ∷ 105 ∷ 108 ∷ 97 ∷ 98 ∷ 108 ∷ 101 ∷ []

abbrev pub draft_revision_conflict : Bytes
draft_revision_conflict =
    100 ∷ 114 ∷ 97 ∷ 102 ∷ 116 ∷ 95 ∷ 114 ∷ 101 ∷ 118 ∷ 105 ∷ 115 ∷ 105 ∷ 111 ∷ 110 ∷ 95 ∷ 99 ∷ 111
    ∷ 110 ∷ 102 ∷ 108 ∷ 105 ∷ 99 ∷ 116 ∷ []

abbrev pub send_cleanup_failed : Bytes
send_cleanup_failed =
    115 ∷ 101 ∷ 110 ∷ 100 ∷ 95 ∷ 99 ∷ 108 ∷ 101 ∷ 97 ∷ 110 ∷ 117 ∷ 112 ∷ 95 ∷ 102 ∷ 97 ∷ 105 ∷ 108
    ∷ 101 ∷ 100 ∷ []

abbrev pub send_retry_blocked : Bytes
send_retry_blocked =
    115 ∷ 101 ∷ 110 ∷ 100 ∷ 95 ∷ 114 ∷ 101 ∷ 116 ∷ 114 ∷ 121 ∷ 95 ∷ 98 ∷ 108 ∷ 111 ∷ 99 ∷ 107 ∷ 101
    ∷ 100 ∷ []

abbrev pub draft_save_retry_blocked : Bytes
draft_save_retry_blocked =
    100 ∷ 114 ∷ 97 ∷ 102 ∷ 116 ∷ 95 ∷ 115 ∷ 97 ∷ 118 ∷ 101 ∷ 95 ∷ 114 ∷ 101 ∷ 116 ∷ 114 ∷ 121 ∷ 95
    ∷ 98 ∷ 108 ∷ 111 ∷ 99 ∷ 107 ∷ 101 ∷ 100 ∷ []

abbrev pub handoff_retry_blocked : Bytes
handoff_retry_blocked =
    104 ∷ 97 ∷ 110 ∷ 100 ∷ 111 ∷ 102 ∷ 102 ∷ 95 ∷ 114 ∷ 101 ∷ 116 ∷ 114 ∷ 121 ∷ 95 ∷ 98 ∷ 108 ∷ 111
    ∷ 99 ∷ 107 ∷ 101 ∷ 100 ∷ []

abbrev pub send_state_unknown : Bytes
send_state_unknown =
    115 ∷ 101 ∷ 110 ∷ 100 ∷ 95 ∷ 115 ∷ 116 ∷ 97 ∷ 116 ∷ 101 ∷ 95 ∷ 117 ∷ 110 ∷ 107 ∷ 110 ∷ 111 ∷ 119
    ∷ 110 ∷ []

abbrev pub send_state_cleanup_failed : Bytes
send_state_cleanup_failed =
    115 ∷ 101 ∷ 110 ∷ 100 ∷ 95 ∷ 115 ∷ 116 ∷ 97 ∷ 116 ∷ 101 ∷ 95 ∷ 99 ∷ 108 ∷ 101 ∷ 97 ∷ 110 ∷ 117
    ∷ 112 ∷ 95 ∷ 102 ∷ 97 ∷ 105 ∷ 108 ∷ 101 ∷ 100 ∷ []

abbrev pub send_outcome_unknown : Bytes
send_outcome_unknown =
    115 ∷ 101 ∷ 110 ∷ 100 ∷ 95 ∷ 111 ∷ 117 ∷ 116 ∷ 99 ∷ 111 ∷ 109 ∷ 101 ∷ 95 ∷ 117 ∷ 110 ∷ 107 ∷ 110
    ∷ 111 ∷ 119 ∷ 110 ∷ []

abbrev pub send_not_observed : Bytes
send_not_observed =
    115 ∷ 101 ∷ 110 ∷ 100 ∷ 95 ∷ 110 ∷ 111 ∷ 116 ∷ 95 ∷ 111 ∷ 98 ∷ 115 ∷ 101 ∷ 114 ∷ 118 ∷ 101 ∷ 100
    ∷ []

abbrev pub send_mirror_pending : Bytes
send_mirror_pending =
    115 ∷ 101 ∷ 110 ∷ 100 ∷ 95 ∷ 109 ∷ 105 ∷ 114 ∷ 114 ∷ 111 ∷ 114 ∷ 95 ∷ 112 ∷ 101 ∷ 110 ∷ 100
    ∷ 105 ∷ 110 ∷ 103 ∷ []

abbrev pub send_receipt_persist_failed : Bytes
send_receipt_persist_failed =
    115 ∷ 101 ∷ 110 ∷ 100 ∷ 95 ∷ 114 ∷ 101 ∷ 99 ∷ 101 ∷ 105 ∷ 112 ∷ 116 ∷ 95 ∷ 112 ∷ 101 ∷ 114 ∷ 115
    ∷ 105 ∷ 115 ∷ 116 ∷ 95 ∷ 102 ∷ 97 ∷ 105 ∷ 108 ∷ 101 ∷ 100 ∷ []

abbrev pub send_receipt_unavailable : Bytes
send_receipt_unavailable =
    115 ∷ 101 ∷ 110 ∷ 100 ∷ 95 ∷ 114 ∷ 101 ∷ 99 ∷ 101 ∷ 105 ∷ 112 ∷ 116 ∷ 95 ∷ 117 ∷ 110 ∷ 97 ∷ 118
    ∷ 97 ∷ 105 ∷ 108 ∷ 97 ∷ 98 ∷ 108 ∷ 101 ∷ []

abbrev pub send_receipt_invalid : Bytes
send_receipt_invalid =
    115 ∷ 101 ∷ 110 ∷ 100 ∷ 95 ∷ 114 ∷ 101 ∷ 99 ∷ 101 ∷ 105 ∷ 112 ∷ 116 ∷ 95 ∷ 105 ∷ 110 ∷ 118 ∷ 97
    ∷ 108 ∷ 105 ∷ 100 ∷ []

abbrev pub send_receipt_expired : Bytes
send_receipt_expired =
    115 ∷ 101 ∷ 110 ∷ 100 ∷ 95 ∷ 114 ∷ 101 ∷ 99 ∷ 101 ∷ 105 ∷ 112 ∷ 116 ∷ 95 ∷ 101 ∷ 120 ∷ 112 ∷ 105
    ∷ 114 ∷ 101 ∷ 100 ∷ []

abbrev pub send_receipt_conflict : Bytes
send_receipt_conflict =
    115 ∷ 101 ∷ 110 ∷ 100 ∷ 95 ∷ 114 ∷ 101 ∷ 99 ∷ 101 ∷ 105 ∷ 112 ∷ 116 ∷ 95 ∷ 99 ∷ 111 ∷ 110 ∷ 102
    ∷ 108 ∷ 105 ∷ 99 ∷ 116 ∷ []

abbrev pub send_recovery_spool_persist_failed : Bytes
send_recovery_spool_persist_failed =
    115 ∷ 101 ∷ 110 ∷ 100 ∷ 95 ∷ 114 ∷ 101 ∷ 99 ∷ 111 ∷ 118 ∷ 101 ∷ 114 ∷ 121 ∷ 95 ∷ 115 ∷ 112 ∷ 111
    ∷ 111 ∷ 108 ∷ 95 ∷ 112 ∷ 101 ∷ 114 ∷ 115 ∷ 105 ∷ 115 ∷ 116 ∷ 95 ∷ 102 ∷ 97 ∷ 105 ∷ 108 ∷ 101
    ∷ 100 ∷ []

abbrev pub send_outcome_unverifiable : Bytes
send_outcome_unverifiable =
    115 ∷ 101 ∷ 110 ∷ 100 ∷ 95 ∷ 111 ∷ 117 ∷ 116 ∷ 99 ∷ 111 ∷ 109 ∷ 101 ∷ 95 ∷ 117 ∷ 110 ∷ 118 ∷ 101
    ∷ 114 ∷ 105 ∷ 102 ∷ 105 ∷ 97 ∷ 98 ∷ 108 ∷ 101 ∷ []

abbrev pub send_reconcile_unavailable : Bytes
send_reconcile_unavailable =
    115 ∷ 101 ∷ 110 ∷ 100 ∷ 95 ∷ 114 ∷ 101 ∷ 99 ∷ 111 ∷ 110 ∷ 99 ∷ 105 ∷ 108 ∷ 101 ∷ 95 ∷ 117 ∷ 110
    ∷ 97 ∷ 118 ∷ 97 ∷ 105 ∷ 108 ∷ 97 ∷ 98 ∷ 108 ∷ 101 ∷ []

abbrev pub send_reconcile_state_failed : Bytes
send_reconcile_state_failed =
    115 ∷ 101 ∷ 110 ∷ 100 ∷ 95 ∷ 114 ∷ 101 ∷ 99 ∷ 111 ∷ 110 ∷ 99 ∷ 105 ∷ 108 ∷ 101 ∷ 95 ∷ 115 ∷ 116
    ∷ 97 ∷ 116 ∷ 101 ∷ 95 ∷ 102 ∷ 97 ∷ 105 ∷ 108 ∷ 101 ∷ 100 ∷ []

abbrev pub send_mirror_outcome_unknown : Bytes
send_mirror_outcome_unknown =
    115 ∷ 101 ∷ 110 ∷ 100 ∷ 95 ∷ 109 ∷ 105 ∷ 114 ∷ 114 ∷ 111 ∷ 114 ∷ 95 ∷ 111 ∷ 117 ∷ 116 ∷ 99 ∷ 111
    ∷ 109 ∷ 101 ∷ 95 ∷ 117 ∷ 110 ∷ 107 ∷ 110 ∷ 111 ∷ 119 ∷ 110 ∷ []

abbrev pub send_fingerprint_mismatch : Bytes
send_fingerprint_mismatch =
    115 ∷ 101 ∷ 110 ∷ 100 ∷ 95 ∷ 102 ∷ 105 ∷ 110 ∷ 103 ∷ 101 ∷ 114 ∷ 112 ∷ 114 ∷ 105 ∷ 110 ∷ 116
    ∷ 95 ∷ 109 ∷ 105 ∷ 115 ∷ 109 ∷ 97 ∷ 116 ∷ 99 ∷ 104 ∷ []

abbrev pub send_identity_unverifiable : Bytes
send_identity_unverifiable =
    115 ∷ 101 ∷ 110 ∷ 100 ∷ 95 ∷ 105 ∷ 100 ∷ 101 ∷ 110 ∷ 116 ∷ 105 ∷ 116 ∷ 121 ∷ 95 ∷ 117 ∷ 110
    ∷ 118 ∷ 101 ∷ 114 ∷ 105 ∷ 102 ∷ 105 ∷ 97 ∷ 98 ∷ 108 ∷ 101 ∷ []

abbrev pub send_recovery_spool_invalid : Bytes
send_recovery_spool_invalid =
    115 ∷ 101 ∷ 110 ∷ 100 ∷ 95 ∷ 114 ∷ 101 ∷ 99 ∷ 111 ∷ 118 ∷ 101 ∷ 114 ∷ 121 ∷ 95 ∷ 115 ∷ 112 ∷ 111
    ∷ 111 ∷ 108 ∷ 95 ∷ 105 ∷ 110 ∷ 118 ∷ 97 ∷ 108 ∷ 105 ∷ 100 ∷ []

abbrev pub send_recovery_spool_unavailable : Bytes
send_recovery_spool_unavailable =
    115 ∷ 101 ∷ 110 ∷ 100 ∷ 95 ∷ 114 ∷ 101 ∷ 99 ∷ 111 ∷ 118 ∷ 101 ∷ 114 ∷ 121 ∷ 95 ∷ 115 ∷ 112 ∷ 111
    ∷ 111 ∷ 108 ∷ 95 ∷ 117 ∷ 110 ∷ 97 ∷ 118 ∷ 97 ∷ 105 ∷ 108 ∷ 97 ∷ 98 ∷ 108 ∷ 101 ∷ []

abbrev pub send_transport_unavailable : Bytes
send_transport_unavailable =
    115 ∷ 101 ∷ 110 ∷ 100 ∷ 95 ∷ 116 ∷ 114 ∷ 97 ∷ 110 ∷ 115 ∷ 112 ∷ 111 ∷ 114 ∷ 116 ∷ 95 ∷ 117 ∷ 110
    ∷ 97 ∷ 118 ∷ 97 ∷ 105 ∷ 108 ∷ 97 ∷ 98 ∷ 108 ∷ 101 ∷ []
