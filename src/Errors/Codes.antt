-- ===== src/Errors/Codes.antt =====
-- internal/transport/errors.go: the codes that the classification reads, as byte strings.
use mail_cli.Common.{[], ◌∷◌, Bytes}

abbrev pub smtp_submission_unknown : Bytes
smtp_submission_unknown =
    115 ∷ 109 ∷ 116 ∷ 112 ∷ 95 ∷ 115 ∷ 117 ∷ 98 ∷ 109 ∷ 105 ∷ 115 ∷ 115 ∷ 105 ∷ 111 ∷ 110 ∷ 95 ∷ 117
    ∷ 110 ∷ 107 ∷ 110 ∷ 111 ∷ 119 ∷ 110 ∷ []

abbrev pub imap_append_outcome_unknown : Bytes
imap_append_outcome_unknown =
    105 ∷ 109 ∷ 97 ∷ 112 ∷ 95 ∷ 97 ∷ 112 ∷ 112 ∷ 101 ∷ 110 ∷ 100 ∷ 95 ∷ 111 ∷ 117 ∷ 116 ∷ 99 ∷ 111
    ∷ 109 ∷ 101 ∷ 95 ∷ 117 ∷ 110 ∷ 107 ∷ 110 ∷ 111 ∷ 119 ∷ 110 ∷ []

abbrev pub imap_move_outcome_unknown : Bytes
imap_move_outcome_unknown =
    105 ∷ 109 ∷ 97 ∷ 112 ∷ 95 ∷ 109 ∷ 111 ∷ 118 ∷ 101 ∷ 95 ∷ 111 ∷ 117 ∷ 116 ∷ 99 ∷ 111 ∷ 109 ∷ 101
    ∷ 95 ∷ 117 ∷ 110 ∷ 107 ∷ 110 ∷ 111 ∷ 119 ∷ 110 ∷ []

abbrev pub imap_ambiguous_message_id : Bytes
imap_ambiguous_message_id =
    105 ∷ 109 ∷ 97 ∷ 112 ∷ 95 ∷ 97 ∷ 109 ∷ 98 ∷ 105 ∷ 103 ∷ 117 ∷ 111 ∷ 117 ∷ 115 ∷ 95 ∷ 109 ∷ 101
    ∷ 115 ∷ 115 ∷ 97 ∷ 103 ∷ 101 ∷ 95 ∷ 105 ∷ 100 ∷ []

abbrev pub imap_copy_outcome_unknown : Bytes
imap_copy_outcome_unknown =
    105 ∷ 109 ∷ 97 ∷ 112 ∷ 95 ∷ 99 ∷ 111 ∷ 112 ∷ 121 ∷ 95 ∷ 111 ∷ 117 ∷ 116 ∷ 99 ∷ 111 ∷ 109 ∷ 101
    ∷ 95 ∷ 117 ∷ 110 ∷ 107 ∷ 110 ∷ 111 ∷ 119 ∷ 110 ∷ []

abbrev pub imap_flags_outcome_unknown : Bytes
imap_flags_outcome_unknown =
    105 ∷ 109 ∷ 97 ∷ 112 ∷ 95 ∷ 102 ∷ 108 ∷ 97 ∷ 103 ∷ 115 ∷ 95 ∷ 111 ∷ 117 ∷ 116 ∷ 99 ∷ 111 ∷ 109
    ∷ 101 ∷ 95 ∷ 117 ∷ 110 ∷ 107 ∷ 110 ∷ 111 ∷ 119 ∷ 110 ∷ []

abbrev pub imap_flags_partial : Bytes
imap_flags_partial =
    105 ∷ 109 ∷ 97 ∷ 112 ∷ 95 ∷ 102 ∷ 108 ∷ 97 ∷ 103 ∷ 115 ∷ 95 ∷ 112 ∷ 97 ∷ 114 ∷ 116 ∷ 105 ∷ 97
    ∷ 108 ∷ []

abbrev pub imap_connect_failed : Bytes
imap_connect_failed =
    105 ∷ 109 ∷ 97 ∷ 112 ∷ 95 ∷ 99 ∷ 111 ∷ 110 ∷ 110 ∷ 101 ∷ 99 ∷ 116 ∷ 95 ∷ 102 ∷ 97 ∷ 105 ∷ 108
    ∷ 101 ∷ 100 ∷ []

abbrev pub imap_fetch_failed : Bytes
imap_fetch_failed =
    105 ∷ 109 ∷ 97 ∷ 112 ∷ 95 ∷ 102 ∷ 101 ∷ 116 ∷ 99 ∷ 104 ∷ 95 ∷ 102 ∷ 97 ∷ 105 ∷ 108 ∷ 101 ∷ 100
    ∷ []

abbrev pub imap_canceled : Bytes
imap_canceled = 105 ∷ 109 ∷ 97 ∷ 112 ∷ 95 ∷ 99 ∷ 97 ∷ 110 ∷ 99 ∷ 101 ∷ 108 ∷ 101 ∷ 100 ∷ []

abbrev pub imap_disconnected : Bytes
imap_disconnected =
    105 ∷ 109 ∷ 97 ∷ 112 ∷ 95 ∷ 100 ∷ 105 ∷ 115 ∷ 99 ∷ 111 ∷ 110 ∷ 110 ∷ 101 ∷ 99 ∷ 116 ∷ 101 ∷ 100
    ∷ []

abbrev pub imap_timeout : Bytes
imap_timeout = 105 ∷ 109 ∷ 97 ∷ 112 ∷ 95 ∷ 116 ∷ 105 ∷ 109 ∷ 101 ∷ 111 ∷ 117 ∷ 116 ∷ []

abbrev pub smtp_timeout : Bytes
smtp_timeout = 115 ∷ 109 ∷ 116 ∷ 112 ∷ 95 ∷ 116 ∷ 105 ∷ 109 ∷ 101 ∷ 111 ∷ 117 ∷ 116 ∷ []

abbrev pub smtp_transfer_timeout : Bytes
smtp_transfer_timeout =
    115 ∷ 109 ∷ 116 ∷ 112 ∷ 95 ∷ 116 ∷ 114 ∷ 97 ∷ 110 ∷ 115 ∷ 102 ∷ 101 ∷ 114 ∷ 95 ∷ 116 ∷ 105 ∷ 109
    ∷ 101 ∷ 111 ∷ 117 ∷ 116 ∷ []

abbrev pub smtp_auth_failed : Bytes
smtp_auth_failed =
    115 ∷ 109 ∷ 116 ∷ 112 ∷ 95 ∷ 97 ∷ 117 ∷ 116 ∷ 104 ∷ 95 ∷ 102 ∷ 97 ∷ 105 ∷ 108 ∷ 101 ∷ 100 ∷ []

abbrev pub smtp_credentials_missing : Bytes
smtp_credentials_missing =
    115 ∷ 109 ∷ 116 ∷ 112 ∷ 95 ∷ 99 ∷ 114 ∷ 101 ∷ 100 ∷ 101 ∷ 110 ∷ 116 ∷ 105 ∷ 97 ∷ 108 ∷ 115 ∷ 95
    ∷ 109 ∷ 105 ∷ 115 ∷ 115 ∷ 105 ∷ 110 ∷ 103 ∷ []

abbrev pub imap_auth_failed : Bytes
imap_auth_failed =
    105 ∷ 109 ∷ 97 ∷ 112 ∷ 95 ∷ 97 ∷ 117 ∷ 116 ∷ 104 ∷ 95 ∷ 102 ∷ 97 ∷ 105 ∷ 108 ∷ 101 ∷ 100 ∷ []

abbrev pub smtp_tls_failed : Bytes
smtp_tls_failed =
    115 ∷ 109 ∷ 116 ∷ 112 ∷ 95 ∷ 116 ∷ 108 ∷ 115 ∷ 95 ∷ 102 ∷ 97 ∷ 105 ∷ 108 ∷ 101 ∷ 100 ∷ []

abbrev pub transport_unsupported_provider : Bytes
transport_unsupported_provider =
    116 ∷ 114 ∷ 97 ∷ 110 ∷ 115 ∷ 112 ∷ 111 ∷ 114 ∷ 116 ∷ 95 ∷ 117 ∷ 110 ∷ 115 ∷ 117 ∷ 112 ∷ 112
    ∷ 111 ∷ 114 ∷ 116 ∷ 101 ∷ 100 ∷ 95 ∷ 112 ∷ 114 ∷ 111 ∷ 118 ∷ 105 ∷ 100 ∷ 101 ∷ 114 ∷ []

abbrev pub smtp_utf8_unsupported : Bytes
smtp_utf8_unsupported =
    115 ∷ 109 ∷ 116 ∷ 112 ∷ 95 ∷ 117 ∷ 116 ∷ 102 ∷ 56 ∷ 95 ∷ 117 ∷ 110 ∷ 115 ∷ 117 ∷ 112 ∷ 112 ∷ 111
    ∷ 114 ∷ 116 ∷ 101 ∷ 100 ∷ []

abbrev pub imap_message_not_found : Bytes
imap_message_not_found =
    105 ∷ 109 ∷ 97 ∷ 112 ∷ 95 ∷ 109 ∷ 101 ∷ 115 ∷ 115 ∷ 97 ∷ 103 ∷ 101 ∷ 95 ∷ 110 ∷ 111 ∷ 116 ∷ 95
    ∷ 102 ∷ 111 ∷ 117 ∷ 110 ∷ 100 ∷ []

abbrev pub imap_mutation_failed : Bytes
imap_mutation_failed =
    105 ∷ 109 ∷ 97 ∷ 112 ∷ 95 ∷ 109 ∷ 117 ∷ 116 ∷ 97 ∷ 116 ∷ 105 ∷ 111 ∷ 110 ∷ 95 ∷ 102 ∷ 97 ∷ 105
    ∷ 108 ∷ 101 ∷ 100 ∷ []

abbrev pub imap_response_malformed : Bytes
imap_response_malformed =
    105 ∷ 109 ∷ 97 ∷ 112 ∷ 95 ∷ 114 ∷ 101 ∷ 115 ∷ 112 ∷ 111 ∷ 110 ∷ 115 ∷ 101 ∷ 95 ∷ 109 ∷ 97 ∷ 108
    ∷ 102 ∷ 111 ∷ 114 ∷ 109 ∷ 101 ∷ 100 ∷ []

abbrev pub invalid_imap_value : Bytes
invalid_imap_value =
    105 ∷ 110 ∷ 118 ∷ 97 ∷ 108 ∷ 105 ∷ 100 ∷ 95 ∷ 105 ∷ 109 ∷ 97 ∷ 112 ∷ 95 ∷ 118 ∷ 97 ∷ 108 ∷ 117
    ∷ 101 ∷ []

abbrev pub imap_flags_mismatch : Bytes
imap_flags_mismatch =
    105 ∷ 109 ∷ 97 ∷ 112 ∷ 95 ∷ 102 ∷ 108 ∷ 97 ∷ 103 ∷ 115 ∷ 95 ∷ 109 ∷ 105 ∷ 115 ∷ 109 ∷ 97 ∷ 116
    ∷ 99 ∷ 104 ∷ []

abbrev pub imap_flags_unsupported : Bytes
imap_flags_unsupported =
    105 ∷ 109 ∷ 97 ∷ 112 ∷ 95 ∷ 102 ∷ 108 ∷ 97 ∷ 103 ∷ 115 ∷ 95 ∷ 117 ∷ 110 ∷ 115 ∷ 117 ∷ 112 ∷ 112
    ∷ 111 ∷ 114 ∷ 116 ∷ 101 ∷ 100 ∷ []

abbrev pub mailbox_uidvalidity_changed : Bytes
mailbox_uidvalidity_changed =
    109 ∷ 97 ∷ 105 ∷ 108 ∷ 98 ∷ 111 ∷ 120 ∷ 95 ∷ 117 ∷ 105 ∷ 100 ∷ 118 ∷ 97 ∷ 108 ∷ 105 ∷ 100 ∷ 105
    ∷ 116 ∷ 121 ∷ 95 ∷ 99 ∷ 104 ∷ 97 ∷ 110 ∷ 103 ∷ 101 ∷ 100 ∷ []
