-- ===== src/Drafts/Examples.antt =====
-- The theorems on internal/mail/draft_send.go at a draft whose send is killed during the APPEND, and is
-- reconciled and sent again.
use mail_cli.Common.{
  bytes_equal, ℕ, zero, suc, ◌≤◌, ◌≡◌, ◌≢◌, refl, true, false, none, some, List, [], ◌∷◌, Bytes,
}
use mail_cli.Drafts.Data.{Draft, new, SendAttempt, SendRecoveryIdentity, mirror_pending}
use mail_cli.Common.{◌++◌}
use mail_cli.Common.{contains}
use mail_cli.Errors.{
  leaf, other, is_mirror_outcome_uncertain, error_code, first_match, has_code, first_code,
}
use mail_cli.Drafts.World.{
  mirrors_unclosed, Disk, Fate, works, text, clock, spooled, pinned, accepts, absent,
}
use mail_cli.Drafts.Claims.{DraftLibrary}
use mail_cli.Drafts.Mirror.{Service}
use mail_cli.Common.{◌+◌, ◌↔◌}
use mail_cli.Drafts.World.{got}
use mail_cli.Drafts.Files.{found, require_draft_revision}
use mail_cli.Drafts.Reconcile.{reconcile_read}
use mail_cli.Drafts.Requirement.{draft_reconcile_requires_mail_store, requirement_sound}
use mail_cli.Drafts.Laws.{require_draft_revision_iff}
use mail_cli.Drafts.AtMostOnce.{
  Call, send, reconcile, run_call, run_calls, sent_at_most_once, submitted_has_claim,
  reconcile_submits_nothing,
}

abbrev repeat : ℕ → ℕ → Bytes
repeat zero c = []
repeat (suc n) c = c ∷ repeat n c

abbrev revision : Bytes
revision =
    100
    ∷ 114
    ∷ 97
    ∷ 102
    ∷ 116
    ∷ 45
    ∷ 114
    ∷ 101
    ∷ 118
    ∷ 105
    ∷ 101
    ∷ 119
    ∷ 45
    ∷ 118
    ∷ 49
    ∷ 58
    ∷ repeat 64 97

abbrev library : DraftLibrary
library = record {
  trim_space = λ s. s;
  revision_of = λ d. revision;
  envelope_fingerprint = λ d id. id;
  is_normal_identity = λ i. true;
  valid_materialization = λ m. true;
  stored_receipt = λ r. some r;
}

abbrev draft : Draft
draft = record {
  ref = 1 ∷ [];
  revision = [];
  kind = new;
  from_address = 2 ∷ [];
  to = record { name = []; address = 3 ∷ [] } ∷ [];
  cc_list = [];
  bcc = [];
  source_message_id = [];
  source_references = [];
  subject = [];
  body = [];
  send_attempt = none;
  save_attempt = none;
  handoff_attempt = none;
}

abbrev new_disk : Disk
new_disk = record {
  draft = some draft;
  send_claim = none;
  save_claim = none;
  handoff_claim = none;
  send_receipt = none;
  submissions = 0;
  copies = 0;
  unclosed = 0;
}

abbrev identity : SendRecoveryIdentity
identity = record { account_id = []; host = 4 ∷ []; port = 993; username = 5 ∷ [] }

-- Until the submission is accepted and the claim is armed; then the process is killed.
abbrev killed_send : List Fate
killed_send =
    works
    ∷ works
    ∷ works
    ∷ works
    ∷ works
    ∷ works
    ∷ works
    ∷ works
    ∷ works
    ∷ works
    ∷ works
    ∷ works
    ∷ works
    ∷ works
    ∷ works
    ∷ works
    ∷ pinned identity
    ∷ works
    ∷ text (6 ∷ [])
    ∷ works
    ∷ works
    ∷ works
    ∷ text (8 ∷ [])
    ∷ works
    ∷ spooled (record { size = 1; sha256 = repeat 64 97 })
    ∷ text (9 ∷ [])
    ∷ clock 10
    ∷ works
    ∷ accepts (11 ∷ []) none
    ∷ text (12 ∷ [])
    ∷ clock 13
    ∷ works
    ∷ []

-- A send that finds the claim, and a reconciliation that finds no copy.
abbrev second_send : List Fate
second_send =
    works ∷ works ∷ works ∷ works ∷ works ∷ works ∷ works ∷ works ∷ works ∷ works ∷ works ∷ works
    ∷ []

abbrev service : Service
service = record { has_gateway = true; has_reconciler = false; has_imap = true; has_mirror = true }

abbrev search_fails : List Fate
search_fails =
    works
    ∷ works
    ∷ works
    ∷ works
    ∷ works
    ∷ works
    ∷ works
    ∷ works
    ∷ works
    ∷ works
    ∷ works
    ∷ text (14 ∷ [])
    ∷ absent
    ∷ []

abbrev calls : List Call
calls = send revision killed_send ∷ send revision second_send ∷ reconcile service search_fails ∷ []

sent_at_most_once_example :
    ((run_calls library (1 ∷ []) calls new_disk).submissions ≤ 1)
    × ((run_calls library (1 ∷ []) calls new_disk).copies
        ≤ 1 + (run_calls library (1 ∷ []) calls new_disk).unclosed)
sent_at_most_once_example = sent_at_most_once library (1 ∷ []) calls new_disk refl refl

submitted_once : (run_calls library (1 ∷ []) calls new_disk).submissions ≡ 1
unfolding run_calls bytes_equal
submitted_once = refl

draft_kept : (run_calls library (1 ∷ []) calls new_disk).draft ≡ some draft
unfolding run_calls bytes_equal
draft_kept = refl

submitted_has_claim_example : (run_calls library (1 ∷ []) calls new_disk).send_claim ≢ none
submitted_has_claim_example =
    submitted_has_claim library (1 ∷ []) calls new_disk refl refl draft draft_kept submitted_once

reconcile_submits_nothing_example :
    (run_call library
      (1 ∷ [])
      (reconcile service search_fails)
      (run_calls library (1 ∷ []) calls new_disk)).submissions
    ≤ (run_calls library (1 ∷ []) calls new_disk).submissions
reconcile_submits_nothing_example =
    reconcile_submits_nothing library (1 ∷ []) calls new_disk service search_fails refl refl

-- The APPEND succeeds and closing the composed message fails; the reconciliation does not see the copy
-- yet, and may store another one.
abbrev unclosed_send : List Fate
unclosed_send = killed_send ++ (mirrors_unclosed (leaf other) ∷ clock 14 ∷ works ∷ [])

abbrev mirrors_again : List Fate
mirrors_again =
    works
    ∷ works
    ∷ works
    ∷ works
    ∷ works
    ∷ works
    ∷ works
    ∷ works
    ∷ works
    ∷ works
    ∷ works
    ∷ works
    ∷ works
    ∷ text (14 ∷ [])
    ∷ absent
    ∷ works
    ∷ text (15 ∷ [])
    ∷ clock 16
    ∷ works
    ∷ []

second_copy :
    (run_calls library
      (1 ∷ [])
      (send revision unclosed_send ∷ reconcile service mirrors_again ∷ [])
      new_disk).copies
    ≡ 2
unfolding run_calls bytes_equal is_mirror_outcome_uncertain contains error_code first_match has_code
    first_code
second_copy = refl

abbrev pending : SendAttempt
pending = record {
  id = 9 ∷ [];
  draft_revision = revision;
  started_at = 10;
  updated_at = 13;
  message_id = 6 ∷ [];
  envelope_fingerprint = 6 ∷ [];
  mime_fingerprint = 8 ∷ [];
  recovery_spool = none;
  recovery_identity = none;
  outcome = mirror_pending;
  invocation_started = true;
  accepted_by_mail = true;
  sent_store_observed = false;
  observed_message_ref = [];
  observation_baseline = some (record {
    store_uuid = 1 ∷ [];
    maximum_row_id = 1;
    captured_unix = 1;
    sent_mailbox_ids = 1 ∷ [];
  });
  materialized = none;
  transport = none;
}

abbrev pending_draft : Draft
pending_draft = record draft { send_attempt = some pending }

store_not_needed : draft_reconcile_requires_mail_store (found pending_draft) false ≡ false
unfolding draft_reconcile_requires_mail_store
store_not_needed = refl

requirement_sound_example :
    reconcile_read library (1 ∷ []) service (found pending_draft)
    ≡ reconcile_read library
        (1 ∷ [])
        (record service { has_reconciler = true })
        (found pending_draft)
requirement_sound_example =
    requirement_sound library (1 ∷ []) service true (found pending_draft) false store_not_needed

require_draft_revision_iff_example :
    (require_draft_revision revision revision ≡ got tt)
    ↔ ((revision ≡ revision) × (bytes_equal revision [] ≡ false))
require_draft_revision_iff_example = require_draft_revision_iff revision revision
