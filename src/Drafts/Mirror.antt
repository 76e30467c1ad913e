-- ===== src/Drafts/Mirror.antt =====
-- internal/mail/draft_send.go: an interrupted send is looked up over IMAP, and its Sent copy is stored
-- again.
use mail_cli.Common.{ℕ, Bool, true, false, not, ◌&&◌, ◌||◌, ltb, ◌==◌, Option, none, some, []}
use mail_cli.Common.{Bytes, bytes_equal, if◌then◌else◌}
use mail_cli.Errors.{Failure}
use mail_cli.Drafts.Data.{
  Draft, SendOutcome, SendRecoveryIdentity, observed, accepted, mirror_pending, unknown,
  SendAttempt, AppendEvidence, SendObservationBaseline,
}
use mail_cli.Drafts.Codes.{
  operation, join, not_found, send_outcome_unknown, send_not_observed, send_outcome_unverifiable,
  send_reconcile_unavailable, send_reconcile_state_failed, send_mirror_outcome_unknown,
  send_fingerprint_mismatch, send_identity_unverifiable, send_transport_unavailable,
}
use mail_cli.Drafts.World.{
  Disk, Fate, fails, text, finds, absent, died, next, Body, ◌>>=◌, ◌>>◌, pure, give_back, ask, Exit,
  unchanged, Answer, got, refused, or_return, return_if, check, checks, ask_clock, invoke,
}
use mail_cli.Drafts.Claims.{DraftLibrary, is_blank, replace_send_attempt}
use mail_cli.Drafts.Receipts.{Out, evidence_of, result_for_reconcile}
use mail_cli.Drafts.Files.{finish_observed_send}
use mail_cli.Drafts.Submit.{
  persist_mirror_attempt_before_dispatch, mirror_composed_message, mirror_failed, mirrored, adopted,
  located, mirror_pending_error,
}

-- What the service was built with: a gateway, which may be a `SendReconciler`, an IMAP operator, and a
-- mirror with credentials.
pub record Service : Type 0 where
  pub has_gateway : Bool
  pub has_reconciler : Bool
  pub has_imap : Bool
  pub has_mirror : Bool

-- `SearchUID`: a search that finds nothing may say so by an error that the caller passes over.
pub record Match : Type 0 where
  pub uid : ℕ
  pub uid_validity : ℕ
  pub count : ℕ

abbrev pub search_step : {R : Type 0} → Fate → Disk → Exit R (Answer Match) × Disk
search_step (finds uid validity count) d =
    (next (got (record { uid = uid; uid_validity = validity; count = count })), d)
search_step absent d = (next (got (record { uid = 0; uid_validity = 0; count = 0 })), d)
search_step (fails e) d = (next (refused e), d)
search_step _ d = (died, d)

unfoldable pub search_uid : {R : Type 0} → Body R (Answer Match)
unfolding ask
search_uid = ask search_step unchanged

-- `ListMailboxes` and `ResolveSentMailbox`: the name, none without a Sent mailbox, or an error.
abbrev pub box_step : {R : Type 0} → Fate → Disk → Exit R (Answer (Option Bytes)) × Disk
box_step (text box) d = (next (got (some box)), d)
box_step absent d = (next (got none), d)
box_step (fails e) d = (next (refused e), d)
box_step _ d = (died, d)

unfoldable pub find_sent_box : {R : Type 0} → Body R (Answer (Option Bytes))
unfolding ask
find_sent_box = ask box_step unchanged

-- The gateway's evidence of a message in the local Sent store.
unfoldable pub observe_send : {R : Type 0} → Body R (Answer (Option Bytes))
unfolding find_sent_box
observe_send = find_sent_box

unfoldable pub observed_attempt : Bytes → ℕ → SendAttempt → SendAttempt
observed_attempt ref now a = record a {
  invocation_started = true;
  accepted_by_mail = true;
  sent_store_observed = true;
  observed_message_ref = ref;
  outcome = observed;
  updated_at = now;
}

unfoldable pub or_no_box : Out → Option Bytes → Body Out Bytes
or_no_box out none = give_back out
or_no_box out (some box) = pure box

abbrev pub is_pending : SendOutcome → Bool
is_pending mirror_pending = true
is_pending _ = false

abbrev pub is_unknown : SendOutcome → Bool
is_unknown unknown = true
is_unknown _ = false

abbrev pub is_set : Option SendObservationBaseline → Bool
is_set none = false
is_set (some b) = true

abbrev has_identity : Option SendRecoveryIdentity → Bool
has_identity none = false
has_identity (some i) = true

abbrev pub not_observed_code : SendOutcome → Bytes
not_observed_code accepted = send_not_observed
not_observed_code _ = send_outcome_unknown

abbrev pub not_found_with : Answer (Unit {0}) → Failure
not_found_with (got u) = operation not_found
not_found_with (refused e) = join (operation not_found) e

module _ (lib : DraftLibrary) (ref : Bytes) where
  abbrev pub fail_with : SendAttempt → Bytes → Out
  fail_with a code = (result_for_reconcile lib ref a, some (operation code))

  abbrev pub fail_on : SendAttempt → Failure → Out
  fail_on a e = (result_for_reconcile lib ref a, some e)

  abbrev pub pending_on : SendAttempt → Failure → Out
  pending_on a e = fail_on a (mirror_pending_error e)

  -- The end of every path that has the message's Sent copy: the claim, then the receipt.
  unfoldable pub settle : SendAttempt → Body Out Out
  unfolding ◌>>=◌ or_return replace_send_attempt finish_observed_send
  settle b = do
    stored ← replace_send_attempt b
    or_return (λ e. fail_with b send_reconcile_state_failed) stored
    finish_observed_send lib ref b true

  unfoldable pub adopt_observed_sent_message : SendAttempt → Bytes → Match → Body Out Out
  unfolding ◌>>=◌ check checks ask_clock adopted settle
  adopt_observed_sent_message a box m = do
    return_if (ltb 1 m.count) (fail_with a send_outcome_unverifiable)
    return_if (m.uid == 0 || not (m.count == 1)) (fail_with a send_reconcile_unavailable)
    -- the message is fetched, and its identity is compared
    check (pending_on a)
    check (fail_on a)
    now ← ask_clock
    settle (adopted box m.uid m.uid_validity now a)

  -- The message in the Sent mailbox, where there is one.
  unfoldable pub locate : SendAttempt → Bytes → Match → Body Out Out
  unfolding ◌>>=◌ check checks ask_clock located settle
  locate a box m =
      if not (m.uid == 0) && m.count == 1
      then (do
        checks 2 (fail_on a)
        now ← ask_clock
        settle (located box m.uid m.uid_validity now a))
      else pure (fail_with a send_outcome_unverifiable)

  -- `resolveSendIdentity` checks the sender's account binding against the accounts of the local Mail
  -- store only with a gateway; a sender without a binding is one whose check succeeds.
  unfoldable pub check_binding_catalog : Service → SendAttempt → Body Out (Unit {0})
  unfolding check
  check_binding_catalog service a = if service.has_gateway then check (fail_on a) else pure tt

  unfoldable pub resolve_send_recovery_target : Service → SendAttempt → Body Out (Unit {0})
  unfolding ◌>>=◌ check check_binding_catalog
  resolve_send_recovery_target service a = do
    return_if (not (has_identity a.recovery_identity)) (fail_with a send_identity_unverifiable)
    -- the configured sender and its binding
    check (fail_on a)
    check_binding_catalog service a
    -- the hosts, and the comparison with the identity that the claim retains
    check (fail_on a)

  unfoldable pub reconcile_unknown_via_imap : Service → Draft → SendAttempt → Body Out Out
  unfolding ◌>>=◌ or_return check find_sent_box or_no_box search_uid locate
      resolve_send_recovery_target
  reconcile_unknown_via_imap service d a = do
    return_if (not (bytes_equal a.envelope_fingerprint (lib.envelope_fingerprint d a.message_id)))
        (fail_with a send_fingerprint_mismatch)
    return_if (is_blank lib a.mime_fingerprint) (fail_with a send_identity_unverifiable)
    check (fail_on a)
    return_if (not service.has_imap) (fail_with a send_transport_unavailable)
    resolve_send_recovery_target service a
    -- the password
    check (fail_on a)
    listed ← find_sent_box
    resolved ← or_return (fail_on a) listed
    box ← or_no_box (fail_with a send_outcome_unverifiable) resolved
    searched ← search_uid
    m ← or_return (fail_on a) searched
    return_if (ltb 1 m.count) (fail_with a send_outcome_unverifiable)
    locate a box m

  -- The APPEND answered: without an IMAP operator its evidence is taken, else the message is searched.
  unfoldable pub after_append : Service → SendAttempt → Bytes → AppendEvidence → Body Out Out
  unfolding ◌>>=◌ or_return search_uid ask_clock adopt_observed_sent_message mirrored settle
  after_append service a box evidence =
      if service.has_imap
      then (do
        searched ← search_uid
        m ← or_return (pending_on a) searched
        if ltb 0 m.count
            then adopt_observed_sent_message a box m
            else pure (fail_with a send_mirror_outcome_unknown))
      else (do now ← ask_clock; settle (mirrored evidence now a))

  unfoldable pub after_append_failure : SendAttempt → Failure → Body Out Out
  unfolding ◌>>=◌ or_return ask_clock mirror_failed replace_send_attempt
  after_append_failure a e = do
    now ← ask_clock
    let b = mirror_failed e now a
    stored ← replace_send_attempt b
    or_return (λ f. fail_with b send_reconcile_state_failed) stored
    pure (pending_on b e)

  unfoldable pub append_answered :
      Service → SendAttempt → Bytes → Answer AppendEvidence → Body Out Out
  unfolding after_append after_append_failure
  append_answered service a box (refused e) = after_append_failure a e
  append_answered service a box (got evidence) = after_append service a box evidence

  abbrev pub state_failed : SendAttempt → Failure → Out
  state_failed a e = fail_with a send_reconcile_state_failed

  unfoldable pub dispatch_mirror : Service → SendAttempt → Bytes → Body Out Out
  unfolding ◌>>=◌ or_return check invoke persist_mirror_attempt_before_dispatch
      mirror_composed_message append_answered
  dispatch_mirror service a box = do
    -- the retained message
    check (fail_on a)
    stored ← invoke (persist_mirror_attempt_before_dispatch a)
    b ← or_return (state_failed a) stored
    answer ← mirror_composed_message
    append_answered service b box answer

  -- The APPEND is sent again, unless an earlier one may have stored the message.
  unfoldable pub retry_mirror : Service → SendAttempt → Bytes → Body Out Out
  unfolding evidence_of dispatch_mirror
  retry_mirror service a box =
      if (evidence_of a).mirror_outcome_unknown
      then pure (fail_with a send_mirror_outcome_unknown)
      else dispatch_mirror service a box

  unfoldable pub adopt_or_retry : Service → SendAttempt → Bytes → Match → Body Out Out
  unfolding adopt_observed_sent_message retry_mirror
  adopt_or_retry service a box m =
      if not (m.uid == 0) && m.count == 1
      then adopt_observed_sent_message a box m
      else retry_mirror service a box

  -- The Sent mailbox and what it holds of the message.
  unfoldable pub search_sent : SendAttempt → Body Out (Bytes × Match)
  unfolding ◌>>=◌ or_return find_sent_box or_no_box search_uid
  search_sent a = do
    listed ← find_sent_box
    resolved ← or_return (pending_on a) listed
    box ← or_no_box (fail_with a send_reconcile_unavailable) resolved
    searched ← search_uid
    m ← or_return (pending_on a) searched
    return_if (ltb 1 m.count) (fail_with a send_outcome_unverifiable)
    pure (box, m)

  unfoldable pub search_then_mirror : Service → SendAttempt → Body Out Out
  unfolding ◌>>=◌ search_sent adopt_or_retry
  search_then_mirror service a = do
    found_in ← search_sent a
    adopt_or_retry service a found_in.0 found_in.1

  unfoldable pub mirror_or_search : Service → SendAttempt → Body Out Out
  unfolding search_then_mirror retry_mirror
  mirror_or_search service a =
      if service.has_imap then search_then_mirror service a else retry_mirror service a []

  unfoldable pub check_mirror : Service → SendAttempt → Body Out (Unit {0})
  unfolding ◌>>=◌ check evidence_of resolve_send_recovery_target
  check_mirror service a = do
    return_if (is_blank lib (evidence_of a).message_id) (fail_with a send_reconcile_unavailable)
    return_if (is_blank lib a.mime_fingerprint) (fail_with a send_identity_unverifiable)
    return_if (not service.has_mirror) (fail_with a send_transport_unavailable)
    resolve_send_recovery_target service a
    -- the password
    check (fail_on a)

  unfoldable pub reconcile_mirror_pending : Service → SendAttempt → Body Out Out
  unfolding ◌>>=◌ check_mirror mirror_or_search
  reconcile_mirror_pending service a = do check_mirror service a; mirror_or_search service a
