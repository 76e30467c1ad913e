-- ===== src/Drafts/Claims.antt =====
-- internal/mail/draft_claims.go: the send claim, a file that is written before the SMTP submission
-- and stops any later one.
use mail_cli.Common.{ℕ, ◌^◌, Bool, true, false, not, ◌&&◌, ◌||◌, ltb, leb, ◌==◌}
use mail_cli.Common.{Option, none, some, List, [], ◌∷◌, Bytes, bytes_equal, length, if◌then◌else◌}
use mail_cli.Drafts.Data.{
  Draft, SendOutcome, observed, accepted, sent, mirror_pending, unknown, SendObservationBaseline,
  AcceptedMessageSpool, SendRecoveryIdentity, SendMaterialization, TransportEvidence, SendAttempt,
}
use mail_cli.Drafts.Data.{SendReceipt}
use mail_cli.Drafts.Codes.{operation, plain, send_retry_blocked}
use mail_cli.Drafts.World.{
  Disk, Fate, works, fails, fails_late, next, Body, ◌>>=◌, ◌>>◌, pure, ask, read_with, Exit,
  unchanged, Answer, got, refused, or_return, write, quiet, ask_text, ask_clock, invoke,
  join_answers,
}

-- strings.TrimSpace, the SHA-256 digests of a draft (its revision and the fingerprint of its
-- envelope), the tests of the two records that a claim carries for later recovery, and what the JSON
-- decoder makes of the file that a receipt was written to: none where that is not one object of at most
-- 64 KiB with known fields. It is any function.
pub record DraftLibrary : Type 0 where
  pub trim_space : Bytes → Bytes
  pub revision_of : Draft → Bytes
  pub envelope_fingerprint : Draft → Bytes → Bytes
  pub is_normal_identity : SendRecoveryIdentity → Bool
  pub valid_materialization : SendMaterialization → Bool
  pub stored_receipt : SendReceipt → Option SendReceipt

-- The hexadecimal digits of `hex.DecodeString`, and the lower ones.
abbrev is_lower_hex : ℕ → Bool
is_lower_hex c = (leb 48 c && leb c 57) || (leb 97 c && leb c 102)

abbrev is_hex : ℕ → Bool
is_hex c = is_lower_hex c || (leb 65 c && leb c 70)

unfoldable pub all_of : (ℕ → Bool) → List ℕ → Bool
all_of p [] = true
all_of p (x ∷ xs) = p x && all_of p xs

-- `strings.CutPrefix`
unfoldable pub cut_prefix : Bytes → Bytes → Option Bytes
cut_prefix [] s = some s
cut_prefix (c ∷ cs) [] = none
cut_prefix (c ∷ cs) (d ∷ s) = if c == d then cut_prefix cs s else none

-- draft-review-v1:
abbrev revision_prefix : Bytes
revision_prefix =
    100 ∷ 114 ∷ 97 ∷ 102 ∷ 116 ∷ 45 ∷ 114 ∷ 101 ∷ 118 ∷ 105 ∷ 101 ∷ 119 ∷ 45 ∷ 118 ∷ 49 ∷ 58 ∷ []

unfoldable pub valid_stored_draft_revision : Bytes → Bool
unfolding all_of cut_prefix
valid_stored_draft_revision [] = true
valid_stored_draft_revision (c ∷ cs) = elim (cut_prefix revision_prefix (c ∷ cs)) [
  | none ↦ false
  | some digest ↦ length digest == 64 && all_of is_lower_hex digest
]

unfoldable pub distinct_above_zero : List ℕ → List ℕ → Bool
unfolding all_of
distinct_above_zero [] seen = true
distinct_above_zero (i ∷ is) seen =
    let rest = distinct_above_zero is (i ∷ seen) in
    if ltb i 1 then false else if not (all_of (λ s. not (s == i)) seen) then false else rest

unfoldable pub valid_observation_baseline : Option SendObservationBaseline → Bool
unfolding distinct_above_zero
valid_observation_baseline none = true
valid_observation_baseline (some b) =
    if bytes_equal b.store_uuid [] || ltb b.captured_unix 1 || length b.sent_mailbox_ids == 0
    then false
    else distinct_above_zero b.sent_mailbox_ids []

abbrev pub maximum_accepted_message_spool_bytes : ℕ
maximum_accepted_message_spool_bytes = 2 ^ 30

module _ (lib : DraftLibrary) where
  abbrev pub is_blank : Bytes → Bool
  is_blank s = bytes_equal (lib.trim_space s) []

  unfoldable pub valid_accepted_message_spool : Option AcceptedMessageSpool → Bool
  unfolding all_of
  valid_accepted_message_spool none = true
  valid_accepted_message_spool (some s) =
      if leb s.size 0 || ltb maximum_accepted_message_spool_bytes s.size
      then false
      else let digest = lib.trim_space s.sha256 in length digest == 64 && all_of is_hex digest

  unfoldable pub valid_transport_evidence : Option TransportEvidence → Bool
  valid_transport_evidence none = false
  valid_transport_evidence (some t) = not (is_blank t.message_id)

  -- The tests of one outcome.
  unfoldable pub outcome_fits : SendOutcome → SendAttempt → Bool
  unfolding valid_transport_evidence
  outcome_fits unknown a = not a.sent_store_observed && not a.accepted_by_mail
  outcome_fits accepted a = a.invocation_started && a.accepted_by_mail && not a.sent_store_observed
  outcome_fits observed a = a.invocation_started && a.sent_store_observed
  outcome_fits sent a =
      a.invocation_started
      && a.accepted_by_mail
      && a.sent_store_observed
      && valid_transport_evidence a.transport
  outcome_fits mirror_pending a =
      a.invocation_started
      && a.accepted_by_mail
      && not a.sent_store_observed
      && valid_transport_evidence a.transport

  unfoldable pub fits_identity : Option SendRecoveryIdentity → Bool
  fits_identity none = true
  fits_identity (some i) = lib.is_normal_identity i

  unfoldable pub fits_materialization : Option SendMaterialization → Bool
  fits_materialization none = true
  fits_materialization (some m) = lib.valid_materialization m

  -- The tests that do not depend on the outcome. The version and the reference of the stored claim
  -- are those that `encodeSendAttempt` writes.
  unfoldable pub has_valid_core : SendAttempt → Bool
  unfolding fits_identity fits_materialization valid_observation_baseline
      valid_stored_draft_revision valid_accepted_message_spool
  has_valid_core a =
      not (bytes_equal a.id [])
      && not (a.started_at == 0)
      && not (a.updated_at == 0)
      && valid_observation_baseline a.observation_baseline
      && valid_stored_draft_revision a.draft_revision
      && valid_accepted_message_spool a.recovery_spool
      && fits_identity a.recovery_identity
      && fits_materialization a.materialized

  unfoldable pub valid_send_attempt : SendAttempt → Bool
  unfolding has_valid_core outcome_fits
  valid_send_attempt a = has_valid_core a && outcome_fits a.outcome a

  unfoldable pub decoded_claim : Option SendAttempt → Answer (Option SendAttempt)
  unfolding valid_send_attempt
  decoded_claim none = got none
  decoded_claim (some a) = if valid_send_attempt a then got (some a) else refused plain

  unfoldable pub read_send_attempt : {R : Type 0} → Body R (Answer (Option SendAttempt))
  unfolding decoded_claim read_with
  read_send_attempt = read_with (λ d. decoded_claim d.send_claim)

  unfoldable pub remove_spool : {R : Type 0} → Option SendAttempt → Body R (Answer (Unit {0}))
  unfolding quiet
  remove_spool none = pure (got tt)
  remove_spool (some a) = elim a.recovery_spool [ none ↦ pure (got tt) | some s ↦ quiet ]

  unfoldable pub remove_send_attempt : Body (Answer (Unit {0})) (Answer (Unit {0}))
  unfolding ◌>>=◌ or_return read_send_attempt remove_spool write
  remove_send_attempt = do
    found ← read_send_attempt
    attempt ← or_return refused found
    removed ← remove_spool attempt
    or_return refused removed
    write (λ d. record d { send_claim = none })

  unfoldable pub remove_draft_claims : {R : Type 0} → Body R (Answer (Unit {0}))
  unfolding ◌>>=◌ invoke join_answers remove_send_attempt write
  remove_draft_claims = do
    send ← invoke remove_send_attempt
    save ← write (λ d. record d { save_claim = none })
    handoff ← write (λ d. record d { handoff_claim = none })
    pure (join_answers (join_answers send save) handoff)

-- `replaceSendAttempt`: the claim is replaced whole, by a rename.
unfoldable pub replace_send_attempt : {R : Type 0} → SendAttempt → Body R (Answer (Unit {0}))
unfolding write
replace_send_attempt a = write (λ d. record d { send_claim = some a })

-- `writePrivateDraftFile` opens the claim's file with O_EXCL.
unfoldable pub claim_created :
    Option SendAttempt → SendAttempt → Fate → Disk → Answer SendAttempt × Disk
claim_created (some old) a fate d = (refused (operation send_retry_blocked), d)
claim_created none a works d = (got a, record d { send_claim = some a })
claim_created none a (fails_late e) d = (refused e, record d { send_claim = some a })
claim_created none a (fails e) d = (refused e, d)
claim_created none a _ d = (refused plain, d)

pub record SendAttemptOptions : Type 0 where
  pub draft_revision : Bytes
  pub message_id : Bytes
  pub envelope_fingerprint : Bytes
  pub mime_fingerprint : Bytes
  pub recovery_spool : Option AcceptedMessageSpool
  pub recovery_identity : Option SendRecoveryIdentity
  pub baseline : Option SendObservationBaseline

unfoldable pub new_attempt : SendAttemptOptions → Bytes → ℕ → SendAttempt
new_attempt options id now = record {
  id = id;
  draft_revision = options.draft_revision;
  started_at = now;
  updated_at = now;
  message_id = options.message_id;
  envelope_fingerprint = options.envelope_fingerprint;
  mime_fingerprint = options.mime_fingerprint;
  recovery_spool = options.recovery_spool;
  recovery_identity = options.recovery_identity;
  outcome = unknown;
  invocation_started = false;
  accepted_by_mail = false;
  sent_store_observed = false;
  observed_message_ref = [];
  observation_baseline = options.baseline;
  materialized = none;
  transport = none;
}

abbrev pub create_step :
    {R : Type 0} → SendAttempt → Fate → Disk → Exit R (Answer SendAttempt) × Disk
create_step a fate d = let (answer, d') = claim_created d.send_claim a fate d in (next answer, d')

unfoldable pub create_claim : {R : Type 0} → SendAttempt → Body R (Answer SendAttempt)
unfolding ask claim_created
create_claim a = ask (create_step a) unchanged

unfoldable pub begin_send_attempt :
    SendAttemptOptions → Body (Answer SendAttempt) (Answer SendAttempt)
unfolding ◌>>=◌ or_return ask_text ask_clock create_claim new_attempt
begin_send_attempt options = do
  drawn ← ask_text
  id ← or_return refused drawn
  now ← ask_clock
  create_claim (new_attempt options id now)
