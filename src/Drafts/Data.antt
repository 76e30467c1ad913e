-- ===== src/Drafts/Data.antt =====
-- internal/mail/model.go: the records of a draft's send. A time is a number of nanoseconds, with 0
-- for the zero time.
use mail_cli.Common.{ℕ, Bool, Option, List, Bytes}
use mail_cli.Threading.{Recipient}

pub data DraftKind : Type 0 where
  new reply reply_all forward : DraftKind

pub data SendOutcome : Type 0 where
  observed accepted sent mirror_pending unknown : SendOutcome

pub record SendObservationBaseline : Type 0 where
  pub store_uuid : Bytes
  pub maximum_row_id : ℕ
  pub captured_unix : ℕ
  pub sent_mailbox_ids : List ℕ

pub record AcceptedMessageSpool : Type 0 where
  pub size : ℕ
  pub sha256 : Bytes

pub record SendRecoveryIdentity : Type 0 where
  pub account_id : Bytes
  pub host : Bytes
  pub port : ℕ
  pub username : Bytes

pub record SendMaterialization : Type 0 where
  pub from_address : Bytes
  pub to : List Recipient
  pub cc_list : List Recipient
  pub bcc : List Recipient
  pub subject : Bytes
  pub body : Option Bytes
  pub attachment_count : ℕ

pub record TransportEvidence : Type 0 where
  pub server_response : Bytes
  pub message_id : Bytes
  pub submission_stage : Bytes
  pub submission_accepted : Bool
  pub mirror_mailbox : Bytes
  pub mirror_uid_validity : ℕ
  pub mirror_uid : ℕ
  pub mirror_attempt_id : Bytes
  pub mirror_appended : Bool
  pub mirror_attempted : Bool
  pub mirror_outcome_unknown : Bool

pub record SendAttempt : Type 0 where
  pub id : Bytes
  pub draft_revision : Bytes
  pub started_at : ℕ
  pub updated_at : ℕ
  pub message_id : Bytes
  pub envelope_fingerprint : Bytes
  pub mime_fingerprint : Bytes
  pub recovery_spool : Option AcceptedMessageSpool
  pub recovery_identity : Option SendRecoveryIdentity
  pub outcome : SendOutcome
  pub invocation_started : Bool
  pub accepted_by_mail : Bool
  pub sent_store_observed : Bool
  pub observed_message_ref : Bytes
  pub observation_baseline : Option SendObservationBaseline
  pub materialized : Option SendMaterialization
  pub transport : Option TransportEvidence

pub record SendReceipt : Type 0 where
  pub draft_ref : Bytes
  pub draft_revision : Bytes
  pub attempt_id : Bytes
  pub started_at : ℕ
  pub completed_at : ℕ
  pub expires_at : ℕ
  pub outcome : SendOutcome
  pub accepted : Bool
  pub submission_accepted : Bool
  pub sent_copy_observed : Bool
  pub observed_message_ref : Bytes
  pub message_id : Bytes
  pub server_response : Bytes
  pub sent_mailbox : Bytes
  pub uid_validity : ℕ
  pub uid : ℕ
  pub sent_appended : Bool

-- The fields of `Draft` that a send reads itself. The attempts are the claim files beside the draft;
-- of a save or handoff attempt only its identifier is kept.
pub record Draft : Type 0 where
  pub ref : Bytes
  pub revision : Bytes
  pub kind : DraftKind
  pub from_address : Bytes
  pub to : List Recipient
  pub cc_list : List Recipient
  pub bcc : List Recipient
  pub source_message_id : Bytes
  pub source_references : Bytes
  pub subject : Bytes
  pub body : Bytes
  pub send_attempt : Option SendAttempt
  pub save_attempt : Option Bytes
  pub handoff_attempt : Option Bytes

pub record SendResult : Type 0 where
  pub draft_ref : Bytes
  pub attempt_id : Bytes
  pub outcome : Option SendOutcome
  pub accepted : Bool
  pub submission_accepted : Bool
  pub invocation_started : Bool
  pub accepted_by_mail : Bool
  pub sent_store_observed : Bool
  pub sent_copy_observed : Bool
  pub observed_message_ref : Bytes
  pub draft_retained : Bool
  pub replayed : Bool
  pub reconciled : Bool
  pub receipt : Option SendReceipt

-- transport.AppendEvidence
pub record AppendEvidence : Type 0 where
  pub mailbox : Bytes
  pub uid_validity : ℕ
  pub uid : ℕ
  pub appended : Bool
