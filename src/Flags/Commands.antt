-- ===== src/Flags/Commands.antt =====
-- internal/transport/imapclient/flags.go: one command on the flags of a message and its answer. The
-- server's answers are a list, and each command that is sent is recorded.
use mail_cli.Common.{ℕ, zero, suc, Bool, true, false, ◌++◌}
use mail_cli.Common.{Option, none, some, List, [], ◌∷◌, Bytes, if◌then◌else◌}
use mail_cli.Errors.{Failure, transport_error, mutation_outcome_error, no_cause, cause, leaf, other}
use mail_cli.Errors.Codes.{imap_mutation_failed, imap_response_malformed, imap_disconnected}
use mail_cli.Flags.{FlagChanges, FlagPermissions}
use mail_cli.Flags.Observe.{Line, permission_line, FlagObservation, no_observation, consume}

pub data FlagsState : Type 0 where
  unset observed missing unverified : FlagsState

pub data FlagsSource : Type 0 where
  no_source from_store from_fetch : FlagsSource

-- `transport.MutationEvidence.Outcome`.
pub data MutationOutcome : Type 0 where
  no_outcome not_started attempted completed partial_done rejected unknown seen_other :
      MutationOutcome

-- The fields of `transport.MutationEvidence` that a change of flags reads or writes.
pub record MutationEvidence : Type 0 where
  pub outcome : MutationOutcome
  pub uid : ℕ
  pub flags_state : FlagsState
  pub flags_source : FlagsSource
  pub actual_flags : List Bytes

pub data Status : Type 0 where
  ok no_status bad : Status

-- The deadline could not be set, so nothing was sent; the command could not be written or its answer not
-- be read; or the lines before the tagged status.
pub data Reply : Type 0 where
  undelivered : Failure → Reply
  unanswered : Failure → Reply
  answered : List Line → Status → Reply

pub data Command : Type 0 where
  store_flags : (changes : FlagChanges) → Command
  fetch_flags : Command

pub record Session : Type 0 where
  pub replies : List Reply
  pub permissions : FlagPermissions
  pub sent : List Command

pub record FlagCommandResult : Type 0 where
  pub status : Option Status
  pub observation : FlagObservation
  pub failure : Option Failure

abbrev pub code_error : Bytes → Failure
code_error code = transport_error code no_cause

abbrev pub bare_outcome : Bytes → Failure
bare_outcome code = mutation_outcome_error code no_cause

abbrev pub outcome_error : Bytes → Failure → Failure
outcome_error code e = mutation_outcome_error code (cause e no_cause)

abbrev pub plain_error : Failure
plain_error = leaf other

abbrev pub maximum_flag_response_count : ℕ
maximum_flag_response_count = 1024

abbrev failed_with : FlagObservation → Failure → FlagCommandResult
failed_with o e = record { status = none; observation = o; failure = some e }

abbrev tagged : FlagObservation → Status → FlagCommandResult
tagged o ok = record { status = some ok; observation = o; failure = none }
tagged o s = record {
  status = some s;
  observation = o;
  failure = some (code_error imap_mutation_failed);
}

abbrev pub updated : Line → FlagPermissions → FlagPermissions
updated (permission_line fs) p = record { present = true; flags = fs }
updated _ p = p

-- `readFlagResult`, over a budget of lines.
unfoldable pub read_lines :
    ℕ
    → ℕ
    → List Line
    → Status
    → FlagPermissions
    → FlagObservation
    → FlagCommandResult × FlagPermissions
unfolding consume
read_lines zero uid ls s p o = (failed_with o (code_error imap_response_malformed), p)
read_lines (suc n) uid [] s p o = (tagged o s, p)
read_lines (suc n) uid (l ∷ ls) s p o = elim (consume uid l o) [
  | none ↦ (failed_with o (code_error imap_response_malformed), p)
  | some q ↦ read_lines n uid ls s (updated l p) q
]

unfoldable pub read_flag_result : ℕ → Reply → FlagPermissions → FlagCommandResult × FlagPermissions
unfolding read_lines
read_flag_result uid (undelivered e) p = (failed_with no_observation e, p)
read_flag_result uid (unanswered e) p = (failed_with no_observation e, p)
read_flag_result uid (answered ls s) p =
    read_lines maximum_flag_response_count uid ls s p no_observation

-- The answer to the next command; a connection without one is closed.
abbrev pub next_reply : List Reply → Reply
next_reply [] = undelivered (code_error imap_disconnected)
next_reply (r ∷ rs) = r

abbrev pub rest_of : List Reply → List Reply
rest_of [] = []
rest_of (r ∷ rs) = rs

abbrev pub was_sent : Reply → Bool
was_sent (undelivered e) = false
was_sent _ = true

unfoldable pub run_command : ℕ → Command → Session → FlagCommandResult × Session
unfolding read_flag_result
run_command uid c s =
    let reply = next_reply s.replies in
    let (result, p) = read_flag_result uid reply s.permissions in
    (
      result,
      record {
        replies = rest_of s.replies;
        permissions = p;
        sent = if was_sent reply then s.sent ++ (c ∷ []) else s.sent;
      },
    )
