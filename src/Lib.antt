-- ===== src/Lib.antt =====
-- MailCLI is a command line program that reads Apple Mail's local store, drafts and sends messages,
-- and changes mailboxes over IMAP. This library models the parts whose mistakes would cost a user a
-- message or send one to the wrong person.
--
-- Parts and files:
-- - Common: the shared names, Boolean tests on the native numbers, lists, and byte strings (a Go
--   string or byte slice is a list of bytes).
-- - Pool, for internal/transport/imapclient/pool.go: the IMAP sessions of one account. Each function
--   of Pool.antt is one section of the code under the client's mutex; Pool/Threads.antt runs these
--   sections as steps of goroutines (`Section`, `Step`, `Reach`), in every order. The weighted
--   semaphore of golang.org/x/sync is a parameter with its documented behaviour. A pointer to a
--   session is a number, and the channel that wakes waiters is the count of its replacements.
--   Not modelled: `Close` with the lifecycle lock, the mutation lock between processes, PoolStats,
--   and the connections themselves; an acquisition that one of them stops is the step `refuse`.
-- - Ref, for internal/mailref/binary.go: the binary form of account, mailbox and message references.
--   Writing is a list of bytes (Ref/Writer), reading is a state monad with the first error
--   (Ref/Reader). `encoding/binary`'s varints are written out (Ref/Varint); `utf8`, the repair of
--   strings and SHA-256 are the parameter `TextLibrary`. A varint is read with at most ten bytes,
--   which every uint64 fits in. Not modelled: base64 tokens and the older forms of reference.go.
-- - Threading, for internal/mail/threading.go and the Message-ID scan of
--   internal/mail/message_metadata.go: the recipients, the sender, the subject and the References
--   chain of a derived draft. `net/mail`'s address parser and printer, letter case, white space and
--   the subject pattern are the parameter `MailLibrary`. The loop that cuts Message-IDs has the
--   length of its text and one more as fuel; the subject loop has the length of the subject, of
--   which each round takes at least two bytes. Not modelled: the calls of the gateway.
-- - Mailboxes, for internal/transport/mailbox_resolution.go: which mailbox of the server a local path
--   means, for reading and for a mutation. NFC and `strings.EqualFold` are the parameter
--   `NameLibrary`; an error keeps its code and the candidates, not its text.
-- - Paging, for internal/cli/list_pagination.go: the pages of a list and their cursors. JSON in base64
--   and SHA-256 are the parameter `CursorLibrary`, which reads a cursor back as it was written where its
--   texts are valid UTF-8 and its numbers are Go integers. Not modelled: the bytes that are digested and the
--   output that is bounded.
-- - Errors, for internal/transport/errors.go and internal/transport/classification.go: the code of an
--   error and its classification. The tree that `errors.Is` and `errors.As` walk is a data type whose
--   leaves are the causes of other packages. Not modelled: messages, evidence, tagged rejections.
-- - Drafts, for internal/mail/draft_send.go, draft_state.go, draft_claims.go, draft_persistence.go,
--   draft_composition.go, draft_revision.go and draft_reconcile_requirement.go, with
--   `resolveSendRecoveryTarget` of send_identity.go: `SendDraft` and
--   `ReconcileDraft`. Drafts/World has the files of one draft (`Disk`) and a state monad with an early
--   return; a call of the file system, of a server or of the clock takes the next answer of a script,
--   and where the script ends the process is killed, so a theorem on all scripts is one on all answers
--   and on a crash at any call. `submissions` and `copies` count what a server may have taken: an SMTP
--   error that is no `SubmissionError`, and an APPEND error that is not an uncertain outcome, count for
--   nothing, and the process that is killed in such a call counts. The lease makes the runs on one
--   draft follow each other. Strings are trimmed, drafts digested and two carried records tested by the
--   parameter `DraftLibrary`. Calls that touch none of these files (the sender's identity, the hosts,
--   the composition, the keychain, the recovery spool) are answers that may be errors. Drafts/Triples
--   and Drafts/Keeps are the program logic; Drafts/Once has the invariant and its proof for each
--   function. A send claim is read back as it was written, so its texts are taken to be valid UTF-8; what
--   a receipt is read back as is a parameter. `unclosed` counts the copies whose composed message could
--   not be closed. Not modelled: the lock file, the deferred releases, and how drafts are created,
--   edited, pruned or handed off.
-- - Flags, for internal/transport/imapclient/flags.go and flag_permissions.go, and for
--   `shouldRetryFlagMutation` of internal/mailstore/imap_flag_outcome.go: `setFlagsAndVerify`, which
--   sends STORE and FETCH commands and judges what the server says of one message. The server's answers
--   are a list of replies in a `Session`; a line of an answer is what its parser makes of it, with a
--   bound of 1024 lines as in `maxFlagResponseCount`. A line whose response code is refused, and an
--   answer over its bound of bytes, count as an answer that could not be read. Letter case is the
--   parameter `FlagLibrary`. Flags/Commands sends one command, Flags/Store has the change, and Flags/Proof
--   follows through it where the flags of the evidence come from, Flags/Success that an error is returned
--   where they were not seen; Flags/Retry has what may be repeated.
--   Not modelled: `classifyFlagOutcome`, the response code of a tagged line, the texts of the
--   evidence, `FetchFlags`, and how the message's mailbox is selected.
--
-- The parts meet in the commands: a reference names the account and the mailbox path of a message,
-- the path is resolved to a mailbox of the server, the session pool runs the operation on it, such as
-- a change of flags, and the classification of its error says what may be done next. A reply derives
-- its draft from the message that the reference names. A draft is sent at most once, and whether its
-- Sent copy may be stored again rests on the classification of the error. A list is read page by page.
-- The rest of the command line, the local store and of the IMAP and SMTP protocols is not modelled.
pub mod Common
pub mod Pool
pub mod Ref
pub mod Threading
pub mod Mailboxes
pub mod Paging
pub mod Errors
pub mod Drafts
pub mod Flags
