-- ===== src/Drafts/World.antt =====
-- The process of internal/mail/draft_send.go and its surroundings: the files of one draft, the mail
-- servers, and a Go function body as a state monad with an early return.
use mail_cli.Common.{ℕ, zero, suc, Bool, Option, List, [], ◌∷◌, Bytes}
use mail_cli.Common.{if◌then◌else◌}
use mail_cli.Errors.{Failure}
use mail_cli.Drafts.Codes.{join}
use mail_cli.Drafts.Data.{
  Draft, SendAttempt, SendReceipt, AppendEvidence, AcceptedMessageSpool, SendRecoveryIdentity,
}

-- The files of one draft reference that the send reads and writes, and what the servers may hold:
-- `submissions` counts the SMTP submissions that were not refused for certain, and `copies` the
-- APPENDs of the Sent copy that were not; `unclosed` counts those of them that succeeded while closing
-- the composed message failed.
pub record Disk : Type 0 where
  pub draft : Option Draft
  pub send_claim : Option SendAttempt
  pub save_claim : Option Bytes
  pub handoff_claim : Option Bytes
  pub send_receipt : Option SendReceipt
  pub submissions : ℕ
  pub copies : ℕ
  pub unclosed : ℕ

-- What the surroundings answer to one call. `fails_late` is a write that is published and reports an
-- error all the same.
pub data Fate : Type 0 where
  works : Fate
  fails : Failure → Fate
  fails_late : Failure → Fate
  text : Bytes → Fate
  clock : ℕ → Fate
  spooled : AcceptedMessageSpool → Fate
  pinned : SendRecoveryIdentity → Fate
  accepts : (server_response : Bytes) → Option Failure → Fate
  unsure : (stage : Bytes) → Failure → Fate
  mirrors : AppendEvidence → Fate
  mirrors_unclosed : (close_error : Failure) → Fate
  finds : (uid : ℕ) → (uid_validity : ℕ) → (match_count : ℕ) → Fate
  absent : Fate

-- The script holds the answers that are left. A call after the last one never returns: the process
-- is killed there.
pub record World : Type 0 where
  pub disk : Disk
  pub script : List Fate

-- How a piece of a function body ends: the process died, the function returned, or it goes on.
pub data Exit (R A : Type 0) : Type 0 where
  died : Exit R A
  returned : R → Exit R A
  next : A → Exit R A

abbrev pub Body : Type 0 → Type 0 → Type 0
Body R A = World → Exit R A × World

abbrev pub go_on : {R A B : Type 0} → (A → Body R B) → Exit R A → Body R B
go_on f died w = (died, w)
go_on f (returned r) w = (returned r, w)
go_on f (next a) w = f a w

infixl 5 ◌>>=◌ ◌>>◌
unfoldable pub ◌>>=◌ : {R A B : Type 0} → Body R A → (A → Body R B) → Body R B
◌>>=◌ m f w = let (x, w') = m w in go_on f x w'

abbrev pub ◌>>◌ : {R A B : Type 0} → Body R A → Body R B → Body R B
m >> k = m >>= λ _. k

abbrev pub pure : {R A : Type 0} → A → Body R A
pure a w = (next a, w)

abbrev pub give_back : {R A : Type 0} → R → Body R A
give_back r w = (returned r, w)

abbrev pub disk_of : {R : Type 0} → Body R Disk
disk_of w = (next w.disk, w)

abbrev pub result_of : {R A : Type 0} → Exit A A → Exit R A
result_of died = died
result_of (returned a) = next a
result_of (next a) = next a

-- The call of another function: its return is where the caller goes on.
unfoldable pub invoke : {R A : Type 0} → Body A A → Body R A
invoke f w = let (x, w') = f w in (result_of x, w')

-- A call of the surroundings: `step` is what it does for an answer, `killed` what is left when the
-- process ends during it.
unfoldable pub ask : {R A : Type 0} → (Fate → Disk → Exit R A × Disk) → (Disk → Disk) → Body R A
ask step killed w = elim w.script [
  | [] ↦ (died, record w { disk = killed w.disk })
  | fate ∷ rest ↦ let (x, d) = step fate w.disk in (x, record { disk = d; script = rest })
]

-- A value, or the error that a call returns in its place.
pub data Answer (A : Type 0) : Type 0 where
  got : A → Answer A
  refused : Failure → Answer A

-- `if err != nil { return ..., err }`
unfoldable pub or_return : {R A : Type 0} → (Failure → R) → Answer A → Body R A
or_return give (got a) w = (next a, w)
or_return give (refused e) w = (returned (give e), w)

abbrev pub return_if : {R : Type 0} → Bool → R → Body R (Unit {0})
return_if c r = if c then give_back r else pure tt

-- `errors.Join` of two calls that were both made.
unfoldable pub join_answers : {A : Type 0} → Answer A → Answer A → Answer A
join_answers (got a) (got b) = got b
join_answers (got a) (refused e) = refused e
join_answers (refused e) (got b) = refused e
join_answers (refused e) (refused f) = refused (join e f)

-- What the calls below do for an answer.
module _ {R : Type 0} where
  abbrev pub write_step : (Disk → Disk) → Fate → Disk → Exit R (Answer (Unit {0})) × Disk
  write_step change works d = (next (got tt), change d)
  write_step change (fails e) d = (next (refused e), d)
  write_step change (fails_late e) d = (next (refused e), change d)
  write_step change _ d = (died, d)

  abbrev pub read_step : {A : Type 0} → (Disk → Answer A) → Fate → Disk → Exit R (Answer A) × Disk
  read_step view works d = (next (view d), d)
  read_step view (fails e) d = (next (refused e), d)
  read_step view _ d = (died, d)

  abbrev pub text_step : Fate → Disk → Exit R (Answer Bytes) × Disk
  text_step (text t) d = (next (got t), d)
  text_step (fails e) d = (next (refused e), d)
  text_step _ d = (died, d)

  abbrev pub clock_step : Fate → Disk → Exit R ℕ × Disk
  clock_step (clock t) d = (next t, d)
  clock_step _ d = (died, d)

  abbrev pub spool_step : Fate → Disk → Exit R (Answer AcceptedMessageSpool) × Disk
  spool_step (spooled s) d = (next (got s), d)
  spool_step (fails e) d = (next (refused e), d)
  spool_step _ d = (died, d)

  abbrev pub identity_step : Fate → Disk → Exit R (Answer SendRecoveryIdentity) × Disk
  identity_step (pinned i) d = (next (got i), d)
  identity_step (fails e) d = (next (refused e), d)
  identity_step _ d = (died, d)

abbrev pub unchanged : Disk → Disk
unchanged d = d

module _ {R : Type 0} where
  -- A call that writes, and the change that it publishes.
  unfoldable pub write : (Disk → Disk) → Body R (Answer (Unit {0}))
  unfolding ask
  write change = ask (write_step change) unchanged

  -- A call that reads one of the files.
  unfoldable pub read_with : {A : Type 0} → (Disk → Answer A) → Body R (Answer A)
  unfolding ask
  read_with view = ask (read_step view) unchanged

  -- A call that changes none of the files of `Disk`, and may return an error.
  unfoldable pub quiet : Body R (Answer (Unit {0}))
  unfolding write
  quiet = write unchanged

  -- A call that returns a text, such as a fresh identifier.
  unfoldable pub ask_text : Body R (Answer Bytes)
  unfolding ask
  ask_text = ask text_step unchanged

  -- `time.Now().UTC()`
  unfoldable pub ask_clock : Body R ℕ
  unfolding ask
  ask_clock = ask clock_step unchanged

  -- The retained message bytes and the pinned IMAP target of a send.
  unfoldable pub ask_spool : Body R (Answer AcceptedMessageSpool)
  unfolding ask
  ask_spool = ask spool_step unchanged

  unfoldable pub ask_identity : Body R (Answer SendRecoveryIdentity)
  unfolding ask
  ask_identity = ask identity_step unchanged

  -- `if err := call(); err != nil { return ..., err }`, for a call that changes no file of `Disk`.
  unfoldable pub check : (Failure → R) → Body R (Unit {0})
  unfolding ◌>>=◌ quiet or_return
  check give = quiet >>= or_return give

  -- Several such calls in a row.
  unfoldable pub checks : ℕ → (Failure → R) → Body R (Unit {0})
  unfolding ◌>>=◌ check
  checks zero give = pure tt
  checks (suc n) give = check give >> checks n give

  -- A call that returns a text, or makes the caller return.
  unfoldable pub obtain : (Failure → R) → Body R Bytes
  unfolding ◌>>=◌ ask_text or_return
  obtain give = ask_text >>= or_return give
