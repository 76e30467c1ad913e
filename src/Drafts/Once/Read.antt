-- ===== src/Drafts/Once/Read.antt =====
-- internal/mail/draft_persistence.go: a draft that is read carries the send claim that is on the disk.
use mail_cli.Common.{ℕ, ◌≡◌, refl, Bool, true, false, Option, none, some, Bytes}
use mail_cli.Common.{if◌then◌else◌}
use mail_cli.Drafts.Data.{Draft, SendAttempt}
use mail_cli.Drafts.World.{Disk, World, Body, ◌>>=◌, Answer, got, refused, or_return, quiet, pure}
use mail_cli.Drafts.Claims.{DraftLibrary, read_send_attempt, decoded_claim, valid_send_attempt}
use mail_cli.Drafts.Files.{
  ReadDraft, found, missing, unreadable, invalid_state, read_draft_file, read_document, read_claims,
  attached, load_document, read_save_claim, read_handoff_attempt, conflicting,
}
use mail_cli.Drafts.Triples.{
  Ends, bind-Ends, answer-Ends, or_return-Ends, pure-Ends, read-Ends, quiet-Stays, read-Stays,
  Stays,
}
use mail_cli.Drafts.Once.{Once, Loose, Once-absent}

-- The draft's file is there.
pub record Document (n : ℕ) (d : Disk) : Type 0 where
  pub once : Once n d
  pub document : Draft
  pub there : d.draft ≡ some document

-- And its send claim is `send`.
pub record Loaded (n : ℕ) (send : Option SendAttempt) (d : Disk) : Type 0 where
  pub once : Once n d
  pub document : Draft
  pub there : d.draft ≡ some document
  pub same : d.send_claim ≡ send

abbrev pub ReadFact : ℕ → ReadDraft → Disk → Type 0
ReadFact n (found x) d = Loaded n x.send_attempt d
ReadFact n missing d = Loose n d
ReadFact n (unreadable e) d = Once n d

abbrev LoadFact : ℕ → Answer (Option Draft) → Disk → Type 0
LoadFact n (got none) d = Loose n d
LoadFact n (got (some x)) d = Document n d
LoadFact n (refused e) d = Once n d

abbrev DocumentFact : ℕ → Option Draft → Disk → Type 0
DocumentFact n none d = Loose n d
DocumentFact n (some x) d = Document n d

abbrev ClaimFact : ℕ → Answer (Option SendAttempt) → Disk → Type 0
ClaimFact n (got c) d = Loaded n c d
ClaimFact n (refused e) d = Once n d

module _ (lib : DraftLibrary) (n : ℕ) where
  -- A call that stays, its error returned as invalid state, and the rest.
  passed :
      {A : Type 0} (P : Disk → Type 0) (keep : (d : Disk) → P d → Once n d)
      (m : Body ReadDraft (Answer A)) (k : A → Body ReadDraft ReadDraft) (w : World)
      → Stays (Once n) P keep (ReadFact n) m
      → P w.disk
      → ((a : A) (v : World) → P v.disk → Ends (Once n) (ReadFact n) (ReadFact n) (k a v))
      → Ends (Once n) (ReadFact n) (ReadFact n) ((m >>= λ x. or_return invalid_state x >>= k) w)
  passed P keep m k w stays h rest =
      bind-Ends (Once n) (ReadFact n) (λ a. P) (ReadFact n) m _ w (stays w h)
        (λ x v l.
          bind-Ends (Once n) (ReadFact n) (λ a. P) (ReadFact n) (or_return invalid_state x) k v
            (or_return-Ends (Once n) (ReadFact n) (λ a. P) invalid_state x v (λ e. keep v.disk l)
              (λ a e. l))
            rest)

  if_fact :
      {A : Type 0} (F : A → Disk → Type 0) (b : Bool) (x y : A) (d : Disk)
      → F x d
      → F y d
      → F (if b then x else y) d
  if_fact F true x y d h k = h
  if_fact F false x y d h k = k

  decoded-ClaimFact : (d : Disk) → Document n d → ClaimFact n (decoded_claim lib d.send_claim) d
  unfolding decoded_claim
  decoded-ClaimFact d h = by_claim d.send_claim refl
    where
      loaded : (c : Option SendAttempt) → d.send_claim ≡ c → Loaded n c d
      loaded c e = record { once = h.once; document = h.document; there = h.there; same = e }

      by_claim : (c : Option SendAttempt) → d.send_claim ≡ c → ClaimFact n (decoded_claim lib c) d
      by_claim none e = loaded none e
      by_claim (some a) e =
          if_fact (ClaimFact n) (valid_send_attempt lib a) (got (some a)) _ d (loaded (some a) e)
            h.once

  attached-ReadFact :
      (x : Draft) (send : Option SendAttempt) (save handoff : Option Bytes) (d : Disk)
      → Loaded n send d
      → ReadFact n (attached lib x send save handoff) d
  unfolding attached
  attached-ReadFact x send save handoff d h =
      if_fact (ReadFact n) (conflicting send save handoff) _ (found _) d h.once h

  read_claims-Ends :
      (x : Draft) (w : World)
      → Document n w.disk
      → Ends (Once n) (ReadFact n) (ReadFact n) (read_claims lib x w)
  unfolding read_claims read_save_claim read_handoff_attempt read_send_attempt
  read_claims-Ends x w h =
      passed (Document n) (λ d k. k.once) quiet _ w
        (quiet-Stays (Once n) (Document n) (λ d k. k.once) (ReadFact n)) h
        (λ u v k.
          bind-Ends (Once n) (ReadFact n) (ClaimFact n) (ReadFact n) (read_send_attempt lib) _ v
            (read-Ends (Once n) (ReadFact n) (ClaimFact n) _ v k.once (decoded-ClaimFact v.disk k)
              (λ e. k.once))
            (λ r t l.
              bind-Ends (Once n) (ReadFact n) (Loaded n) (ReadFact n) (or_return invalid_state r) _
                t
                (answer-Ends (Once n) (ReadFact n) (Loaded n) (ClaimFact n) invalid_state r t
                  (λ e m. m) (λ c m. m) l)
                (λ send q m. sides send q m)))
    where
      sides :
          (send : Option SendAttempt) (v : World)
          → Loaded n send v.disk
          → Ends (Once n) (ReadFact n) (ReadFact n) (
              (do
                save_read ← read_save_claim
                save ← or_return invalid_state save_read
                handoff_read ← read_handoff_attempt
                handoff ← or_return invalid_state handoff_read
                pure (attached lib x send save handoff))
                v)
      sides send v k =
          passed (Loaded n send) (λ d l. l.once) read_save_claim _ v
            (read-Stays (Once n) (Loaded n send) (λ d l. l.once) (ReadFact n) _) k
            (λ save t l.
              passed (Loaded n send) (λ d l. l.once) read_handoff_attempt _ t
                (read-Stays (Once n) (Loaded n send) (λ d l. l.once) (ReadFact n) _) l
                (λ handoff q m.
                  pure-Ends (Once n) (ReadFact n) (ReadFact n) (attached lib x send save handoff) q
                    (attached-ReadFact x send save handoff q.disk m)))

  read_document-Ends :
      (o : Option Draft) (w : World)
      → DocumentFact n o w.disk
      → Ends (Once n) (ReadFact n) (ReadFact n) (read_document lib o w)
  unfolding read_document
  read_document-Ends none w h = pure-Ends (Once n) (ReadFact n) (ReadFact n) missing w h
  read_document-Ends (some x) w h = read_claims-Ends x w h

  loaded-LoadFact : (d : Disk) → Once n d → (o : Option Draft) → d.draft ≡ o → LoadFact n (got o) d
  loaded-LoadFact d h none e = Once-absent e h
  loaded-LoadFact d h (some x) e = record { once = h; document = x; there = e }

  by_document : (o : Option Draft) (d : Disk) → LoadFact n (got o) d → DocumentFact n o d
  by_document none d h = h
  by_document (some x) d h = h

  pub read_draft_file-Ends :
      (w : World) → Once n w.disk → Ends (Once n) (ReadFact n) (ReadFact n) (read_draft_file lib w)
  unfolding read_draft_file load_document
  read_draft_file-Ends w h =
      bind-Ends (Once n) (ReadFact n) (LoadFact n) (ReadFact n) load_document _ w
        (read-Ends (Once n) (ReadFact n) (LoadFact n) _ w h
          (loaded-LoadFact w.disk h w.disk.draft refl) (λ e. h))
        (λ x v k.
          bind-Ends (Once n) (ReadFact n) (DocumentFact n) (ReadFact n) (or_return invalid_state x)
            _ v
            (answer-Ends (Once n) (ReadFact n) (DocumentFact n) (LoadFact n) invalid_state x v
              (λ e l. l) (λ o l. by_document o v.disk l) k)
            (λ o t l. read_document-Ends o t l))
