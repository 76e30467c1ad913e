-- ===== src/Drafts/Triples.antt =====
-- What a piece of a function body leaves on the disk: an invariant where the process dies or the
-- function returns, and a fact about the value where it goes on.
use mail_cli.Common.{ℕ, zero, suc, ◌≡◌, refl, Bool, true, false, [], ◌∷◌, List}
use mail_cli.Errors.{Failure}
use mail_cli.Drafts.World.{
  Disk, World, Fate, works, fails, fails_late, text, clock, spooled, pinned, Exit, died, returned,
  next, Body, ◌>>=◌, pure, ask, Answer, got, refused, or_return, return_if, write, read_with, quiet,
  write_step, read_step, text_step, clock_step, spool_step, identity_step, unchanged, ask_text,
  ask_clock, ask_spool, ask_identity, check, checks, obtain, invoke, go_on, result_of,
}

module _ (I : Disk → Type 0) where
  unfoldable pub Ends :
      {R A : Type 0} → (R → Disk → Type 0) → (A → Disk → Type 0) → Exit R A × World → Type 0
  Ends J Q (died, w) = I w.disk
  Ends J Q (returned r, w) = J r w.disk
  Ends J Q (next a, w) = Q a w.disk

  -- The same for the step of one call, before the script is cut.
  abbrev pub Steps :
      {R A : Type 0} → (R → Disk → Type 0) → (A → Disk → Type 0) → Exit R A × Disk → Type 0
  Steps J Q (died, d) = I d
  Steps J Q (returned r, d) = J r d
  Steps J Q (next a, d) = Q a d

  module _ {R A B : Type 0} (J : R → Disk → Type 0) (P : A → Disk → Type 0)
      (Q : B → Disk → Type 0) where
    pub bind-Ends :
        (m : Body R A) (f : A → Body R B) (w : World)
        → Ends J P (m w)
        → ((a : A) (v : World) → P a v.disk → Ends J Q (f a v))
        → Ends J Q ((m >>= f) w)
    unfolding ◌>>=◌ Ends
    bind-Ends m f w h k = after (m w) h
      where
        after : (e : Exit R A × World) → Ends J P e → Ends J Q (let (x, v) = e in go_on f x v)
        after (died, v) h = h
        after (returned r, v) h = h
        after (next a, v) h = k a v h

  module _ {R A : Type 0} (J : R → Disk → Type 0) (Q : A → Disk → Type 0) where
    pub invoke-Ends : (f : Body A A) (w : World) → Ends Q Q (f w) → Ends J Q (invoke f w)
    unfolding invoke Ends
    invoke-Ends f w h = after (f w) h
      where
        after : (e : Exit A A × World) → Ends Q Q e → Ends J Q (let (x, v) = e in (result_of x, v))
        after (died, v) h = h
        after (returned r, v) h = h
        after (next a, v) h = h

    pub ask-Ends :
        (step : Fate → Disk → Exit R A × Disk) (killed : Disk → Disk) (w : World)
        → I (killed w.disk)
        → ((fate : Fate) → Steps J Q (step fate w.disk))
        → Ends J Q (ask step killed w)
    unfolding ask Ends
    ask-Ends step killed w dead h = after w.script
      where
        cut :
            (rest : List Fate) (e : Exit R A × Disk)
            → Steps J Q e
            → Ends J Q (let (x, d) = e in (x, record { disk = d; script = rest }))
        cut rest (died, d) h = h
        cut rest (returned r, d) h = h
        cut rest (next a, d) h = h

        after :
            (script : List Fate)
            → Ends J Q (elim script [
              | [] ↦ (died, record w { disk = killed w.disk })
              | fate ∷ rest ↦
                  let (x, d) = step fate w.disk in (x, record { disk = d; script = rest })
            ])
        after [] = dead
        after (fate ∷ rest) = cut rest (step fate w.disk) (h fate)

    pub or_return-Ends :
        (give : Failure → R) (x : Answer A) (w : World)
        → ((e : Failure) → J (give e) w.disk)
        → ((a : A) → x ≡ got a → Q a w.disk)
        → Ends J Q (or_return give x w)
    unfolding or_return Ends
    or_return-Ends give (got a) w i h = h a refl
    or_return-Ends give (refused e) w i h = i e

    -- The same by what is known of either answer.
    pub answer-Ends :
        (T : Answer A → Disk → Type 0) (give : Failure → R) (x : Answer A) (w : World)
        → ((e : Failure) → T (refused e) w.disk → J (give e) w.disk)
        → ((a : A) → T (got a) w.disk → Q a w.disk)
        → T x w.disk
        → Ends J Q (or_return give x w)
    unfolding or_return Ends
    answer-Ends T give (got a) w i h t = h a t
    answer-Ends T give (refused e) w i h t = i e t

    pub pure-Ends : (a : A) (w : World) → Q a w.disk → Ends J Q (pure a w)
    unfolding Ends
    pure-Ends a w h = h

  module _ {R A : Type 0} (J : R → Disk → Type 0) (Q : Answer A → Disk → Type 0) where
    pub read-Ends :
        (view : Disk → Answer A) (w : World)
        → I w.disk
        → Q (view w.disk) w.disk
        → ((e : Failure) → Q (refused e) w.disk)
        → Ends J Q (read_with view w)
    unfolding read_with
    read-Ends view w i done failed = ask-Ends J Q (read_step view) unchanged w i steps
      where
        steps : (fate : Fate) → Steps J Q (read_step view fate w.disk)
        steps works = done
        steps (fails e) = failed e
        steps _ = i

  pub write-Ends :
      {R : Type 0} (J : R → Disk → Type 0) (Q : Answer (Unit {0}) → Disk → Type 0)
      (change : Disk → Disk) (w : World)
      → I w.disk
      → Q (got tt) (change w.disk)
      → ((e : Failure) → Q (refused e) w.disk × Q (refused e) (change w.disk))
      → Ends J Q (write change w)
  unfolding write
  write-Ends J Q change w i done failed = ask-Ends J Q (write_step change) unchanged w i steps
    where
      steps : (fate : Fate) → Steps J Q (write_step change fate w.disk)
      steps works = done
      steps (fails e) = (failed e).0
      steps (fails_late e) = (failed e).1
      steps _ = i

-- Calls that leave the disk as it is keep every fact about it that includes the invariant.
module _ (I P : Disk → Type 0) (keep : (d : Disk) → P d → I d) {R : Type 0}
    (J : R → Disk → Type 0) where
  abbrev pub Stays : {A : Type 0} → Body R A → Type 0
  Stays m = (w : World) → P w.disk → Ends I J (λ a. P) (m w)

  pub quiet-Stays : Stays quiet
  unfolding quiet
  quiet-Stays w h = write-Ends I J (λ a. P) unchanged w (keep w.disk h) h (λ e. (h, h))

  pub ask_text-Stays : Stays ask_text
  unfolding ask_text
  ask_text-Stays w h = ask-Ends I J (λ a. P) text_step unchanged w (keep w.disk h) steps
    where
      steps : (fate : Fate) → Steps I J (λ a. P) (text_step fate w.disk)
      steps (text t) = h
      steps (fails e) = h
      steps _ = keep w.disk h

  pub ask_clock-Stays : Stays ask_clock
  unfolding ask_clock
  ask_clock-Stays w h = ask-Ends I J (λ a. P) clock_step unchanged w (keep w.disk h) steps
    where
      steps : (fate : Fate) → Steps I J (λ a. P) (clock_step fate w.disk)
      steps (clock t) = h
      steps _ = keep w.disk h

  pub ask_spool-Stays : Stays ask_spool
  unfolding ask_spool
  ask_spool-Stays w h = ask-Ends I J (λ a. P) spool_step unchanged w (keep w.disk h) steps
    where
      steps : (fate : Fate) → Steps I J (λ a. P) (spool_step fate w.disk)
      steps (spooled s) = h
      steps (fails e) = h
      steps _ = keep w.disk h

  pub ask_identity-Stays : Stays ask_identity
  unfolding ask_identity
  ask_identity-Stays w h = ask-Ends I J (λ a. P) identity_step unchanged w (keep w.disk h) steps
    where
      steps : (fate : Fate) → Steps I J (λ a. P) (identity_step fate w.disk)
      steps (pinned s) = h
      steps (fails e) = h
      steps _ = keep w.disk h

  pub read-Stays : {A : Type 0} (view : Disk → Answer A) → Stays (read_with view)
  read-Stays view w h = read-Ends I J (λ a. P) view w (keep w.disk h) h (λ e. h)

  -- After a call that stays, the rest of the body.
  pub after :
      {A B : Type 0} (Q : B → Disk → Type 0) (m : Body R A) (f : A → Body R B) (w : World)
      → Stays m
      → P w.disk
      → ((a : A) (v : World) → P v.disk → Ends I J Q (f a v))
      → Ends I J Q ((m >>= f) w)
  after Q m f w stays h k = bind-Ends I J (λ a. P) Q m f w (stays w h) k

  module _ (give : (r : R) (d : Disk) → P d → J r d) where
    pub or_return-Stays : {A : Type 0} (g : Failure → R) (x : Answer A) → Stays (or_return g x)
    or_return-Stays g x w h =
        or_return-Ends I J (λ a. P) g x w (λ e. give (g e) w.disk h) (λ a e. h)

    pub return_if-Stays : (c : Bool) (r : R) → Stays (return_if c r)
    unfolding Ends
    return_if-Stays true r w h = give r w.disk h
    return_if-Stays false r w h = h

    pub check-Stays : (g : Failure → R) → Stays (check g)
    unfolding check
    check-Stays g w h =
        bind-Ends I J (λ a. P) (λ a. P) quiet (or_return g) w (quiet-Stays w h)
          (λ a. or_return-Stays g a)

    pub checks-Stays : (n : ℕ) (g : Failure → R) → Stays (checks n g)
    unfolding checks
    checks-Stays zero g w h = pure-Ends I J (λ a. P) tt w h
    checks-Stays (suc n) g w h =
        bind-Ends I J (λ a. P) (λ a. P) (check g) (λ a. checks n g) w (check-Stays g w h)
          (λ a. checks-Stays n g)

    pub obtain-Stays : (g : Failure → R) → Stays (obtain g)
    unfolding obtain
    obtain-Stays g w h =
        bind-Ends I J (λ a. P) (λ a. P) ask_text (or_return g) w (ask_text-Stays w h)
          (λ a. or_return-Stays g a)
