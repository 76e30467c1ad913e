-- ===== src/Drafts/Keeps.antt =====
-- Pieces of function bodies that keep one invariant of the disk, whichever way they end. The lemmas are
-- rules for a search, one for each way that a body is put together.
use mail_cli.Common.{ℕ, Bool, true, false, Option, none, some, if◌then◌else◌}
use mail_cli.Errors.{Failure}
use mail_cli.Drafts.World.{
  Disk, World, Fate, Exit, Body, ◌>>=◌, pure, give_back, ask, Answer, got, refused, or_return,
  return_if, write, read_with, quiet, ask_text, ask_clock, ask_spool, ask_identity, check, checks,
  obtain, invoke,
}
use mail_cli.Drafts.Triples.{
  Ends, Steps, bind-Ends, invoke-Ends, ask-Ends, pure-Ends, write-Ends, quiet-Stays, ask_text-Stays,
  ask_clock-Stays, ask_spool-Stays, ask_identity-Stays, read-Stays, or_return-Stays,
  return_if-Stays, check-Stays, checks-Stays, obtain-Stays,
}

module _ (I : Disk → Type 0) where
  pub record Keeps {R A : Type 0} (m : Body R A) : Type 0 where
    pub run : (w : World) → I w.disk → Ends I {R = R} {A = A} (λ r. I) (λ a. I) (m w)

  abbrev same : (d : Disk) → I d → I d
  same d i = i

  module _ {R : Type 0} where
    pub bind-Keeps :
        {A B : Type 0} {m : Body R A} {f : A → Body R B}
        → Keeps m
        → ((a : A) → Keeps (f a))
        → Keeps (m >>= f)
    bind-Keeps {m = m} {f = f} k l = record {
      run =
          λ w i. bind-Ends I (λ r. I) (λ a. I) (λ b. I) m f w (k.run w i) (λ a v j. (l a).run v j);
    }

    pub invoke-Keeps : {A : Type 0} {f : Body A A} → Keeps f → Keeps {R = R} (invoke f)
    invoke-Keeps {f = f} k = record { run = λ w i. invoke-Ends I (λ r. I) (λ a. I) f w (k.run w i) }

    pub pure-Keeps : {A : Type 0} (a : A) → Keeps {R = R} (pure a)
    pure-Keeps a = record { run = λ w i. pure-Ends I (λ r. I) (λ a. I) a w i }

    pub give_back-Keeps : {A : Type 0} (r : R) → Keeps {A = A} (give_back r)
    unfolding Ends
    give_back-Keeps r = record { run = λ w i. i }

    abbrev same_with : (r : R) (d : Disk) → I d → I d
    same_with r d i = i

    pub quiet-Keeps : Keeps {R = R} quiet
    quiet-Keeps = record { run = quiet-Stays I I same (λ r. I) }

    pub ask_text-Keeps : Keeps {R = R} ask_text
    ask_text-Keeps = record { run = ask_text-Stays I I same (λ r. I) }

    pub ask_clock-Keeps : Keeps {R = R} ask_clock
    ask_clock-Keeps = record { run = ask_clock-Stays I I same (λ r. I) }

    pub ask_spool-Keeps : Keeps {R = R} ask_spool
    ask_spool-Keeps = record { run = ask_spool-Stays I I same (λ r. I) }

    pub ask_identity-Keeps : Keeps {R = R} ask_identity
    ask_identity-Keeps = record { run = ask_identity-Stays I I same (λ r. I) }

    pub read-Keeps : {A : Type 0} (view : Disk → Answer A) → Keeps {R = R} (read_with view)
    read-Keeps view = record { run = read-Stays I I same (λ r. I) view }

    pub or_return-Keeps : {A : Type 0} (g : Failure → R) (x : Answer A) → Keeps (or_return g x)
    or_return-Keeps g x = record { run = or_return-Stays I I same (λ r. I) same_with g x }

    pub return_if-Keeps : (c : Bool) (r : R) → Keeps (return_if c r)
    return_if-Keeps c r = record { run = return_if-Stays I I same (λ r. I) same_with c r }

    pub check-Keeps : (g : Failure → R) → Keeps (check g)
    check-Keeps g = record { run = check-Stays I I same (λ r. I) same_with g }

    pub checks-Keeps : (n : ℕ) (g : Failure → R) → Keeps (checks n g)
    checks-Keeps n g = record { run = checks-Stays I I same (λ r. I) same_with n g }

    pub obtain-Keeps : (g : Failure → R) → Keeps (obtain g)
    obtain-Keeps g = record { run = obtain-Stays I I same (λ r. I) same_with g }

    pub write-Keeps :
        (change : Disk → Disk) → ((d : Disk) → I d → I (change d)) → Keeps {R = R} (write change)
    write-Keeps change k = record {
      run = λ w i. write-Ends I (λ r. I) (λ a. I) change w i (k w.disk i) (λ e. (i, k w.disk i));
    }

    pub ask-Keeps :
        {A : Type 0} (step : Fate → Disk → Exit R A × Disk) (killed : Disk → Disk)
        → ((d : Disk) → I d → I (killed d))
        → ((fate : Fate) (d : Disk) → I d → Steps I (λ r. I) (λ a. I) (step fate d))
        → Keeps (ask step killed)
    ask-Keeps step killed dead k = record {
      run = λ w i.
          ask-Ends I (λ r. I) (λ a. I) step killed w (dead w.disk i) (λ fate. k fate w.disk i);
    }

    pub if-Keeps :
        {A : Type 0} (c : Bool) {m k : Body R A} → Keeps m → Keeps k → Keeps (if c then m else k)
    if-Keeps true h k = h
    if-Keeps false h k = k

    pub option-Keeps :
        {A B : Type 0} (o : Option B) {m : Body R A} {k : B → Body R A}
        → Keeps m
        → ((b : B) → Keeps (k b))
        → Keeps (elim o [ none ↦ m | some b ↦ k b ])
    option-Keeps none h l = h
    option-Keeps (some b) h l = l b

    pub answer-Keeps :
        {A B : Type 0} (x : Answer B) {m : Failure → Body R A} {k : B → Body R A}
        → ((e : Failure) → Keeps (m e))
        → ((b : B) → Keeps (k b))
        → Keeps (elim x [ refused e ↦ m e | got b ↦ k b ])
    answer-Keeps (refused e) h l = h e
    answer-Keeps (got b) h l = l b

-- A stronger fact that a piece keeps, where it goes on, and the invariant where it ends.
module _ {R A : Type 0} (I P : Disk → Type 0) {m : Body R A} where
  pub Keeps-leads :
      ((d : Disk) → P d → I d)
      → Keeps P m
      → (w : World) → P w.disk
      → Ends I {R = R} {A = A} (λ r. I) (λ a. P) (m w)
  unfolding Ends
  Keeps-leads sub k w h = leads (m w) (k.run w h)
    where
      leads :
          (e : Exit R A × World)
          → Ends P {R = R} {A = A} (λ r. P) (λ a. P) e
          → Ends I {R = R} {A = A} (λ r. I) (λ a. P) e
      leads (Exit.died, v) h = sub v.disk h
      leads (Exit.returned r, v) h = sub v.disk h
      leads (Exit.next a, v) h = h

  pub Keeps-weaker :
      ((d : Disk) → P d → I d)
      → Keeps P m
      → (w : World) → P w.disk
      → Ends I {R = R} {A = A} (λ r. I) (λ a. I) (m w)
  unfolding Ends
  Keeps-weaker sub k w h = weaker (m w) (Keeps-leads sub k w h)
    where
      weaker :
          (e : Exit R A × World)
          → Ends I {R = R} {A = A} (λ r. I) (λ a. P) e
          → Ends I {R = R} {A = A} (λ r. I) (λ a. I) e
      weaker (Exit.died, v) h = h
      weaker (Exit.returned r, v) h = h
      weaker (Exit.next a, v) h = sub v.disk h

pub ruleset body_rules = (
  bind-Keeps, invoke-Keeps, pure-Keeps, give_back-Keeps, quiet-Keeps, ask_text-Keeps,
  ask_clock-Keeps, ask_spool-Keeps, ask_identity-Keeps, read-Keeps, or_return-Keeps,
  return_if-Keeps, check-Keeps, checks-Keeps, obtain-Keeps, if-Keeps, option-Keeps, answer-Keeps,
)
