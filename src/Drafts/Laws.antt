-- ===== src/Drafts/Laws.antt =====
-- internal/mail/draft_revision.go: the revision that a request must name.
use mail_cli.Common.{◌≡◌, ◌↔◌, refl, sym, false, [], ◌∷◌, Bytes}
use mail_cli.Common.{bytes_equal, bytes_equal_refl, bytes_equal→eq, Bool-cases, inl, inr}
use mail_cli.Drafts.World.{got}
use mail_cli.Drafts.Files.{require_draft_revision}

accepted_equal :
    (e c : Bytes) → require_draft_revision e c ≡ got tt → (e ≡ c) × (bytes_equal e [] ≡ false)
unfolding require_draft_revision bytes_equal
accepted_equal [] c h = cc
accepted_equal (x ∷ xs) [] h = cc
accepted_equal (x ∷ xs) (y ∷ ys) h = elim (Bool-cases (bytes_equal (x ∷ xs) (y ∷ ys))) [
  | inl e ↦ (bytes_equal→eq (x ∷ xs) (y ∷ ys) e, refl)
  | inr e ↦ cc (rw e at h)
]

equal_accepted : (e : Bytes) → bytes_equal e [] ≡ false → require_draft_revision e e ≡ got tt
unfolding require_draft_revision bytes_equal
equal_accepted [] h = cc
equal_accepted (x ∷ xs) h = rw (bytes_equal_refl (x ∷ xs)) refl

-- A request is let through exactly when the revision it expects is the current one and not empty.
pub require_draft_revision_iff :
    (e c : Bytes) → (require_draft_revision e c ≡ got tt) ↔ ((e ≡ c) × (bytes_equal e [] ≡ false))
require_draft_revision_iff e c =
    (accepted_equal e c, λ (same, set). rw (sym same) (equal_accepted e set))
