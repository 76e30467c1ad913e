-- ===== src/Threading/Audience.antt =====
-- internal/mail/threading.go: who receives a derived reply to all.
use mail_cli.Common.{◌≡◌, true, false, ◌&&◌}
use mail_cli.Common.{List, Bytes, contains, distinct, Bool-cases, inl, inr}
use mail_cli.Threading.{MailLibrary, Recipient, ThreadSource, Derived, derived}
use mail_cli.Threading.Chain.{bind-derived}
use mail_cli.Threading.Recipients.{keys, deduplicate-Spec}
use mail_cli.Threading.Derive.{
  DraftInput, derives_to, derives_cc, to_of, cc_of, targets_for, with_targets, derive_recipients,
}

derived_injective : {A : Type 0} {a b : A} → ◌≡◌ {A = Derived A} (derived a) (derived b) → a ≡ b
derived_injective h = cc

-- Where no address of CC is one of To and none occurs in CC twice.
abbrev pub Separate : MailLibrary → DraftInput → Type 0
Separate lib out =
    (distinct (keys lib out.cc_list) ≡ true)
    × ((x : Bytes)
        → contains x (keys lib out.cc_list) ≡ true
        → contains x (keys lib out.to_list) ≡ false)

with_targets-Separate :
    (lib : MailLibrary) (source : ThreadSource) (input out : DraftInput)
    (own_identities : List Bytes) (targets : List Recipient)
    → with_targets lib source true input own_identities targets ≡ derived out
    → Separate lib out
unfolding with_targets
with_targets-Separate lib source input out own_identities targets h =
    let spec =
      deduplicate-Spec lib (cc_of lib source true input own_identities targets)
        (to_of lib input targets) in
    elim (Bool-cases (derives_cc lib true input && source.recipient_parse_error)) [
      | inl e ↦ cc (rw e at h)
      | inr e ↦ rw (← (derived_injective (rw e at h))) (spec.once, spec.apart)
    ]

-- The CC list of a derived reply to all, whether derived or given, holds no address twice and no
-- address of the To list.
pub reply_all-Separate :
    (lib : MailLibrary) (source : ThreadSource) (input out : DraftInput)
    (own_identities : List Bytes)
    → derive_recipients lib source true input own_identities ≡ derived out
    → Separate lib out
unfolding derive_recipients
reply_all-Separate lib source input out own_identities h =
    let (targets, found, rest) =
      bind-derived (targets_for lib (derives_to lib input) (derives_cc lib true input) source)
        (with_targets lib source true input own_identities) out h in
    with_targets-Separate lib source input out own_identities targets rest
