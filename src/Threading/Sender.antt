-- ===== src/Threading/Sender.antt =====
-- internal/mail/threading.go: the sender that is derived for a reply or a forward.
use mail_cli.Common.{
  ◌≡◌, ◌≢◌, refl, sym, ap, ◌∙◌, true, false, not, ◌&&◌, ◌⊎◌, inl, inr, arith, Bool-cases,
  Option-cases,
}
use mail_cli.Common.{
  Option, some, List, [], ◌∷◌, ◌++◌, Bytes, bytes_equal, bytes_equal_refl, bytes_equal→eq, contains,
  All,
}
use mail_cli.Threading.{
  MailLibrary, Recipient, ThreadSource, is_empty, recipient_address_key, match_address,
  match_recipients, only_address, derived_sender_address,
}

some_injective : {a b : Bytes} → ◌≡◌ {A = Option Bytes} (some a) (some b) → a ≡ b
some_injective h = cc

unclashed :
    (matched a : Bytes)
    → not (is_empty matched) && not (bytes_equal matched a) ≡ false
    → (is_empty matched ≡ true) ⊎ (matched ≡ a)
unclashed matched a h = elim (Bool-cases (is_empty matched)) [
  | inl e ↦ inl e
  | inr e ↦ elim (Bool-cases (bytes_equal matched a)) [
    | inl same ↦ inr (bytes_equal→eq matched a same)
    | inr other ↦ cc (rw (e, other) at h)
  ]
]

-- No address is blank, which the keys of addresses never are.
member_set :
    (x : Bytes) (addresses : List Bytes)
    → contains [] addresses ≡ false
    → contains x addresses ≡ true
    → is_empty x ≡ false
member_set [] addresses blank h = cc (blank, h)
member_set (c ∷ cs) addresses blank h = refl

not_blank : (s : Bytes) → ◌≡◌ {A = Bytes} [] s → is_empty s ≢ false
not_blank [] h set = cc
not_blank (c ∷ cs) h set = cc

only_known :
    (addresses : List Bytes) (s : Bytes)
    → only_address addresses ≡ s
    → is_empty s ≡ false
    → addresses ≡ s ∷ []
only_known [] s h set = absurd (not_blank s h set)
only_known (a ∷ []) s h set = ap (λ x. x ∷ []) h
only_known (a ∷ b ∷ rest) s h set = absurd (not_blank s h set)

contains_only : (s : Bytes) → contains s (s ∷ []) ≡ true
unfolding contains
contains_only s = ground (arith, bytes_equal_refl s)

module _ (lib : MailLibrary) where
  -- The address after the loop over the addresses: the key, when it is one of them.
  match_address-known :
      (key : Bytes) (addresses : List Bytes) (matched now : Bytes)
      → match_address lib key addresses matched ≡ some now
      → ((contains key addresses ≡ true)
          × (now ≡ key)
          × ((is_empty matched ≡ true) ⊎ (matched ≡ key)))
        ⊎ ((contains key addresses ≡ false) × (now ≡ matched))
  unfolding match_address contains
  match_address-known key [] matched now h = inr (refl, sym (some_injective h))
  match_address-known key (a ∷ rest) matched now h = elim (Bool-cases (bytes_equal key a)) [
    | inr other ↦ elim (match_address-known key rest matched now (rw (other, match_address) at h)) [
      | inl (c, e, m) ↦ inl (ground (arith, c, other), e, m)
      | inr (c, e) ↦ inr (ground (arith, c, other), e)
    ]
    | inl same ↦ elim (Bool-cases (not (is_empty matched) && not (bytes_equal matched a))) [
      | inl clash ↦ cc (rw (same, clash, match_address) at h)
      | inr fine ↦
          let eq = bytes_equal→eq key a same in
          let next : match_address lib key rest a ≡ some now =
            rw (same, fine, match_address) at h in
          let here : (is_empty matched ≡ true) ⊎ (matched ≡ key) =
            rw eq (unclashed matched a fine) in
          elim (match_address-known key rest a now next) [
            | inl (c, e, m) ↦ inl (ground (arith, c), e, here)
            | inr (c, e) ↦ inl (ground (arith, same), e ∙ sym eq, here)
          ]
    ]
  ]

  -- A recipient whose key is one of the addresses has the sender as its key.
  abbrev pub Agrees : (addresses : List Bytes) → (sender : Bytes) → Recipient → Type 0
  Agrees addresses sender r =
      (key : Bytes)
      → recipient_address_key lib r ≡ some key
      → contains key addresses ≡ true
      → key ≡ sender

  match_recipients-known :
      (addresses : List Bytes) (rs : List Recipient) (matched now : Bytes)
      → contains [] addresses ≡ false
      → (is_empty matched ≡ true) ⊎ (contains matched addresses ≡ true)
      → match_recipients lib addresses rs matched ≡ some now
      → ((is_empty now ≡ true) ⊎ (contains now addresses ≡ true))
        × ((is_empty matched ≡ false) → now ≡ matched)
        × All (Agrees addresses now) rs
  unfolding match_recipients
  match_recipients-known addresses [] matched now blank start h =
      let same = some_injective h in (rw (← same) start, λ e. sym same, tt)
  match_recipients-known addresses (r ∷ rs) matched now blank start h =
      elim (Option-cases (recipient_address_key lib r)) [
        | inl e ↦ cc (rw (e, match_recipients) at h)
        | inr (key, e) ↦ elim (Option-cases (match_address lib key addresses matched)) [
          | inl e' ↦ cc (rw (e, e', match_recipients) at h)
          | inr (mid, e') ↦
              let later : match_recipients lib addresses rs mid ≡ some now =
                rw (e, e', match_recipients) at h in
              elim (match_address-known key addresses matched mid e') [
                | inl (c, same, was) ↦
                    let (found, stays, all) =
                      match_recipients-known addresses rs mid now blank (inr (rw same c)) later in
                    let last : now ≡ key =
                      stays (rw same (member_set key addresses blank c)) ∙ same in
                    (
                      found,
                      (λ set. elim was [
                        | inl no_match ↦ cc (set, no_match)
                        | inr m ↦ last ∙ sym m
                      ]),
                      ((λ k e2 in_list. some_injective (sym e2 ∙ e) ∙ sym last), all),
                    )
                | inr (c, same) ↦
                    let (found, stays, all) =
                      match_recipients-known addresses rs mid now blank (rw same start) later in
                    (
                      found,
                      (λ set. stays (rw same set) ∙ same),
                      (
                        (λ k e2 in_list.
                            let eq : k ≡ key = some_injective (sym e2 ∙ e) in
                            cc (rw eq at in_list, c)),
                        all,
                      ),
                    )
              ]
        ]
      ]

  -- The sender that is derived from a source whose recipients are all readable, when there is one
  -- and no address of the account is blank: it is an address of the account, and either every
  -- recipient of To and CC that is an address of the account is that one, or it is the only one.
  pub derived_sender-Spec :
      (addresses : List Bytes) (source : ThreadSource) (sender : Bytes)
      → contains [] addresses ≡ false
      → derived_sender_address lib addresses source ≡ sender
      → is_empty sender ≡ false
      → (contains sender addresses ≡ true)
        × (All (Agrees addresses sender) (source.to_list ++ source.cc_list)
            ⊎ (addresses ≡ sender ∷ []))
  unfolding derived_sender_address
  derived_sender-Spec addresses source sender blank h set =
      elim (Bool-cases source.recipient_parse_error) [
        | inl bad ↦ absurd (not_blank sender (rw bad at h) set)
        | inr good ↦
            elim (Option-cases
              (match_recipients lib addresses (source.to_list ++ source.cc_list) [])) [
                | inl e ↦ absurd (not_blank sender (rw (good, e) at h) set)
                | inr (now, e) ↦
                    let (found, stays, all) =
                      match_recipients-known addresses (source.to_list ++ source.cc_list) [] now
                        blank (inl refl) e in
                    elim (Bool-cases (is_empty now)) [
                      | inl no_match ↦
                          let alone =
                            only_known addresses sender (rw (good, e, no_match) at h) set in
                          (rw alone (contains_only sender), inr alone)
                      | inr matched ↦
                          let same : now ≡ sender = rw (good, e, matched) at h in
                          (
                            elim found [
                              | inl no_match ↦ cc (no_match, matched)
                              | inr c ↦ rw (← same) c
                            ],
                            inl (rw (← same) all),
                          )
                    ]
              ]
      ]
