-- ===== src/Threading/Recipients.antt =====
-- internal/mail/threading.go: the recipients that a reply to all promotes, and the removal of
-- duplicates. Both loops are the loop over references, seen on the keys of the recipients.
use mail_cli.Common.{◌≡◌, refl, ap, Bool, true, false, ◌||◌, ◌++◌}
use mail_cli.Common.{Option, none, some, List, [], ◌∷◌, if◌then◌else◌}
use mail_cli.Common.{
  Bytes, bytes_equal, bytes_equal_comm, contains, contains-append, distinct, arith, Bool-cases,
  Option-cases, inl, inr,
}
use mail_cli.Threading.{
  MailLibrary, Recipient, is_empty, recipient_address_key, add_keys, promote, identity_recipients,
  promoted_reply_all_recipients, deduplicate, deduplicate_recipients_against,
}
use mail_cli.Threading.Chain.{collect, collect_fresh, collect_distinct, collect_whole}

module _ (lib : MailLibrary) where
  abbrev with_key : Option Bytes → List Bytes → List Bytes
  with_key none ks = ks
  with_key (some key) ks = if is_empty key then ks else key ∷ ks

  -- The keys of the recipients that have one that is not empty.
  unfoldable pub keys : List Recipient → List Bytes
  keys [] = []
  keys (r ∷ rs) = with_key (recipient_address_key lib r) (keys rs)

  equal_empty : (key : Bytes) → bytes_equal key [] ≡ is_empty key
  unfolding bytes_equal
  equal_empty [] = refl
  equal_empty (c ∷ cs) = refl

  keys-promote :
      (rs : List Recipient) (seen : List Bytes)
      → keys (promote lib rs seen) ≡ collect [] (keys rs) seen
  unfolding keys promote collect
  keys-promote [] seen = refl
  keys-promote (r ∷ rs) seen = elim (Option-cases (recipient_address_key lib r)) [
    | inl e ↦ rw (e, promote, keys) (rw (e, keys) (keys-promote rs seen))
    | inr (key, e) ↦ elim (Bool-cases (is_empty key)) [
      | inl no_key ↦ rw (e, no_key, promote, keys) (keys-promote rs seen)
      | inr set ↦ elim (Bool-cases (contains key seen)) [
        | inl old ↦
            rw (e, set, old, promote, keys)
              (rw (equal_empty key, set, collect) (keys-promote rs seen))
        | inr new ↦
            rw (e, set, new, promote, keys)
              (rw (e, equal_empty key, set, keys, collect)
                (ap (λ ks. key ∷ ks) (keys-promote rs (key ∷ seen))))
      ]
    ]
  ]

  keys-deduplicate :
      (rs : List Recipient) (seen : List Bytes)
      → keys (deduplicate lib rs seen) ≡ collect [] (keys rs) seen
  unfolding keys deduplicate collect
  keys-deduplicate [] seen = refl
  keys-deduplicate (r ∷ rs) seen = elim (Option-cases (recipient_address_key lib r)) [
    | inl e ↦ rw (e, deduplicate, keys) (rw (e, keys) (keys-deduplicate rs seen))
    | inr (key, e) ↦ elim (Bool-cases (is_empty key)) [
      | inl no_key ↦
          rw (e, no_key, deduplicate, keys) (rw (e, no_key, keys) (keys-deduplicate rs seen))
      | inr set ↦ elim (Bool-cases (contains key seen)) [
        | inl old ↦
            rw (e, set, old, deduplicate, keys)
              (rw (equal_empty key, set, collect) (keys-deduplicate rs seen))
        | inr new ↦
            rw (e, set, new, deduplicate, keys)
              (rw (e, equal_empty key, set, keys, collect)
                (ap (λ ks. key ∷ ks) (keys-deduplicate rs (key ∷ seen))))
      ]
    ]
  ]

  add_keys-contains :
      (rs : List Recipient) (seen : List Bytes) (x : Bytes)
      → is_empty x ≡ false
      → contains x (add_keys lib rs seen) ≡ (contains x (keys rs) || contains x seen)
  unfolding add_keys keys contains
  add_keys-contains [] seen x h = refl
  add_keys-contains (r ∷ rs) seen x h = elim (Option-cases (recipient_address_key lib r)) [
    | inl e ↦ rw (e, add_keys, keys) (add_keys-contains rs seen x h)
    | inr (key, e) ↦ elim (Bool-cases (is_empty key)) [
      | inl no_key ↦
          rw (e, no_key, add_keys, keys)
            (ground (arith, add_keys-contains rs (key ∷ seen) x h, equal_empty x, no_key))
      | inr set ↦
          rw (e, set, add_keys, keys) (ground (arith, add_keys-contains rs (key ∷ seen) x h))
    ]
  ]

  -- What a list of recipients promises that was taken from a source against an excluded list, on the
  -- keys: nothing twice, nothing excluded, and everything else of the source.
  pub record KeysSpec (excluded source result : List Recipient) : Type 0 where
    pub once : distinct (keys result) ≡ true
    pub apart : (x : Bytes) → contains x (keys result) ≡ true → contains x (keys excluded) ≡ false
    pub whole :
        (x : Bytes)
        → contains x (keys source) ≡ true
        → contains x (keys result) || contains x (keys excluded) ≡ true
    pub from_source :
        (x : Bytes) → contains x (keys result) ≡ true → contains x (keys source) ≡ true

  keys-append : (xs ys : List Recipient) → keys (xs ++ ys) ≡ keys xs ++ keys ys
  unfolding keys
  keys-append [] ys = refl
  keys-append (r ∷ xs) ys = elim (Option-cases (recipient_address_key lib r)) [
    | inl e ↦ rw e (keys-append xs ys)
    | inr (key, e) ↦ elim (Bool-cases (is_empty key)) [
      | inl no_key ↦ rw (e, no_key) (keys-append xs ys)
      | inr set ↦ rw (e, set) (ap (λ ks. key ∷ ks) (keys-append xs ys))
    ]
  ]

  keys_set : (rs : List Recipient) (x : Bytes) → contains x (keys rs) ≡ true → is_empty x ≡ false
  unfolding keys contains
  keys_set [] x h = cc
  keys_set (r ∷ rs) [] h = elim (Option-cases (recipient_address_key lib r)) [
    | inl e ↦ keys_set rs [] (rw (e, keys) at h)
    | inr (key, e) ↦ elim (Bool-cases (is_empty key)) [
      | inl no_key ↦ keys_set rs [] (rw (e, no_key, keys) at h)
      | inr set ↦
          keys_set rs []
            (ground (arith, bytes_equal_comm [] key, equal_empty key, set, rw (e, set, keys) at h))
    ]
  ]
  keys_set (r ∷ rs) (c ∷ cs) h = refl

  module _ (excluded source result : List Recipient) (seen : List Bytes)
      (seeded : (x : Bytes) → is_empty x ≡ false → contains x seen ≡ contains x (keys excluded))
      (same : keys result ≡ collect [] (keys source) seen) where
    collected : KeysSpec excluded source result
    collected = record {
      once = rw same (collect_distinct [] (keys source) seen);
      apart = λ x h.
          let set = keys_set result x h in
          rw (← (seeded x set)) ((collect_fresh [] (keys source) seen x (rw same at h)).0);
      whole = λ x h.
          let set = keys_set source x h in
          rw (same, ← (seeded x set))
            (ground (arith, collect_whole [] (keys source) seen x h, equal_empty x, set));
      from_source = λ x h. (collect_fresh [] (keys source) seen x (rw same at h)).1;
    }

  or_none : (x : Bytes) (b : Bool) → b || contains x [] ≡ b
  unfolding contains
  or_none x true = refl
  or_none x false = refl

  -- Removing duplicates against other recipients: of each address that the others do not hold, one
  -- recipient stays.
  pub deduplicate-Spec :
      (recipients existing : List Recipient)
      → KeysSpec existing recipients (deduplicate_recipients_against lib recipients existing)
  unfolding deduplicate_recipients_against
  deduplicate-Spec recipients existing =
      collected existing recipients _ (add_keys lib existing [])
        (λ x set. rw (add_keys-contains existing [] x set) (or_none x (contains x (keys existing))))
        (keys-deduplicate recipients (add_keys lib existing []))

  -- A reply to all promotes each address of the To and CC recipients once, none of the reply
  -- targets, of the recipients already in To or of the own identities, and every other one.
  pub promoted-Spec :
      (to_list cc_list targets existing_to : List Recipient) (own_identities : List Bytes)
      → KeysSpec
          (existing_to ++ (targets ++ identity_recipients own_identities))
          (to_list ++ cc_list)
          (promoted_reply_all_recipients lib to_list cc_list targets existing_to own_identities)
  unfolding promoted_reply_all_recipients
  promoted-Spec to_list cc_list targets existing_to own_identities =
      collected _ (to_list ++ cc_list) _ _
        (λ x set.
          rw
            (
              add_keys-contains existing_to _ x set,
              add_keys-contains targets _ x set,
              add_keys-contains (identity_recipients own_identities) [] x set,
              keys-append existing_to (targets ++ identity_recipients own_identities),
              keys-append targets (identity_recipients own_identities),
              contains-append,
              contains-append,
            )
            (rw (or_none x (contains x (keys (identity_recipients own_identities)))) refl))
        (keys-promote (to_list ++ cc_list) _)
