-- ===== src/Threading/Chain.antt =====
-- internal/mail/threading.go: `canonicalThreadReferences`, the References value of a derived draft.
use mail_cli.Common.{ℕ, ◌-◌, ◌≤◌, ◌<◌, ◌≡◌, refl, Bool, true, false, not, ◌&&◌, ◌||◌}
use mail_cli.Common.{List, [], ◌∷◌, ◌++◌, if◌then◌else◌, length, ◌==◌, ltb, drop}
use mail_cli.Common.{
  Bytes, bytes_equal, bytes_equal_refl, bytes_equal_comm, bytes_equal→eq, contains, contains-append,
  contains-drop, distinct, distinct-append_one, distinct-drop, arith, Bool-cases, inl, inr,
}
use mail_cli.Common.{length-append, length-drop, drop-append_le}
use mail_cli.Threading.{MailLibrary, Derived, derived, refused, ◌>>=◌, is_empty}
use mail_cli.Threading.{control_characters, message_id_malformed, references_malformed}
use mathlib.Core.List.{append-nil}
use mail_cli.Threading.MessageIds.{scan_message_ids}

abbrev pub maximum_thread_references : ℕ
maximum_thread_references = 20

-- `strings.ContainsAny(value, "\r\n")`.
abbrev has_line_break : Bytes → Bool
has_line_break [] = false
has_line_break (c ∷ cs) = c == 13 || c == 10 || has_line_break cs

-- `strings.Join(chain, " ")`.
unfoldable pub join_spaced : List Bytes → Bytes
join_spaced [] = []
join_spaced (x ∷ []) = x
join_spaced (x ∷ y ∷ ys) = x ++ (b' ' ∷ join_spaced (y ∷ ys))

-- The loop over the fields: neither the parent nor what was seen before.
unfoldable pub collect : (parent : Bytes) → List Bytes → (seen : List Bytes) → List Bytes
collect parent [] seen = []
collect parent (field ∷ fields) seen =
    let skipped = collect parent fields seen in
    let kept = collect parent fields (field ∷ seen) in
    if bytes_equal field parent || contains field seen then skipped else field ∷ kept

abbrev with_parent : Bytes → List Bytes
with_parent parent = if is_empty parent then [] else parent ∷ []

abbrev newest : List Bytes → List Bytes
newest chain =
    if ltb maximum_thread_references (length chain)
    then drop (length chain - maximum_thread_references) chain
    else chain

unfoldable pub thread_chain : (parent : Bytes) (fields : List Bytes) → List Bytes
unfolding collect
thread_chain parent fields = newest (collect parent fields [] ++ with_parent parent)

abbrev starts_with_angle : Bytes → Bool
starts_with_angle [] = false
starts_with_angle (c ∷ cs) = c == b'<'

abbrev ends_with_angle : Bytes → Bool
ends_with_angle [] = false
ends_with_angle (c ∷ []) = c == b'>'
ends_with_angle (c ∷ d ∷ cs) = ends_with_angle (d ∷ cs)

abbrev only : Bytes → List Bytes → Bool
only value (id ∷ []) = bytes_equal id value
only value _ = false

module _ (lib : MailLibrary) where
  -- `true` where `validateThreadMessageID` returns no error.
  unfoldable pub valid_thread_message_id : Bytes → Bool
  valid_thread_message_id value =
      starts_with_angle value
      && ends_with_angle value
      && (let (ids, complete) = scan_message_ids lib value in complete && only value ids)

  abbrev parent_of : Bytes → Derived Bytes
  parent_of message_id =
      if is_empty message_id
      then derived []
      else if not (bytes_equal (lib.trim_space message_id) message_id)
      then refused message_id_malformed
      else if valid_thread_message_id message_id
      then derived message_id
      else refused message_id_malformed

  unfoldable pub canonical_thread_references : (references message_id : Bytes) → Derived Bytes
  canonical_thread_references references message_id =
      if has_line_break references || has_line_break message_id
      then refused control_characters
      else parent_of message_id >>= λ parent.
          let (fields, complete) = scan_message_ids lib references in
          if not complete || (not (is_empty references) && is_empty fields)
          then refused references_malformed
          else derived (join_spaced (thread_chain parent fields))

pub collect_fresh :
    (parent : Bytes) (fields seen : List Bytes) (x : Bytes)
    → contains x (collect parent fields seen) ≡ true
    → (contains x seen ≡ false) × (contains x fields ≡ true)
unfolding collect contains
collect_fresh parent [] seen x h = cc
collect_fresh parent (f ∷ fs) seen x h =
    elim (Bool-cases (bytes_equal f parent || contains f seen)) [
      | inl e ↦ ground (arith, collect_fresh parent fs seen x, rw e at h)
      | inr e ↦ elim (Bool-cases (bytes_equal x f)) [
        | inl same ↦ rw (bytes_equal→eq x f same) (ground (arith, e, bytes_equal_refl f))
        | inr other ↦ ground (arith, collect_fresh parent fs (f ∷ seen) x, rw (e, other) at h)
      ]
    ]

collect_no_parent :
    (parent : Bytes) (fields seen : List Bytes)
    → contains parent (collect parent fields seen) ≡ false
unfolding collect contains
collect_no_parent parent [] seen = refl
collect_no_parent parent (f ∷ fs) seen =
    elim (Bool-cases (bytes_equal f parent || contains f seen)) [
      | inl e ↦ rw (e, collect) (collect_no_parent parent fs seen)
      | inr e ↦
          rw (e, collect)
            (ground (arith, e, bytes_equal_comm parent f, collect_no_parent parent fs (f ∷ seen)))
    ]

pub collect_distinct :
    (parent : Bytes) (fields seen : List Bytes) → distinct (collect parent fields seen) ≡ true
unfolding collect contains distinct
collect_distinct parent [] seen = refl
collect_distinct parent (f ∷ fs) seen =
    elim (Bool-cases (bytes_equal f parent || contains f seen)) [
      | inl e ↦ rw (e, collect) (collect_distinct parent fs seen)
      | inr e ↦ elim (Bool-cases (contains f (collect parent fs (f ∷ seen)))) [
        | inl again ↦
            absurd
              (ground (arith, (collect_fresh parent fs (f ∷ seen) f again).0, bytes_equal_refl f))
        | inr new ↦ rw (e, collect, new) (collect_distinct parent fs (f ∷ seen))
      ]
    ]

-- What holds of a chain that is made for a parent and the references of its header.
pub record ChainSpec (parent : Bytes) (fields chain : List Bytes) : Type 0 where
  pub once : distinct chain ≡ true
  pub bounded : length chain ≤ maximum_thread_references
  pub ends :
      is_empty parent ≡ false → (ancestors : List Bytes) × (chain ≡ ancestors ++ (parent ∷ []))
  pub known :
      (x : Bytes) → contains x chain ≡ true → contains x fields || bytes_equal x parent ≡ true
  pub whole :
      length fields < maximum_thread_references
      → (x : Bytes) → contains x fields ≡ true
      → contains x chain || bytes_equal x parent ≡ true

pub collect_whole :
    (parent : Bytes) (fields seen : List Bytes) (x : Bytes)
    → contains x fields ≡ true
    → contains x (collect parent fields seen) || bytes_equal x parent || contains x seen ≡ true
unfolding collect contains
collect_whole parent [] seen x h = cc
collect_whole parent (f ∷ fs) seen x h = elim (Bool-cases (bytes_equal x f)) [
  | inl same ↦
      rw (bytes_equal→eq x f same) (elim (Bool-cases (bytes_equal f parent || contains f seen)) [
        | inl e ↦ ground (arith, e)
        | inr e ↦ rw (e, collect) (ground (arith, bytes_equal_refl f))
      ])
  | inr other ↦ elim (Bool-cases (bytes_equal f parent || contains f seen)) [
    | inl e ↦ rw (e, collect) (collect_whole parent fs seen x (ground (arith, other, h)))
    | inr e ↦
        rw (e, collect)
          (ground (arith, other, collect_whole parent fs (f ∷ seen) x (ground (arith, other, h))))
  ]
]

length-collect :
    (parent : Bytes) (fields seen : List Bytes)
    → length (collect parent fields seen) ≤ length fields
unfolding collect
length-collect parent [] seen = omega arith
length-collect parent (f ∷ fs) seen = elim (Bool-cases (bytes_equal f parent || contains f seen)) [
  | inl e ↦ rw (e, collect) (omega (arith, length-collect parent fs seen))
  | inr e ↦ rw (e, collect) (omega (arith, length-collect parent fs (f ∷ seen)))
]

newest-drop :
    (chain : List Bytes) → newest chain ≡ drop (length chain - maximum_thread_references) chain
newest-drop chain = elim (Bool-cases (ltb maximum_thread_references (length chain))) [
  | inl e ↦ rw e
  | inr e ↦
      let short : length chain - maximum_thread_references ≡ 0 = ground arith in rw (e, short) refl
]

newest-append :
    (xs : List Bytes) (x : Bytes)
    → newest (xs ++ (x ∷ []))
      ≡ drop (length (xs ++ (x ∷ [])) - maximum_thread_references) xs ++ (x ∷ [])
newest-append xs x =
    rw (newest-drop (xs ++ (x ∷ [])))
      (drop-append_le _ xs (x ∷ []) (omega (arith, length-append xs (x ∷ []))))

module _ (parent : Bytes) (fields : List Bytes) where
  abbrev own : List Bytes
  own = collect parent fields []

  abbrev full : List Bytes
  full = own ++ with_parent parent

  full_once : distinct full ≡ true
  full_once = elim (Bool-cases (is_empty parent)) [
    | inl e ↦ rw (e, append-nil) (collect_distinct parent fields [])
    | inr e ↦ rw e (
        distinct-append_one own parent (collect_distinct parent fields [])
          (collect_no_parent parent fields []))
  ]

  length-with_parent : length (with_parent parent) ≤ 1
  length-with_parent = ground arith

  full_known :
      (x : Bytes) → contains x full ≡ true → contains x fields || bytes_equal x parent ≡ true
  unfolding contains
  full_known x h =
      let split : contains x own || contains x (with_parent parent) ≡ true =
        rw contains-append at h in
      elim (Bool-cases (contains x own)) [
        | inl e ↦ ground (arith, (collect_fresh parent fields [] x e).1)
        | inr e ↦ elim (Bool-cases (is_empty parent)) [
          | inl none_set ↦ cc (rw (e, none_set) at split)
          | inr set ↦ ground (arith, rw (e, set) at split)
        ]
      ]

  full_whole :
      (x : Bytes) → contains x fields ≡ true → contains x full || bytes_equal x parent ≡ true
  unfolding contains
  full_whole x h =
      ground (arith, contains-append x own (with_parent parent), collect_whole parent fields [] x h)

  cut_none : length fields < maximum_thread_references → length full - maximum_thread_references ≡ 0
  cut_none few = omega (
    arith,
    length-append own (with_parent parent),
    length-with_parent,
    length-collect parent fields [],
  )

  -- The chain of a parent and the references of its header holds no identifier twice, at most twenty
  -- of them, ends with the parent where there is one, and holds nothing but the parent and the
  -- references. Where there are less than twenty references, it holds every one of them.
  pub thread_chain-Spec : ChainSpec parent fields (thread_chain parent fields)
  unfolding thread_chain
  thread_chain-Spec =
      let cut = length full - maximum_thread_references in
      record {
        once = rw (newest-drop full) (distinct-drop cut full full_once);
        bounded = rw (newest-drop full) (omega (arith, length-drop cut full));
        ends = λ set. (
          drop (length (own ++ (parent ∷ [])) - maximum_thread_references) own,
          rw set (newest-append own parent),
        );
        known = λ x h. full_known x (contains-drop cut full x (rw (newest-drop full) at h));
        whole = λ few x h. rw (newest-drop full, cut_none few) (full_whole x h);
      }

pub bind-derived :
    {A B : Type 0} (r : Derived A) (f : A → Derived B) (b : B)
    → (r >>= f) ≡ derived b
    → (a : A) × (r ≡ derived a) × (f a ≡ derived b)
bind-derived (derived a) f b h = (a, refl, h)
bind-derived (refused e) f b h = cc
