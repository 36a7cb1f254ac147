-- ===== src/Codec/Validity.antt =====
-- protocol/codec.ts: what `validate` asks of a message, and what `decode` lets through.
use ather.Base.{
  ltb, Bool-cases, Option-cases, is_some, is_some-value, sum-cases, length, drop, includes, ℕ, ◌≤◌,
  String, ◌≡◌, refl, ap, subst, ◌∙◌, ◌↔◌, inl, inr, true, none, some, List, [], ◌∷◌, ◌++◌, arith,
}
use ather.Codec.Fields.{
  IsAddress, IsKnownType, IsTimely, IfDeclared, includes-IsKnownType, is_timely-IsTimely,
  check_addresses-none,
}
use ather.Codec.{
  Loose, bap02_magic, max_payload, binary, ok, decode, decode_payload, validated, Formats,
  has_header, AetherMessage, valid_types, is_timely, check_addresses, first_missing, validate,
}

-- What a message must have to be accepted at a time.
pub record IsValid {P : Type 0} (now : ℕ) (m : AetherMessage P) : Type 0 where
  pub sender : Loose P String
  pub receiver : Loose P String
  pub type : String
  pub priority : ℕ
  pub timestamp : Loose P ℕ
  pub has_id : is_some m.id ≡ true
  pub has_from : m.from ≡ some sender
  pub has_to : m.to ≡ some receiver
  pub has_type : m.type ≡ some type
  pub has_priority : m.priority ≡ some priority
  pub has_timestamp : m.timestamp ≡ some timestamp
  pub known_type : IsKnownType type
  pub in_range : (1 ≤ priority) × (priority ≤ 5)
  pub addresses : IfDeclared IsAddress sender × IfDeclared IsAddress receiver
  pub timely : IfDeclared (IsTimely now) timestamp

first_missing-none :
    {P : Type 0} (m : AetherMessage P)
    → first_missing m ≡ none
    → (is_some m.id ≡ true)
      × (is_some m.from ≡ true)
      × (is_some m.to ≡ true)
      × (is_some m.type ≡ true)
      × (is_some m.priority ≡ true)
      × (is_some m.timestamp ≡ true)
first_missing-none m h = (
  ground (arith, h),
  ground (arith, h),
  ground (arith, h),
  ground (arith, h),
  ground (arith, h),
  ground (arith, h),
)

module _ {P : Type 0} (now : ℕ) (m : AetherMessage P) where
  validate-none : validate now m ≡ none → IsValid now m
  unfolding validate
  validate-none h = elim (Option-cases (first_missing m)) [
    | inr (field, e) ↦ absurd (ground (arith, h, e))
    | inl e ↦
        let there = first_missing-none m e in
        let (from, from_eq) = is_some-value m.from there.1 in
        let (to, to_eq) = is_some-value m.to there.2 in
        let (type, type_eq) = is_some-value m.type there.3 in
        let (priority, priority_eq) = is_some-value m.priority there.4 in
        let (timestamp, timestamp_eq) = is_some-value m.timestamp there.5 in
        let clear : check_addresses from to ≡ none = ground (arith, h, e, from_eq, to_eq) in
        let known : includes valid_types type ≡ true = ground (arith, h, e, type_eq) in
        let recent : is_timely now timestamp ≡ true =
          ground (arith, h, e, from_eq, to_eq, timestamp_eq, clear) in
        record {
          sender = from;
          receiver = to;
          type = type;
          priority = priority;
          timestamp = timestamp;
          has_id = there.0;
          has_from = from_eq;
          has_to = to_eq;
          has_type = type_eq;
          has_priority = priority_eq;
          has_timestamp = timestamp_eq;
          known_type = (includes-IsKnownType type).0 known;
          in_range = (ground (arith, h, e, priority_eq), ground (arith, h, e, priority_eq));
          addresses = (check_addresses-none from to).0 clear;
          timely = (is_timely-IsTimely now timestamp).0 recent;
        }
  ]

  IsValid-validate : IsValid now m → validate now m ≡ none
  unfolding validate
  IsValid-validate v =
      let clear = (check_addresses-none v.sender v.receiver).1 v.addresses in
      let known = (includes-IsKnownType v.type).1 v.known_type in
      let recent = (is_timely-IsTimely now v.timestamp).1 v.timely in
      let whole : first_missing m ≡ none =
        ground
          (arith, v.has_id, v.has_from, v.has_to, v.has_type, v.has_priority, v.has_timestamp) in
      ground (
        arith, whole, clear, v.has_from, v.has_to, v.has_type, v.has_priority, v.has_timestamp,
        known, v.in_range.0, v.in_range.1, recent,
      )

  -- `validate` lets a message pass exactly when it has every required field, a known type, a priority
  -- from 1 to 5, two addresses of 1 to 128 allowed characters as far as they are texts, and a time from
  -- thirty days before to one hour after the clock if it is a number.
  pub validate-IsValid : (validate now m ≡ none) ↔ IsValid now m
  validate-IsValid = (validate-none, IsValid-validate)

has_header-append :
    (magic bytes : List ℕ)
    → has_header magic bytes ≡ true
    → bytes ≡ magic ++ drop (length magic) bytes
has_header-append [] bytes h = refl
has_header-append (b ∷ magic) [] h = absurd (cc h)
has_header-append (b ∷ magic) (c ∷ bytes) h =
    let same : c ≡ b = ground (arith, h) in
    let rest : bytes ≡ magic ++ drop (length magic) bytes =
      has_header-append magic bytes (ground (arith, h)) in
    rw same (ap (◌∷◌ b) rest)

module _ {P : Type 0} (f : Formats P) (now : ℕ) where
  validated-same : (m n : AetherMessage P) → validated f now m ≡ ok n → (m ≡ n) × IsValid now n
  validated-same m n h = elim (Option-cases (validate now m)) [
    | inl passed ↦
        let same : m ≡ n = ground (arith, h, passed) in
        (same, subst (IsValid now) same (validate-none now m passed))
    | inr (e, failed) ↦ absurd (ground (arith, h, failed))
  ]

  decode_payload-IsValid :
      (bytes : List ℕ) (m : AetherMessage P)
      → decode_payload f now bytes ≡ ok m
      → (payload : List ℕ) × (f.decompress bytes ≡ inr payload)
        × (length payload ≤ max_payload)
        × (f.unpack payload ≡ inr m)
        × IsValid now m
  unfolding decode_payload
  decode_payload-IsValid bytes m h = elim (sum-cases (f.decompress bytes)) [
    | inl (e, failed) ↦ absurd (ground (arith, h, failed))
    | inr (payload, inflated) ↦ elim (Bool-cases (ltb max_payload (length payload))) [
      | inl large ↦ absurd (ground (arith, h, inflated, large))
      | inr small ↦ elim (sum-cases (f.unpack payload)) [
        | inl (e, failed) ↦ absurd (ground (arith, h, inflated, small, failed))
        | inr (n, unpacked) ↦
            let (same, valid) = validated-same n m (ground (arith, h, inflated, small, unpacked)) in
            (payload, inflated, ground (arith, small), unpacked ∙ ap inr same, valid)
      ]
    ]
  ]

  -- A message that `decode` returns for bytes is valid, comes from the bytes behind the header, and
  -- those inflate to at most 4 MiB.
  pub decode-IsValid :
      (bytes : List ℕ) (m : AetherMessage P)
      → decode f now (binary bytes) ≡ ok m
      → (rest : List ℕ) × (payload : List ℕ) × (bytes ≡ bap02_magic ++ rest)
        × (f.decompress rest ≡ inr payload)
        × (length payload ≤ max_payload)
        × (f.unpack payload ≡ inr m)
        × IsValid now m
  unfolding decode
  decode-IsValid bytes m h = elim (Bool-cases (ltb (length bytes) 5)) [
    | inl short ↦ absurd (ground (arith, h, short))
    | inr long ↦ elim (Bool-cases (has_header bap02_magic bytes)) [
      | inr strange ↦ absurd (ground (arith, h, long, strange))
      | inl marked ↦
          let rest = drop 5 bytes in
          let (payload, inflated, small, unpacked, valid) =
            decode_payload-IsValid rest m (ground (arith, h, long, marked)) in
          (
            rest,
            payload,
            has_header-append bap02_magic bytes marked,
            inflated,
            small,
            unpacked,
            valid,
          )
    ]
  ]
