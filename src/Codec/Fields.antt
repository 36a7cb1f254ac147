-- ===== src/Codec/Fields.antt =====
-- protocol/codec.ts: what `validate` asks of the fields, in terms of characters and numbers.
use ather.Base.{
  includes, ℕ, ◌+◌, ◌≤◌, String, ◌≡◌, refl, ◌↔◌, ◌⊎◌, inl, inr, true, false, none, arith, eq_iff,
}
use Prim.Native.Char.{code}
use ather.Codec.{
  Loose, declared, foreign, too_long, malformed, is_address_char, all_address_chars, utf16_length,
  is_address, valid_types, is_timely, check_addresses,
}

-- The characters of an address: letters, digits, and the five of `._*/-`.
abbrev IsAddressChar : ℕ → Type 0
IsAddressChar c =
    ((97 ≤ c) × (c ≤ 122))
    ⊎ ((65 ≤ c) × (c ≤ 90))
    ⊎ ((48 ≤ c) × (c ≤ 57))
    ⊎ (c ≡ 46)
    ⊎ (c ≡ 95)
    ⊎ (c ≡ 42)
    ⊎ (c ≡ 47)
    ⊎ (c ≡ 45)

abbrev pub AreAddressChars : String → Type 0
AreAddressChars String.[] = Unit
AreAddressChars (String.◌∷◌ c s) = IsAddressChar (code c) × AreAddressChars s

-- A text that stands for an agent: between 1 and 128 units of UTF-16, of those characters.
abbrev pub IsAddress : String → Type 0
IsAddress s = AreAddressChars s × (1 ≤ utf16_length s) × (utf16_length s ≤ 128)

abbrev pub IsKnownType : String → Type 0
IsKnownType t =
    (t ≡ "task")
    ⊎ (t ≡ "result")
    ⊎ (t ≡ "escalation")
    ⊎ (t ≡ "broadcast")
    ⊎ (t ≡ "heartbeat")
    ⊎ (t ≡ "register")
    ⊎ (t ≡ "query")

-- From thirty days before the clock to one hour after it, in milliseconds.
abbrev pub IsTimely : ℕ → ℕ → Type 0
IsTimely now t = (t ≤ now + 3600000) × (now ≤ t + 2592000000)

-- A condition on the values of the declared type.
abbrev pub IfDeclared : {P A : Type 0} → (A → Type 0) → Loose P A → Type 0
IfDeclared Q (declared a) = Q a
IfDeclared Q (foreign v) = Unit

is_address_char-IsAddressChar : (c : ℕ) → (is_address_char c ≡ true) ↔ IsAddressChar c
is_address_char-IsAddressChar c = (λ h. ground (arith, h), λ h. ground (arith, h))

all_address_chars-AreAddressChars : (s : String) → (all_address_chars s ≡ true) ↔ AreAddressChars s
all_address_chars-AreAddressChars String.[] = (λ h. tt, λ h. refl)
all_address_chars-AreAddressChars (String.◌∷◌ c s) =
    let one = is_address_char-IsAddressChar (code c) in
    let more = all_address_chars-AreAddressChars s in
    (
      λ h. (one.0 (ground (arith, h)), more.0 (ground (arith, h))),
      λ h.
          let here : is_address_char (code c) ≡ true = one.1 h.0 in
          let rest : all_address_chars s ≡ true = more.1 h.1 in rw (here, rest) refl,
    )

is_address-IsAddress : (s : String) → (is_address s ≡ true) ↔ IsAddress s
unfolding is_address
is_address-IsAddress s =
    let chars = all_address_chars-AreAddressChars s in
    (
      λ h. (chars.0 (ground (arith, h)), ground (arith, h), ground (arith, h)),
      λ h. let fit = chars.1 h.0 in ground (arith, fit, h.1, h.2),
    )

pub includes-IsKnownType : (t : String) → (includes valid_types t ≡ true) ↔ IsKnownType t
includes-IsKnownType t = (
  λ h. ground (
    arith,
    h,
    eq_iff "task" t,
    eq_iff "result" t,
    eq_iff "escalation" t,
    eq_iff "broadcast" t,
    eq_iff "heartbeat" t,
    eq_iff "register" t,
    eq_iff "query" t,
  ),
  λ h. elim h [
    | inl e ↦ rw e refl
    | inr (inl e) ↦ rw e refl
    | inr (inr (inl e)) ↦ rw e refl
    | inr (inr (inr (inl e))) ↦ rw e refl
    | inr (inr (inr (inr (inl e)))) ↦ rw e refl
    | inr (inr (inr (inr (inr (inl e))))) ↦ rw e refl
    | inr (inr (inr (inr (inr (inr e))))) ↦ rw e refl
  ],
)

module _ {P : Type 0} where
  pub is_timely-IsTimely :
      (now : ℕ) (t : Loose P ℕ) → (is_timely now t ≡ true) ↔ IfDeclared (IsTimely now) t
  is_timely-IsTimely now (foreign v) = (λ h. tt, λ h. refl)
  is_timely-IsTimely now (declared t) =
      (λ h. (ground (arith, h), ground (arith, h)), λ h. ground (arith, h.0, h.1))

  malformed-IsAddress : (a : Loose P String) → (malformed a ≡ false) ↔ IfDeclared IsAddress a
  unfolding is_address
  malformed-IsAddress (foreign v) = (λ h. tt, λ h. refl)
  malformed-IsAddress (declared s) =
      let fit = is_address-IsAddress s in
      (λ h. fit.0 (ground (arith, h)), λ h. let yes_it = fit.1 h in ground (arith, yes_it))

  too_long-IsAddress : (a : Loose P String) → IfDeclared IsAddress a → too_long a ≡ false
  too_long-IsAddress (foreign v) h = refl
  too_long-IsAddress (declared s) h = ground (arith, h.2)

  pub check_addresses-none :
      (from to : Loose P String)
      → (check_addresses from to ≡ none) ↔ (IfDeclared IsAddress from × IfDeclared IsAddress to)
  unfolding check_addresses
  check_addresses-none from to = (
    λ h. (
      (malformed-IsAddress from).0 (ground (arith, h)),
      (malformed-IsAddress to).0 (ground (arith, h)),
    ),
    λ h.
        rw
          (
            too_long-IsAddress from h.0,
            too_long-IsAddress to h.1,
            (malformed-IsAddress from).1 h.0,
            (malformed-IsAddress to).1 h.1,
          )
          refl,
  )
