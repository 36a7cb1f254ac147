-- ===== src/Codec/Tests.antt =====
-- protocol/codec.ts: tests and examples. The formats keep the numbers of a message and read the other
-- fields back as those of `message`; compressed bytes start with a mark.
use ather.Base.{
  or_else, length, ℕ, ◌≤◌, String, ◌≡◌, refl, ◌↔◌, ◌⊎◌, inl, inr, Option, none, some, List, [], ◌∷◌,
  ◌++◌, arith,
}
use ather.Codec.{
  Loose, declared, foreign, AetherMessage, too_short, invalid_header, ok, threw, binary, Formats,
  is_address, validate, encode, decode, create_message,
}
use ather.Codec.Fields.{AreAddressChars}
use ather.Codec.Validity.{IsValid, validate-IsValid, decode-IsValid}
use ather.Codec.RoundTrip.{decode-encode, decode-create_message}

abbrev message : ℕ → ℕ → ℕ → AetherMessage ℕ
message payload priority timestamp = record {
  id = some "id";
  from = some (declared "worker-1");
  to = some (declared "*");
  type = some "task";
  payload = payload;
  priority = some priority;
  timestamp = some (declared timestamp);
  correlation_id = none;
}

abbrev number_of : Option (Loose ℕ ℕ) → ℕ
number_of (some (declared t)) = t
number_of _ = 0

abbrev unpack_numbers : List ℕ → String ⊎ AetherMessage ℕ
unpack_numbers (a ∷ b ∷ c ∷ []) = inr (message a b c)
unpack_numbers _ = inl "not a message"

abbrev inflate : List ℕ → String ⊎ List ℕ
inflate [] = inl "no mark"
inflate (mark ∷ bytes) = inr bytes

abbrev formats : Formats ℕ
formats = record {
  pack = λ m. m.payload ∷ or_else m.priority 0 ∷ number_of m.timestamp ∷ [];
  unpack = unpack_numbers;
  compress = λ b. 40 ∷ b;
  decompress = inflate;
  parse_hex_json = λ s. inl "no JSON";
}

abbrev now : ℕ
now = 3000000000

abbrev sent : AetherMessage ℕ
sent = message 7 3 2999999000

worker_chars : AreAddressChars "worker-1"
worker_chars = ground arith

star_chars : AreAddressChars "*"
star_chars = ground arith

-- An address that is a number is not looked at.
number_passes : validate now (record sent { from = some (foreign 5) }) ≡ none
unfolding validate
number_passes = refl

abbrev sent_IsValid : IsValid now sent
unfolding is_address
sent_IsValid = record {
  sender = declared "worker-1";
  receiver = declared "*";
  type = "task";
  priority = 3;
  timestamp = declared 2999999000;
  has_id = refl;
  has_from = refl;
  has_to = refl;
  has_type = refl;
  has_priority = refl;
  has_timestamp = refl;
  known_type = inl refl;
  in_range = (omega arith, omega arith);
  addresses = ((worker_chars, omega arith, omega arith), (star_chars, omega arith, omega arith));
  timely = (omega arith, omega arith);
}

rejects_short : decode formats now (binary (0x42 ∷ [])) ≡ threw too_short
unfolding decode
rejects_short = refl

rejects_foreign : decode formats now (binary (1 ∷ 2 ∷ 3 ∷ 4 ∷ 5 ∷ 6 ∷ [])) ≡ threw invalid_header
unfolding decode
rejects_foreign = refl

validate-IsValid_example : (validate now sent ≡ none) ↔ IsValid now sent
validate-IsValid_example = validate-IsValid now sent

decode-encode_example : decode formats now (binary (encode formats sent)) ≡ ok sent
decode-encode_example =
    decode-encode formats now sent (record { inflates = refl; unpacks = refl }) sent_IsValid
      (omega arith)

abbrev created : AetherMessage ℕ
created = record {
  id = some "id";
  from = some (declared "worker-1");
  to = some (declared "*");
  type = some "task";
  payload = 7;
  priority = some 3;
  timestamp = some (declared 2999999000);
  correlation_id = none;
}

created_message_decoded : decode formats now (binary (encode formats created)) ≡ ok created
unfolding is_address create_message
created_message_decoded =
    decode-create_message formats "id" 2999999000 now "worker-1" "*" "task" 7 3 (some "")
      (record { inflates = refl; unpacks = refl }) (worker_chars, omega arith, omega arith)
      (star_chars, omega arith, omega arith) (inl refl) (omega arith, omega arith)
      (omega arith, omega arith) (omega arith)

decoded_message_checked :
    (rest : List ℕ) × (payload : List ℕ) × (encode formats sent
      ≡ (0x42 ∷ 0x41 ∷ 0x50 ∷ 0x30 ∷ 0x32 ∷ []) ++ rest)
    × (formats.decompress rest ≡ inr payload)
    × (length payload ≤ 4194304)
    × (formats.unpack payload ≡ inr sent)
    × IsValid now sent
unfolding decode encode validate
decoded_message_checked = decode-IsValid formats now (encode formats sent) sent refl
