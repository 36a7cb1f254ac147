-- ===== src/Codec.antt =====
-- protocol/codec.ts: `BAPCodec`. MessagePack, zstd, JSON and the decoding of hex are arguments. A
-- message has the fields of `AetherMessage`, each with its declared type or missing, and an address or
-- a time may be of another type; numbers are natural. Bytes are numbers.
pub mod Fields
pub mod Validity
pub mod RoundTrip
pub mod Tests
use Prim.Native.Char.{code}
use ather.Base.{
  ltb, leb, ◌==◌, ◌===◌, if◌then◌else◌, or_else, is_some, length, drop, includes, strip_prefix, ℕ,
  ◌+◌, ◌-◌, ◌*◌, String, ◌⊎◌, inl, inr, Bool, true, false, ◌&&◌, ◌||◌, not, Option, none, some,
  List, [], ◌∷◌, ◌++◌,
}

-- What unpacking gives for a field: a value of its declared type, or any other one.
pub data Loose (P A : Type 0) : Type 0 where
  declared : A → Loose P A
  foreign : P → Loose P A

-- `AetherMessage`. A text stands for the type, so that a wrong one can be written.
pub record AetherMessage (P : Type 0) : Type 0 where
  pub id : Option String
  pub from : Option (Loose P String)
  pub to : Option (Loose P String)
  pub type : Option String
  pub payload : P
  pub priority : Option ℕ
  pub timestamp : Option (Loose P ℕ)
  pub correlation_id : Option String

-- The errors that `validate` and `decode` throw. The last one is what `JSON.parse` throws.
pub data BapError : Type 0 where
  missing_field exceeds_limit invalid_characters : (field : String) → BapError
  invalid_type : (type : String) → BapError
  invalid_priority : (priority : ℕ) → BapError
  invalid_timestamp invalid_format too_short invalid_header too_large : BapError
  decompression_failed deserialization_failed json_failed : (message : String) → BapError

pub data Decoded (P : Type 0) : Type 0 where
  ok : AetherMessage P → Decoded P
  threw : BapError → Decoded P

-- What `decode` takes: bytes, or a text.
pub data Encoded : Type 0 where
  binary : List ℕ → Encoded
  text : String → Encoded

-- MessagePack, zstd and the reading of hex and JSON. The second part of a sum is the value.
pub record Formats (P : Type 0) : Type 0 where
  pub pack : AetherMessage P → List ℕ
  pub unpack : List ℕ → String ⊎ AetherMessage P
  pub compress : List ℕ → List ℕ
  pub decompress : List ℕ → String ⊎ List ℕ
  pub parse_hex_json : String → String ⊎ AetherMessage P

-- `BAP02_MAGIC` and its length.
abbrev bap02_magic : List ℕ
bap02_magic = 0x42 ∷ 0x41 ∷ 0x50 ∷ 0x30 ∷ 0x32 ∷ []

abbrev bap02_magic_length : ℕ
bap02_magic_length = 5

abbrev legacy_hex_header : String
legacy_hex_header = "4241503031"

abbrev pub max_payload : ℕ
max_payload = 4 * 1024 * 1024

-- `text.length`, in units of UTF-16.
abbrev pub utf16_length : String → ℕ
utf16_length String.[] = 0
utf16_length (String.◌∷◌ c s) = (if ltb (code c) 0x10000 then 1 else 2) + utf16_length s

abbrev within : ℕ → ℕ → ℕ → Bool
within lo hi c = leb lo c && leb c hi

-- One character of `[a-zA-Z0-9._*/-]`.
abbrev pub is_address_char : ℕ → Bool
is_address_char c =
    within b'a' b'z' c
    || within b'A' b'Z' c
    || within b'0' b'9' c
    || c == b'.'
    || c == b'_'
    || c == b'*'
    || c == b'/'
    || c == b'-'

abbrev pub all_address_chars : String → Bool
all_address_chars String.[] = true
all_address_chars (String.◌∷◌ c s) = is_address_char (code c) && all_address_chars s

-- `/^[a-zA-Z0-9._*/-]{1,128}$/.test(text)`.
unfoldable pub is_address : String → Bool
is_address s = all_address_chars s && leb 1 (utf16_length s) && leb (utf16_length s) 128

abbrev pub valid_types : List String
valid_types =
    "task" ∷ "result" ∷ "escalation" ∷ "broadcast" ∷ "heartbeat" ∷ "register" ∷ "query" ∷ []

-- Behind `typeof text === "string"`: more than 128 units, or not of the pattern.
abbrev pub too_long : {P : Type 0} → Loose P String → Bool
too_long (declared s) = ltb 128 (utf16_length s)
too_long (foreign v) = false

abbrev pub malformed : {P : Type 0} → Loose P String → Bool
unfolding is_address
malformed (declared s) = not (is_address s)
malformed (foreign v) = false

-- "Validate field formats".
unfoldable pub check_addresses : {P : Type 0} → Loose P String → Loose P String → Option BapError
unfolding is_address
check_addresses from to =
    if too_long from
    then some (exceeds_limit "from")
    else if too_long to
    then some (exceeds_limit "to")
    else if malformed from
    then some (invalid_characters "from")
    else if malformed to
    then some (invalid_characters "to")
    else none

-- "Validate timestamp is within reasonable range".
abbrev pub is_timely : {P : Type 0} → ℕ → Loose P ℕ → Bool
is_timely now (foreign v) = true
is_timely now (declared timestamp) =
    leb timestamp (now + 3600000) && leb (now - 30 * 86400000) timestamp

-- The loop over the header.
abbrev has_header : List ℕ → List ℕ → Bool
has_header [] bytes = true
has_header (b ∷ magic) [] = false
has_header (b ∷ magic) (c ∷ bytes) = (b == c) && has_header magic bytes

module _ {P : Type 0} where
  -- The loop of `validate` over the required fields.
  abbrev first_missing : AetherMessage P → Option String
  first_missing m =
      if is_some m.id
      then if is_some m.from
        then if is_some m.to
          then if is_some m.type
            then if is_some m.priority
              then if is_some m.timestamp then none else some "timestamp"
              else some "priority"
            else some "type"
          else some "to"
        else some "from"
      else some "id"

  -- `validate`; `none` is that it does not throw.
  unfoldable pub validate : ℕ → AetherMessage P → Option BapError
  unfolding check_addresses
  validate now m = elim (first_missing m) [
    | some field ↦ some (missing_field field)
    | none ↦
        if not (includes valid_types (or_else m.type ""))
        then some (invalid_type (or_else m.type ""))
        else if ltb (or_else m.priority 0) 1 || ltb 5 (or_else m.priority 0)
        then some (invalid_priority (or_else m.priority 0))
        else elim (check_addresses (or_else m.from (declared "")) (or_else m.to (declared ""))) [
          | some e ↦ some e
          | none ↦
              if is_timely now (or_else m.timestamp (declared 0))
              then none
              else some invalid_timestamp
        ]
  ]

  module _ (f : Formats P) where
    -- `encode`.
    unfoldable pub encode : AetherMessage P → List ℕ
    encode m = bap02_magic ++ f.compress (f.pack m)

    -- The message, if `validate` lets it pass.
    abbrev validated : ℕ → AetherMessage P → Decoded P
    validated now m = elim (validate now m) [ some e ↦ threw e | none ↦ ok m ]

    -- `decodeLegacyHex`, behind the header.
    abbrev decode_legacy_hex : ℕ → String → Decoded P
    decode_legacy_hex now hex = elim (f.parse_hex_json hex) [
      | inl e ↦ threw (json_failed e)
      | inr m ↦ validated now m
    ]

    -- The second half of `decode`: the bytes behind the header.
    unfoldable pub decode_payload : ℕ → List ℕ → Decoded P
    decode_payload now compressed = elim (f.decompress compressed) [
      | inl e ↦ threw (decompression_failed e)
      | inr decompressed ↦
          if ltb max_payload (length decompressed)
          then threw too_large
          else elim (f.unpack decompressed) [
            | inl e ↦ threw (deserialization_failed e)
            | inr m ↦ validated now m
          ]
    ]

    -- `decode`, at a time.
    unfoldable pub decode : ℕ → Encoded → Decoded P
    unfolding decode_payload
    decode now (text s) = elim (strip_prefix legacy_hex_header s) [
      | some hex ↦ decode_legacy_hex now hex
      | none ↦ threw invalid_format
    ]
    decode now (binary bytes) =
        if ltb (length bytes) bap02_magic_length
        then threw too_short
        else if not (has_header bap02_magic bytes)
        then threw invalid_header
        else decode_payload now (drop bap02_magic_length bytes)

    -- `isValid`.
    abbrev pub is_valid : ℕ → Encoded → Bool
    is_valid now e = elim (decode now e) [ ok _ ↦ true | threw _ ↦ false ]

  -- `createMessage`, with the new id and the time.
  unfoldable pub create_message :
      String → ℕ → String → String → String → P → ℕ → Option String → AetherMessage P
  create_message uuid now from to type payload priority correlation_id = record {
    id = some uuid;
    from = some (declared from);
    to = some (declared to);
    type = some type;
    payload = payload;
    priority = some priority;
    timestamp = some (declared now);
    correlation_id = elim correlation_id [
      | none ↦ none
      | some c ↦ if c === "" then none else some c
    ];
  }
