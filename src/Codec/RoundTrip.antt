-- ===== src/Codec/RoundTrip.antt =====
-- protocol/codec.ts: `decode` after `encode`.
use ather.Base.{length, ℕ, ◌+◌, ◌*◌, ◌≤◌, String, ◌≡◌, refl, inr, Option, arith}
use ather.Codec.{
  AetherMessage, ok, binary, Formats, max_payload, create_message, decode_payload, encode, decode,
  declared,
}
use ather.Codec.Fields.{IsKnownType, IsAddress}
use ather.Codec.Validity.{IsValid, validate-IsValid}

module _ {P : Type 0} (f : Formats P) where
  -- What zstd and MessagePack document, at one message: each reads back what it has written.
  pub record ReadsBack (m : AetherMessage P) : Type 0 where
    pub inflates : f.decompress (f.compress (f.pack m)) ≡ inr (f.pack m)
    pub unpacks : f.unpack (f.pack m) ≡ inr m

  -- A valid message whose packed form has at most 4 MiB is decoded to itself from its encoding, if the
  -- formats read back what they write.
  pub decode-encode :
      (now : ℕ) (m : AetherMessage P)
      → ReadsBack m
      → IsValid now m
      → length (f.pack m) ≤ max_payload
      → decode f now (binary (encode f m)) ≡ ok m
  unfolding decode decode_payload encode
  decode-encode now m back valid small =
      ground (arith, back.inflates, back.unpacks, (validate-IsValid now m).1 valid)

  -- A message that `create_message` makes for two addresses, a known type and a priority from 1 to 5
  -- is decoded to itself from its encoding at any time from then on, for thirty days.
  pub decode-create_message :
      (uuid : String) (now later : ℕ) (from to type : String) (payload : P) (priority : ℕ)
      (correlation_id : Option String)
      → let m = create_message uuid now from to type payload priority correlation_id in
        ReadsBack m
        → IsAddress from
        → IsAddress to
        → IsKnownType type
        → (1 ≤ priority) × (priority ≤ 5)
        → (now ≤ later) × (later ≤ now + 30 * 86400000)
        → length (f.pack m) ≤ max_payload
        → decode f later (binary (encode f m)) ≡ ok m
  unfolding create_message
  decode-create_message uuid now later from to type payload priority c back h k known range time
        small =
      decode-encode later (create_message uuid now from to type payload priority c) back
        (record {
          sender = declared from;
          receiver = declared to;
          type = type;
          priority = priority;
          timestamp = declared now;
          has_id = refl;
          has_from = refl;
          has_to = refl;
          has_type = refl;
          has_priority = refl;
          has_timestamp = refl;
          known_type = known;
          in_range = range;
          addresses = (h, k);
          timely = (omega (arith, time.0), omega (arith, time.1));
        })
        small
