-- ===== src/Providers/Libvirt/Uuids.antt =====
-- internal/providers/libvirt/xml.go: a domain's UUID, which is 16 bytes, as the text of a providerID.
pub mod Trip
use cluster_api_provider_hyd.Base.{
  ℕ, ◌+◌, ◌-◌, ◌*◌, ◌/◌, ◌%◌, Bool, true, false, not, ◌&&◌, Option, none, some, List, [], ◌∷◌, ◌++◌,
  ◌==◌, nat_eq, ltb, leb, if◌then◌else◌, length, take, drop, Text,
}

abbrev pub dash : ℕ
dash = 45

abbrev pub hex_digit : ℕ → ℕ
hex_digit n = if ltb n 10 then 48 + n else 87 + n

-- `hex.EncodeToString`
unfoldable pub encode : List ℕ → Text
encode [] = []
encode (b ∷ rest) = hex_digit (b / 16) ∷ hex_digit (b % 16) ∷ encode rest

abbrev pub within : ℕ → ℕ → ℕ → Bool
within low high c = leb low c && leb c high

abbrev pub hex_value : ℕ → Option ℕ
hex_value c =
    if within 48 57 c
    then some (c - 48)
    else if within 97 102 c
    then some (c - 87)
    else if within 65 70 c
    then some (c - 55)
    else none

abbrev pub with_byte : Option ℕ → Option ℕ → Option (List ℕ) → Option (List ℕ)
with_byte (some a) (some b) (some rest) = some ((a * 16 + b) ∷ rest)
with_byte a b rest = none

-- `hex.DecodeString`
unfoldable pub decode : Text → Option (List ℕ)
decode [] = some []
decode (c ∷ []) = none
decode (c ∷ d ∷ rest) = with_byte (hex_value c) (hex_value d) (decode rest)

-- `strings.ReplaceAll(s, "-", "")`
unfoldable pub strip : Text → Text
strip [] = []
strip (c ∷ s) = let rest = strip s in if c == dash then rest else c ∷ rest

abbrev pub slice : ℕ → ℕ → Text → Text
slice from to h = take (to - from) (drop from h)

unfoldable pub format_uuid : List ℕ → Text
format_uuid u =
    let h = encode u in
    slice 0 8 h
    ++ dash
      ∷ (slice 8 12 h ++ dash ∷ (slice 12 16 h ++ dash ∷ (slice 16 20 h ++ dash ∷ slice 20 32 h)))

abbrev pub decode_long : Text → Option (List ℕ)
decode_long stripped = if not (length stripped == 32) then none else decode stripped

unfoldable pub parse_uuid : Text → Option (List ℕ)
parse_uuid s = decode_long (strip s)
