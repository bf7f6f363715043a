-- ===== src/Providers/Libvirt/Subnets.antt =====
-- internal/providers/libvirt/libvirt.go: `subnetParts`, with what it takes of Go's net package. A subnet
-- that is not of the form a.b.c.d/n is refused as `net.ParseCIDR` refuses it or as one of IPv6 is; a
-- subnet of IPv4 in the notation of IPv6 is not modelled.
mod Gateways
use cluster_api_provider_hyd.Base.{
  ℕ, zero, suc, ◌+◌, ◌-◌, ◌*◌, ◌/◌, ◌%◌, ◌^◌, Bool, true, false, not, ◌&&◌, Option, none, some,
  List, [], ◌∷◌, ◌++◌, ◌==◌, nat_eq, ltb, leb, if◌then◌else◌, Text,
}
use cluster_api_provider_hyd.Base.Exec.{Result, ok, err}
use cluster_api_provider_hyd.Providers.Errors.{Error, terminal}
use cluster_api_provider_hyd.Providers.Identity.{cut_slash}
use cluster_api_provider_hyd.Providers.Fake.{decimal}

abbrev pub is_digit : ℕ → Bool
is_digit c = leb 48 c && leb c 57

-- A field with one more digit: none begins with a zero, and none is above 255.
abbrev pub one_more : ℕ → Option ℕ → Option ℕ
one_more d none = some d
one_more d (some v) =
    if v == 0 then none else if ltb 255 (v * 10 + d) then none else some (v * 10 + d)

abbrev pub before : Option ℕ → Option (List ℕ) → Option (List ℕ)
before (some v) (some rest) = some (v ∷ rest)
before v rest = none

-- The fields between the dots, where the one being read is `now`.
unfoldable pub fields : Option ℕ → Text → Option (List ℕ)
fields now [] = before now (some [])
fields now (c ∷ s) = elim (is_digit c) [
  | true ↦ elim (one_more (c - 48) now) [ none ↦ none | some v ↦ fields (some v) s ]
  | false ↦ (let rest = fields none s in if c == 46 then before now rest else none)
]

abbrev pub quad : Option (List ℕ) → Option ℕ
quad (some (a ∷ b ∷ c ∷ d ∷ [])) = some (((a * 256 + b) * 256 + c) * 256 + d)
quad other = none

unfoldable pub parse_ipv4 : Text → Option ℕ
parse_ipv4 s = quad (fields none s)

-- The number that the digits from here on end.
unfoldable pub digits : ℕ → Text → Option ℕ
digits n [] = some n
digits n (c ∷ s) = let rest = digits (n * 10 + (c - 48)) s in if is_digit c then rest else none

abbrev pub mask_bits : Text → Option ℕ
mask_bits [] = none
mask_bits (c ∷ s) = elim (digits 0 (c ∷ s)) [
  | none ↦ none
  | some n ↦ (if ltb 32 n then none else some n)
]

-- A `*net.IPNet`: its first address, and the ones of its mask.
pub record Cidr : Type 0 where
  pub base : ℕ
  pub ones : ℕ

abbrev pub hosts : ℕ → ℕ
hosts ones = 2 ^ (32 - ones)

abbrev pub masked : Option ℕ → Option ℕ → Option Cidr
masked (some ip) (some ones) = some (record { base = ip / hosts ones * hosts ones; ones = ones })
masked ip ones = none

unfoldable pub parse_cidr : Text → Option Cidr
parse_cidr s = elim (cut_slash s) [ none ↦ none | some p ↦ masked (parse_ipv4 p.0) (mask_bits p.1) ]

abbrev pub field : ℕ → Text
field n = decimal (suc n) n []

-- `net.IP.String`
unfoldable pub dotted : ℕ → Text
dotted ip =
    field (ip / 16777216 % 256)
    ++ 46 ∷ (field (ip / 65536 % 256) ++ 46 ∷ (field (ip / 256 % 256) ++ 46 ∷ field (ip % 256)))

-- `gw[3]++`: the last byte wraps.
abbrev pub next_byte : ℕ → ℕ
next_byte ip = if ip % 256 == 255 then ip - 255 else ip + 1

-- The gateway and the netmask.
abbrev pub parts_of : Option Cidr → Result Error (Text × Text)
parts_of none = err terminal
parts_of (some net) =
    if ltb (32 - net.ones) 2
    then err terminal
    else ok (dotted (next_byte net.base), dotted (4294967296 - hosts net.ones))

unfoldable pub subnet_parts : Text → Result Error (Text × Text)
subnet_parts cidr = parts_of (parse_cidr cidr)
