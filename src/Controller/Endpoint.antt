-- ===== src/Controller/Endpoint.antt =====
-- internal/controller/hydracluster_controller.go: the control-plane endpoint of a cluster that declares
-- a managed network. An IPv4 address is its number, so that `bytes.Compare` is the order of numbers; a
-- text that `net.ParseIP` or `net.ParseCIDR` refuses is `none`. Addresses of IPv6 are not modelled.
mod Derived
mod Examples
use cluster_api_provider_hyd.Base.{
  ℕ, suc, ◌+◌, ◌-◌, ◌%◌, Bool, true, false, not, ◌&&◌, ◌||◌, Option, none, some, Eq, ◌==◌, nat_eq,
  ltb, leb, if◌then◌else◌,
}
use cluster_api_provider_hyd.Base.Exec.{Result, ok, err}
use cluster_api_provider_hyd.Providers.Errors.{Error, terminal}

-- A `*net.IPNet`: its first address, and how many there are.
pub record Subnet : Type 0 where
  pub base : ℕ
  pub size : ℕ

pub record HydraManagedNetwork : Type 0 where
  pub subnet : Option Subnet
  pub dhcp_start : Option ℕ
  pub dhcp_end : Option ℕ

abbrev pub max_uint32 : ℕ
max_uint32 = 4294967295

unfoldable pub contains_ip : Subnet → ℕ → Bool
contains_ip s ip = leb s.base ip && ltb ip (s.base + s.size)

-- `gw[3]++`: the last byte wraps.
unfoldable pub gateway_of : Subnet → ℕ
gateway_of s = if s.base % 256 == 255 then s.base - 255 else s.base + 1

unfoldable pub broadcast_of : Subnet → ℕ
broadcast_of s = s.base + s.size - 1

unfoldable pub next_ipv4 : ℕ → Option ℕ
next_ipv4 ip = if ip == max_uint32 then none else some (suc ip)

abbrev pub in_range : ℕ → ℕ → ℕ → Bool
in_range start end ip = leb start ip && leb ip end

-- With the subnet and the bounds of the range.
unfoldable pub check_endpoint : Subnet → ℕ → ℕ → ℕ → Result Error (Unit {0})
check_endpoint s start end endpoint =
    if endpoint == s.base || (endpoint == gateway_of s || endpoint == broadcast_of s)
    then err terminal
    else if in_range start end endpoint
    then err terminal
    else ok tt

abbrev pub check_bounds : Subnet → Option ℕ → Option ℕ → ℕ → Result Error (Unit {0})
check_bounds s (some start) (some end) endpoint = check_endpoint s start end endpoint
check_bounds s a b endpoint = err terminal

abbrev pub check_subnet : Option Subnet → Option ℕ → Option ℕ → ℕ → Result Error (Unit {0})
check_subnet none a b endpoint = err terminal
check_subnet (some s) a b endpoint =
    if not (contains_ip s endpoint) then err terminal else check_bounds s a b endpoint

abbrev pub check_host : HydraManagedNetwork → Option ℕ → Result Error (Unit {0})
check_host n none = ok tt
check_host n (some endpoint) = check_subnet n.subnet n.dhcp_start n.dhcp_end endpoint

-- A host that is no address is not checked.
unfoldable pub validate_endpoint_against_managed_network :
    Option HydraManagedNetwork → Option ℕ → Result Error (Unit {0})
validate_endpoint_against_managed_network none host = ok tt
validate_endpoint_against_managed_network (some n) host = check_host n host

-- The candidate, if it can be used.
unfoldable pub usable : Subnet → Option ℕ → Result Error ℕ
usable s none = err terminal
usable s (some c) = if not (contains_ip s c) || leb (broadcast_of s) c then err terminal else ok c

unfoldable pub candidate_of : Subnet → ℕ → ℕ → Option ℕ
candidate_of s start end =
    let first = next_ipv4 (gateway_of s) in
    elim first [ none ↦ none | some c ↦ (if in_range start end c then next_ipv4 end else some c) ]

abbrev pub derive_between : Subnet → Option ℕ → Option ℕ → Result Error ℕ
derive_between s (some start) (some end) = usable s (candidate_of s start end)
derive_between s a b = err terminal

abbrev pub derive_in : Option Subnet → Option ℕ → Option ℕ → Result Error ℕ
derive_in none a b = err terminal
derive_in (some s) a b = derive_between s a b

unfoldable pub derive_endpoint_host : HydraManagedNetwork → Result Error ℕ
derive_endpoint_host n = derive_in n.subnet n.dhcp_start n.dhcp_end
