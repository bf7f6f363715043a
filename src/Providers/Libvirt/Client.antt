-- ===== src/Providers/Libvirt/Client.antt =====
-- internal/providers/libvirt/libvirt.go: the calls of libvirtd, one for each method of `client`. What
-- libvirtd does is a parameter. Beside it stands the journal of the calls and their answers, the last
-- first, which no code reads: it is what statements about the order of the calls speak of.
pub mod Journal
use cluster_api_provider_hyd.Base.{ℕ, Bool, true, false, Option, none, some, List, [], ◌∷◌, Text}
use cluster_api_provider_hyd.Base.Exec.{Result, ok, err, Exec, pure, raise, ◌>>=◌}
use cluster_api_provider_hyd.Providers.Errors.{Error, other}
use cluster_api_provider_hyd.Providers.Libvirt.Documents.{DomainDef, VolumeDef, PoolDef, NetworkDef}

-- `golibvirt.Domain`, by its UUID's bytes, and the other objects of libvirtd.
pub record Domain : Type 0 where
  pub name : Text
  pub uuid : List ℕ

pub record StoragePool : Type 0 where
  pub name : Text

pub record StorageVol : Type 0 where
  pub pool : Text
  pub name : Text
  pub key : Text

pub record Network : Type 0 where
  pub name : Text

-- libvirt's error numbers that the code looks at, an error that wraps the context's, and the rest.
pub data RpcError : Type 0 where
  no_domain no_storage_vol no_storage_pool no_network storage_vol_exist network_exist : RpcError
  operation_invalid context_done another : RpcError

abbrev pub is_already_exists : RpcError → Bool
is_already_exists storage_vol_exist = true
is_already_exists network_exist = true
is_already_exists e = false

abbrev pub is_not_found : RpcError → Bool
is_not_found no_domain = true
is_not_found no_storage_vol = true
is_not_found no_storage_pool = true
is_not_found no_network = true
is_not_found e = false

abbrev pub is_no_storage_vol : RpcError → Bool
is_no_storage_vol no_storage_vol = true
is_no_storage_vol e = false

abbrev pub is_context_err : RpcError → Bool
is_context_err context_done = true
is_context_err e = false

abbrev pub is_invalid_state : RpcError → Bool
is_invalid_state operation_invalid = true
is_invalid_state e = false

-- Where addresses are asked for: the guest's agent, or the leases of the DHCP server.
pub data AddrSource : Type 0 where
  agent lease : AddrSource

pub data Call : Type 0 where
  domain_lookup_by_name : Text → Call
  domain_lookup_by_uuid : List ℕ → Call
  domain_define_xml : DomainDef → Call
  domain_is_active domain_create domain_destroy domain_undefine domain_get_state : Domain → Call
  domain_get_xml : Domain → Call
  domain_get_inactive_xml : Domain → Call
  domain_set_autostart : Domain → Bool → Call
  domain_interface_addresses : Domain → AddrSource → Call
  list_active_pools list_inactive_pools : Call
  pool_lookup_by_name : Text → Call
  pool_is_active pool_get_xml : StoragePool → Call
  vol_create_xml : StoragePool → VolumeDef → Call
  vol_lookup_by_name : StoragePool → Text → Call
  vol_lookup_by_path : Text → Call
  vol_get_path vol_delete : StorageVol → Call
  vol_upload : StorageVol → Text → Call
  network_lookup_by_name : Text → Call
  network_define_xml : NetworkDef → Call
  network_is_active network_create network_get_xml network_set_autostart : Network → Call

-- The addresses of the interfaces are one list, each with whether it is `isRoutable`. A document that
-- cannot be read is `none`.
abbrev pub Answer : Call → Type 0
Answer (domain_lookup_by_name name) = Domain
Answer (domain_lookup_by_uuid uuid) = Domain
Answer (domain_define_xml def) = Domain
Answer (domain_is_active dom) = ℕ
Answer (domain_create dom) = Unit
Answer (domain_destroy dom) = Unit
Answer (domain_undefine dom) = Unit
Answer (domain_get_state dom) = ℕ
Answer (domain_get_xml dom) = Option DomainDef
Answer (domain_get_inactive_xml dom) = Option DomainDef
Answer (domain_set_autostart dom on) = Unit
Answer (domain_interface_addresses dom source) = List (Text × Bool)
Answer list_active_pools = List StoragePool
Answer list_inactive_pools = List StoragePool
Answer (pool_lookup_by_name name) = StoragePool
Answer (pool_is_active pool) = ℕ
Answer (pool_get_xml pool) = Option PoolDef
Answer (vol_create_xml pool def) = StorageVol
Answer (vol_lookup_by_name pool name) = StorageVol
Answer (vol_lookup_by_path path) = StorageVol
Answer (vol_get_path vol) = Text
Answer (vol_delete vol) = Unit
Answer (vol_upload vol image) = Unit
Answer (network_lookup_by_name name) = Network
Answer (network_define_xml def) = Network
Answer (network_is_active net) = ℕ
Answer (network_create net) = Unit
Answer (network_get_xml net) = Option NetworkDef
Answer (network_set_autostart net) = Unit

-- libvirtd and the connection to it, whose state is an `H`. `rpc` answers `none` where the context
-- ended first; the call may have had its effect.
pub record Client (H : Type 0) : Type 0 where
  pub begin : H → Option Error × H
  pub rpc : (c : Call) → H → Option (Result RpcError (Answer c)) × H
  pub recycle : H → H
  pub context_ended : H → Bool

pub record Event : Type 0 where
  pub call : Call
  pub answer : Result RpcError (Answer call)

pub record Run (H : Type 0) : Type 0 where
  pub host : H
  pub journal : List Event

module _ {H : Type 0} where
  abbrev pub noted : (c : Call) → Result RpcError (Answer c) → H → List Event → Run H
  noted c r h past = record { host = h; journal = record { call = c; answer = r } ∷ past }

  module _ (client : Client H) where
    abbrev pub answered :
        (c : Call)
        → Option (Result RpcError (Answer c)) × H
        → List Event
        → Result Error (Result RpcError (Answer c)) × Run H
    answered c (none, h) past =
        (ok (err context_done), noted c (err context_done) (client.recycle h) past)
    answered c (some r, h) past = (ok r, noted c r h past)

    -- A call, whose error the caller looks at.
    unfoldable pub call : (c : Call) → Exec Error (Run H) (Result RpcError (Answer c))
    call c s = answered c (client.rpc c s.host) s.journal

    -- What a message wraps is no error that a controller tells apart.
    abbrev pub or_other : {A : Type 0} → Result RpcError A → Exec Error (Run H) A
    or_other (ok a) = pure a
    or_other (err e) = raise other

    abbrev pub ask : (c : Call) → Exec Error (Run H) (Answer c)
    ask c = call c >>= or_other

    -- `ctx.Err() != nil`
    unfoldable pub context_over : Exec Error (Run H) Bool
    context_over s = (ok (client.context_ended s.host), s)

    abbrev pub begun : Option Error × H → List Event → Result Error (Unit {0}) × Run H
    begun (none, h) past = (ok tt, record { host = h; journal = past })
    begun (some e, h) past = (err e, record { host = h; journal = past })

    -- The connection is there, or was made again.
    unfoldable pub begin : Exec Error (Run H) (Unit {0})
    begin s = begun (client.begin s.host) s.journal
