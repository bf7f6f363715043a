-- ===== src/Providers/Libvirt/Transport.antt =====
-- internal/providers/libvirt/transport.go: the dialer that remembers the socket it handed out. Sockets are
-- numbered in the order in which they arrive.
use cluster_api_provider_hyd.Base.{
  ℕ, Bool, true, false, Option, none, some, List, ◌∷◌, nat_eq, contains,
}

-- `dead` has the sockets that are marked dead.
pub record TrackingDialer : Type 0 where
  pub conn : Option ℕ
  pub last : Option ℕ
  pub abandoned : Bool
  pub dead : List ℕ

abbrev marked : Option ℕ → List ℕ → List ℕ
marked none dead = dead
marked (some s) dead = s ∷ dead

-- What is detached is `conn`, for the caller to close.
unfoldable pub detach : TrackingDialer → TrackingDialer
detach d = record d { conn = none; dead = marked d.conn d.dead }

unfoldable pub begin_attempt : TrackingDialer → TrackingDialer
begin_attempt d = detach (record d { abandoned = false })

unfoldable pub abandon_attempt : TrackingDialer → TrackingDialer
abandon_attempt d = detach (record d { abandoned = true })

unfoldable pub socket_lost : TrackingDialer → Bool
socket_lost d = elim d.last [ none ↦ false | some s ↦ contains s d.dead ]

-- A socket that the inner dialer returned and that nobody has given up on.
unfoldable pub register : ℕ → TrackingDialer → TrackingDialer
register s d = record d { conn = some s; last = some s }
