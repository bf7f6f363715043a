-- ===== src/Providers/Pool/Frames.antt =====
-- internal/providers/pool.go: what the bookkeeping of Gets in flight leaves alone.
use cluster_api_provider_hyd.Base.{◌≡◌, arith}
use cluster_api_provider_hyd.Providers.Pool.{Owner, owner_eq, Pool}
use cluster_api_provider_hyd.Providers.Pool.Calls.{Ticket, start_get, end_get, note_release}

-- Only `getting`, `gets` and `next_id` may differ.
pub record Frame (p q : Pool) : Type 0 where
  pub conns : q.conns ≡ p.conns
  pub owners : q.owners ≡ p.owners
  pub labels : q.labels ≡ p.labels
  pub closed : q.closed ≡ p.closed
  pub closes : q.closes ≡ p.closes
  pub label_limit : q.label_limit ≡ p.label_limit
  pub gauge_ups : q.gauge_ups ≡ p.gauge_ups
  pub gauge_downs : q.gauge_downs ≡ p.gauge_downs
  pub lost : q.lost ≡ p.lost
  pub detached : q.detached ≡ p.detached

pub start_get-Frame : (p : Pool) (owner : Owner) → Frame p (start_get p owner).2
unfolding start_get
start_get-Frame p owner = ground arith

pub end_get-Frame : (p : Pool) (t : Ticket) → Frame p (end_get p t).1
unfolding end_get
end_get-Frame p t = ground arith

pub note_release-Frame : (p : Pool) (owner : Owner) → Frame p (note_release p owner)
unfolding note_release
note_release-Frame p owner = ground arith
