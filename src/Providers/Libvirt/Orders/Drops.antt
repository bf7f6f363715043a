-- ===== src/Providers/Libvirt/Orders/Drops.antt =====
-- internal/providers/libvirt/libvirt.go: what the rollback of a machine's volumes asks of libvirtd.
use cluster_api_provider_hyd.Base.{true, false, List, ◌∷◌, ◌≡◌, Text, if_cases}
use cluster_api_provider_hyd.Base.Exec.{
  Result, ok, err, Exec, pure, raise, attempt, ◌>>=◌, Post, Triple, Triple-bind, Triple-kept,
  Triple-if, Triple-raise, Triple-attempt, Post-map,
}
use cluster_api_provider_hyd.Providers.Errors.{Error, terminal, other}
use cluster_api_provider_hyd.Providers.Identity.{is_empty}
use cluster_api_provider_hyd.Providers.Libvirt.Domains.{found_or}
use cluster_api_provider_hyd.Providers.Libvirt.Volumes.{
  Config, ignore, tolerate, unless_gone, delete_looked_up, lookup_pool_named, delete_volume,
}
use cluster_api_provider_hyd.Providers.Libvirt.Creating.{rollback}
use cluster_api_provider_hyd.Providers.Libvirt.Client.{
  Client, Run, Event, StoragePool, StorageVol, RpcError, is_not_found, call, noted,
  pool_lookup_by_name, vol_lookup_by_name, vol_delete,
}
use cluster_api_provider_hyd.Providers.Libvirt.Client.Journal.{Logged, Post-then}
use cluster_api_provider_hyd.Providers.Libvirt.Orders.{event}
use cluster_api_provider_hyd.Providers.Libvirt.Orders.Volumes.{tolerate-Keeps, unless_gone-Keeps}

-- The last calls were those that delete the volume of the name in the pool, up to the first that failed:
-- the pool's lookup, the volume's, and its deletion. Before them, the journal was as `before` says.
pub data Tried (before : List Event → Type 0) (pool name : Text) : List Event → Type 0 where
  deleted :
      (found : StoragePool) (vol : StorageVol) (r : Result RpcError Unit) (past : List Event)
      → before past
      → Tried before pool name (
          event (vol_delete vol) r
          ∷ event (vol_lookup_by_name found name) (ok vol)
          ∷ event (pool_lookup_by_name pool) (ok found)
          ∷ past)
  no_volume :
      (found : StoragePool) (e : RpcError) (past : List Event)
      → before past
      → Tried before pool name (
          event (vol_lookup_by_name found name) (err e)
          ∷ event (pool_lookup_by_name pool) (ok found)
          ∷ past)
  no_pool :
      (e : RpcError) (past : List Event)
      → before past
      → Tried before pool name (event (pool_lookup_by_name pool) (err e) ∷ past)

-- The last call found the pool.
data PoolFound (before : List Event → Type 0) (pool : Text) (found : StoragePool)
    : List Event → Type 0 where
  answered :
      (past : List Event)
      → before past
      → PoolFound before pool found (event (pool_lookup_by_name pool) (ok found) ∷ past)

module _ {H : Type 0} (client : Client H) (config : Config) (before : List Event → Type 0)
    (pool name : Text) where
  abbrev Done : Run H → Type 0
  Done = Logged client (Tried before pool name)

  gone-Post :
      (r : Result RpcError Unit) (s : Run H) → Done s → Post (λ _. Done) Done (unless_gone r s)
  gone-Post r s h =
      (Triple-kept (unless_gone r) (unless_gone-Keeps Done r) (λ _ s h. h) λ s h. h).at s h

  looked_up-Post :
      (found : StoragePool) (r : Result RpcError StorageVol) (h : H) (past : List Event)
      → PoolFound before pool found past
      → Post
          (λ _. Done)
          Done
          (delete_looked_up client r (noted (vol_lookup_by_name found name) r h past))
  looked_up-Post found (ok vol) h past (answered rest b) =
      Post-then client (λ _. Done) Done (vol_delete vol) unless_gone _
        λ r g. gone-Post r _ (deleted found vol r rest b)
  looked_up-Post found (err e) h past (answered rest b) =
      (Triple-kept (tolerate (is_not_found e)) (tolerate-Keeps Done (is_not_found e)) (λ _ s h. h)
          λ s h. h).at
        _ (no_volume found e rest b)

  pool-Post :
      (r : Result RpcError StoragePool) (h : H) (past : List Event)
      → before past
      → Post
          (λ found. Logged client (PoolFound before pool found))
          Done
          (found_or client terminal r (noted (pool_lookup_by_name pool) r h past))
  unfolding pure raise
  pool-Post (ok found) h past b = answered past b
  pool-Post (err e) h past b =
      if_cases
        (λ (m : Exec Error (Run H) StoragePool).
          Post (λ found. Logged client (PoolFound before pool found)) Done
            (m (noted (pool_lookup_by_name pool) (err e) h past)))
        (is_not_found e) (λ _. no_pool e past b) λ _. no_pool e past b

  lookup_pool_named-Triple :
      is_empty pool ≡ false
      → Triple
          (Logged client before)
          (lookup_pool_named client config pool)
          (λ found. Logged client (PoolFound before pool found))
          Done
  unfolding lookup_pool_named
  lookup_pool_named-Triple named =
      rw (named, named)
        (record {
          at = λ s b.
              Post-then client (λ found. Logged client (PoolFound before pool found)) Done
                (pool_lookup_by_name pool) (found_or client terminal) s
                λ r h. pool-Post r h s.journal b;
        })

  delete_volume-Triple :
      is_empty pool ≡ false
      → Triple (Logged client before) (delete_volume client config pool name) (λ _. Done) Done
  unfolding delete_volume
  delete_volume-Triple named =
      Triple-bind (attempt (lookup_pool_named client config pool)) _
        (Triple-attempt Done _ (lookup_pool_named-Triple named)) found-Triple
    where
      found-Triple :
          (r : Result Error StoragePool)
          → Triple
              (λ s. Post (λ found. Logged client (PoolFound before pool found)) Done (r, s))
              (elim r [
                | err e ↦ raise other
                | ok found ↦ call client (vol_lookup_by_name found name) >>= delete_looked_up client
              ])
              (λ _. Done)
              Done
      found-Triple (ok found) = record {
        at = λ s h.
            Post-then client (λ _. Done) Done (vol_lookup_by_name found name)
              (delete_looked_up client) s λ r g. looked_up-Post found r g s.journal h;
      }
      found-Triple (err e) = Triple-raise other λ s h. h

-- Both volumes were tried, the second if the machine has one, and nothing else was asked.
pub data RolledBack (before : List Event → Type 0) (pool root cidata : Text) (journal : List Event)
    : Type 0 where
  one :
      is_empty cidata ≡ true
      → Tried before pool root journal
      → RolledBack before pool root cidata journal
  both :
      is_empty cidata ≡ false
      → Tried (Tried before pool root) pool cidata journal
      → RolledBack before pool root cidata journal

module _ {H : Type 0} (client : Client H) (config : Config) where
  ignore-Triple :
      {P Q T : Run H → Type 0} (m : Exec Error (Run H) (Unit {0}))
      → Triple P m (λ _. Q) Q
      → Triple P (ignore m) (λ _. Q) T
  unfolding pure
  ignore-Triple {P} {Q} {T} m t =
      Triple-bind (attempt m) _ (Triple-attempt T m t) λ r. record { at = λ s h. passed r s h }
    where
      passed :
          (r : Result Error (Unit {0})) (s : Run H)
          → Post (λ _. Q) Q (r, s)
          → Post (λ _. Q) T (pure {E = Error} tt s)
      passed (ok done) s h = h
      passed (err e) s h = h

  pub rollback-Triple :
      {T : Run H → Type 0} (before : List Event → Type 0) (pool : StoragePool) (root cidata : Text)
      → is_empty pool.name ≡ false
      → Triple
          (Logged client before)
          (rollback client config pool root cidata)
          (λ _. Logged client (RolledBack before pool.name root cidata))
          T
  unfolding rollback pure
  rollback-Triple before pool root cidata named =
      Triple-bind (ignore (delete_volume client config pool.name root)) _
        (ignore-Triple _ (delete_volume-Triple client config before pool.name root named))
        λ _.
          Triple-if (is_empty cidata) (λ absent. record { at = λ s h. one absent h })
            λ present. record {
              at = λ s h.
                  Post-map _ (ignore (delete_volume client config pool.name cidata) s)
                    (λ _ t d. both present d)
                    ((ignore-Triple _ (
                        delete_volume-Triple client config (Tried before pool.name root) pool.name
                          cidata named)).at
                      s h);
            }
