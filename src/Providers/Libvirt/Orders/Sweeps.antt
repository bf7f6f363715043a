-- ===== src/Providers/Libvirt/Orders/Sweeps.antt =====
-- internal/providers/libvirt/libvirt.go: what a deletion by name that succeeded has done.
use cluster_api_provider_hyd.Base.{
  arith, Bool, true, false, ◌||◌, List, [], ◌∷◌, ◌≡◌, refl, Text, ◌⊎◌, inl, inr, Bool-cases,
  if_cases, ◌==◌, list_eq, nat_eq, list_beq_iff,
}
use cluster_api_provider_hyd.Base.Exec.{
  Result, ok, err, Exec, pure, raise, ◌>>=◌, Keeps, Post, Post-continue, Triple, Triple-bind,
  Triple-if,
}
use cluster_api_provider_hyd.Providers.Errors.{Error}
use cluster_api_provider_hyd.Providers.Identity.{is_empty}
use cluster_api_provider_hyd.Providers.Libvirt.Volumes.{unless_gone, tolerate}
use cluster_api_provider_hyd.Providers.Libvirt.Deleting.{
  searched, sweep, own_pool_absent, check_swept, log_stopped, delete_volume_any_pool,
}
use cluster_api_provider_hyd.Providers.Libvirt.Client.{
  Client, Run, Call, Event, StoragePool, StorageVol, RpcError, is_not_found, is_no_storage_vol,
  is_context_err, call, ask, noted, list_active_pools, list_inactive_pools, pool_lookup_by_name,
  vol_lookup_by_name, vol_delete,
}
use cluster_api_provider_hyd.Providers.Libvirt.Client.Journal.{Logged, Post-then, Keeps-call}
use cluster_api_provider_hyd.Providers.Libvirt.Orders.{event}

-- The volume is not in the pool of the name: it was deleted there or was gone, it was not found there, or
-- there is no such pool.
pub data Absent (name own : Text) : List Event → Type 0 where
  deleted :
      (pool : StoragePool) (vol : StorageVol) (past : List Event)
      → pool.name ≡ own
      → Absent name own
          (event (vol_delete vol) (ok tt) ∷ event (vol_lookup_by_name pool name) (ok vol) ∷ past)
  gone :
      (pool : StoragePool) (vol : StorageVol) (e : RpcError) (past : List Event)
      → pool.name ≡ own
      → is_not_found e ≡ true
      → Absent name own
          (event (vol_delete vol) (err e) ∷ event (vol_lookup_by_name pool name) (ok vol) ∷ past)
  not_there :
      (pool : StoragePool) (e : RpcError) (past : List Event)
      → pool.name ≡ own
      → is_no_storage_vol e ≡ true
      → Absent name own (event (vol_lookup_by_name pool name) (err e) ∷ past)
  no_pool :
      (e : RpcError) (past : List Event)
      → is_not_found e ≡ true
      → Absent name own (event (pool_lookup_by_name own) (err e) ∷ past)
  before : (e : Event) (past : List Event) → Absent name own past → Absent name own (e ∷ past)

-- Where the pool was searched, it does not have the volume.
abbrev Searched : Text → Text → Bool → List Event → Type 0
Searched name own swept past = swept ≡ true → Absent name own past

abbrev pub Anything : {H : Type 0} → Run H → Type 0
Anything s = Unit

module _ {H : Type 0} where
  pub tolerate-Post :
      (Q : Unit {0} → Run H → Type 0) (fine : Bool) (s : Run H)
      → (fine ≡ true → Q tt s)
      → Post Q Anything (tolerate fine s)
  unfolding pure raise
  tolerate-Post Q true s good = good refl
  tolerate-Post Q false s good = tt

pub Post-any : {H A : Type 0} (r : Result Error A × Run H) → Post (λ _. Anything) Anything r
Post-any (ok a, s) = tt
Post-any (err e, s) = tt

module _ {H : Type 0} (client : Client H) (name own : Text) where
  -- What was searched before stays so.
  Searched-call :
      (swept : Bool) (c : Call) → Keeps (Logged client (Searched name own swept)) (call client c)
  Searched-call swept c =
      Keeps-call client (Searched name own swept) c λ r past kept is. before _ past (kept is)

  Searched-or :
      (swept same : Bool) (past : List Event)
      → Searched name own swept past
      → (same ≡ true → Absent name own past)
      → Searched name own (swept || same) past
  Searched-or true same past kept found = kept
  Searched-or false same past kept found = found

  abbrev Hit : Bool → Bool → Run H → Type 0
  Hit swept hit s = Searched name own (swept || hit) s.journal

  deletion-Post :
      (pool : StoragePool) (vol : StorageVol) (swept : Bool) (past : List Event)
      (r : Result RpcError Unit) (g : H)
      → Searched name own swept past
      → Post
          (λ _. Hit swept (pool.name == own))
          Anything
          (unless_gone r
            (noted (vol_delete vol) r g (event (vol_lookup_by_name pool name) (ok vol) ∷ past)))
  unfolding pure
  deletion-Post pool vol swept past (ok done) g kept =
      Searched-or swept (pool.name == own) _ (λ is. before _ _ (before _ past (kept is)))
        λ same. deleted pool vol past ((list_beq_iff pool.name own).0 same)
  deletion-Post pool vol swept past (err e) g kept =
      tolerate-Post (λ _. Hit swept (pool.name == own)) (is_not_found e) _
        λ absent.
          Searched-or swept (pool.name == own) _ (λ is. before _ _ (before _ past (kept is)))
            λ same. gone pool vol e past ((list_beq_iff pool.name own).0 same) absent

  missing-Post :
      (pool : StoragePool) (swept : Bool) (e : RpcError) (h : H) (past : List Event)
      → Searched name own swept past
      → Post
          (Hit swept)
          Anything
          (searched client pool own (err e) (noted (vol_lookup_by_name pool name) (err e) h past))
  unfolding pure raise
  missing-Post pool swept e h past kept =
      let now : Searched name own swept (event (vol_lookup_by_name pool name) (err e) ∷ past) =
        λ is. before _ past (kept is) in
      elim (Bool-cases (is_no_storage_vol e)) [
        | inl absent ↦ rw absent (
            Searched-or swept (pool.name == own) _ now
              λ same. not_there pool e past ((list_beq_iff pool.name own).0 same) absent)
        | inr present ↦ elim (Bool-cases (is_not_found e)) [
          | inl skipped ↦ rw (present, skipped) (Searched-or swept false _ now λ is. ground arith)
          | inr failed ↦ rw (present, failed) tt
        ]
      ]

  searched-Post :
      (pool : StoragePool) (swept : Bool) (r : Result RpcError StorageVol) (h : H)
      (past : List Event)
      → Searched name own swept past
      → Post
          (Hit swept)
          Anything
          (searched client pool own r (noted (vol_lookup_by_name pool name) r h past))
  unfolding pure ◌>>=◌
  searched-Post pool swept (ok vol) h past kept =
      Post-continue {Q = λ _. Hit swept (pool.name == own)}
        ((call client (vol_delete vol) >>= unless_gone)
          (noted (vol_lookup_by_name pool name) (ok vol) h past))
        (λ _. pure (pool.name == own)) (λ _. record { at = λ s hit. hit })
        (Post-then client (λ _. Hit swept (pool.name == own)) Anything (vol_delete vol) unless_gone
          _ λ r g. deletion-Post pool vol swept past r g kept)
  searched-Post pool swept (err e) h past kept = missing-Post pool swept e h past kept

  sweep-Triple :
      (pools : List StoragePool) (swept : Bool)
      → Triple
          (Logged client (Searched name own swept))
          (sweep client name own pools swept)
          (λ hit. Logged client (Searched name own hit))
          Anything
  unfolding sweep pure
  sweep-Triple [] swept = record { at = λ s kept. kept }
  sweep-Triple (pool ∷ pools) swept =
      Triple-bind (call client (vol_lookup_by_name pool name) >>= searched client pool own) _
        (record {
          at = λ s kept.
              Post-then client (Hit swept) Anything (vol_lookup_by_name pool name)
                (searched client pool own) s λ r h. searched-Post pool swept r h s.journal kept;
        })
        λ hit. sweep-Triple pools (swept || hit)

  -- No pool is the machine's, or the volume is not in it.
  abbrev pub Cleared : List Event → Type 0
  Cleared past = (is_empty own ≡ true) ⊎ Absent name own past

  pub Cleared-later : (e : Event) (past : List Event) → Cleared past → Cleared (e ∷ past)
  Cleared-later e past (inl blank) = inl blank
  Cleared-later e past (inr absent) = inr (before e past absent)

  absent-Post :
      (r : Result RpcError StoragePool) (h : H) (past : List Event)
      → Post
          (λ _. Logged client Cleared)
          Anything
          (own_pool_absent client r (noted (pool_lookup_by_name own) r h past))
  unfolding raise
  absent-Post (ok pool) h past = tt
  absent-Post (err e) h past =
      tolerate-Post (λ _. Logged client Cleared) (is_not_found e) _
        λ absent. inr (no_pool e past absent)

  own_cases :
      (swept : Bool) (past : List Event)
      → (is_empty own || swept) ≡ true
      → Searched name own swept past
      → Cleared past
  own_cases swept past is kept = elim (Bool-cases (is_empty own)) [
    | inl blank ↦ inl blank
    | inr full ↦ inr (kept (ground arith))
  ]

  check_swept-Triple :
      (swept : Bool)
      → Triple
          (Logged client (Searched name own swept))
          (check_swept client own swept)
          (λ _. Logged client Cleared)
          Anything
  unfolding pure
  check_swept-Triple swept =
      Triple-if (is_empty own || swept)
        (λ is. record { at = λ s kept. own_cases swept s.journal is kept })
        λ _. record {
          at = λ s kept.
              Post-then client (λ _. Logged client Cleared) Anything (pool_lookup_by_name own)
                (own_pool_absent client) s λ r h. absent-Post r h s.journal;
        }

  log_stopped-Post :
      (r : Result RpcError (List StoragePool)) (h : H) (past : List Event)
      → Cleared past
      → Post
          (λ _. Logged client Cleared)
          Anything
          (log_stopped client r (noted list_inactive_pools r h past))
  unfolding raise pure
  log_stopped-Post (ok stopped) h past cleared = Cleared-later _ past cleared
  log_stopped-Post (err e) h past cleared =
      if_cases
        (λ (m : Exec Error (Run H) (Unit {0})).
          Post (λ _. Logged client Cleared) Anything (m (noted list_inactive_pools (err e) h past)))
        (is_context_err e) (λ _. tt) λ _. Cleared-later _ past cleared

  pub delete_volume_any_pool-Triple :
      {P : Run H → Type 0}
      → Triple P (delete_volume_any_pool client name own) (λ _. Logged client Cleared) Anything
  unfolding delete_volume_any_pool
  delete_volume_any_pool-Triple {P} =
      Triple-bind {P = P} {Q = λ pools s. Unit} (ask client list_active_pools) _
        (record { at = λ s h. Post-any (ask client list_active_pools s) })
        λ pools.
          Triple-bind _ _
            (Triple-bind _ _
              (record { at = λ s h. (sweep-Triple pools false).at s λ is. ground arith })
              check_swept-Triple)
            λ _. record {
              at = λ s cleared.
                  Post-then client (λ _. Logged client Cleared) Anything list_inactive_pools
                    (log_stopped client) s λ r h. log_stopped-Post r h s.journal cleared;
            }
