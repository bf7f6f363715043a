-- ===== src/Providers/Libvirt/Orders/Creating.antt =====
-- internal/providers/libvirt/libvirt.go: what making a machine keeps.
use cluster_api_provider_hyd.Base.{
  true, false, Option, none, some, arith, List, [], ◌≡◌, refl, Text,
}
use cluster_api_provider_hyd.Base.Exec.{
  Result, ok, err, Exec, attempt, ◌>>=◌, Keeps, Keeps-pure, Keeps-raise, Keeps-bind, Keeps-if,
  Keeps-result, Keeps-attempt,
}
use cluster_api_provider_hyd.Base.Exec.Yields.{
  Each, Yields, Yields-pure, Yields-raise, Yields-if, Yields-attempt, Yields-bind, Yields-any,
  Keeps-bind-Yields,
}
use cluster_api_provider_hyd.Providers.Errors.{Error, terminal, other}
use cluster_api_provider_hyd.Providers.Identity.{is_empty, ManagedNetwork, MachineSpec}
use cluster_api_provider_hyd.Providers.Libvirt.Documents.{domain_xml, volume_xml}
use cluster_api_provider_hyd.Providers.Libvirt.Domains.{ensure_running}
use cluster_api_provider_hyd.Providers.Libvirt.Networks.{resolve_network}
use cluster_api_provider_hyd.Providers.Libvirt.Volumes.{
  Config, IsoError, invalid, unwritten, uploaded, rendered, ignore, is_owned, root_volume_name,
  cidata_volume_name, delete_volume, ensure_cloud_init_volume,
}
use cluster_api_provider_hyd.Providers.Libvirt.Creating.{
  rollback, settled, or_rollback, cidata_path_of, networked, define, start_and_report,
  unless_existing, imaged, make, create,
}
use cluster_api_provider_hyd.Providers.Libvirt.Client.{
  Client, Run, Event, Domain, StoragePool, StorageVol, RpcError, is_not_found, is_already_exists,
  call, begin, domain_lookup_by_name, domain_define_xml, vol_create_xml,
}
use cluster_api_provider_hyd.Providers.Libvirt.Client.Journal.{Logged, Keeps-begin}
use cluster_api_provider_hyd.Providers.Libvirt.Orders.{Frees, Rules}
use cluster_api_provider_hyd.Providers.Libvirt.Orders.Domains.{
  Keeps-free, Keeps-ask_free, ensure_running-Keeps, state_of-Keeps,
}
use cluster_api_provider_hyd.Providers.Libvirt.Orders.Networks.{attachable_network-Keeps}
use cluster_api_provider_hyd.Providers.Libvirt.Orders.Volumes.{
  root-is_owned, cidata-is_owned, tolerate-Keeps, ignore-Keeps, lookup_pool_named-Keeps,
  volume_path-Keeps, resolve_backing_path-Keeps, delete_volume-Keeps,
  ensure_cloud_init_volume-Keeps,
}

module _ {H : Type 0} (client : Client H) (config : Config) {P : List Event → Type 0}
    (frees : Frees P) where
  pub cidata_path_of-Keeps :
      (pool : StoragePool) (cidata_vol : Text)
      → Keeps (Logged client P) (cidata_path_of client config pool cidata_vol)
  cidata_path_of-Keeps pool cidata_vol =
      Keeps-if (is_empty cidata_vol) (λ _. Keeps-pure [])
        λ _. volume_path-Keeps client config frees pool cidata_vol

  pub networked-Keeps :
      (spec : MachineSpec) (o : Option ManagedNetwork)
      → Keeps (Logged client P) (networked client config spec o)
  networked-Keeps spec none = Keeps-pure spec
  networked-Keeps spec (some managed) =
      Keeps-bind (resolve_network client managed) _
        (attachable_network-Keeps client frees managed false) λ bridge. Keeps-pure _

module _ {H : Type 0} (client : Client H) (config : Config) {P : List Event → Type 0}
    (spec : MachineSpec) (rules : Rules spec.name P) where
  start_and_report-Keeps :
      (dom : Domain) → Keeps (Logged client P) (start_and_report client config dom)
  unfolding start_and_report
  start_and_report-Keeps dom =
      Keeps-bind (ensure_running client dom) _ (ensure_running-Keeps client rules dom)
        λ _. state_of-Keeps client rules.frees dom

  drop-Keeps :
      (pool name : Text)
      → is_owned spec.name name ≡ true
      → Keeps (Logged client P) (ignore (delete_volume client config pool name))
  drop-Keeps pool name own =
      ignore-Keeps (Logged client P) (delete_volume client config pool name)
        (delete_volume-Keeps client config rules pool name own)

  -- The volume with the bootstrap data, if there is one, is the machine's.
  abbrev IsOwnCidata : Text → Type 0
  IsOwnCidata cidata_vol = is_empty cidata_vol ≡ false → is_owned spec.name cidata_vol ≡ true

  rollback-Keeps :
      (pool : StoragePool) (cidata_vol : Text)
      → IsOwnCidata cidata_vol
      → Keeps
          (Logged client P)
          (rollback client config pool (root_volume_name spec.name) cidata_vol)
  unfolding rollback
  rollback-Keeps pool cidata_vol own =
      Keeps-bind (ignore (delete_volume client config pool.name (root_volume_name spec.name))) _
        (drop-Keeps pool.name (root_volume_name spec.name) (root-is_owned spec.name))
        λ _.
          Keeps-if (is_empty cidata_vol) (λ _. Keeps-pure tt)
            λ full. drop-Keeps pool.name cidata_vol (own full)

  or_rollback-Keeps :
      {A : Type 0} (pool : StoragePool) (cidata_vol : Text) (m : Exec Error (Run H) A)
      → IsOwnCidata cidata_vol
      → Keeps (Logged client P) m
      → Keeps
          (Logged client P)
          (or_rollback client config pool (root_volume_name spec.name) cidata_vol m)
  or_rollback-Keeps pool cidata_vol m own k =
      Keeps-bind (attempt m) _ (Keeps-attempt m k) λ r. settled-Keeps pool cidata_vol r own
    where
      settled-Keeps :
          {A : Type 0} (pool : StoragePool) (cidata_vol : Text) (r : Result Error A)
          → IsOwnCidata cidata_vol
          → Keeps
              (Logged client P)
              (settled client config pool (root_volume_name spec.name) cidata_vol r)
      settled-Keeps pool cidata_vol (ok a) own = Keeps-pure a
      settled-Keeps pool cidata_vol (err e) own =
          Keeps-bind (rollback client config pool (root_volume_name spec.name) cidata_vol) _
            (rollback-Keeps pool cidata_vol own) λ _. Keeps-raise e

  define-Keeps :
      (pool : StoragePool) (cidata_vol : Text)
      → IsOwnCidata cidata_vol
      → Keeps (Logged client P) (define client config pool spec cidata_vol)
  unfolding define
  define-Keeps pool cidata_vol own =
      Keeps-bind _ _
        (or_rollback-Keeps pool cidata_vol _ own
          (volume_path-Keeps client config rules.frees pool (root_volume_name spec.name)))
        λ root_path.
          Keeps-bind _ _
            (or_rollback-Keeps pool cidata_vol _ own
              (cidata_path_of-Keeps client config rules.frees pool cidata_vol))
            λ cidata_path.
              Keeps-bind _ _
                (or_rollback-Keeps pool cidata_vol _ own
                  (networked-Keeps client config rules.frees spec spec.managed_network))
                λ wired. or_rollback-Keeps pool cidata_vol _ own (
                  Keeps-ask_free client rules.frees
                    (domain_define_xml (domain_xml wired root_path cidata_path)) refl)

  uploaded-Yields :
      (pool : StoragePool) (r : Result RpcError Unit)
      → Yields IsOwnCidata (uploaded client config pool (cidata_volume_name spec.name) r)
  uploaded-Yields pool (ok done) = Yields-pure _ λ _. cidata-is_owned spec.name
  uploaded-Yields pool (err e) = Yields-bind _ _ (Yields-any _) λ _ _. Yields-raise other

  rendered-Yields :
      (pool : StoragePool) (r : Result IsoError Text)
      → Yields IsOwnCidata (rendered client config pool (cidata_volume_name spec.name) r)
  rendered-Yields pool (ok image) =
      Yields-bind _ _ (Yields-any _)
        λ vol _. Yields-bind _ _ (Yields-any _) λ r _. uploaded-Yields pool r
  rendered-Yields pool (err invalid) = Yields-raise terminal
  rendered-Yields pool (err unwritten) = Yields-raise other

  ensure_cloud_init_volume-Yields :
      (pool : StoragePool) → Yields IsOwnCidata (ensure_cloud_init_volume client config pool spec)
  unfolding ensure_cloud_init_volume
  ensure_cloud_init_volume-Yields pool =
      Yields-if (is_empty spec.bootstrap_data) (λ _. Yields-pure [] λ full. ground arith)
        λ _. rendered-Yields pool (config.iso spec)

  imaged-Keeps :
      (pool : StoragePool) (r : Result Error Text)
      → Keeps (Logged client P) (imaged client config pool (root_volume_name spec.name) r)
  imaged-Keeps pool (ok cidata_vol) = Keeps-pure cidata_vol
  imaged-Keeps pool (err e) =
      Keeps-bind _ _ (drop-Keeps pool.name (root_volume_name spec.name) (root-is_owned spec.name))
        λ _. Keeps-raise e

  imaged-Yields :
      (pool : StoragePool) (r : Result Error Text)
      → Each IsOwnCidata r
      → Yields IsOwnCidata (imaged client config pool (root_volume_name spec.name) r)
  imaged-Yields pool (ok cidata_vol) own = Yields-pure cidata_vol own
  imaged-Yields pool (err e) own = Yields-bind _ _ (Yields-any _) λ _ _. Yields-raise e

  unless_existing-Keeps :
      (r : Result RpcError StorageVol) → Keeps (Logged client P) (unless_existing client config r)
  unless_existing-Keeps (ok vol) = Keeps-pure tt
  unless_existing-Keeps (err e) = tolerate-Keeps (Logged client P) (is_already_exists e)

  make-Keeps : Keeps (Logged client P) (make client config spec)
  unfolding make
  make-Keeps =
      Keeps-bind _ _ (lookup_pool_named-Keeps client config rules.frees spec.storage_pool) λ pool.
        Keeps-bind _ _ (resolve_backing_path-Keeps client config rules.frees pool spec.image)
          λ backing_path.
            Keeps-bind _ _
              (Keeps-bind _ _
                (Keeps-free client rules.frees
                  (vol_create_xml pool
                    (volume_xml (root_volume_name spec.name) backing_path spec.disk_bytes))
                  refl)
                unless_existing-Keeps)
              λ _.
                Keeps-bind-Yields {Q = IsOwnCidata}
                  (attempt (ensure_cloud_init_volume client config pool spec)
                    >>= imaged client config pool (root_volume_name spec.name))
                  _
                  (Keeps-bind _ _
                    (Keeps-attempt _
                      (ensure_cloud_init_volume-Keeps client config rules pool spec refl))
                    (imaged-Keeps pool))
                  (Yields-bind _ _ (Yields-attempt _ (ensure_cloud_init_volume-Yields pool))
                    (imaged-Yields pool))
                  λ cidata_vol own.
                    Keeps-bind _ _ (define-Keeps pool cidata_vol own) start_and_report-Keeps

  pub create-Keeps : Keeps (Logged client P) (create client config spec)
  unfolding create
  create-Keeps = Keeps-bind (begin client) _ (Keeps-begin client P) λ _.
      Keeps-bind (call client (domain_lookup_by_name spec.name)) _
        (Keeps-free client rules.frees (domain_lookup_by_name spec.name) refl)
        λ r.
          Keeps-result r start_and_report-Keeps
            λ e. Keeps-if (is_not_found e) (λ _. make-Keeps) λ _. Keeps-raise other
