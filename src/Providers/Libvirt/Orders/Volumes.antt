-- ===== src/Providers/Libvirt/Orders/Volumes.antt =====
-- internal/providers/libvirt/libvirt.go: what making and deleting a volume keeps.
use cluster_api_provider_hyd.Base.{
  ℕ, Bool, true, not, ◌&&◌, List, [], ◌∷◌, ◌≡◌, refl, nat_eq, Text, length, subst, sym, ==_refl,
  list_eq, arith, if◌then◌else◌,
}
use cluster_api_provider_hyd.Base.Exec.{
  Result, ok, err, Exec, attempt, ◌>>=◌, Keeps, Keeps-pure, Keeps-raise, Keeps-bind, Keeps-if,
  Keeps-result, Keeps-attempt,
}
use cluster_api_provider_hyd.Providers.Errors.{Error, terminal, other}
use cluster_api_provider_hyd.Providers.Identity.{is_empty, Image, MachineSpec}
use cluster_api_provider_hyd.Providers.Libvirt.Documents.{raw_volume_xml}
use cluster_api_provider_hyd.Providers.Libvirt.Domains.{found_or}
use cluster_api_provider_hyd.Providers.Libvirt.Client.{
  Client, Run, Event, StoragePool, StorageVol, RpcError, is_not_found, is_already_exists, call, ask,
  noted, pool_lookup_by_name, vol_create_xml, vol_lookup_by_name, vol_get_path, vol_delete,
  vol_upload,
}
use cluster_api_provider_hyd.Providers.Libvirt.Client.Journal.{Logged, Keeps-then, Logged-then}
use cluster_api_provider_hyd.Providers.Libvirt.Volumes.{
  Config, IsoError, invalid, unwritten, is_owned, cidata_volume_name, root_volume_name, tolerate,
  unless_gone, ignore, volume_path, delete_looked_up, lookup_pool_named, resolve_backing_path,
  delete_volume, create_cloud_init_volume, uploaded, rendered, ensure_cloud_init_volume,
}
use cluster_api_provider_hyd.Providers.Libvirt.Orders.{Frees, Rules, event}
use cluster_api_provider_hyd.Providers.Libvirt.Orders.Domains.{
  Keeps-free, Keeps-ask_free, found_or-Keeps,
}

pub root-is_owned : (machine : Text) → is_owned machine (root_volume_name machine) ≡ true
unfolding is_owned
root-is_owned machine = ground (arith, ==_refl (root_volume_name machine))

pub cidata-is_owned : (machine : Text) → is_owned machine (cidata_volume_name machine) ≡ true
unfolding is_owned
cidata-is_owned machine = ground (arith, ==_refl (cidata_volume_name machine))

module _ {H : Type 0} (P : Run H → Type 0) where
  pub tolerate-Keeps : (fine : Bool) → Keeps P (tolerate fine)
  tolerate-Keeps fine = Keeps-if fine (λ _. Keeps-pure tt) λ _. Keeps-raise other

  pub unless_gone-Keeps : (r : Result RpcError Unit) → Keeps P (unless_gone r)
  unless_gone-Keeps (ok done) = Keeps-pure tt
  unless_gone-Keeps (err e) = tolerate-Keeps (is_not_found e)

  pub ignore-Keeps : (m : Exec Error (Run H) (Unit {0})) → Keeps P m → Keeps P (ignore m)
  ignore-Keeps m k = Keeps-bind (attempt m) _ (Keeps-attempt m k) λ _. Keeps-pure tt

module _ {H : Type 0} (client : Client H) (P : List Event → Type 0) where
  -- What bears the deletion of the volume bears what is made of the answer.
  pub Logged-delete :
      (vol : StorageVol) (s : Run H)
      → ((r : Result RpcError Unit) → P (event (vol_delete vol) r ∷ s.journal))
      → Logged client P ((call client (vol_delete vol) >>= unless_gone) s).1
  Logged-delete vol s grow =
      Logged-then client P (vol_delete vol) unless_gone s
        λ r h. (unless_gone-Keeps (Logged client P) r).at _ (grow r)

module _ {H : Type 0} (client : Client H) (config : Config) {P : List Event → Type 0}
    (frees : Frees P) where
  pub lookup_pool_named-Keeps :
      (requested : Text) → Keeps (Logged client P) (lookup_pool_named client config requested)
  unfolding lookup_pool_named
  lookup_pool_named-Keeps requested =
      let name = if is_empty requested then config.storage_pool else requested in
      Keeps-if (is_empty name) (λ _. Keeps-raise terminal)
        λ _.
          Keeps-bind (call client (pool_lookup_by_name name)) _
            (Keeps-free client frees (pool_lookup_by_name name) refl)
            (found_or-Keeps client frees terminal)

  pub volume_path-Keeps :
      (pool : StoragePool) (name : Text) → Keeps (Logged client P) (volume_path client pool name)
  unfolding volume_path
  volume_path-Keeps pool name =
      Keeps-bind (ask client (vol_lookup_by_name pool name)) _
        (Keeps-ask_free client frees (vol_lookup_by_name pool name) refl)
        λ vol. Keeps-ask_free client frees (vol_get_path vol) refl

  pub resolve_backing_path-Keeps :
      (pool : StoragePool) (img : Image)
      → Keeps (Logged client P) (resolve_backing_path client config pool img)
  unfolding resolve_backing_path
  resolve_backing_path-Keeps pool img =
      let name = if is_empty img.name then config.base_image else img.name in
      Keeps-if (is_empty img.name && not (is_empty img.url)) (λ _. Keeps-raise terminal)
        λ _.
          Keeps-if (is_empty name) (λ _. Keeps-raise terminal)
            λ _.
              Keeps-bind (call client (vol_lookup_by_name pool name)) _
                (Keeps-free client frees (vol_lookup_by_name pool name) refl)
                λ r.
                  Keeps-bind (found_or client terminal r) _ (found_or-Keeps client frees terminal r)
                    λ vol. Keeps-ask_free client frees (vol_get_path vol) refl

module _ {H : Type 0} (client : Client H) (config : Config) {machine : Text}
    {P : List Event → Type 0} (rules : Rules machine P) where
  delete_looked_up-Logged :
      (pool : StoragePool) (name : Text) (r : Result RpcError StorageVol) (h : H)
      (past : List Event)
      → is_owned machine name ≡ true
      → P past
      → Logged client P
          (delete_looked_up client r (noted (vol_lookup_by_name pool name) r h past)).1
  delete_looked_up-Logged pool name (ok vol) h past own kept =
      Logged-delete client P vol _ λ r. rules.delete_named pool name vol r past own kept
  delete_looked_up-Logged pool name (err e) h past own kept =
      (tolerate-Keeps (Logged client P) (is_not_found e)).at _ (rules.frees.free _ _ past refl kept)

  pub delete_volume-Keeps :
      (pool name : Text)
      → is_owned machine name ≡ true
      → Keeps (Logged client P) (delete_volume client config pool name)
  unfolding delete_volume
  delete_volume-Keeps pool_name name own =
      Keeps-bind (attempt (lookup_pool_named client config pool_name)) _
        (Keeps-attempt (lookup_pool_named client config pool_name)
          (lookup_pool_named-Keeps client config rules.frees pool_name))
        λ r.
          Keeps-result r
            (λ pool.
              Keeps-then client P (vol_lookup_by_name pool name) (delete_looked_up client)
                λ r h past. delete_looked_up-Logged pool name r h past own)
            λ e. Keeps-raise other

  pub create_cloud_init_volume-Keeps :
      (pool : StoragePool) (name : Text) (size : ℕ)
      → is_owned machine name ≡ true
      → Keeps (Logged client P) (create_cloud_init_volume client config pool name size)
  unfolding create_cloud_init_volume
  create_cloud_init_volume-Keeps pool name size own =
      let made = vol_create_xml pool (raw_volume_xml name size) in
      Keeps-bind (call client made) _ (Keeps-free client rules.frees made refl) λ r.
        Keeps-result r (λ vol. Keeps-pure vol)
          λ e.
            Keeps-if (not (is_already_exists e)) (λ _. Keeps-raise other)
              λ _.
                Keeps-bind (delete_volume client config pool.name name) _
                  (delete_volume-Keeps pool.name name own)
                  λ _. Keeps-ask_free client rules.frees made refl

  uploaded-Keeps :
      (pool : StoragePool) (name : Text) (r : Result RpcError Unit)
      → is_owned machine name ≡ true
      → Keeps (Logged client P) (uploaded client config pool name r)
  uploaded-Keeps pool name (ok done) own = Keeps-pure name
  uploaded-Keeps pool name (err e) own =
      Keeps-bind (ignore (delete_volume client config pool.name name)) _
        (ignore-Keeps (Logged client P) (delete_volume client config pool.name name)
          (delete_volume-Keeps pool.name name own))
        λ _. Keeps-raise other

  rendered-Keeps :
      (pool : StoragePool) (name : Text) (r : Result IsoError Text)
      → is_owned machine name ≡ true
      → Keeps (Logged client P) (rendered client config pool name r)
  rendered-Keeps pool name (ok image) own =
      Keeps-bind (create_cloud_init_volume client config pool name (length image)) _
        (create_cloud_init_volume-Keeps pool name (length image) own)
        λ vol.
          Keeps-bind (call client (vol_upload vol image)) _
            (Keeps-free client rules.frees (vol_upload vol image) refl)
            λ r. uploaded-Keeps pool name r own
  rendered-Keeps pool name (err invalid) own = Keeps-raise terminal
  rendered-Keeps pool name (err unwritten) own = Keeps-raise other

  pub ensure_cloud_init_volume-Keeps :
      (pool : StoragePool) (spec : MachineSpec)
      → spec.name ≡ machine
      → Keeps (Logged client P) (ensure_cloud_init_volume client config pool spec)
  unfolding ensure_cloud_init_volume
  ensure_cloud_init_volume-Keeps pool spec same =
      Keeps-if (is_empty spec.bootstrap_data) (λ _. Keeps-pure [])
        λ _. rendered-Keeps pool (cidata_volume_name spec.name) (config.iso spec) (
          subst (λ m. is_owned machine (cidata_volume_name m) ≡ true) (sym same)
            (cidata-is_owned machine))
