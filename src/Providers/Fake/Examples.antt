-- ===== src/Providers/Fake/Examples.antt =====
-- The in-memory backend without injected failures.
use cluster_api_provider_hyd.Base.{◌≡◌, refl, false, none, [], text, list_eq, nat_eq}
use cluster_api_provider_hyd.Base.Dict
use cluster_api_provider_hyd.Base.Exec.{err}
use cluster_api_provider_hyd.Providers.Errors.{not_found}
use cluster_api_provider_hyd.Providers.Identity.{Idempotent}
use cluster_api_provider_hyd.Providers.Fake
use cluster_api_provider_hyd.Providers.Fake.Contract.{view, fake-Idempotent}

abbrev sound : Fake.Faults
sound = record {
  create_err = none;
  infrastructure_err = none;
  get_err = none;
  find_err = none;
  delete_err = none;
  default_storage_pool = [];
  ready_on_create = false;
}

fake-Idempotent_example : Idempotent (Fake.fake sound) view
fake-Idempotent_example = fake-Idempotent sound refl refl

twelfth : Fake.fake_id 12 ≡ text "fake-12"
unfolding Fake.fake_id Fake.decimal
twelfth = refl

nobody : (Fake.find_by_name sound (text "a") Fake.new).0 ≡ err not_found
unfolding Fake.find_by_name Fake.new Dict.get Dict.empty
nobody = refl
