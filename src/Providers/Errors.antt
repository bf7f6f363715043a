-- ===== src/Providers/Errors.antt =====
-- The errors that callers tell apart with `errors.Is`: the sentinels of internal/providers/provider.go
-- and the waits of internal/controller. A message is not modelled, so `fmt.Errorf("...: %w", err)` is
-- `err`, and `fmt.Errorf("%w: ...", E)` is `E`. At most one sentinel is in an error's chain.
use cluster_api_provider_hyd.Base.{Bool, true, false, Option, none, some}

pub data Wait : Type 0 where
  for_owner for_cluster for_cluster_infra for_hydra_cluster for_bootstrap for_hypervisor : Wait
  for_hypervisor_credentials : Wait

pub data Error : Type 0 where
  not_found invalid_id terminal other : Error
  waiting : Wait → Error

pub data OutcomeLabel : Type 0 where
  outcome_success outcome_terminal outcome_not_found outcome_error : OutcomeLabel

unfoldable pub classify_outcome : Option Error → OutcomeLabel
classify_outcome none = outcome_success
classify_outcome (some terminal) = outcome_terminal
classify_outcome (some not_found) = outcome_not_found
classify_outcome (some e) = outcome_error

abbrev pub is_terminal : Error → Bool
is_terminal terminal = true
is_terminal e = false

abbrev pub is_not_found : Error → Bool
is_not_found not_found = true
is_not_found e = false
