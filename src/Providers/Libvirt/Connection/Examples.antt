-- ===== src/Providers/Libvirt/Connection/Examples.antt =====
-- internal/providers/libvirt/libvirt.go: a lost connection is replaced although the first attempt is given up
-- on before its dial has begun.
use cluster_api_provider_hyd.Base.{true, false, List, [], ◌∷◌, ◌≡◌, refl, nat_eq}
use cluster_api_provider_hyd.Base.Dict.{get, put, delete, empty}
use cluster_api_provider_hyd.Providers.Libvirt.Transport.{
  detach, begin_attempt, abandon_attempt, socket_lost, register,
}
use cluster_api_provider_hyd.Providers.Libvirt.Connection.{
  Event, calls, gives_up, returns, dials, arrives, finishes, shakes_hands, closes, dies, recycle,
  abandon, ensure_connected, abandon_dial, step, new, run,
}
use cluster_api_provider_hyd.Providers.Libvirt.Connection.Soundness.{Sound}
use cluster_api_provider_hyd.Providers.Libvirt.Connection.Reachable.{reachable-Sound}

abbrev given_up : List Event
given_up = dies 0 ∷ calls 1 true ∷ calls 2 true ∷ gives_up 1 ∷ gives_up 2 ∷ dials ∷ finishes ∷ []

abbrev reconnected : List Event
reconnected =
    dies 0
    ∷ calls 1 true
    ∷ calls 2 true
    ∷ gives_up 1
    ∷ gives_up 2
    ∷ dials
    ∷ finishes
    ∷ calls 3 false
    ∷ dials
    ∷ arrives
    ∷ shakes_hands true
    ∷ finishes
    ∷ returns 3
    ∷ []

abbrev too_late : List Event
too_late = dies 0 ∷ calls 1 true ∷ dials ∷ arrives ∷ closes ∷ shakes_hands true ∷ finishes ∷ []

-- The attempt that nobody waits for opens no socket.
no_socket : (run new given_up).sockets ≡ 1
unfolding run new step recycle abandon ensure_connected abandon_dial detach begin_attempt
    abandon_attempt socket_lost register get put delete empty
no_socket = refl

second_client : (run new reconnected).lv ≡ 2
unfolding run new step recycle abandon ensure_connected abandon_dial detach begin_attempt
    abandon_attempt socket_lost register get put delete empty
second_client = refl

-- A connection that is made after the provider was closed is closed too.
closed_meanwhile : (run new too_late).closing ≡ 1 ∷ 0 ∷ []
unfolding run new step recycle abandon ensure_connected abandon_dial detach begin_attempt
    abandon_attempt socket_lost register get put delete empty
closed_meanwhile = refl

reachable-Sound_example : Sound (run new reconnected)
reachable-Sound_example = reachable-Sound reconnected
