-- ===== src/Providers/Libvirt/Connection.antt =====
-- internal/providers/libvirt/libvirt.go and transport.go: how a provider connects again. Callers, the one
-- attempt in flight and its dial interleave; an event is one section under a lock or one thing that happens
-- between two, and an event that cannot happen changes nothing.
pub mod Sockets
pub mod Waiters
pub mod Soundness
pub mod Reachable
pub mod Closing
mod Examples
use cluster_api_provider_hyd.Base.{
  ℕ, ◌+◌, ◌-◌, Bool, true, false, not, ◌&&◌, Option, none, some, List, [], ◌∷◌, ◌==◌, nat_eq,
  if◌then◌else◌,
}
use cluster_api_provider_hyd.Base.Dict
use cluster_api_provider_hyd.Base.Dict.{Dict}
use cluster_api_provider_hyd.Providers.Libvirt.Transport.{
  TrackingDialer, detach, begin_attempt, abandon_attempt, socket_lost, register,
}

-- Where `ConnectToURI` is: before `Dial`, in the inner dial, past `Dial`, or back with its result.
pub data Stage : Type 0 where
  not_dialed connecting handshaking : Stage
  connected : Bool → Stage

-- `target` is the client that the attempt connects.
pub record DialAttempt : Type 0 where
  pub id : ℕ
  pub waiters : ℕ
  pub stage : Stage

-- `lv` is the client, named by the attempt that it was built for. `callers` has who waits for which
-- attempt. `sockets` is how many sockets arrived, and `closing` has those that were handed over to be
-- closed.
pub record Provider : Type 0 where
  pub lv : ℕ
  pub dial : Option DialAttempt
  pub closed : Bool
  pub dialer : TrackingDialer
  pub callers : Dict ℕ ℕ
  pub attempts : ℕ
  pub sockets : ℕ
  pub closing : List ℕ

-- `is_connected` is what `IsConnected` of the client says.
pub data Event : Type 0 where
  calls : ℕ → Bool → Event
  gives_up returns ends_at_limit : ℕ → Event
  dials arrives fails_to_dial arrives_late finishes : Event
  shakes_hands : Bool → Event
  closes recycles : Event
  dies : ℕ → Event

abbrev pub handed : Option ℕ → List ℕ → List ℕ
handed none closing = closing
handed (some s) closing = s ∷ closing

-- The dialer after a change that detaches its socket, which is then closed.
abbrev pub detached : (TrackingDialer → TrackingDialer) → Provider → Provider
detached change p = record p { dialer = change p.dialer; closing = handed p.dialer.conn p.closing }

unfoldable pub recycle : Provider → Provider
recycle p = detached detach p

-- `if p.dial != a`
unfoldable pub abandon : ℕ → Provider → Provider
abandon id p = elim p.dial [
  | none ↦ p
  | some a ↦ if a.id == id then detached abandon_attempt p else p
]

abbrev pub joined : ℕ → DialAttempt → Provider → Provider
joined g a p = record p {
  dial = some (record a { waiters = a.waiters + 1 });
  callers = Dict.put p.callers g a.id;
}

abbrev pub fresh_attempt : ℕ → DialAttempt
fresh_attempt id = record { id = id; waiters = 0; stage = not_dialed }

abbrev pub begun : Provider → Provider
begun p = record (detached begin_attempt p) { attempts = p.attempts + 1 }

-- The first section of `ensureConnected`, of a caller that is not waiting already.
unfoldable pub ensure_connected : ℕ → Bool → Provider → Provider
ensure_connected g is_connected p = if p.closed then p else elim p.dial [
  | some a ↦ joined g a p
  | none ↦
      if is_connected && not (socket_lost p.dialer)
      then p
      else joined g (fresh_attempt p.attempts) (begun p)
]

-- One caller fewer waits for the attempt in flight, if it is the one it waited for.
abbrev pub left : ℕ → Option DialAttempt → Option DialAttempt
left id none = none
left id (some a) = if a.id == id then some (record a { waiters = a.waiters - 1 }) else some a

abbrev pub nobody_waits : Option DialAttempt → Bool
nobody_waits none = false
nobody_waits (some a) = a.waiters == 0

abbrev pub withdrawn : ℕ → ℕ → Provider → Provider
withdrawn g id p = record p { dial = left id p.dial; callers = Dict.delete p.callers g }

unfoldable pub abandon_dial : ℕ → ℕ → Provider → Provider
abandon_dial g id p = let q = withdrawn g id p in if nobody_waits q.dial then abandon id q else q

abbrev pub at_stage : Stage → DialAttempt → Provider → Provider
at_stage stage a p = record p { dial = some (record a { stage = stage }) }

-- `Dial`, up to the inner dial.
abbrev pub dial_begins : DialAttempt → Stage → Provider → Provider
dial_begins a not_dialed p =
    if p.dialer.abandoned then at_stage (connected false) a p else at_stage connecting a p
dial_begins a stage p = p

-- The inner dial returns a socket.
abbrev pub dial_ends : DialAttempt → Stage → Provider → Provider
dial_ends a connecting p =
    let q = record p { sockets = p.sockets + 1 } in
    if p.dialer.abandoned
    then at_stage (connected false) a (record q { closing = p.sockets ∷ p.closing })
    else at_stage handshaking a (record q { dialer = register p.sockets p.dialer })
dial_ends a stage p = p

-- The inner dial fails, takes too long or is given up on.
abbrev pub dial_fails : DialAttempt → Stage → Provider → Provider
dial_fails a connecting p = at_stage (connected false) a p
dial_fails a stage p = p

abbrev pub handshake_ends : Bool → DialAttempt → Stage → Provider → Provider
handshake_ends well a handshaking p = at_stage (connected well) a p
handshake_ends well a stage p = p

-- The section of the goroutine that ran the attempt.
abbrev pub attempt_ends : DialAttempt → Stage → Provider → Provider
attempt_ends a (connected true) p =
    if p.closed then recycle (record p { dial = none }) else record p { dial = none; lv = a.id }
attempt_ends a (connected false) p = record p { dial = none }
attempt_ends a stage p = p

abbrev pub on_attempt : (DialAttempt → Stage → Provider → Provider) → Provider → Provider
on_attempt f p = elim p.dial [ none ↦ p | some a ↦ f a a.stage p ]

abbrev pub on_caller : ℕ → (ℕ → Provider → Provider) → Provider → Provider
on_caller g f p = elim (Dict.get p.callers g) [ none ↦ p | some id ↦ f id p ]

-- A caller that waits returns when its attempt is no longer in flight.
abbrev pub returned : ℕ → ℕ → Option DialAttempt → Provider → Provider
returned g id none p = record p { callers = Dict.delete p.callers g }
returned g id (some a) p = if a.id == id then p else record p { callers = Dict.delete p.callers g }

unfoldable pub step : Provider → Event → Provider
step p (calls g is_connected) = elim (Dict.get p.callers g) [
  | some id ↦ p
  | none ↦ ensure_connected g is_connected p
]
step p (gives_up g) = on_caller g (abandon_dial g) p
step p (returns g) = on_caller g (λ id q. returned g id q.dial q) p
step p (ends_at_limit id) = abandon id p
step p dials = on_attempt dial_begins p
step p arrives = on_attempt dial_ends p
step p fails_to_dial = on_attempt dial_fails p
step p arrives_late = record p { sockets = p.sockets + 1; closing = p.sockets ∷ p.closing }
step p (shakes_hands well) = on_attempt (handshake_ends well) p
step p finishes = on_attempt attempt_ends p
step p closes = record p { closed = true }
step p recycles = recycle p
step p (dies s) = record p { dialer = record (p.dialer) { dead = s ∷ p.dialer.dead } }

-- What `New` returns: one socket, connected.
unfoldable pub new : Provider
new = record {
  lv = 0;
  dial = none;
  closed = false;
  dialer = record { conn = some 0; last = some 0; abandoned = false; dead = [] };
  callers = Dict.empty;
  attempts = 1;
  sockets = 1;
  closing = [];
}

unfoldable pub run : Provider → List Event → Provider
run p [] = p
run p (e ∷ es) = run (step p e) es
