-- ===== src/Providers/Libvirt/Connection/Reachable.antt =====
-- internal/providers/libvirt/libvirt.go: whatever callers, dials, limits and closes do in whatever order, the
-- state of the connection is sound.
use cluster_api_provider_hyd.Base.{
  ℕ, ◌+◌, Bool, true, false, Option, none, some, List, [], ◌∷◌, ◌≡◌, refl, ap, inl, nat_eq, arith,
  if_cases,
}
use cluster_api_provider_hyd.Base.Dict.{get, get-empty}
use cluster_api_provider_hyd.Providers.Libvirt.Transport.{register}
use cluster_api_provider_hyd.Providers.Libvirt.Connection.{
  Stage, not_dialed, connecting, handshaking, connected, DialAttempt, Provider, Event, calls,
  gives_up, returns, ends_at_limit, dials, arrives, fails_to_dial, arrives_late, finishes,
  shakes_hands, closes, recycles, dies, at_stage, dial_begins, dial_ends, dial_fails,
  handshake_ends, attempt_ends, on_attempt, step, new, run,
}
use cluster_api_provider_hyd.Providers.Libvirt.Connection.Sockets.{Held, late-Held, register-Held}
use cluster_api_provider_hyd.Providers.Libvirt.Connection.Waiters.{Older, is_before_socket, Waited}
use cluster_api_provider_hyd.Providers.Libvirt.Connection.Soundness.{
  Good, Sound, waited, where_found, recycle-Sound, abandon-Sound, ensure_connected-Sound,
  abandon_dial-Sound, returned-Sound,
}

at_stage-Sound :
    (stage : Stage) (a : DialAttempt) (p : Provider)
    → Held p.dialer p.sockets p.closing
    → Older p.callers p.attempts
    → Waited a p
    → (is_before_socket stage ≡ true → p.dialer.conn ≡ none)
    → Sound (at_stage stage a p)
at_stage-Sound stage a p held older w free = record {
  held = held;
  older = older;
  attempt = record { counted = w.counted; wanted = w.wanted; free = free; numbered = w.numbered };
}

module _ (p : Provider) (a : DialAttempt) (s : Sound p) (w : Waited a p) where
  past-Sound : (stage : Stage) → is_before_socket stage ≡ false → Sound (at_stage stage a p)
  past-Sound stage past =
      at_stage-Sound stage a p s.held s.older w λ before. absurd (ground (arith, past, before))

  dial_begins-Sound : (stage : Stage) → a.stage ≡ stage → Sound (dial_begins a stage p)
  dial_begins-Sound not_dialed at =
      if_cases Sound p.dialer.abandoned (λ _. past-Sound (connected false) refl)
        λ _. at_stage-Sound connecting a p s.held s.older w (λ _. w.free (ap is_before_socket at))
  dial_begins-Sound stage at = s

  dial_ends-Sound : (stage : Stage) → a.stage ≡ stage → Sound (dial_ends a stage p)
  unfolding register
  dial_ends-Sound connecting at =
      if_cases Sound p.dialer.abandoned
        (λ _.
          at_stage-Sound (connected false) a
            (record p { sockets = p.sockets + 1; closing = p.sockets ∷ p.closing })
            (late-Held p.dialer p.sockets p.closing s.held) s.older
            (record {
              counted = w.counted;
              wanted = w.wanted;
              free = w.free;
              numbered = w.numbered;
            })
            λ before. absurd (ground (arith, before)))
        λ active. record {
          held =
              register-Held p.dialer p.sockets p.closing s.held (w.free (ap is_before_socket at))
                active;
          older = s.older;
          attempt = record {
            counted = w.counted;
            wanted = w.wanted;
            free = λ before. absurd (ground (arith, before));
            numbered = w.numbered;
          };
        }
  dial_ends-Sound stage at = s

  dial_fails-Sound : (stage : Stage) → Sound (dial_fails a stage p)
  dial_fails-Sound connecting = past-Sound (connected false) refl
  dial_fails-Sound stage = s

  handshake_ends-Sound : (well : Bool) (stage : Stage) → Sound (handshake_ends well a stage p)
  handshake_ends-Sound well handshaking = past-Sound (connected well) refl
  handshake_ends-Sound well stage = s

  attempt_ends-Sound : (stage : Stage) → Sound (attempt_ends a stage p)
  attempt_ends-Sound (connected true) =
      if_cases Sound p.closed (λ _. recycle-Sound (record p { dial = none }) idle)
        λ _. record { held = s.held; older = s.older; attempt = tt }
    where
      idle : Sound (record p { dial = none })
      idle = record { held = s.held; older = s.older; attempt = tt }
  attempt_ends-Sound (connected false) = record { held = s.held; older = s.older; attempt = tt }
  attempt_ends-Sound stage = s

on_attempt-Sound :
    (f : DialAttempt → Stage → Provider → Provider) (p : Provider)
    → Sound p
    → ((a : DialAttempt) → Waited a p → Sound (f a a.stage p))
    → Sound (on_attempt f p)
on_attempt-Sound f p s k = where_found p.dial (λ _. s) λ a e. k a (waited p a e s)

died-Good :
    (o : Option DialAttempt) (p : Provider) (d : List ℕ)
    → Good o p
    → Good o (record p { dialer = record (p.dialer) { dead = d } })
died-Good none p d h = tt
died-Good (some a) p d h = record {
  counted = h.counted;
  wanted = h.wanted;
  free = h.free;
  numbered = h.numbered;
}

late-Good :
    (o : Option DialAttempt) (p : Provider) (closing : List ℕ)
    → Good o p
    → Good o (record p { sockets = p.sockets + 1; closing = closing })
late-Good none p closing h = tt
late-Good (some a) p closing h = record {
  counted = h.counted;
  wanted = h.wanted;
  free = h.free;
  numbered = h.numbered;
}

closed-Good :
    (o : Option DialAttempt) (p : Provider) → Good o p → Good o (record p { closed = true })
closed-Good none p h = tt
closed-Good (some a) p h = record {
  counted = h.counted;
  wanted = h.wanted;
  free = h.free;
  numbered = h.numbered;
}

step-Sound : (p : Provider) (e : Event) → Sound p → Sound (step p e)
unfolding step
step-Sound p (calls g up) s =
    where_found (get p.callers g) (λ new. ensure_connected-Sound g up p new s) λ _ _. s
step-Sound p (gives_up g) s =
    where_found (get p.callers g) (λ _. s) λ id found. abandon_dial-Sound g id p found s
step-Sound p (returns g) s =
    where_found (get p.callers g) (λ _. s) λ id found. returned-Sound g id p.dial p found refl s
step-Sound p (ends_at_limit id) s = abandon-Sound id p s
step-Sound p dials s =
    on_attempt-Sound dial_begins p s λ a w. dial_begins-Sound p a s w a.stage refl
step-Sound p arrives s = on_attempt-Sound dial_ends p s λ a w. dial_ends-Sound p a s w a.stage refl
step-Sound p fails_to_dial s =
    on_attempt-Sound dial_fails p s λ a w. dial_fails-Sound p a s w a.stage
step-Sound p arrives_late s = record {
  held = late-Held p.dialer p.sockets p.closing s.held;
  older = s.older;
  attempt = late-Good p.dial p (p.sockets ∷ p.closing) s.attempt;
}
step-Sound p (shakes_hands well) s =
    on_attempt-Sound (handshake_ends well) p s λ a w. handshake_ends-Sound p a s w well a.stage
step-Sound p finishes s =
    on_attempt-Sound attempt_ends p s λ a w. attempt_ends-Sound p a s w a.stage
step-Sound p closes s = record {
  held = s.held;
  older = s.older;
  attempt = closed-Good p.dial p s.attempt;
}
step-Sound p recycles s = recycle-Sound p s
step-Sound p (dies n) s = record {
  held = record { dropped = s.held.dropped; kept = s.held.kept };
  older = s.older;
  attempt = died-Good p.dial p (n ∷ p.dialer.dead) s.attempt;
}

run-Sound : (es : List Event) (p : Provider) → Sound p → Sound (run p es)
unfolding run
run-Sound [] p s = s
run-Sound (e ∷ es) p s = run-Sound es (step p e) (step-Sound p e s)

new-Sound : Sound new
unfolding new
new-Sound = record {
  held = record {
    dropped = λ lost. ground (arith, lost);
    kept = λ s less. inl (ground (arith, less));
  };
  older = λ g id found. ground (arith, found, get-empty {V = ℕ} g);
  attempt = tt;
}

-- Whatever happens to a provider after `New`: each socket that arrived is the one that the dialer holds or
-- was handed over to be closed, and after an attempt was abandoned the dialer holds none; an attempt in
-- flight counts the callers that wait for it, was abandoned once nobody does, and holds no socket before
-- its dial has brought one.
pub reachable-Sound : (es : List Event) → Sound (run new es)
reachable-Sound es = run-Sound es new new-Sound
