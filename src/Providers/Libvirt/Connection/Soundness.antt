-- ===== src/Providers/Libvirt/Connection/Soundness.antt =====
-- internal/providers/libvirt/libvirt.go: what callers do, and the limit of an attempt, keeps the state of the
-- connection sound.
use cluster_api_provider_hyd.Base.{
  ℕ, ◌-◌, ◌<◌, Bool, true, false, not, ◌&&◌, Option, none, some, ◌≡◌, refl, sym, subst, ◌==◌,
  nat_eq, arith, if◌then◌else◌, if_cases,
}
use cluster_api_provider_hyd.Base.Dict.{get, delete}
use cluster_api_provider_hyd.Providers.Libvirt.Transport.{
  detach, begin_attempt, abandon_attempt, socket_lost,
}
use cluster_api_provider_hyd.Providers.Libvirt.Connection.{
  DialAttempt, Provider, detached, recycle, abandon, joined, fresh_attempt, begun, ensure_connected,
  left, nobody_waits, abandon_dial, returned, new,
}
use cluster_api_provider_hyd.Providers.Libvirt.Connection.Sockets.{
  Held, detach-Held, begin_attempt-Held, abandon_attempt-Held,
}
use cluster_api_provider_hyd.Providers.Libvirt.Connection.Waiters.{
  waiting, Older, waiting-put, waiting-delete, waiting_new, put-Older, delete-Older,
  is_before_socket, Waited,
}

abbrev pub Good : Option DialAttempt → Provider → Type 0
Good none p = Unit
Good (some a) p = Waited a p

pub record Sound (p : Provider) : Type 0 where
  pub held : Held p.dialer p.sockets p.closing
  pub older : Older p.callers p.attempts
  pub attempt : Good p.dial p

pub waited : (p : Provider) (a : DialAttempt) → p.dial ≡ some a → Sound p → Waited a p
waited p a e s = subst (λ o. Good o p) e s.attempt

recycle-Good : (o : Option DialAttempt) (p : Provider) → Good o p → Good o (detached detach p)
unfolding detach
recycle-Good none p h = tt
recycle-Good (some a) p h = record {
  counted = h.counted;
  wanted = h.wanted;
  free = λ _. refl;
  numbered = h.numbered;
}

pub recycle-Sound : (p : Provider) → Sound p → Sound (recycle p)
unfolding recycle
recycle-Sound p s = record {
  held = detach-Held p.dialer p.sockets p.closing s.held;
  older = s.older;
  attempt = recycle-Good p.dial p s.attempt;
}

-- An attempt that was given up on may have nobody who waits.
abandoned-Sound :
    (p : Provider) (a : DialAttempt)
    → p.dial ≡ some a
    → Held p.dialer p.sockets p.closing
    → Older p.callers p.attempts
    → a.waiters ≡ waiting a.id p.callers
    → a.id < p.attempts
    → Sound (detached abandon_attempt p)
unfolding abandon_attempt detach
abandoned-Sound p a e held older counted numbered = record {
  held = abandon_attempt-Held p.dialer p.sockets p.closing held;
  older = older;
  attempt =
      subst (λ o. Good o (detached abandon_attempt p)) (sym e)
        (record { counted = counted; wanted = λ _. refl; free = λ _. refl; numbered = numbered });
}

-- By what is there, and the equation that says so.
pub where_found :
    {A : Type 0} (o : Option A) {q : Provider} {f : A → Provider}
    → (o ≡ none → Sound q)
    → ((a : A) → o ≡ some a → Sound (f a))
    → Sound (elim o [ none ↦ q | some a ↦ f a ])
where_found none sq sf = sq refl
where_found (some a) sq sf = sf a refl

pub abandon-Sound : (id : ℕ) (p : Provider) → Sound p → Sound (abandon id p)
unfolding abandon
abandon-Sound id p s =
    where_found p.dial (λ _. s)
      λ a e.
        let w = waited p a e s in
        if_cases Sound (a.id == id) (λ _. abandoned-Sound p a e s.held s.older w.counted w.numbered)
          λ _. s

joined-Sound :
    (g : ℕ) (a : DialAttempt) (p : Provider)
    → get p.callers g ≡ none
    → Held p.dialer p.sockets p.closing
    → Older p.callers p.attempts
    → a.waiters ≡ waiting a.id p.callers
    → (is_before_socket a.stage ≡ true → p.dialer.conn ≡ none)
    → a.id < p.attempts
    → Sound (joined g a p)
joined-Sound g a p new held older counted free numbered = record {
  held = held;
  older = put-Older p.callers g a.id p.attempts p.attempts older (omega arith) numbered;
  attempt = record {
    counted = omega (arith, waiting-put p.callers g a.id new);
    wanted = λ zero. absurd (omega arith);
    free = free;
    numbered = numbered;
  };
}

begun-Sound :
    (g : ℕ) (p : Provider)
    → get p.callers g ≡ none
    → Sound p
    → Sound (joined g (fresh_attempt p.attempts) (begun p))
unfolding begin_attempt detach
begun-Sound g p new s =
    joined-Sound g (fresh_attempt p.attempts) (begun p) new
      (begin_attempt-Held p.dialer p.sockets p.closing s.held)
      (λ h id found. omega (arith, s.older h id found))
      (sym (waiting_new p.callers g p.attempts s.older)) (λ _. refl) (omega arith)

pub ensure_connected-Sound :
    (g : ℕ) (up : Bool) (p : Provider)
    → get p.callers g ≡ none
    → Sound p
    → Sound (ensure_connected g up p)
unfolding ensure_connected
ensure_connected-Sound g up p new s =
    if_cases Sound p.closed (λ _. s)
      λ _.
        where_found p.dial
          (λ _.
            if_cases Sound (up && not (socket_lost p.dialer)) (λ _. s) λ _. begun-Sound g p new s)
          λ a e.
            let w = waited p a e s in
            joined-Sound g a p new s.held s.older w.counted w.free w.numbered

-- The caller `g` waited for another attempt than the one in flight.
other-Good :
    (g id : ℕ) (p : Provider) (a : DialAttempt)
    → get p.callers g ≡ some id
    → (a.id == id) ≡ false
    → Waited a p
    → Waited a (record p { callers = delete p.callers g })
other-Good g id p a found other w = record {
  counted = ground (arith, waiting-delete p.callers g a.id id found, w.counted, other);
  wanted = w.wanted;
  free = w.free;
  numbered = w.numbered;
}

-- The caller `g` is gone, and `o` is in flight.
abbrev gone : ℕ → Option DialAttempt → Provider → Provider
gone g o p = record p { dial = o; callers = delete p.callers g }

abbrev after_leaving : ℕ → ℕ → Provider → Option DialAttempt → Provider
after_leaving g id p o = if nobody_waits o then abandon id (gone g o p) else gone g o p

left-Sound :
    (g id : ℕ) (p : Provider) (a : DialAttempt)
    → Sound p
    → a.waiters ≡ waiting a.id (delete p.callers g)
    → (is_before_socket a.stage ≡ true → p.dialer.conn ≡ none)
    → a.id < p.attempts
    → ((a.id == id) ≡ false → a.waiters ≡ 0 → p.dialer.abandoned ≡ true)
    → Sound (after_leaving g id p (some a))
unfolding abandon
left-Sound g id p a s counted free numbered other =
    if_cases Sound (a.waiters == 0)
      (λ empty.
        if_cases Sound (a.id == id)
          (λ _. abandoned-Sound (gone g (some a) p) a refl s.held older counted numbered)
          λ differs. waited_for (other differs))
      λ some_wait. waited_for λ zero. absurd (ground (arith, some_wait, zero))
  where
    older : Older (delete p.callers g) p.attempts
    older = delete-Older p.callers g p.attempts s.older

    waited_for : (a.waiters ≡ 0 → p.dialer.abandoned ≡ true) → Sound (gone g (some a) p)
    waited_for wanted = record {
      held = s.held;
      older = older;
      attempt = record { counted = counted; wanted = wanted; free = free; numbered = numbered };
    }

leaving-Sound :
    (g id : ℕ) (p : Provider) (o : Option DialAttempt)
    → get p.callers g ≡ some id
    → p.dial ≡ o
    → Sound p
    → Sound (after_leaving g id p (left id o))
leaving-Sound g id p none found e s = record {
  held = s.held;
  older = delete-Older p.callers g p.attempts s.older;
  attempt = tt;
}
leaving-Sound g id p (some a) found e s =
    let w = waited p a e s in
    let count = waiting-delete p.callers g a.id id found in
    if_cases (λ o. Sound (after_leaving g id p o)) (a.id == id)
      (λ same.
        left-Sound g id p (record a { waiters = a.waiters - 1 }) s
          (ground (arith, count, w.counted, same)) w.free w.numbered
          λ other _. absurd (ground (arith, same, other)))
      λ other.
        left-Sound g id p a s (other-Good g id p a found other w).counted w.free w.numbered
          λ _ zero. w.wanted zero

pub abandon_dial-Sound :
    (g id : ℕ) (p : Provider) → get p.callers g ≡ some id → Sound p → Sound (abandon_dial g id p)
unfolding abandon_dial
abandon_dial-Sound g id p found s = leaving-Sound g id p p.dial found refl s

pub returned-Sound :
    (g id : ℕ) (o : Option DialAttempt) (p : Provider)
    → get p.callers g ≡ some id
    → p.dial ≡ o
    → Sound p
    → Sound (returned g id o p)
returned-Sound g id none p found e s = record {
  held = s.held;
  older = delete-Older p.callers g p.attempts s.older;
  attempt = subst (λ o. Good o (record p { callers = delete p.callers g })) (sym e) tt;
}
returned-Sound g id (some a) p found e s =
    if_cases Sound (a.id == id) (λ _. s)
      λ other. record {
        held = s.held;
        older = delete-Older p.callers g p.attempts s.older;
        attempt =
            subst (λ o. Good o (record p { callers = delete p.callers g })) (sym e)
              (other-Good g id p a found other (waited p a e s));
      }
