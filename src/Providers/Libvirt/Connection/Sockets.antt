-- ===== src/Providers/Libvirt/Connection/Sockets.antt =====
-- internal/providers/libvirt/transport.go: no socket is forgotten. Each one is held by the dialer or was
-- handed over to be closed, and an abandoned attempt holds none.
use cluster_api_provider_hyd.Base.{
  ℕ, ◌+◌, ◌<◌, true, false, Option, none, some, List, ◌∷◌, ◌≡◌, refl, sym, ap, ◌⊎◌, inl, inr, ◌==◌,
  nat_eq, contains, arith, Bool-cases,
}
use cluster_api_provider_hyd.Providers.Libvirt.Transport.{
  TrackingDialer, detach, begin_attempt, abandon_attempt, register,
}
use cluster_api_provider_hyd.Providers.Libvirt.Connection.{handed}

abbrev pub Kept : Option ℕ → List ℕ → ℕ → Type 0
Kept conn closing s = (conn ≡ some s) ⊎ (contains s closing ≡ true)

-- Of `sockets` that arrived.
pub record Held (d : TrackingDialer) (sockets : ℕ) (closing : List ℕ) : Type 0 where
  pub dropped : d.abandoned ≡ true → d.conn ≡ none
  pub kept : (s : ℕ) → s < sockets → Kept d.conn closing s

handed-Kept :
    (conn : Option ℕ) (closing : List ℕ) (s : ℕ)
    → Kept conn closing s
    → contains s (handed conn closing) ≡ true
handed-Kept none closing s h = ground (arith, h)
handed-Kept (some t) closing s h = ground (arith, h)

last_or_before : (s n : ℕ) → s < n + 1 → (s ≡ n) ⊎ (s < n)
last_or_before s n h = elim (Bool-cases (s == n)) [
  | inl same ↦ inl (ground arith)
  | inr other ↦ inr (ground arith)
]

arrived :
    (conn : Option ℕ) (closing : List ℕ) (s n : ℕ)
    → s < n + 1
    → (s < n → Kept conn closing s)
    → Kept conn (n ∷ closing) s
arrived conn closing s n h k = elim (last_or_before s n h) [
  | inl same ↦ inr (ground arith)
  | inr before ↦ elim (k before) [ inl held ↦ inl held | inr there ↦ inr (ground arith) ]
]

module _ (d : TrackingDialer) (sockets : ℕ) (closing : List ℕ) (h : Held d sockets closing) where
  pub detach-Held : Held (detach d) sockets (handed d.conn closing)
  unfolding detach
  detach-Held = record {
    dropped = λ _. refl;
    kept = λ s less. inr (handed-Kept d.conn closing s (h.kept s less));
  }

  pub begin_attempt-Held : Held (begin_attempt d) sockets (handed d.conn closing)
  unfolding begin_attempt detach
  begin_attempt-Held = record {
    dropped = λ _. refl;
    kept = λ s less. inr (handed-Kept d.conn closing s (h.kept s less));
  }

  pub abandon_attempt-Held : Held (abandon_attempt d) sockets (handed d.conn closing)
  unfolding abandon_attempt detach
  abandon_attempt-Held = record {
    dropped = λ _. refl;
    kept = λ s less. inr (handed-Kept d.conn closing s (h.kept s less));
  }

  -- A socket that arrives and is closed.
  pub late-Held : Held d (sockets + 1) (sockets ∷ closing)
  late-Held = record {
    dropped = h.dropped;
    kept = λ s less. arrived d.conn closing s sockets less (h.kept s);
  }

  pub register-Held :
      d.conn ≡ none → d.abandoned ≡ false → Held (register sockets d) (sockets + 1) closing
  unfolding register
  register-Held free active = record {
    dropped = λ gone. ground (arith, gone, active);
    kept = λ s less. elim (last_or_before s sockets less) [
      | inl same ↦ inl (ap some (sym same))
      | inr before ↦ elim (h.kept s before) [
        | inl held ↦ absurd (ground (arith, held, free))
        | inr there ↦ inr there
      ]
    ];
  }
