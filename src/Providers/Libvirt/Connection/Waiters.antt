-- ===== src/Providers/Libvirt/Connection/Waiters.antt =====
-- internal/providers/libvirt/libvirt.go: an attempt counts the callers that wait for it.
use cluster_api_provider_hyd.Base.{
  ℕ, ◌+◌, ◌<◌, ◌≤◌, Bool, true, false, none, some, ◌≡◌, inl, inr, ◌==◌, nat_eq, arith, tally,
  zero_or_pos, ==_refl,
}
use cluster_api_provider_hyd.Base.Dict.{
  Dict, get, put, delete, total, total-put_new, total-delete_of, total_pos, get-put, get-delete,
}
use cluster_api_provider_hyd.Providers.Libvirt.Connection.{
  Stage, not_dialed, connecting, DialAttempt, Provider,
}

abbrev mine : ℕ → ℕ → ℕ → ℕ
mine id g i = tally (i == id)

-- How many callers wait for the attempt.
abbrev pub waiting : ℕ → Dict ℕ ℕ → ℕ
waiting id callers = total (mine id) callers

-- No caller waits for an attempt that has not begun.
abbrev pub Older : Dict ℕ ℕ → ℕ → Type 0
Older callers attempts = (g id : ℕ) → get callers g ≡ some id → id < attempts

module _ (callers : Dict ℕ ℕ) (g : ℕ) where
  pub waiting-put :
      (id : ℕ) → get callers g ≡ none → waiting id (put callers g id) ≡ waiting id callers + 1
  waiting-put id new = ground (arith, total-put_new (mine id) callers g id new, ==_refl id)

  pub waiting-delete :
      (id i : ℕ)
      → get callers g ≡ some i
      → waiting id (delete callers g) + tally (i == id) ≡ waiting id callers
  waiting-delete id i found = total-delete_of (mine id) callers g i found

  pub waiting_new : (attempts : ℕ) → Older callers attempts → waiting attempts callers ≡ 0
  waiting_new attempts older = elim (zero_or_pos (waiting attempts callers)) [
    | inl zero ↦ zero
    | inr some_wait ↦
        let (h, id, found, same) = total_pos (mine attempts) callers some_wait in
        absurd (ground (arith, older h id found, same))
  ]

  pub put-Older :
      (id attempts more : ℕ)
      → Older callers attempts
      → attempts ≤ more
      → id < more
      → Older (put callers g id) more
  put-Older id attempts more older grows new h i found =
      ground (arith, get-put callers g h id, older h i, found)

  pub delete-Older : (attempts : ℕ) → Older callers attempts → Older (delete callers g) attempts
  delete-Older attempts older h i found = ground (arith, get-delete callers g h, older h i, found)

abbrev pub is_before_socket : Stage → Bool
is_before_socket not_dialed = true
is_before_socket connecting = true
is_before_socket stage = false

-- The attempt in flight counts who waits for it, was given up on once nobody does, and has no socket
-- before its dial has brought one.
pub record Waited (a : DialAttempt) (p : Provider) : Type 0 where
  pub counted : a.waiters ≡ waiting a.id p.callers
  pub wanted : a.waiters ≡ 0 → p.dialer.abandoned ≡ true
  pub free : is_before_socket a.stage ≡ true → p.dialer.conn ≡ none
  pub numbered : a.id < p.attempts
