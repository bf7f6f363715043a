-- ===== src/Providers/Libvirt/Client/Journal.antt =====
-- internal/providers/libvirt/libvirt.go: rules for the order of the calls of libvirtd.
use cluster_api_provider_hyd.Base.{Option, none, some, List, [], ◌∷◌}
use cluster_api_provider_hyd.Base.Exec.{
  Result, ok, err, Exec, pure, raise, ◌>>=◌, Keeps, Keeps-pure, Keeps-raise, Keeps-bind, continue,
  Post,
}
use cluster_api_provider_hyd.Providers.Errors.{Error, other}
use cluster_api_provider_hyd.Providers.Libvirt.Client.{
  Client, Run, Call, Answer, Event, RpcError, noted, answered, call, or_other, ask, begun, begin,
  context_over,
}

-- Every call has what a rule asks of the calls before it.
abbrev pub Orderly : (Call → List Event → Type 0) → List Event → Type 0
Orderly rule [] = Unit
Orderly rule (e ∷ past) = rule e.call past × Orderly rule past

module _ {H : Type 0} (client : Client H) (P : List Event → Type 0) where
  -- A predicate of the journal.
  abbrev pub Logged : Run H → Type 0
  Logged s = P s.journal

  answered-Logged :
      (c : Call) (o : Option (Result RpcError (Answer c)) × H) (past : List Event)
      → ((r : Result RpcError (Answer c)) → P (record { call = c; answer = r } ∷ past))
      → Logged (answered client c o past).1
  answered-Logged c (none, h) past grow = grow (err _)
  answered-Logged c (some r, h) past grow = grow r

  begun-Logged :
      (o : Option Error × H) (past : List Event) → P past → Logged (begun client o past).1
  begun-Logged (none, h) past kept = kept
  begun-Logged (some e, h) past kept = kept

  pub Keeps-call :
      (c : Call)
      → ((r : Result RpcError (Answer c)) (past : List Event)
          → P past
          → P (record { call = c; answer = r } ∷ past))
      → Keeps Logged (call client c)
  unfolding call
  Keeps-call c grow = record {
    at = λ s kept. answered-Logged c (client.rpc c s.host) s.journal λ r. grow r s.journal kept;
  }

  pub Keeps-begin : Keeps Logged (begin client)
  unfolding begin
  Keeps-begin = record { at = λ s kept. begun-Logged (client.begin s.host) s.journal kept }

  pub Keeps-context_over : Keeps Logged (context_over client)
  unfolding context_over
  Keeps-context_over = record { at = λ s kept. kept }

  pub Keeps-or_other : {A : Type 0} (r : Result RpcError A) → Keeps Logged (or_other client r)
  Keeps-or_other (ok a) = Keeps-pure a
  Keeps-or_other (err e) = Keeps-raise other

  pub Keeps-ask :
      (c : Call)
      → ((r : Result RpcError (Answer c)) (past : List Event)
          → P past
          → P (record { call = c; answer = r } ∷ past))
      → Keeps Logged (ask client c)
  Keeps-ask c grow = Keeps-bind (call client c) (or_other client) (Keeps-call c grow) Keeps-or_other

  answered-then :
      {A : Type 0} (c : Call) (f : Result RpcError (Answer c) → Exec Error (Run H) A)
      (o : Option (Result RpcError (Answer c)) × H) (past : List Event)
      → ((r : Result RpcError (Answer c)) (h : H) → Logged (f r (noted c r h past)).1)
      → Logged (continue (answered client c o past).0 f (answered client c o past).1).1
  answered-then c f (none, h) past grow = grow (err _) _
  answered-then c f (some r, h) past grow = grow r h

  -- What a call is followed by may look at its answer, which stands last in the journal.
  pub Logged-then :
      {A : Type 0} (c : Call) (f : Result RpcError (Answer c) → Exec Error (Run H) A) (s : Run H)
      → ((r : Result RpcError (Answer c)) (h : H) → Logged (f r (noted c r h s.journal)).1)
      → Logged ((call client c >>= f) s).1
  unfolding call ◌>>=◌
  Logged-then c f s grow = answered-then c f (client.rpc c s.host) s.journal grow

  pub Keeps-then :
      {A : Type 0} (c : Call) (f : Result RpcError (Answer c) → Exec Error (Run H) A)
      → ((r : Result RpcError (Answer c)) (h : H) (past : List Event)
          → P past
          → Logged (f r (noted c r h past)).1)
      → Keeps Logged (call client c >>= f)
  Keeps-then c f grow = record { at = λ s kept. Logged-then c f s λ r h. grow r h s.journal kept }

  asked-then :
      {A : Type 0} (c : Call) (f : Answer c → Exec Error (Run H) A)
      (o : Option (Result RpcError (Answer c)) × H) (past : List Event)
      → ((a : Answer c) (h : H) → Logged (f a (noted c (ok a) h past)).1)
      → ((e : RpcError) → P (record { call = c; answer = err e } ∷ past))
      → let t = answered client c o past in
        let u = continue t.0 (or_other client) t.1 in Logged (continue u.0 f u.1).1
  unfolding raise pure
  asked-then c f (none, h) past good bad = bad _
  asked-then c f (some (ok a), h) past good bad = good a h
  asked-then c f (some (err e), h) past good bad = bad e

  pub Keeps-asked :
      {A : Type 0} (c : Call) (f : Answer c → Exec Error (Run H) A)
      → ((a : Answer c) (h : H) (past : List Event)
          → P past
          → Logged (f a (noted c (ok a) h past)).1)
      → ((e : RpcError) (past : List Event)
          → P past
          → P (record { call = c; answer = err e } ∷ past))
      → Keeps Logged (ask client c >>= f)
  unfolding call ◌>>=◌
  Keeps-asked c f good bad = record {
    at = λ s kept.
        asked-then c f (client.rpc c s.host) s.journal (λ a h. good a h s.journal kept)
          λ e. bad e s.journal kept;
  }

  pub Logged-ask :
      (c : Call) (s : Run H)
      → ((r : Result RpcError (Answer c)) → P (record { call = c; answer = r } ∷ s.journal))
      → Logged (ask client c s).1
  Logged-ask c s grow = Logged-then c (or_other client) s λ r h. (Keeps-or_other r).at _ (grow r)

module _ {H : Type 0} (client : Client H) {A : Type 0} (Q : A → Run H → Type 0)
    (R : Run H → Type 0) where
  answered-Post :
      (c : Call) (f : Result RpcError (Answer c) → Exec Error (Run H) A)
      (o : Option (Result RpcError (Answer c)) × H) (past : List Event)
      → ((r : Result RpcError (Answer c)) (h : H) → Post Q R (f r (noted c r h past)))
      → Post Q R (continue (answered client c o past).0 f (answered client c o past).1)
  answered-Post c f (none, h) past post = post (err _) _
  answered-Post c f (some r, h) past post = post r h

  pub Post-then :
      (c : Call) (f : Result RpcError (Answer c) → Exec Error (Run H) A) (s : Run H)
      → ((r : Result RpcError (Answer c)) (h : H) → Post Q R (f r (noted c r h s.journal)))
      → Post Q R ((call client c >>= f) s)
  unfolding call ◌>>=◌
  Post-then c f s post = answered-Post c f (client.rpc c s.host) s.journal post

  asked-Post :
      (c : Call) (f : Answer c → Exec Error (Run H) A) (o : Option (Result RpcError (Answer c)) × H)
      (past : List Event)
      → ((a : Answer c) (h : H) → Post Q R (f a (noted c (ok a) h past)))
      → ((t : Run H) → R t)
      → let t = answered client c o past in
        let u = continue t.0 (or_other client) t.1 in Post Q R (continue u.0 f u.1)
  unfolding raise pure
  asked-Post c f (none, h) past good bad = bad _
  asked-Post c f (some (ok a), h) past good bad = good a h
  asked-Post c f (some (err e), h) past good bad = bad _

  pub Post-asked :
      (c : Call) (f : Answer c → Exec Error (Run H) A) (s : Run H)
      → ((a : Answer c) (h : H) → Post Q R (f a (noted c (ok a) h s.journal)))
      → ((t : Run H) → R t)
      → Post Q R ((ask client c >>= f) s)
  unfolding call ◌>>=◌
  Post-asked c f s good bad = asked-Post c f (client.rpc c s.host) s.journal good bad
