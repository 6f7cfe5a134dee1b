-- ===== src/ClientProxy/Destroying.antt =====
-- What the client proxy gives back when it is destroyed.
use tcp_udp.Base.{
  ℕ, ◌≡◌, refl, sym, ap, subst, ◌∙◌, inl, inr, true, false, Option, none, some, List, [], ◌∷◌, ◌++◌,
  append-nil, append_assoc, if◌then◌else◌, Bool-cases, Option-cases, ◌⊎◌, All, Bool,
}
use tcp_udp.Std.Text.{Bytes}
use tcp_udp.Common.Endpoint.{Endpoint}
use tcp_udp.Sys.Exec.{Exec, ok, continue, ◌>>=◌, pure}
use tcp_udp.Sys.World.{World, Os, Call, Reply, ask, log, binding, remove_handler, stream_close}
use tcp_udp.Sys.Trace.{observe, observe-snoc}
use tcp_udp.Tcp.Session
use tcp_udp.Tcp.Session.{Session, Side, client_session, server_session}
use tcp_udp.Tcp.Client
use tcp_udp.Tcp.Client.{TcpClient}
use tcp_udp.ClientProxy.Binding
use tcp_udp.ClientProxy.Binding.{Binding, unregister_from_reactor}
use tcp_udp.ClientProxy.Handler.{create}
use tcp_udp.ClientProxy.Invariant.{IsKeyed}
use tcp_udp.ClientProxy.Runs.{Event, run, run-create-IsSound}
use tcp_udp.ClientProxy.Assembly.{destroy_each, destroy_bindings}

-- The calls that take a binding off the reactor or close a connection.
abbrev pub give_back : Call → Reply → List Call
give_back (remove_handler (binding s)) r = remove_handler (binding s) ∷ []
give_back (stream_close s) r = stream_close s ∷ []
give_back _ r = []

abbrev pub given_back : World → List Call
given_back w = observe give_back w.calls

-- A client's session without a socket is not closed, a server's is.
abbrev pub closing : Side → Option ℕ → List Call
closing client_session none = []
closing client_session (some h) = stream_close (some h) ∷ []
closing server_session s = stream_close s ∷ []

-- The owner of a session closes it and drops it; the destructor of the session closes it again, which
-- has no socket by then.
abbrev pub dropping : Option Session → List Call
dropping none = []
dropping (some s) = closing s.side s.socket ++ closing s.side none

Side-cases : (s : Side) → (s ≡ client_session) ⊎ (s ≡ server_session)
Side-cases client_session = inl refl
Side-cases server_session = inr refl

abbrev pub leaving : Bool → Option ℕ → List Call
leaving registered s = if registered then remove_handler (binding s) ∷ [] else []

-- For each binding in its order: it leaves the reactor, if it is registered, and then its client's
-- connection is closed.
abbrev pub leaving_all : List (Bytes × Binding) → List Call
leaving_all [] = []
leaving_all ((key, b) ∷ rest) =
    (leaving b.registered b.tcp_session.socket ++ dropping b.client.session) ++ leaving_all rest

module _ (os : Os) where
  -- The calls of an action that returns.
  record Gives {A : Type 0} (m : Exec World A) (w : World) (a : A) (calls : List Call)
      : Type 0 where
    returns : (m w).0 ≡ ok a
    gives : given_back (m w).1 ≡ given_back w ++ calls

  -- One action after another.
  then-Gives :
      {A B : Type 0} {m : Exec World A} {w : World} {a : A} {b : B} {l k : List Call}
      (f : A → Exec World B)
      → Gives m w a l
      → Gives (f a) (m w).1 b k
      → Gives (m >>= f) w b (l ++ k)
  then-Gives {w = w} {l = l} {k = k} f first second = record {
    returns = rw (first.returns, continue) second.returns;
    gives =
        rw (first.returns, continue)
          (second.gives ∙ ap (λ c. c ++ k) first.gives ∙ append_assoc (given_back w) l k);
  }

  then_quiet-Gives :
      {A B : Type 0} {m : Exec World A} {w : World} {a : A} {b : B} {l : List Call}
      (f : A → Exec World B)
      → Gives m w a l
      → (f a (m w).1).0 ≡ ok b
      → given_back (f a (m w).1).1 ≡ given_back (m w).1
      → Gives (m >>= f) w b l
  then_quiet-Gives f first result same = record {
    returns = rw (first.returns, continue) result;
    gives = rw (first.returns, continue) (same ∙ first.gives);
  }

  pure-Gives : {A : Type 0} (a : A) (w : World) → Gives (pure a) w a []
  pure-Gives a w = record { returns = refl; gives = sym (append-nil (given_back w)) }

  -- A session is closed.
  close-Gives :
      (s : Session) (w : World)
      → Gives (Session.close os s) w (record s { socket = none }) (closing s.side s.socket)
  unfolding Session.close ask
  close-Gives s w = elim (Side-cases s.side) [
    | inr e ↦ rw e (record { returns = refl; gives = simp (observe-snoc) })
    | inl e ↦ elim (Option-cases s.socket) [
      | inl f ↦ rw e (rw f (record { returns = refl; gives = sym (append-nil (given_back w)) }))
      | inr (h, f) ↦ rw e (rw f (record { returns = refl; gives = simp (observe-snoc) }))
    ]
  ]

  drop-Gives :
      (c : TcpClient) (o : Option Session) (w : World)
      → (c' : TcpClient) × Gives (Client.drop_session os c o) w c' (dropping o)
  unfolding Client.drop_session log
  drop-Gives c none w = (c, pure-Gives c w)
  drop-Gives c (some s) w = (
    record c { session = none },
    then-Gives _ (close-Gives s w) (
        then_quiet-Gives _ (close-Gives (record s { socket = none }) (Session.close os s w).1) refl
          refl),
  )

  withdraw-Gives :
      (b : Binding) (w : World)
      → (b.registered ≡ true → b.reactor ≡ true)
      → (b' : Binding) × (b'.client ≡ b.client)
        × Gives (unregister_from_reactor os b) w b' (leaving b.registered b.tcp_session.socket)
  unfolding unregister_from_reactor ask
  withdraw-Gives b w sound = elim (Bool-cases b.registered) [
    | inl e ↦ (
      record b { reactor = false; registered = false },
      refl,
      rw (e, sound e) (record { returns = refl; gives = simp (observe-snoc) }),
    )
    | inr e ↦ (
      record b { registered = false },
      refl,
      rw e (pure-Gives (record b { registered = false }) w),
    )
  ]

  destroy-Gives :
      (b : Binding) (w : World)
      → (b.registered ≡ true → b.reactor ≡ true)
      → Gives
          (Binding.destroy os b)
          w
          tt
          (leaving b.registered b.tcp_session.socket ++ dropping b.client.session)
  unfolding Binding.destroy Client.disconnect
  destroy-Gives b w sound =
      let (b', same, left) = withdraw-Gives b w sound in
      let (c', dropped) =
        drop-Gives b'.client b'.client.session (unregister_from_reactor os b w).1 in
      subst
        (λ c.
          Gives (Binding.destroy os b) w tt
            (leaving b.registered b.tcp_session.socket ++ dropping c.session))
        same (then-Gives _ left (then_quiet-Gives _ dropped refl refl))

  destroy_each-Gives :
      (l : List (Bytes × Binding)) (w : World)
      → All IsKeyed l
      → Gives (destroy_each os l) w tt (leaving_all l)
  unfolding destroy_each
  destroy_each-Gives [] w h = pure-Gives tt w
  destroy_each-Gives ((key, b) ∷ rest) w (keyed, h) =
      then-Gives _ (destroy-Gives b w keyed.has_reactor)
        (destroy_each-Gives rest (Binding.destroy os b w).1 h)

  -- When the handler of a client proxy is destroyed, after any events, each of its bindings, in the order of the list,
  -- is taken off the reactor once, if it is registered there, and only then does its client close
  -- its connection; nothing else is taken off or closed, nothing throws, and no binding is left.
  pub run-destroy_bindings :
      (socket : Option ℕ) (tcp_server : Endpoint) (w : World) (es : List Event)
      → let p = run os socket es (create tcp_server w) in
        let (result, q) = destroy_bindings os p in
        (result ≡ ok tt)
        × (given_back q.manager.world
            ≡ given_back p.manager.world ++ leaving_all p.manager.bindings)
        × (q.manager.bindings ≡ [])
  unfolding destroy_bindings
  run-destroy_bindings socket tcp_server w es =
      let p = run os socket es (create tcp_server w) in
      let sound = run-create-IsSound os socket tcp_server w es in
      let all = destroy_each-Gives p.manager.bindings p.manager.world sound.is_keyed in
      rw (all.returns, continue) (refl, all.gives, refl)
