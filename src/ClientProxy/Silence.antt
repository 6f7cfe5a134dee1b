-- ===== src/ClientProxy/Silence.antt =====
-- The handler of a datagram sends no datagram, and the handler of a binding writes to no connection.
use tcp_udp.Base.{
  ℕ, ◌≡◌, refl, ap, ◌∙◌, inl, inr, Bool, true, ◌&&◌, not, Option, List, [], ◌∷◌, ◌++◌, append-nil,
  arith, Bool-cases, Option-cases,
}
use tcp_udp.Base.Int.{ℤ, negsuc, eqb_ℤ}
use tcp_udp.Std.Text.{Bytes}
use tcp_udp.Std.Dict.{lookup}
use tcp_udp.Common.Endpoint.{Endpoint, print, any, any_loop_back}
use tcp_udp.Sys.Exec.{continue, Result-cases}
use tcp_udp.Sys.World.{
  Call, Reply, TimeValue, stream_connect, stream_linger, stream_send, dgram_recv, register_handler,
  binding, World, Os, IsPosix,
}
use tcp_udp.Sys.Trace.{observe, datagram_out, observe-snoc, datagrams_out, writes_out}
use tcp_udp.Io.{timeout}
use tcp_udp.Io.Classify.{IoResultCode-cases}
use tcp_udp.Tcp.Client
use tcp_udp.Tcp.Client.{TcpClient, connected}
use tcp_udp.ClientProxy.Binding
use tcp_udp.ClientProxy.Binding.{Binding, register_with_reactor, handle_input}
use tcp_udp.ClientProxy.Manager.{Manager, Factory, create_binding, get_or_create_binding}
use tcp_udp.ClientProxy.SessionHandler.{read_udp_message}
use tcp_udp.ClientProxy.Handler.{ClientProxy, session_handler, deliver, handle_client}
use tcp_udp.ClientProxy.Input.{
  after_read, handle_client_delivers, handle_client_throws_calls, read_calls,
}
use tcp_udp.ClientProxy.Delivery.{send_to_tcp_server-calls}
use tcp_udp.ClientProxy.Create.{connect_reply, connect_made, connect_refused}
use tcp_udp.ClientProxy.Responses.{got, outcome, asked, handle_input_end-calls, handle_input_data}

-- An observer of none of the calls that the handler of a datagram makes.
pub record IsDeaf {A : Type 0} (f : Call → Reply → List A) : Type 0 where
  pub connects : (a b : Endpoint) (r : Reply) → f (stream_connect a b) r ≡ []
  pub lingers : (s : Option ℕ) (r : Reply) → f (stream_linger s) r ≡ []
  pub registers : (s : Option ℕ) (r : Reply) → f (register_handler (binding s)) r ≡ []
  pub receives :
      (s : Option ℕ) (n : ℤ) (d : Option TimeValue) (r : Reply) → f (dgram_recv s n d) r ≡ []
  pub writes :
      (s : Option ℕ) (bytes : Bytes) (n : ℤ) (d : Option TimeValue) (r : Reply)
      → f (stream_send s bytes n d) r ≡ []

module _ {A : Type 0} (os : Os) (f : Call → Reply → List A) (deaf : IsDeaf f) where
  connect-observe :
      (factory : Factory) (w : World)
      → observe f (Client.connect os Client.create any_loop_back factory.tcp_server w).1.calls
        ≡ observe f w.calls
  unfolding Client.connect
  connect-observe factory w =
      elim (Bool-cases (eqb_ℤ (connect_reply os factory w).value (negsuc 0))) [
        | inl e ↦ rw e (simp (observe-snoc, append-nil, deaf.connects))
        | inr e ↦ rw e (simp (observe-snoc, append-nil, deaf.connects, deaf.lingers))
      ]

  register-observe :
      (b : Binding) (reactor : Bool) (w : World)
      → observe f (register_with_reactor os b reactor w).1.calls ≡ observe f w.calls
  unfolding register_with_reactor
  register-observe b reactor w = elim (Bool-cases (not b.registered && reactor)) [
    | inl e ↦ rw e (simp (observe-snoc, append-nil, deaf.registers))
    | inr e ↦ rw e refl
  ]

  create_binding-observe :
      (factory : Factory) (sender : Endpoint) (w : World)
      → observe f (create_binding os factory sender w).1.calls ≡ observe f w.calls
  unfolding create_binding
  create_binding-observe factory sender w =
      elim (Bool-cases (eqb_ℤ (connect_reply os factory w).value (negsuc 0))) [
        | inl refuses ↦
            let (gave, _) = connect_refused os factory w refuses in
            rw (gave, continue) (connect-observe factory w)
        | inr accepts ↦
            let (client, gave, _) = connect_made os factory w accepts in
            let w' = (Client.connect os Client.create any_loop_back factory.tcp_server w).1 in
            rw (gave, continue)
              (register-observe
                  (Binding.create client (connected factory.tcp_server (connect_reply os factory w))
                    sender)
                  factory.reactor w'
                ∙ connect-observe factory w)
      ]

  get_or_create_binding-observe :
      (key : Bytes) (sender : Endpoint) (m : Manager)
      → observe f (get_or_create_binding os key sender m).1.world.calls ≡ observe f m.world.calls
  unfolding get_or_create_binding
  get_or_create_binding-observe key sender m = elim (Option-cases (lookup key m.bindings)) [
    | inr (b, found) ↦ rw found refl
    | inl absent ↦ elim (Option-cases m.factory) [
      | inl unset ↦ rw (absent, get_or_create_binding) (rw (unset, get_or_create_binding) refl)
      | inr (made_by, has) ↦ elim (Result-cases (create_binding os made_by sender m.world).0) [
        | inl (b, e) ↦
            rw (absent, get_or_create_binding)
              (rw (has, get_or_create_binding)
                (rw (e, continue) (create_binding-observe made_by sender m.world)))
        | inr (msg, e) ↦
            rw (absent, get_or_create_binding)
              (rw (has, get_or_create_binding)
                (rw (e, continue) (create_binding-observe made_by sender m.world)))
      ]
    ]
  ]

  module _ (socket : Option ℕ) where
    pub deliver-observe :
        (received : Bytes) (sender : Endpoint) (p : ClientProxy)
        → observe f (deliver os socket received sender p).1.manager.world.calls
          ≡ observe f p.manager.world.calls
    unfolding deliver
    deliver-observe received sender p =
        let quiet = get_or_create_binding-observe (print sender) sender p.manager in
        let w = (get_or_create_binding os (print sender) sender p.manager).1.world in
        elim (Result-cases (get_or_create_binding os (print sender) sender p.manager).0) [
          | inl (b, e) ↦
              rw (e, continue)
                (rw (send_to_tcp_server-calls os socket b received sender w)
                  (simp (observe-snoc, append-nil, deaf.writes) quiet))
          | inr (m, e) ↦ rw (e, continue) quiet
        ]

    pub after_read-observe :
        (p : ClientProxy)
        → observe f (after_read os socket p).manager.world.calls ≡ observe f p.manager.world.calls
    after_read-observe p =
        rw (read_calls os socket (session_handler p))
          (simp (observe-snoc, append-nil, deaf.receives))

    -- Such an observer sees nothing of the handler of a datagram.
    pub handle_client-observe :
        (p : ClientProxy)
        → observe f (handle_client os socket p).1.manager.world.calls
          ≡ observe f p.manager.world.calls
    handle_client-observe p =
        let after = after_read os socket p in
        let read = after_read-observe p in
        elim (Result-cases (read_udp_message os socket any (session_handler p)).0) [
          | inl ((received, sender), e) ↦
              let (_, made, _) = handle_client_delivers os socket p received sender e in
              ap (observe f) made ∙ deliver-observe received sender after ∙ read
          | inr (m, e) ↦ ap (observe f) (handle_client_throws_calls os socket p m e) ∙ read
        ]

-- No datagram is sent.
pub datagram_out-IsDeaf : IsDeaf datagram_out
datagram_out-IsDeaf = record {
  connects = λ a b r. refl;
  lingers = λ s r. refl;
  registers = λ s r. refl;
  receives = λ s n d r. refl;
  writes = λ s bytes n d r. refl;
}

module _ (os : Os) (socket : Option ℕ) (b : Binding) (w : World) where
  handle_input_timeout-calls :
      (outcome os socket b w).code ≡ timeout
      → (handle_input os socket b w).1.calls
        ≡ w.calls ++ (asked os socket b w, got os socket b w) ∷ []
  unfolding handle_input
  handle_input_timeout-calls slow = ground arith

  -- A binding whose connection gives nothing in time sends nothing.
  pub handle_input_timeout :
      (outcome os socket b w).code ≡ timeout
      → datagrams_out (handle_input os socket b w).1.calls ≡ datagrams_out w.calls
  handle_input_timeout slow = rw (handle_input_timeout-calls slow) (simp (observe-snoc, append-nil))

  -- A binding writes nothing to the TCP server.
  pub handle_input-writes_out :
      IsPosix os
      → (b.registered ≡ true → b.reactor ≡ true)
      → writes_out (handle_input os socket b w).1.calls ≡ writes_out w.calls
  handle_input-writes_out posix sound = elim (IoResultCode-cases (outcome os socket b w).code) [
    | inl (inl good) ↦
        rw ((handle_input_data os socket b w posix good).1) (simp (observe-snoc, append-nil))
    | inl (inr slow) ↦ rw (handle_input_timeout-calls slow) (simp (observe-snoc, append-nil))
    | inr over ↦
        rw ((handle_input_end-calls os socket b w over sound).1) (elim (Bool-cases b.registered) [
          | inl e ↦ rw e (simp (observe-snoc, append-nil))
          | inr e ↦ rw e (simp (observe-snoc, append-nil))
        ])
  ]
