-- ===== src/ClientProxy/Create.antt =====
-- What `getOrCreateBinding` returns and stores.
use tcp_udp.Base.{◌≡◌, refl, ◌∙◌, Bool, true, false, none, some, [], append-nil}
use tcp_udp.Base.Int.{negsuc, eqb_ℤ}
use tcp_udp.Common.Endpoint.{Endpoint, any_loop_back}
use tcp_udp.Sys.Exec.{ok, thrown, continue}
use tcp_udp.Std.Text.{Bytes}
use tcp_udp.Std.Dict.{lookup, insert}
use tcp_udp.Sys.World.{World, Os, Reply, stream_connect}
use tcp_udp.Sys.Trace.{observe-snoc, writes_out}
use tcp_udp.Tcp.Session.{Session}
use tcp_udp.Tcp.Client
use tcp_udp.Tcp.Client.{TcpClient, connected}
use tcp_udp.ClientProxy.Binding
use tcp_udp.ClientProxy.Binding.{Binding, register_with_reactor}
use tcp_udp.ClientProxy.Manager.{Manager, Factory, create_binding, get_or_create_binding}

-- A binding as it is made: for this sender, over this session, and registered only with a reactor.
pub record IsFor (sender : Endpoint) (session : Session) (b : Binding) : Type 0 where
  pub for_sender : b.udp_sender ≡ sender
  pub over_session : b.tcp_session ≡ session
  pub has_reactor : b.registered ≡ true → b.reactor ≡ true

module _ (os : Os) where
  register_result :
      (client : TcpClient) (session : Session) (sender : Endpoint) (reactor : Bool) (w : World)
      → let r = register_with_reactor os (Binding.create client session sender) reactor w in
        (b : Binding) × (r.0 ≡ ok b)
        × IsFor sender session b
        × (writes_out r.1.calls ≡ writes_out w.calls)
  unfolding register_with_reactor Binding.create
  register_result client session sender false w =
      (_, refl, record { for_sender = refl; over_session = refl; has_reactor = λ h. cc }, refl)
  register_result client session sender true w = (
    _,
    refl,
    record { for_sender = refl; over_session = refl; has_reactor = λ h. refl },
    simp (observe-snoc, append-nil),
  )

  abbrev pub connect_reply : Factory → World → Reply
  connect_reply factory w = os.reply w.time (stream_connect any_loop_back factory.tcp_server)

  pub connect_made :
      (factory : Factory) (w : World)
      → eqb_ℤ (connect_reply factory w).value (negsuc 0) ≡ false
      → let c = Client.connect os Client.create any_loop_back factory.tcp_server w in
        (client : TcpClient) × (c.0
          ≡ ok (some (connected factory.tcp_server (connect_reply factory w)), client))
        × (writes_out c.1.calls ≡ writes_out w.calls)
  unfolding Client.connect
  connect_made factory w e =
      let session = connected factory.tcp_server (connect_reply factory w) in
      (
        record { session = some session; endpoints = session.endpoints },
        rw e refl,
        rw e (simp (observe-snoc, append-nil)),
      )

  pub connect_refused :
      (factory : Factory) (w : World)
      → eqb_ℤ (connect_reply factory w).value (negsuc 0) ≡ true
      → let c = Client.connect os Client.create any_loop_back factory.tcp_server w in
        (c.0 ≡ ok (none, Client.create)) × (writes_out c.1.calls ≡ writes_out w.calls)
  unfolding Client.connect
  connect_refused factory w e = (rw e refl, rw e (simp (observe-snoc, append-nil)))

  create_binding_made :
      (factory : Factory) (sender : Endpoint) (w : World)
      → eqb_ℤ (connect_reply factory w).value (negsuc 0) ≡ false
      → let c = create_binding os factory sender w in
        (b : Binding) × (c.0 ≡ ok b)
        × IsFor sender (connected factory.tcp_server (connect_reply factory w)) b
        × (writes_out c.1.calls ≡ writes_out w.calls)
  unfolding create_binding
  create_binding_made factory sender w e =
      let (client, gave, wrote) = connect_made factory w e in
      let w' = (Client.connect os Client.create any_loop_back factory.tcp_server w).1 in
      let session = connected factory.tcp_server (connect_reply factory w) in
      let (b, made, for, wrote') = register_result client session sender factory.reactor w' in
      (b, rw (gave, continue) made, for, rw (gave, continue) (wrote' ∙ wrote))

  create_binding_refused :
      (factory : Factory) (sender : Endpoint) (w : World)
      → eqb_ℤ (connect_reply factory w).value (negsuc 0) ≡ true
      → let c = create_binding os factory sender w in
        (c.0 ≡ thrown (record { format = "Failed to connect to TCP server"; args = [] }))
        × (writes_out c.1.calls ≡ writes_out w.calls)
  unfolding create_binding
  create_binding_refused factory sender w e =
      let (gave, wrote) = connect_refused factory w e in
      (rw (gave, continue) refl, rw (gave, continue) wrote)

  -- A known key gives its binding, and nothing changes.
  pub get_or_create_binding_known :
      (key : Bytes) (sender : Endpoint) (m : Manager) (b : Binding)
      → lookup key m.bindings ≡ some b
      → get_or_create_binding os key sender m ≡ (ok b, m)
  unfolding get_or_create_binding
  get_or_create_binding_known key sender m b e = rw e refl

  -- A new key is bound to a new connection to the server.
  pub get_or_create_binding_new :
      (key : Bytes) (sender : Endpoint) (m : Manager) (factory : Factory)
      → lookup key m.bindings ≡ none
      → m.factory ≡ some factory
      → eqb_ℤ (connect_reply factory m.world).value (negsuc 0) ≡ false
      → let g = get_or_create_binding os key sender m in
        (b : Binding) × (g.0 ≡ ok b)
        × IsFor sender (connected factory.tcp_server (connect_reply factory m.world)) b
        × (g.1.bindings ≡ insert key b m.bindings)
        × (writes_out g.1.world.calls ≡ writes_out m.world.calls)
  unfolding get_or_create_binding
  get_or_create_binding_new key sender m factory absent has accepts =
      let (b, made, for, wrote) = create_binding_made factory sender m.world accepts in
      (
        b,
        rw (absent, get_or_create_binding)
            (rw (has, get_or_create_binding) (rw (made, continue) refl)),
        for,
        rw (absent, get_or_create_binding)
            (rw (has, get_or_create_binding) (rw (made, continue) refl)),
        rw (absent, get_or_create_binding)
            (rw (has, get_or_create_binding) (rw (made, continue) wrote)),
      )

  -- Where the server cannot be reached, nothing is bound.
  pub get_or_create_binding_refused :
      (key : Bytes) (sender : Endpoint) (m : Manager) (factory : Factory)
      → lookup key m.bindings ≡ none
      → m.factory ≡ some factory
      → eqb_ℤ (connect_reply factory m.world).value (negsuc 0) ≡ true
      → let g = get_or_create_binding os key sender m in
        (g.0 ≡ thrown (record { format = "Failed to connect to TCP server"; args = [] }))
        × (g.1.bindings ≡ m.bindings)
        × (writes_out g.1.world.calls ≡ writes_out m.world.calls)
  unfolding get_or_create_binding
  get_or_create_binding_refused key sender m factory absent has refuses =
      let (gave, wrote) = create_binding_refused factory sender m.world refuses in
      (
        rw (absent, get_or_create_binding)
            (rw (has, get_or_create_binding) (rw (gave, continue) refl)),
        rw (absent, get_or_create_binding)
            (rw (has, get_or_create_binding) (rw (gave, continue) refl)),
        rw (absent, get_or_create_binding)
            (rw (has, get_or_create_binding) (rw (gave, continue) wrote)),
      )

  -- Without a factory nothing is bound either.
  pub get_or_create_binding_unset :
      (key : Bytes) (sender : Endpoint) (m : Manager)
      → lookup key m.bindings ≡ none
      → m.factory ≡ none
      → (get_or_create_binding os key sender m).1.bindings ≡ m.bindings
  unfolding get_or_create_binding
  get_or_create_binding_unset key sender m absent unset =
      rw (absent, get_or_create_binding) (rw (unset, get_or_create_binding) refl)
