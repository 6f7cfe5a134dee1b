-- ===== src/ClientProxy/Delivery.antt =====
-- Where the client proxy writes the datagrams of a sender.
use tcp_udp.Base.{ℕ, ◌≡◌, ◌≢◌, refl, ap, ◌∙◌, true, false, Option, none, some, [], ◌∷◌, ◌++◌, arith}
use tcp_udp.Base.Int.{negsuc, eqb_ℤ}
use tcp_udp.Std.Text.{Bytes}
use tcp_udp.Std.Dict.{lookup, lookup-insert_self, lookup-insert_ne}
use tcp_udp.Common.Endpoint.{Endpoint, print}
use tcp_udp.Common.Buffer.{standard_timeout}
use tcp_udp.Sys.Exec.{Message, ok, thrown, continue}
use tcp_udp.Sys.World.{World, Os}
use tcp_udp.Sys.Trace.{observe-snoc, writes_out}
use tcp_udp.Tcp.Session.{Session}
use tcp_udp.Tcp.Effects.{write_call, write_reply}
use tcp_udp.Tcp.Client.{connected}
use tcp_udp.ClientProxy.Binding.{Binding}
use tcp_udp.ClientProxy.Manager.{Factory, get_or_create_binding}
use tcp_udp.ClientProxy.Handler.{ClientProxy, send_to_tcp_server, deliver}
use tcp_udp.ClientProxy.Create.{
  IsFor, connect_reply, get_or_create_binding_known, get_or_create_binding_new,
  get_or_create_binding_refused,
}

module _ (os : Os) (socket : Option ℕ) where
  pub send_to_tcp_server-calls :
      (b : Binding) (received : Bytes) (sender : Endpoint) (w : World)
      → (send_to_tcp_server os socket b received sender w).1.calls
        ≡ w.calls
          ++ (
            write_call os b.tcp_session received (some standard_timeout) w,
            write_reply os b.tcp_session received (some standard_timeout) w,
          )
            ∷ []
  unfolding send_to_tcp_server
  send_to_tcp_server-calls b received sender w = ground arith

  -- The bytes go to the session of the binding that the manager gives, and the bindings are those
  -- that the manager leaves.
  deliver_bound :
      (received : Bytes) (sender : Endpoint) (p : ClientProxy) (b : Binding)
      → let g = get_or_create_binding os (print sender) sender p.manager in
        let q = (deliver os socket received sender p).1 in
        g.0 ≡ ok b
        → (writes_out q.manager.world.calls
            ≡ writes_out g.1.world.calls ++ (b.tcp_session.socket, received) ∷ [])
          × (q.manager.bindings ≡ g.1.bindings)
          × (q.manager.factory ≡ g.1.factory)
  unfolding deliver
  deliver_bound received sender p b e =
      let w = (get_or_create_binding os (print sender) sender p.manager).1.world in
      (
        rw (e, continue) (rw (send_to_tcp_server-calls b received sender w) (simp observe-snoc)),
        rw (e, continue) refl,
        rw (e, continue) refl,
      )

  deliver_unbound :
      (received : Bytes) (sender : Endpoint) (p : ClientProxy) (m : Message)
      → let g = get_or_create_binding os (print sender) sender p.manager in
        g.0 ≡ thrown m
        → deliver os socket received sender p ≡ (thrown m, record p { manager = g.1 })
  unfolding deliver
  deliver_unbound received sender p m e = rw (e, continue) refl

  -- A sender with a binding: one more call is made, the write.
  pub deliver_known-calls :
      (received : Bytes) (sender : Endpoint) (p : ClientProxy) (b : Binding)
      → lookup (print sender) p.manager.bindings ≡ some b
      → (deliver os socket received sender p).1.manager.world.calls
        ≡ p.manager.world.calls
          ++ (
            write_call os b.tcp_session received (some standard_timeout) p.manager.world,
            write_reply os b.tcp_session received (some standard_timeout) p.manager.world,
          )
            ∷ []
  unfolding deliver
  deliver_known-calls received sender p b e =
      rw (get_or_create_binding_known os (print sender) sender p.manager b e, continue)
        (send_to_tcp_server-calls b received sender p.manager.world)

  -- A sender with a binding: its bytes go to the TCP connection of that binding, and no binding
  -- changes.
  pub deliver_known :
      (received : Bytes) (sender : Endpoint) (p : ClientProxy) (b : Binding)
      → lookup (print sender) p.manager.bindings ≡ some b
      → let q = (deliver os socket received sender p).1 in
        (writes_out q.manager.world.calls
          ≡ writes_out p.manager.world.calls ++ (b.tcp_session.socket, received) ∷ [])
        × (q.manager.bindings ≡ p.manager.bindings)
  deliver_known received sender p b e =
      let known = get_or_create_binding_known os (print sender) sender p.manager b e in
      let (wrote, kept, _) = deliver_bound received sender p b (ap (λ g. g.0) known) in
      (
        wrote ∙ ap (λ g. writes_out g.1.world.calls ++ (b.tcp_session.socket, received) ∷ []) known,
        kept ∙ ap (λ g. g.1.bindings) known,
      )

  -- A sender without a binding, where the TCP server accepts: a new connection is made, the sender is
  -- bound to it, the bytes go there, and the bindings of the other senders stay.
  pub deliver_new :
      (received : Bytes) (sender : Endpoint) (p : ClientProxy) (factory : Factory)
      → lookup (print sender) p.manager.bindings ≡ none
      → p.manager.factory ≡ some factory
      → eqb_ℤ (connect_reply os factory p.manager.world).value (negsuc 0) ≡ false
      → let q = (deliver os socket received sender p).1 in
        let session = connected factory.tcp_server (connect_reply os factory p.manager.world) in
        (writes_out q.manager.world.calls
          ≡ writes_out p.manager.world.calls ++ (session.socket, received) ∷ [])
        × ((b : Binding) × (lookup (print sender) q.manager.bindings ≡ some b)
            × IsFor sender session b)
        × ((j : Bytes)
            → print sender ≢ j
            → lookup j q.manager.bindings ≡ lookup j p.manager.bindings)
  deliver_new received sender p factory absent has accepts =
      let (b, gave, for, stored, wrote) =
        get_or_create_binding_new os (print sender) sender p.manager factory absent has accepts in
      let (written, kept, _) = deliver_bound received sender p b gave in
      (
        cc (written, wrote, ap (λ (s : Session). s.socket) for.over_session),
        (b, rw (kept, stored) (lookup-insert_self (print sender) b p.manager.bindings), for),
        λ j ne. rw (kept, stored) (lookup-insert_ne (print sender) j b p.manager.bindings ne),
      )

  -- A sender without a binding, where the TCP server refuses: nothing is written, no binding is made
  -- and none changes.
  pub deliver_refused :
      (received : Bytes) (sender : Endpoint) (p : ClientProxy) (factory : Factory)
      → lookup (print sender) p.manager.bindings ≡ none
      → p.manager.factory ≡ some factory
      → eqb_ℤ (connect_reply os factory p.manager.world).value (negsuc 0) ≡ true
      → let q = (deliver os socket received sender p).1 in
        (writes_out q.manager.world.calls ≡ writes_out p.manager.world.calls)
        × (q.manager.bindings ≡ p.manager.bindings)
  deliver_refused received sender p factory absent has refuses =
      let (gave, kept, wrote) =
        get_or_create_binding_refused os (print sender) sender p.manager factory absent has
          refuses in
      rw (deliver_unbound received sender p _ gave) (wrote, kept)

  -- Without a factory nothing is written and no binding is made either.
  pub deliver_unset :
      (received : Bytes) (sender : Endpoint) (p : ClientProxy)
      → lookup (print sender) p.manager.bindings ≡ none
      → p.manager.factory ≡ none
      → let q = (deliver os socket received sender p).1 in
        (writes_out q.manager.world.calls ≡ writes_out p.manager.world.calls)
        × (q.manager.bindings ≡ p.manager.bindings)
  unfolding deliver get_or_create_binding
  deliver_unset received sender p absent unset =
      rw (absent, get_or_create_binding) (rw (unset, get_or_create_binding) (refl, refl))
