-- ===== src/ClientProxy/Responses.antt =====
-- What the client proxy does when the TCP connection of a binding can be read.
use tcp_udp.Base.{
  ℕ, suc, ◌≡◌, ◌≢◌, refl, ◌⊎◌, inl, inr, true, false, Option, some, [], ◌∷◌, ◌++◌, append-nil,
  arith, if◌then◌else◌, Bool-cases, length,
}
use tcp_udp.Base.Int.{ℤ, pos, negsuc}
use tcp_udp.Std.Text.{Bytes}
use tcp_udp.Std.Dict.{lookup, insert, lookup-insert_self, lookup-insert_ne}
use tcp_udp.Common.Buffer.{fill, standard_timeout}
use tcp_udp.Sys.Exec.{ok, continue}
use tcp_udp.Sys.World.{World, Os, IsPosix, Call, Reply, dgram_send, remove_handler, binding}
use tcp_udp.Sys.Trace.{observe-snoc, datagrams_out}
use tcp_udp.Io.{IoResult, success, connection_closed, timeout, error, to_int, time_limit}
use tcp_udp.Io.Classify.{IoResultCode-cases}
use tcp_udp.Tcp.Effects.{read_call, read_reply, read_result, read_data}
use tcp_udp.ClientProxy.Binding.{Binding, handle_input}
use tcp_udp.ClientProxy.Handler.{ClientProxy, binding_input}

module _ (os : Os) (socket : Option ℕ) (b : Binding) (w : World) where
  abbrev pub got : Reply
  got = read_reply os b.tcp_session b.buffer (some 0) w

  abbrev pub outcome : IoResult
  outcome = read_result os b.tcp_session b.buffer (some 0) w

  abbrev pub asked : Call
  asked = read_call os b.tcp_session b.buffer (some 0) w

  abbrev response : Call
  response =
      dgram_send socket got.bytes (to_int (length got.bytes)) b.udp_sender
        (time_limit (some standard_timeout))

  pub handle_input_data :
      IsPosix os
      → outcome.code ≡ success
      → let r = handle_input os socket b w in
        (r.0 ≡ ok (pos 0, record b { buffer = fill got.bytes b.buffer }))
        × (r.1.calls
            ≡ (w.calls ++ (asked, got) ∷ []) ++ (response, os.reply (suc w.time) response) ∷ [])
  unfolding handle_input
  handle_input_data posix good =
      let (data_is, _) = read_data os b.tcp_session b.buffer (some 0) w posix good in
      ground (arith, data_is)

  -- A binding whose connection is over: as it was, but for its buffer, and no longer registered.
  abbrev pub ended : Binding
  ended = record b {
    buffer = fill got.bytes b.buffer;
    reactor = if b.registered then false else b.reactor;
    registered = false;
  }

  abbrev withdrawn : Call
  withdrawn = remove_handler (binding b.tcp_session.socket)

  pub handle_input_end-calls :
      (outcome.code ≡ connection_closed) ⊎ (outcome.code ≡ error)
      → (b.registered ≡ true → b.reactor ≡ true)
      → let r = handle_input os socket b w in
        (r.0 ≡ ok (negsuc 0, ended))
        × (r.1.calls
            ≡ (w.calls ++ (asked, got) ∷ [])
              ++ (if b.registered then (withdrawn, os.reply (suc w.time) withdrawn) ∷ [] else []))
  unfolding handle_input
  handle_input_end-calls over sound = ground (arith, append-nil (w.calls ++ (asked, got) ∷ []))

  pub handle_input_end :
      (outcome.code ≡ connection_closed) ⊎ (outcome.code ≡ error)
      → (b.registered ≡ true → b.reactor ≡ true)
      → let r = handle_input os socket b w in
        (r.0 ≡ ok (negsuc 0, ended)) × (datagrams_out r.1.calls ≡ datagrams_out w.calls)
  handle_input_end over sound =
      let (gave, made) = handle_input_end-calls over sound in
      (
        gave,
        rw made (elim (Bool-cases b.registered) [
          | inl e ↦ rw e (simp (observe-snoc, append-nil))
          | inr e ↦ rw e (simp (observe-snoc, append-nil))
        ]),
      )

  handle_input_live :
      (outcome.code ≡ success) ⊎ (outcome.code ≡ timeout)
      → (handle_input os socket b w).0 ≡ ok (pos 0, record b { buffer = fill got.bytes b.buffer })
  unfolding handle_input
  handle_input_live live = ground arith

  -- In every case the binding keeps its sender and its session, and is registered only with a reactor.
  pub handle_input_shape :
      (b.registered ≡ true → b.reactor ≡ true)
      → (result : ℤ) × (b' : Binding) × ((handle_input os socket b w).0 ≡ ok (result, b'))
        × (b'.udp_sender ≡ b.udp_sender)
        × (b'.registered ≡ true → b'.reactor ≡ true)
        × (b'.tcp_session ≡ b.tcp_session)
  handle_input_shape sound = elim (IoResultCode-cases outcome.code) [
    | inl live ↦ (
      pos 0,
      record b { buffer = fill got.bytes b.buffer },
      handle_input_live live,
      refl,
      sound,
      refl,
    )
    | inr over ↦ (negsuc 0, ended, (handle_input_end over sound).0, refl, λ h. cc, refl)
  ]

module _ (os : Os) (socket : Option ℕ) (p : ClientProxy) (key : Bytes) (b : Binding) where
  abbrev pub w : World
  w = p.manager.world

  pub input_found :
      (result : ℤ) (b' : Binding)
      → lookup key p.manager.bindings ≡ some b
      → (handle_input os socket b w).0 ≡ ok (result, b')
      → let r = binding_input os socket key p in
        (r.0 ≡ ok result)
        × (r.1.manager.bindings ≡ insert key b' p.manager.bindings)
        × (r.1.manager.world ≡ (handle_input os socket b w).1)
  unfolding binding_input
  input_found result b' found gave = (
    rw (found, binding_input) (rw (gave, continue) refl),
    rw (found, binding_input) (rw (gave, continue) refl),
    rw (found, binding_input) (rw (gave, continue) refl),
  )

  -- Bytes that the TCP server writes to the connection of a binding are sent, whole and in one
  -- datagram, to the sender of that binding and to nobody else, and the binding keeps its sender and
  -- its connection.
  pub binding_input_data :
      IsPosix os
      → (outcome os socket b w).code ≡ success
      → lookup key p.manager.bindings ≡ some b
      → let r = binding_input os socket key p in
        (r.0 ≡ ok (pos 0))
        × (datagrams_out r.1.manager.world.calls
            ≡ datagrams_out p.manager.world.calls ++ ((got os socket b w).bytes, b.udp_sender) ∷ [])
        × (lookup key r.1.manager.bindings
            ≡ some (record b { buffer = fill (got os socket b w).bytes b.buffer }))
  binding_input_data posix good found =
      let (gave, made) = handle_input_data os socket b w posix good in
      let b' = record b { buffer = fill (got os socket b w).bytes b.buffer } in
      let (result, kept, left) = input_found (pos 0) b' found gave in
      (
        result,
        rw (left, made) (simp (observe-snoc, append-nil)),
        rw kept (lookup-insert_self key b' p.manager.bindings),
      )

  -- When the TCP server closes the connection of a binding, or reading it fails, the binding is no
  -- longer registered with the reactor, but it stays: its key still finds it, with its sender and the
  -- dead connection.
  pub binding_input_end :
      ((outcome os socket b w).code ≡ connection_closed) ⊎ ((outcome os socket b w).code ≡ error)
      → (b.registered ≡ true → b.reactor ≡ true)
      → lookup key p.manager.bindings ≡ some b
      → let r = binding_input os socket key p in
        (r.0 ≡ ok (negsuc 0))
        × (datagrams_out r.1.manager.world.calls ≡ datagrams_out p.manager.world.calls)
        × (lookup key r.1.manager.bindings ≡ some (ended os socket b w))
        × ((j : Bytes) → key ≢ j → lookup j r.1.manager.bindings ≡ lookup j p.manager.bindings)
  binding_input_end over sound found =
      let (gave, sent) = handle_input_end os socket b w over sound in
      let b' = ended os socket b w in
      let (result, kept, left) = input_found (negsuc 0) b' found gave in
      (
        result,
        rw left sent,
        rw kept (lookup-insert_self key b' p.manager.bindings),
        λ j ne. rw kept (lookup-insert_ne key j b' p.manager.bindings ne),
      )
