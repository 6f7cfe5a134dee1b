-- ===== src/ClientProxy/Input.antt =====
-- What the client proxy does with the outcome of a read of its UDP socket.
use tcp_udp.Base.{
  ℕ, ◌≡◌, refl, ◌⊎◌, inl, inr, Option, some, [], ◌∷◌, ◌++◌, append-nil, arith, length,
}
use tcp_udp.Std.Text.{Bytes}
use tcp_udp.Common.Endpoint.{Endpoint, any}
use tcp_udp.Sys.Exec.{Message, ok, thrown, continue, recover, Result-cases}
use tcp_udp.Sys.World.{Os, IsPosix, Call, Reply, dgram_recv}
use tcp_udp.Sys.Trace.{observe-snoc, writes_out, accepted}
use tcp_udp.Io.{IoResult, success, connection_closed, timeout, error, from_size, to_int, time_limit}
use tcp_udp.Io.Transfer.{handed_over}
use tcp_udp.ClientProxy.SessionHandler.{SessionHandler, read_udp_message}
use tcp_udp.ClientProxy.Handler.{ClientProxy, deliver, handle_client, session_handler}

module _ (os : Os) (socket : Option ℕ) (h : SessionHandler) where
  abbrev pub asked : Call
  asked = dgram_recv socket (to_int (length h.buffer)) (time_limit (some 1000))

  abbrev pub datagram : Reply
  datagram = os.reply h.world.time asked

  abbrev pub outcome : IoResult
  outcome = from_size datagram.value datagram.last_error

  pub read_calls :
      (read_udp_message os socket any h).1.world.calls ≡ h.world.calls ++ (asked, datagram) ∷ []
  unfolding read_udp_message
  read_calls = ground arith

  pub read_message :
      IsPosix os
      → outcome.code ≡ success
      → (read_udp_message os socket any h).0 ≡ ok (datagram.bytes, datagram.address)
  unfolding read_udp_message
  read_message posix good =
      let (data_is, _) =
        handed_over datagram.value datagram.last_error datagram.bytes h.buffer
          (to_int (length h.buffer))
          (posix.dgram_received h.world.time socket (to_int (length h.buffer))
            (time_limit (some 1000)))
          good in
      ground (arith, data_is)

  pub read_nothing :
      (outcome.code ≡ timeout) ⊎ (outcome.code ≡ connection_closed)
      → (read_udp_message os socket any h).0 ≡ ok ([], any)
  unfolding read_udp_message
  read_nothing bad = ground arith

  pub read_failure :
      outcome.code ≡ error → (m : Message) × ((read_udp_message os socket any h).0 ≡ thrown m)
  unfolding read_udp_message
  read_failure bad = elim (Result-cases (read_udp_message os socket any h).0) [
    | inl (a, e) ↦ absurd (ground arith)
    | inr failed ↦ failed
  ]

module _ (os : Os) (socket : Option ℕ) (p : ClientProxy) where
  -- The state behind the read.
  abbrev pub after_read : ClientProxy
  after_read =
      let h = (read_udp_message os socket any (session_handler p)).1 in
      record { manager = record p.manager { world = h.world }; buffer = h.buffer }

  -- A read that gives a message and a sender is followed by its delivery, and an exception there
  -- changes nothing more.
  pub handle_client_delivers :
      (received : Bytes) (sender : Endpoint)
      → (read_udp_message os socket any (session_handler p)).0 ≡ ok (received, sender)
      → let q = (handle_client os socket p).1 in
        let d = (deliver os socket received sender after_read).1 in
        (q.manager.bindings ≡ d.manager.bindings)
        × (q.manager.world.calls ≡ d.manager.world.calls)
        × ((handle_client os socket p).0 ≡ ok tt)
  unfolding handle_client
  handle_client_delivers received sender e =
      elim (Result-cases (deliver os socket received sender after_read).0) [
        | inl (_, r) ↦ rw (e, continue) (rw (r, recover) (refl, refl, refl))
        | inr (m, r) ↦ rw (e, continue) (rw (r, recover) (refl, refl, refl))
      ]

  pub after_read-writes :
      writes_out after_read.manager.world.calls ≡ writes_out p.manager.world.calls
  after_read-writes =
      rw (read_calls os socket (session_handler p)) (simp (observe-snoc, append-nil))

  pub after_read-accepted : accepted after_read.manager.world.calls ≡ accepted p.manager.world.calls
  after_read-accepted =
      rw (read_calls os socket (session_handler p)) (simp (observe-snoc, append-nil))

  -- A read that throws is reported, and that is all.
  pub handle_client_throws :
      (m : Message)
      → (read_udp_message os socket any (session_handler p)).0 ≡ thrown m
      → let q = (handle_client os socket p).1 in
        (q.manager.bindings ≡ p.manager.bindings) × ((handle_client os socket p).0 ≡ ok tt)
  unfolding handle_client
  handle_client_throws m e = (rw (e, continue) refl, rw (e, continue) refl)

  pub handle_client_throws_calls :
      (m : Message)
      → (read_udp_message os socket any (session_handler p)).0 ≡ thrown m
      → (handle_client os socket p).1.manager.world.calls ≡ after_read.manager.world.calls
  unfolding handle_client
  handle_client_throws_calls m e = rw (e, continue) refl
