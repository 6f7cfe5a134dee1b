-- ===== src/ServerProxy/SharedBuffer.antt =====
-- The buffer of the forwarder is one member for all client threads.
use tcp_udp.Base.{
  ℕ, ◌≤◌, ◌≡◌, refl, some, none, [], ◌∷◌, ◌++◌, length, take, take-append_le, drop, arith,
}
use tcp_udp.Base.Int.{ℤ, pos}
use tcp_udp.Std.Text.{Bytes}
use tcp_udp.Common.Buffer.{fill, short_timeout}
use tcp_udp.Sys.World.{Os, Reply, dgram_send}
use tcp_udp.Sys.Trace.{observe-snoc, datagrams_out}
use tcp_udp.Io.{IoResult, success, from_size}
use tcp_udp.Tcp.Effects.{read_reply, read_result}
use tcp_udp.Tcp.Session.{Session}
use tcp_udp.ServerProxy.Forwarder.{Forwarder, Route, read_client, handle_result}

module _ (os : Os) (route : Route) where
  read_client-tcp_buffer :
      (s : Session) (f : Forwarder)
      → (read_client os route s f).1.tcp_buffer
        ≡ fill (read_reply os s f.tcp_buffer (some short_timeout) f.world).bytes f.tcp_buffer
  unfolding read_client
  read_client-tcp_buffer s f = ground arith

  handle_result-calls :
      (key : Bytes) (v : ℤ) (e : ℕ) (f : Forwarder)
      → let r = from_size v e in
        let sent =
          dgram_send route.udp_client.socket
            (take r.count f.tcp_buffer)
            (pos (length (take r.count f.tcp_buffer)))
            route.udp_proxy
            none in
        r.code ≡ success
        → (handle_result os route key r r.code f).1.world.calls
          ≡ f.world.calls ++ (sent, os.reply f.world.time sent) ∷ []
  unfolding handle_result from_size
  handle_result-calls key v e f good = ground arith

module _ (os : Os) (route : Route) (a b : Session) (key : Bytes) (f : Forwarder) where
  abbrev pub result_a : IoResult
  result_a = read_result os a f.tcp_buffer (some short_timeout) f.world

  -- The state after the thread of `a` has read.
  abbrev after_a : Forwarder
  after_a = (read_client os route a f).1

  abbrev reply_b : Reply
  reply_b = read_reply os b after_a.tcp_buffer (some short_timeout) after_a.world

  -- Two threads in the order: `a` reads, `b` reads, `a` forwards. If `b` received at least as many
  -- bytes as `a`, the datagram that `a` sends holds the first bytes of `b` and none of `a`.
  pub interleaved_reads_mix :
      result_a.code ≡ success
      → result_a.count ≤ length reply_b.bytes
      → let after_b = (read_client os route b after_a).1 in
        datagrams_out (handle_result os route key result_a result_a.code after_b).1.world.calls
        ≡ datagrams_out after_b.world.calls
          ++ (take result_a.count reply_b.bytes, route.udp_proxy) ∷ []
  interleaved_reads_mix good fits =
      let ra = read_reply os a f.tcp_buffer (some short_timeout) f.world in
      rw
        (handle_result-calls os route key ra.value ra.last_error (read_client os route b after_a).1
          good)
        (simp (observe-snoc, read_client-tcp_buffer os route b after_a)
          (unfold fill in
            rw
              (take-append_le result_a.count reply_b.bytes
                (drop (length reply_b.bytes) after_a.tcp_buffer) fits)
              refl))
