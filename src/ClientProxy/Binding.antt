-- ===== src/ClientProxy/Binding.antt =====
-- UdpTcpBinding.h and UdpTcpBinding.cpp.
use tcp_udp.Base.{ℕ, Option, some, Bool, true, false, ◌&&◌, not, if◌then◌else◌, ltb, take}
use tcp_udp.Base.Int.{ℤ, pos, negsuc, eqb_ℤ}
use tcp_udp.Std.Text.{Bytes}
use tcp_udp.Common.Endpoint.{Endpoint}
use tcp_udp.Common.Buffer.{owned_buffer, standard_timeout}
use tcp_udp.Sys.Exec.{Exec, pure, ◌>>=◌}
use tcp_udp.Sys.World.{World, Os, ask, register_handler, remove_handler, binding}
use tcp_udp.Io.{IoResult, IoResultCode, success, timeout}
use tcp_udp.Tcp.Session
use tcp_udp.Tcp.Session.{Session}
use tcp_udp.Tcp.Client
use tcp_udp.Tcp.Client.{TcpClient}
use tcp_udp.Udp.Session as UdpSession

-- `reactor` says whether the pointer to the reactor is set. The buffer has 2048 bytes.
pub record Binding : Type 0 where
  pub client : TcpClient
  pub tcp_session : Session
  pub udp_sender : Endpoint
  pub reactor : Bool
  pub registered : Bool
  pub buffer : Bytes

unfoldable pub create : TcpClient → Session → Endpoint → Binding
create client tcp_session udp_sender = record {
  client = client;
  tcp_session = tcp_session;
  udp_sender = udp_sender;
  reactor = false;
  registered = false;
  buffer = owned_buffer 2048;
}

abbrev pub get_handle : Binding → Option ℕ
get_handle b = b.tcp_session.socket

module _ (os : Os) where
  -- The second argument says whether the reactor that is given is not null.
  unfoldable pub register_with_reactor : Binding → Bool → Exec World Binding
  unfolding ask
  register_with_reactor b reactor =
      if not b.registered && reactor
      then (do
        r ← ask os (register_handler (binding (get_handle b)))
        pure (record b { reactor = true; registered = eqb_ℤ r.value (pos 0) }))
      else pure b

  unfoldable pub unregister_from_reactor : Binding → Exec World Binding
  unfolding ask
  unregister_from_reactor b =
      if b.registered && b.reactor
      then (do
        r ← ask os (remove_handler (binding (get_handle b)))
        pure (record b { reactor = false; registered = false }))
      else pure b

  -- What `handle_input` does with the result of its read. The UDP session writes to `socket`.
  unfoldable pub handle_result :
      Option ℕ → Binding → IoResult → IoResultCode → Exec World (ℤ × Binding)
  unfolding UdpSession.write_to unregister_from_reactor
  handle_result socket b result success =
      if ltb 0 result.count
      then (do
        sent ←
            UdpSession.write_to os socket (take result.count b.buffer) b.udp_sender
              (some standard_timeout)
        pure (pos 0, b))
      else pure (pos 0, b)
  handle_result socket b result timeout = pure (pos 0, b)
  handle_result socket b result _ = do b' ← unregister_from_reactor b; pure (negsuc 0, b')

  unfoldable pub handle_input : Option ℕ → Binding → Exec World (ℤ × Binding)
  unfolding Session.read handle_result
  handle_input socket b = do
    (result, filled) ← Session.read os b.tcp_session b.buffer (some 0)
    handle_result socket (record b { buffer = filled }) result result.code

  -- The destructor: the body, and then that of the client, the last owner of the session.
  unfoldable pub destroy : Binding → Exec World (Unit {0})
  unfolding unregister_from_reactor Client.disconnect
  destroy b = do b' ← unregister_from_reactor b; c ← Client.disconnect os b'.client; pure tt
