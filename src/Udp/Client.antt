-- ===== src/Udp/Client.antt =====
-- src/libudp/client/AceUdpClient.h and AceUdpClient.cpp. What ACE itself prints on an error is not
-- part of the model.
use tcp_udp.Base.{
  ℕ, Option, none, some, [], ◌∷◌, length, take, Bool, true, false, if◌then◌else◌, not, ◌||◌,
}
use tcp_udp.Base.Int.{ℤ, pos, negsuc, eqb_ℤ}
use tcp_udp.Std.Text.{Bytes}
use tcp_udp.Common.Endpoint.{Endpoint, print}
use tcp_udp.Common.Buffer.{fill}
use tcp_udp.Sys.Exec.{text, Exec, pure, throw, ◌>>=◌, ◌>>◌}
use tcp_udp.Sys.World.{
  World, Os, Reply, ask, log, info, dgram_open, dgram_send, dgram_recv, dgram_close,
}

pub record UdpClient : Type 0 where
  pub local_endpoint : Endpoint
  pub socket : Option ℕ

abbrev pub minus_one : ℤ
minus_one = negsuc 0

abbrev pub to_size : ℤ → ℕ
to_size (pos n) = n
to_size (negsuc n) = 0

module _ (os : Os) where
  opened : Endpoint → Reply → Exec World UdpClient
  unfolding log
  opened local_endpoint r =
      if eqb_ℤ r.value minus_one
      then throw (record {
        format = "Failed to open UDP socket on %s";
        args = text (print local_endpoint) ∷ [];
      })
      else (log info (record {
        format = "UdpClient: %s successfully bound";
        args = text (print r.address) ∷ [];
      })
          >> pure (record { local_endpoint = r.address; socket = some r.socket }))

  -- The constructor. The address of the answer is the one that the socket was bound to.
  unfoldable pub create : Endpoint → Exec World UdpClient
  unfolding ask opened
  create local_endpoint = do r ← ask os (dgram_open local_endpoint); opened local_endpoint r

  destroy_socket : UdpClient → Option ℕ → Exec World (Unit {0})
  unfolding ask log
  destroy_socket c none = pure tt
  destroy_socket c (some h) = do
    r ← ask os (dgram_close (some h))
    log info (record {
      format = "UdpClient: %s socket closed";
      args = text (print c.local_endpoint) ∷ [];
    })

  -- The destructor.
  unfoldable pub destroy : UdpClient → Exec World (Unit {0})
  unfolding destroy_socket
  destroy c = destroy_socket c c.socket

  sent_all : UdpClient → Endpoint → Bytes → Reply → Exec World Bool
  unfolding log
  sent_all c remote buffer r =
      if eqb_ℤ r.value minus_one || not (eqb_ℤ r.value (pos (length buffer)))
      then pure false
      else (log info (record {
        format = "UdpClient: %s -> %s sent: '%.*s'";
        args = text (print c.local_endpoint) ∷ text (print remote) ∷ text buffer ∷ [];
      })
          >> pure true)

  unfoldable pub send_to : UdpClient → Endpoint → Bytes → Exec World Bool
  unfolding ask sent_all
  send_to c remote buffer = do
    r ← ask os (dgram_send c.socket buffer (pos (length buffer)) remote none)
    sent_all c remote buffer r

  -- `get_bound_endpoint`, which the log entry asks again, is what the constructor has stored.
  received : UdpClient → Endpoint → Bytes → Reply → Exec World (ℤ × Bytes × Endpoint)
  unfolding log
  received c sender filled r =
      if eqb_ℤ r.value minus_one
      then pure (minus_one, filled, sender)
      else (log info (record {
        format = "UdpClient: %s <- %s received: '%.*s'";
        args =
            text (print c.local_endpoint)
            ∷ text (print r.address)
            ∷ text (take (to_size r.value) filled)
            ∷ [];
      })
          >> pure (r.value, filled, r.address))

  -- The value, the buffer as the call left it, and the sender, which an error leaves as it was.
  unfoldable pub receive_from : UdpClient → Bytes → Endpoint → Exec World (ℤ × Bytes × Endpoint)
  unfolding ask received
  receive_from c buffer sender = do
    r ← ask os (dgram_recv c.socket (pos (length buffer)) none)
    received c sender (fill r.bytes buffer) r
