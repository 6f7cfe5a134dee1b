-- ===== src/ClientProxy/SessionHandler.antt =====
-- UdpSessionHandler.h and UdpSessionHandler.cpp.
use tcp_udp.Base.{ℕ, Option, some, [], ◌∷◌}
use tcp_udp.Std.Text.{Bytes}
use tcp_udp.Common.Endpoint.{Endpoint, print}
use tcp_udp.Common.Buffer.{view}
use tcp_udp.Sys.Exec.{text, Exec, ok, pure, throw, zoom, ◌>>=◌, ◌>>◌}
use tcp_udp.Sys.World.{World, Os, log, info}
use tcp_udp.Io.{IoResult, IoResultCode, success, connection_closed, timeout, error}
use tcp_udp.Udp.Session

abbrev timeout_ms : ℕ
timeout_ms = 1000

-- What was received, as the view that is returned shows it; nothing after a timeout or where the
-- connection is closed.
message_of : IoResult → IoResultCode → Bytes → Endpoint → Exec World Bytes
unfolding log view
message_of r success filled udp_sender = pure (view filled r.count)
message_of r connection_closed filled udp_sender = do
  log info (record {
    format = "UdpSessionHandler: %s read UDP ConnectionClosed";
    args = text (print udp_sender) ∷ [];
  })
  pure []
message_of r timeout filled udp_sender = pure []
message_of r error filled udp_sender = throw (record {
  format = "UdpSessionHandler: %s failed to read UDP: %s";
  args = text (print udp_sender) ∷ text r.error_message ∷ [];
})

after_write : IoResult → IoResultCode → Endpoint → Exec World (Unit {0})
unfolding log
after_write r success udp_sender = pure tt
after_write r connection_closed udp_sender = log info (record {
  format = "UdpSessionHandler: %s write UDP ConnectionClosed";
  args = text (print udp_sender) ∷ [];
})
after_write r timeout udp_sender = pure tt
after_write r error udp_sender = throw (record {
  format = "UdpSessionHandler: %s failed to send UDP response: %s";
  args = text (print udp_sender) ∷ text r.error_message ∷ [];
})

-- The buffer has 2048 bytes.
pub record SessionHandler : Type 0 where
  pub world : World
  pub buffer : Bytes

abbrev on_world : {A : Type 0} → Exec World A → Exec SessionHandler A
on_world = zoom (λ h. h.world) (λ w h. record h { world = w })

abbrev set_buffer : Bytes → Exec SessionHandler (Unit {0})
set_buffer filled h = (ok tt, record h { buffer = filled })

module _ (os : Os) (socket : Option ℕ) where
  -- The message and the sender.
  unfoldable pub read_udp_message : Endpoint → Exec SessionHandler (Bytes × Endpoint)
  unfolding Session.read_from message_of
  read_udp_message udp_sender h =
      (do
        (r, filled, sender) ←
            on_world (Session.read_from os socket h.buffer udp_sender (some timeout_ms))
        set_buffer filled
        message ← on_world (message_of r r.code filled sender)
        pure (message, sender))
        h

  unfoldable pub send_response_to_udp : Bytes → Endpoint → Exec World (Unit {0})
  unfolding Session.write_to after_write
  send_response_to_udp response udp_sender = do
    r ← Session.write_to os socket response udp_sender (some timeout_ms)
    after_write r r.code udp_sender
