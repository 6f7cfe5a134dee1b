-- ===== src/Tcp/Echo.antt =====
-- src/libtcp/examples/TcpEchoHandler.h and TcpEchoHandler.cpp: what the task of a client does.
use tcp_udp.Base.{ℕ, Bool, true, false, some, [], ◌∷◌, take}
use tcp_udp.Std.Text.{Bytes}
use tcp_udp.Common.Buffer.{owned_buffer, standard_buffer_size, short_timeout}
use tcp_udp.Sys.Exec.{text, Exec, ok, pure, ◌>>=◌, ◌>>◌, zoom}
use tcp_udp.Sys.Loop.{Loop, while_not_cancelled}
use tcp_udp.Sys.World.{World, Os, LogLevel, log, info}
use tcp_udp.Io.{IoResult, IoResultCode, success, connection_closed, timeout, error}
use tcp_udp.Tcp.Session
use tcp_udp.Tcp.Session.{Session}
use tcp_udp.Tcp.Messages.{echo_response}

-- The thread with the variable `buffer_in`.
pub record EchoTask : Type 0 where
  pub world : World
  pub buffer_in : Bytes

unfoldable pub start : World → EchoTask
start w = record { world = w; buffer_in = owned_buffer standard_buffer_size }

abbrev pub on_world : {A : Type 0} → Exec World A → Exec EchoTask A
on_world = zoom (λ t. t.world) (λ w t. record t { world = w })

abbrev set_buffer : Bytes → Exec EchoTask (Unit {0})
set_buffer filled t = (ok tt, record t { buffer_in = filled })

-- `handleReadResult`; the loop has gone on before it after a timeout.
handle_read_result : IoResult → IoResultCode → Exec World Bool
unfolding log
handle_read_result r error = do
  log LogLevel.error
      (record { format = "TcpEchoHandler: failed to read: %s"; args = text r.error_message ∷ [] })
  pure false
handle_read_result r connection_closed = do
  log info (record { format = "TcpEchoHandler: read ConnectionClosed"; args = [] })
  pure false
handle_read_result r _ = pure true

handle_write_result : IoResult → IoResultCode → Exec World Bool
unfolding log
handle_write_result r error = do
  log LogLevel.error
      (record { format = "TcpEchoHandler: failed to write: %s"; args = text r.error_message ∷ [] })
  pure false
handle_write_result r connection_closed = do
  log info (record { format = "TcpEchoHandler: write ConnectionClosed"; args = [] })
  pure false
handle_write_result r timeout = pure false
handle_write_result r success = pure true

module _ (os : Os) where
  answer : Session → Bytes → Bool → Exec World Bool
  unfolding Session.write handle_write_result
  answer s received_message false = pure false
  answer s received_message true = do
    result ← Session.write os s (echo_response received_message) (some short_timeout)
    handle_write_result result result.code

  after_read : Session → Bytes → IoResult → IoResultCode → Exec World Bool
  unfolding answer handle_read_result
  after_read s filled r timeout = pure true
  after_read s filled r code = do
    readable ← handle_read_result r code
    answer s (take r.count filled) readable

  unfoldable pub round : Session → Exec EchoTask Bool
  unfolding Session.read after_read
  round s t =
      (do
        (result, filled) ← on_world (Session.read os s t.buffer_in (some short_timeout))
        set_buffer filled
        on_world (after_read s filled result result.code))
        t

  -- The task that `handle_client` makes, with at most `rounds` rounds of its loop.
  unfoldable pub handle_client : ℕ → Session → Exec EchoTask Loop
  unfolding round
  handle_client rounds s = while_not_cancelled (λ t. os.cancelled t.world.time) (round s) rounds
