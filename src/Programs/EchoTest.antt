-- ===== src/Programs/EchoTest.antt =====
-- src/tcpclient/main.cpp: the test of a TCP echo server. The program's logger drops what is below
-- an error; here every call of `log` is kept.
use tcp_udp.Base.{
  Bool, true, false, ◌&&◌, Option, none, some, [], ◌∷◌, ◌++◌, ◌==◌, if◌then◌else◌, bytes_eq, length,
  take,
}
use tcp_udp.Base.Int.{ℤ, pos}
use tcp_udp.Std.Text.{Bytes, codes}
use tcp_udp.Common.Endpoint.{loop_back, any_loop_back}
use tcp_udp.Common.Buffer.{owned_buffer, standard_buffer_size, default_tcp_port}
use tcp_udp.Sys.Exec.{text, Message, Exec, pure, ◌>>=◌, ◌>>◌}
use tcp_udp.Sys.World.{World, Os, LogLevel, log, info}
use tcp_udp.Io.{IoResult, IoResultCode, success}
use tcp_udp.Tcp.Session
use tcp_udp.Tcp.Session.{Session}
use tcp_udp.Tcp.Client
use tcp_udp.Tcp.Client.{TcpClient}

abbrev pub message : Bytes
message = codes "hello"

unfoldable pub expected_response : Bytes
expected_response = codes "echo" ++ message

abbrev pub verdict : Bytes → Bool → LogLevel × Message
verdict response true = (
  info,
  record {
    format = "✓ Echo test successful! Server correctly echoed: %s";
    args = text response ∷ [];
  },
)
verdict response false = (
  LogLevel.error,
  record {
    format = "✗ Echo test failed! Expected: %s, Got: %s";
    args = text expected_response ∷ text response ∷ [];
  },
)

abbrev is_success : IoResultCode → Bool
is_success success = true
is_success _ = false

unfoldable pub log_verdict : Bytes → Exec World (Unit {0})
unfolding log
log_verdict response =
    let (level, m) = verdict response (bytes_eq response expected_response) in log level m

module _ (os : Os) where
  -- The destructor of the client comes after what is logged, and the session has another owner until
  -- then.
  failed : TcpClient → Message → Exec World ℤ
  unfolding log Client.disconnect
  failed client m = do log LogLevel.error m; c ← Client.disconnect os client; pure (pos 1)

  responded : TcpClient → IoResult → Bytes → Exec World ℤ
  unfolding log_verdict log Client.disconnect failed
  responded client result filled =
      if is_success result.code
      then (do
        log_verdict (take result.count filled)
        c ← Client.disconnect os client
        log info (record { format = "Client finished successfully"; args = [] })
        pure (pos 0))
      else failed client (record {
        format = "Failed to receive response: %s";
        args = text result.error_message ∷ [];
      })

  sent : TcpClient → Session → IoResult → Exec World ℤ
  unfolding Session.read responded failed
  sent client session result =
      if is_success result.code && (result.count == length message)
      then (do
        (result, filled) ← Session.read os session (owned_buffer standard_buffer_size) none
        responded client result filled)
      else failed client
          (record { format = "Failed to send message: %s"; args = text result.error_message ∷ [] })

  connected : TcpClient → Option Session → Exec World ℤ
  unfolding log Session.write sent
  connected client none = do
    log LogLevel.error (record { format = "Failed to connect to server"; args = [] })
    pure (pos 1)
  connected client (some session) = do
    log info (record { format = "=== Echo Test ==="; args = [] })
    result ← Session.write os session message none
    sent client session result

  -- `create_tcp_client` never returns null. The result is the exit code.
  unfoldable pub main : Exec World ℤ
  unfolding log Client.connect connected
  main = do
    log info (record { format = "TCP Echo Client"; args = [] })
    (session, client) ← Client.connect os Client.create any_loop_back (loop_back default_tcp_port)
    connected client session
