-- ===== src/Tcp/Messages.antt =====
-- The texts that the example servers make of a message: `processEchoMessage` of TcpEchoHandler.cpp,
-- and `send_echo_response` and `send_notifications_to_others` of NotificationHandler.cpp.
use tcp_udp.Base.{◌++◌}
use tcp_udp.Std.Text.{Bytes, codes}

unfoldable pub echo_response : Bytes → Bytes
echo_response message = codes "echo [" ++ (message ++ codes "]")

unfoldable pub notification : Bytes → Bytes
notification message = codes "notify [" ++ (message ++ codes "]")
