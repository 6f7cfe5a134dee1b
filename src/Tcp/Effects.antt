-- ===== src/Tcp/Effects.antt =====
-- What reading from and writing to a session return, and which calls they make.
use tcp_udp.Base.{ℕ, suc, ◌≡◌, ◌≢◌, Option, [], ◌∷◌, ◌++◌, length, take, arith}
use tcp_udp.Std.Text.{Bytes}
use tcp_udp.Common.Buffer.{fill}
use tcp_udp.Sys.Exec.{ok}
use tcp_udp.Sys.World.{World, Os, IsPosix, Call, Reply, stream_recv, stream_send}
use tcp_udp.Sys.Trace.{data_of}
use tcp_udp.Io.{IoResult, success, from_size, to_int, time_limit}
use tcp_udp.Io.Transfer.{handed_over, nothing_handed_over}
use tcp_udp.Tcp.Session
use tcp_udp.Tcp.Session.{Session}

module _ (os : Os) (s : Session) (buffer : Bytes) (limit : Option ℕ) (w : World) where
  abbrev pub read_call : Call
  read_call = stream_recv s.socket (to_int (length buffer)) (time_limit limit)

  abbrev pub read_reply : Reply
  read_reply = os.reply w.time read_call

  abbrev pub read_result : IoResult
  read_result = from_size read_reply.value read_reply.last_error

  abbrev pub write_call : Call
  write_call = stream_send s.socket buffer (to_int (length buffer)) (time_limit limit)

  abbrev pub write_reply : Reply
  write_reply = os.reply w.time write_call

  abbrev pub write_result : IoResult
  write_result = from_size write_reply.value write_reply.last_error

module _ (os : Os) (s : Session) (buffer : Bytes) (limit : Option ℕ) (w : World) where
  pub read-result :
      (Session.read os s buffer limit w).0
      ≡ ok (read_result os s buffer limit w, fill (read_reply os s buffer limit w).bytes buffer)
  unfolding Session.read
  read-result = ground arith

  pub read-calls :
      (Session.read os s buffer limit w).1.calls
      ≡ w.calls ++ (read_call os s buffer limit w, read_reply os s buffer limit w) ∷ []
  unfolding Session.read
  read-calls = ground arith

  pub read-time : (Session.read os s buffer limit w).1.time ≡ suc w.time
  unfolding Session.read
  read-time = ground arith

  pub write-result : (Session.write os s buffer limit w).0 ≡ ok (write_result os s buffer limit w)
  unfolding Session.write
  write-result = ground arith

  pub write-calls :
      (Session.write os s buffer limit w).1.calls
      ≡ w.calls ++ (write_call os s buffer limit w, write_reply os s buffer limit w) ∷ []
  unfolding Session.write
  write-calls = ground arith

  pub write-time : (Session.write os s buffer limit w).1.time ≡ suc w.time
  unfolding Session.write
  write-time = ground arith

  -- After a successful read the first `count` bytes of the buffer are what the call received.
  pub read_data :
      IsPosix os
      → (read_result os s buffer limit w).code ≡ success
      → let r = read_reply os s buffer limit w in
        (take (read_result os s buffer limit w).count (fill r.bytes buffer) ≡ r.bytes)
        × (data_of r.value r.bytes ≡ r.bytes ∷ [])
  read_data posix good =
      let r = read_reply os s buffer limit w in
      handed_over r.value r.last_error r.bytes buffer (to_int (length buffer))
        (posix.stream_received w.time s.socket (to_int (length buffer)) (time_limit limit)) good

  pub read_nothing :
      (read_result os s buffer limit w).code ≢ success
      → let r = read_reply os s buffer limit w in data_of r.value r.bytes ≡ []
  read_nothing bad =
      let r = read_reply os s buffer limit w in nothing_handed_over r.value r.last_error r.bytes bad
