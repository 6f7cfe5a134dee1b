-- ===== src/Udp/Echo.antt =====
-- src/libudp/examples/UdpEchoHandler.cpp: one datagram in, its echo out.
use tcp_udp.Base.{
  ℕ, suc, ◌≡◌, ◌≢◌, inl, inr, Option, some, List, [], ◌∷◌, ◌++◌, append-nil, arith, length, take,
}
use tcp_udp.Std.Text.{Bytes, codes}
use tcp_udp.Common.Endpoint.{Endpoint, any, print}
use tcp_udp.Common.Buffer.{owned_buffer, standard_buffer_size, standard_timeout}
use tcp_udp.Sys.Exec.{Message, text, Exec, ok, pure, ◌>>=◌, ◌>>◌}
use tcp_udp.Sys.World.{World, Os, IsPosix, LogLevel, log, info, Call, Reply, dgram_recv, dgram_send}
use tcp_udp.Sys.Trace.{datagrams_out, observe-snoc, data_of}
use tcp_udp.Io.{
  IoResult, IoResultCode, success, connection_closed, timeout, error, to_int, time_limit, from_size,
}
use tcp_udp.Io.Transfer.{handed_over, nothing_handed_over}
use tcp_udp.Io.Classify.{success-cases}
use tcp_udp.Udp.Session.{read_from, write_to}

unfoldable pub echo_message : Bytes → Bytes
echo_message received_msg = codes "echo " ++ received_msg

abbrev echoing : Endpoint → Bytes → Message
echoing sender received_msg = record {
  format = "UdpEchoHandler: %s received: '%s', echoing back: '%s' to %s";
  args =
      text (print sender)
      ∷ text received_msg
      ∷ text (echo_message received_msg)
      ∷ text (print sender)
      ∷ [];
}

log_write : IoResult → IoResultCode → Exec World (Unit {0})
unfolding log
log_write r error =
    log LogLevel.error
      (record { format = "UdpEchoHandler: failed to write: %s"; args = text r.error_message ∷ [] })
log_write r connection_closed =
    log info (record { format = "UdpEchoHandler: write ConnectionClosed"; args = [] })
log_write r _ = pure tt

module _ (os : Os) (server_socket : Option ℕ) where
  after_read : Bytes → Endpoint → IoResult → IoResultCode → Exec World (Unit {0})
  unfolding write_to log_write log echo_message
  after_read filled sender r error =
      log LogLevel.error
        (record { format = "UdpEchoHandler: failed to read: %s"; args = text r.error_message ∷ [] })
  after_read filled sender r connection_closed =
      log info (record { format = "UdpEchoHandler: read ConnectionClosed"; args = [] })
  after_read filled sender r timeout = pure tt
  after_read filled sender r success = do
    let received_msg = take r.count filled
    write_result ←
        write_to os server_socket (echo_message received_msg) sender (some standard_timeout)
    log info (echoing sender received_msg)
    log_write write_result write_result.code

  -- The task that is returned is completed on every path.
  unfoldable pub handle_client : Exec World (Unit {0})
  unfolding read_from after_read
  handle_client = do
    (result, filled, sender) ←
        read_from os server_socket (owned_buffer standard_buffer_size) any (some standard_timeout)
    after_read filled sender result result.code

-- The echoes that go back to one sender.
abbrev pub echoes : Endpoint → List Bytes → List (Bytes × Endpoint)
echoes sender [] = []
echoes sender (d ∷ ds) = (echo_message d, sender) ∷ echoes sender ds

module _ (os : Os) (socket : Option ℕ) (w : World) where
  abbrev asked : Call
  asked =
      dgram_recv socket (to_int (length (owned_buffer standard_buffer_size)))
        (time_limit (some standard_timeout))

  abbrev got : Reply
  got = os.reply w.time asked

  abbrev outcome : IoResult
  outcome = from_size got.value got.last_error

  abbrev sent : Bytes → Call
  sent m =
      dgram_send socket (echo_message m) (to_int (length (echo_message m))) got.address
        (time_limit (some standard_timeout))

  handle_data :
      IsPosix os
      → outcome.code ≡ success
      → (handle_client os socket w).1.calls
        ≡ (w.calls ++ (asked, got) ∷ [])
          ++ (sent got.bytes, os.reply (suc w.time) (sent got.bytes)) ∷ []
  unfolding handle_client
  handle_data posix good =
      let (data_is, _) =
        handed_over got.value got.last_error got.bytes (owned_buffer standard_buffer_size)
          (to_int (length (owned_buffer standard_buffer_size)))
          (posix.dgram_received w.time socket _ _) good in
      ground (arith, data_is)

  handle_nothing :
      outcome.code ≢ success → (handle_client os socket w).1.calls ≡ w.calls ++ (asked, got) ∷ []
  unfolding handle_client
  handle_nothing bad = ground arith

  handle_returns : (handle_client os socket w).0 ≡ ok tt
  unfolding handle_client
  handle_returns = ground arith

  -- A datagram is answered with one datagram, "echo " and what it held, to the address that it came
  -- from; where the read fails, times out or gets nothing, no datagram is sent. No path throws.
  pub handle_client-echoes :
      IsPosix os
      → (datagrams_out (handle_client os socket w).1.calls
          ≡ datagrams_out w.calls ++ echoes got.address (data_of got.value got.bytes))
        × ((handle_client os socket w).0 ≡ ok tt)
  handle_client-echoes posix = elim (success-cases outcome.code) [
    | inl good ↦
        let (_, data_in) =
          handed_over got.value got.last_error got.bytes (owned_buffer standard_buffer_size)
            (to_int (length (owned_buffer standard_buffer_size)))
            (posix.dgram_received w.time socket _ _) good in
        (rw (handle_data posix good, data_in) (simp (observe-snoc, append-nil)), handle_returns)
    | inr bad ↦ (
      rw (handle_nothing bad, nothing_handed_over got.value got.last_error got.bytes bad)
          (simp (observe-snoc, append-nil)),
      handle_returns,
    )
  ]
