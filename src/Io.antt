-- ===== src/Io.antt =====
-- include/libacetools/IOResult.h, IOResultCode.h, Converters.h and src/libacetools/SocketIO.cpp. The
-- proofs are in the modules below.
pub mod Classify
pub mod Transfer
pub mod Signal
pub mod LocalAddresses
use tcp_udp.Base.{
  ℕ, suc, ◌+◌, ◌-◌, ◌*◌, ◌%◌, ◌^◌, ◌≡◌, refl, Bool, ◌||◌, Option, none, some, List, [], ◌∷◌, ◌++◌,
  ltb, ◌==◌, if◌then◌else◌, length,
}
use tcp_udp.Base.Int.{ℤ, pos, negsuc}
use tcp_udp.Std.Text.{Bytes, codes}
use tcp_udp.Std.Decimal.{to_string}
use tcp_udp.Common.Endpoint.{Endpoint}
use tcp_udp.Common.Buffer.{fill}
use tcp_udp.Sys.Exec.{Exec, pure, ◌>>=◌, ok}
use tcp_udp.Sys.World.{
  World, Os, TimeValue, Call, Reply, stream_recv, stream_send, stream_linger, dgram_recv,
  dgram_send, ask,
}

pub data IoResultCode : Type 0 where
  success connection_closed timeout error : IoResultCode

pub record IoResult : Type 0 where
  pub code : IoResultCode
  pub count : ℕ
  pub error_message : Bytes

unfoldable pub result_success : ℕ → IoResult
result_success bytes = record { code = success; count = bytes; error_message = [] }

unfoldable pub result_connection_closed : IoResult
result_connection_closed = record { code = connection_closed; count = 0; error_message = [] }

unfoldable pub result_timeout : IoResult
result_timeout = record { code = timeout; count = 0; error_message = [] }

unfoldable pub result_error : Bytes → IoResult
result_error message = record { code = error; count = 0; error_message = message }

-- The error numbers of Linux.
abbrev pub eagain : ℕ
eagain = 11

abbrev pub ewouldblock : ℕ
ewouldblock = 11

abbrev pub etime : ℕ
etime = 62

abbrev pub econnreset : ℕ
econnreset = 104

abbrev pub enotconn : ℕ
enotconn = 107

abbrev pub ebadf : ℕ
ebadf = 9

unfoldable pub create_error_message : ℕ → Bytes
create_error_message ace_last_error =
    codes "Socket read ace_last_error: "
    ++ (if ace_last_error == econnreset
        then codes "Connection reset by peer"
        else if ace_last_error == enotconn
        then codes "Socket not connected"
        else if ace_last_error == ebadf
        then codes "Bad file descriptor"
        else codes "Unknown ace_last_error (" ++ (to_string ace_last_error ++ codes ")"))

on_error : ℕ → IoResult
unfolding result_connection_closed result_timeout result_error
on_error last_error =
    if last_error == eagain || (last_error == ewouldblock || last_error == etime)
    then result_timeout
    else if last_error == econnreset || (last_error == enotconn || last_error == ebadf)
    then result_connection_closed
    else result_error (create_error_message last_error)

-- The second argument is `ACE_OS::last_error()`.
unfoldable pub from_size : ℤ → ℕ → IoResult
unfolding on_error result_success result_connection_closed
from_size (pos n) last_error = if n == 0 then result_connection_closed else result_success n
from_size (negsuc n) last_error = on_error last_error

-- `static_cast<int>` of a `size_t`.
abbrev pub to_int : ℕ → ℤ
to_int n = if ltb (n % 2 ^ 32) (2 ^ 31) then pos (n % 2 ^ 32) else negsuc (2 ^ 32 - 1 - n % 2 ^ 32)

-- A time limit in milliseconds; `none` is `std::chrono::milliseconds::max()`, which blocks.
abbrev pub to_ace_timeout : ℕ → TimeValue
to_ace_timeout limit = record { sec = 0; usec = limit * 1000 }

abbrev pub time_limit : Option ℕ → Option TimeValue
time_limit none = none
time_limit (some limit) = some (to_ace_timeout limit)

module _ (os : Os) where
  -- A reading call gives the buffer back as the call left it.
  unfoldable pub read : Option ℕ → Bytes → Option ℕ → Exec World (IoResult × Bytes)
  unfolding ask from_size
  read socket buffer limit = do
    r ← ask os (stream_recv socket (to_int (length buffer)) (time_limit limit))
    pure (from_size r.value r.last_error, fill r.bytes buffer)

  unfoldable pub write : Option ℕ → Bytes → Option ℕ → Exec World IoResult
  unfolding ask from_size
  write socket buffer limit = do
    r ← ask os (stream_send socket buffer (to_int (length buffer)) (time_limit limit))
    pure (from_size r.value r.last_error)

  -- The address is the sender that the call filled in.
  unfoldable pub read_from : Option ℕ → Bytes → Option ℕ → Exec World (IoResult × Bytes × Endpoint)
  unfolding ask from_size
  read_from socket buffer limit = do
    r ← ask os (dgram_recv socket (to_int (length buffer)) (time_limit limit))
    pure (from_size r.value r.last_error, fill r.bytes buffer, r.address)

  unfoldable pub write_to : Option ℕ → Bytes → Endpoint → Option ℕ → Exec World IoResult
  unfolding ask from_size
  write_to socket buffer dest limit = do
    r ← ask os (dgram_send socket buffer (to_int (length buffer)) dest (time_limit limit))
    pure (from_size r.value r.last_error)

  unfoldable pub set_linger_timeout : Option ℕ → Exec World (Unit {0})
  unfolding ask
  set_linger_timeout socket = do r ← ask os (stream_linger socket); pure tt
