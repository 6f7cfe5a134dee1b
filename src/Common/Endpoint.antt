-- ===== src/Common/Endpoint.antt =====
-- include/common/Endpoint.h and EndpointPair.h.
use tcp_udp.Base.{
  ℕ, ◌+◌, ◌-◌, ◌%◌, ◌^◌, ◌≡◌, refl, Bool, ◌&&◌, Option, none, some, ◌∷◌, ◌++◌, ◌==◌, if◌then◌else◌,
  bytes_eq,
}
use tcp_udp.Base.Int.{ℤ, pos, negsuc}
use tcp_udp.Std.Text.{Bytes, codes, find, substr, substr_from}
use tcp_udp.Std.Decimal.{to_string, stoi, Parsed, parsed, invalid_argument, out_of_range}

pub record Endpoint : Type 0 where
  pub address : Bytes
  pub port : ℕ

pub record EndpointPair : Type 0 where
  pub local : Endpoint
  pub remote : Endpoint

abbrev pub localhost : Bytes
localhost = codes "127.0.0.1"

abbrev pub any_address : Bytes
any_address = codes "0.0.0.0"

abbrev pub any_port : ℕ
any_port = 0

-- `Endpoint()`, which is also `Endpoint::any()`.
abbrev pub any : Endpoint
any = record { address = any_address; port = any_port }

abbrev pub loop_back : ℕ → Endpoint
loop_back p = record { address = localhost; port = p }

abbrev pub any_loop_back : Endpoint
any_loop_back = loop_back any_port

-- `operator==`.
unfoldable pub same : Endpoint → Endpoint → Bool
same a b = bytes_eq a.address b.address && a.port == b.port

unfoldable pub get_address_string : Bytes → Bytes
get_address_string address =
    if bytes_eq address localhost
    then codes "localhost"
    else if bytes_eq address any_address
    then codes "any"
    else address

unfoldable pub print : Endpoint → Bytes
print e = get_address_string e.address ++ b':' ∷ to_string e.port

-- `static_cast<uint16_t>` of an `int`: its two's complement pattern, cut to 16 bits.
abbrev pub to_uint16 : ℤ → ℕ
to_uint16 (pos n) = n % 2 ^ 16
to_uint16 (negsuc n) = (2 ^ 32 - 1 - n) % 2 ^ 16

with_port : Bytes → Parsed → Option Endpoint
with_port addr (parsed z) = some (record { address = addr; port = to_uint16 z })
with_port addr invalid_argument = none
with_port addr out_of_range = none

split_at : Bytes → Option ℕ → Option Endpoint
unfolding with_port
split_at addr_port none = some (record { address = addr_port; port = any_port })
split_at addr_port (some i) =
    with_port (substr addr_port 0 i) (stoi (substr_from addr_port (i + 1)))

-- `none` is an exception of `std::stoi`.
unfoldable pub from_string : Bytes → Option Endpoint
unfolding split_at
from_string addr_port = split_at addr_port (find b':' addr_port)

print_test : print (loop_back 17000) ≡ codes "localhost:17000"
unfolding print get_address_string to_string bytes_eq
print_test = refl

from_string_test :
    from_string (codes "10.0.0.7:8080") ≡ some (record { address = codes "10.0.0.7"; port = 8080 })
unfolding from_string find stoi
from_string_test = refl
