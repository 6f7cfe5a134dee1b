-- ===== src/Args/Parser.antt =====
-- ArgsParser.cpp, CommandLineParser.cpp, EndpointValidator.cpp, `get_flag_value` of Exports.cpp, and
-- NotifiableClientArgs.cpp. `argv` is a list that begins with the program's name. What the user
-- answers to the interactive questions is an argument.
use tcp_udp.Base.{
  Bool, true, false, ◌&&◌, not, Option, none, some, List, [], ◌∷◌, ◌++◌, if◌then◌else◌, bytes_eq,
  drop,
}
use tcp_udp.Base.Int.{ℤ, pos, ltb_ℤ}
use tcp_udp.Std.Text.{Bytes, codes, substr}
use tcp_udp.Std.Decimal.{stoi, Parsed, parsed, invalid_argument, out_of_range, int_to_string}
use tcp_udp.Common.Endpoint.{Endpoint, from_string, print, to_uint16}
use tcp_udp.Common.Buffer.{max_port}

-- `exit(1)` with the host that is reported, or an exception of `std::stoi`.
pub data Outcome (A : Type 0) : Type 0 where
  done : A → Outcome A
  exits : Bytes → Outcome A
  throws : Outcome A

abbrev pub then_ : {A B : Type 0} → Outcome A → (A → Outcome B) → Outcome B
then_ (done a) f = f a
then_ (exits host) f = exits host
then_ throws f = throws

unfoldable pub is_valid_port : ℤ → Bool
is_valid_port port = not (ltb_ℤ port (pos 0)) && not (ltb_ℤ (pos max_port) port)

abbrev is_endpoint : Option Endpoint → Bool
is_endpoint none = false
is_endpoint (some e) = true

unfoldable pub is_valid_endpoint_format : Bytes → Bool
is_valid_endpoint_format endpoint = is_endpoint (from_string endpoint)

-- `std::find` in a vector of texts.
unfoldable pub contains : Bytes → List Bytes → Bool
contains a [] = false
contains a (b ∷ rest) = if bytes_eq b a then true else contains a rest

abbrev check_address : List Bytes → Option Endpoint → Outcome Bool
check_address local_addresses none = throws
check_address local_addresses (some e) = done (contains e.address local_addresses)

unfoldable pub validate_listen_address : Bytes → List Bytes → Outcome Bool
validate_listen_address listen_arg local_addresses =
    check_address local_addresses (from_string listen_arg)

-- The error that is shown names the address of the endpoint.
abbrev exit_with : Option Endpoint → Outcome Bytes
exit_with none = throws
exit_with (some e) = exits e.address

abbrev pub accept : Bytes → Bool → Outcome Bytes
accept listen_arg true = done listen_arg
accept listen_arg false = exit_with (from_string listen_arg)

unfoldable pub build_endpoint_string : Bytes → ℤ → Bytes
build_endpoint_string host port = print (record { address = host; port = to_uint16 port })

abbrev pub is_flag : Bytes → Bool
is_flag arg = bytes_eq (substr arg 0 2) (codes "--")

-- The first argument that is no flag, or the empty text.
unfoldable pub listen_argument : List Bytes → Bytes
listen_argument [] = []
listen_argument (arg ∷ rest) = if is_flag arg then listen_argument rest else arg

abbrev pub choose : Bytes → ℤ → List Bytes → Bytes → Outcome Bytes
choose host port local_addresses [] = done (build_endpoint_string host port)
choose host port local_addresses (c ∷ listen_arg) =
    then_ (validate_listen_address (c ∷ listen_arg) local_addresses) (accept (c ∷ listen_arg))

-- `host` and `port` are the answers to the interactive questions.
unfoldable pub get_listen_endpoint : Bytes → ℤ → List Bytes → List Bytes → Outcome Bytes
get_listen_endpoint host port argv local_addresses =
    choose host port local_addresses (listen_argument (drop 1 argv))

-- `handle_command_line_args`, for two arguments.
unfoldable pub handle_command_line_args : Bytes → Bytes → List Bytes → Outcome (Bytes × Bytes)
handle_command_line_args listen_arg forward_arg local_addresses =
    then_ (validate_listen_address listen_arg local_addresses)
      (λ valid. then_ (accept listen_arg valid) (λ listen. done (listen, forward_arg)))

-- The arguments behind the program's name.
unfoldable pub flag_value : List Bytes → Bytes → Bytes → Bytes
flag_value [] flag_name default_value = default_value
flag_value (arg ∷ []) flag_name default_value =
    if bytes_eq arg flag_name then codes "true" else default_value
flag_value (arg ∷ next ∷ rest) flag_name default_value =
    if bytes_eq arg flag_name then next else flag_value (next ∷ rest) flag_name default_value

unfoldable pub get_flag_value : List Bytes → Bytes → Bytes → Bytes
get_flag_value argv flag_name default_value = flag_value (drop 1 argv) flag_name default_value

pub record NotifiableClientArgs : Type 0 where
  pub endpoint : Bytes
  pub client_id : Bytes
  pub request_interval_ms : ℤ
  pub error_message : Bytes

abbrev pub default_args : NotifiableClientArgs
default_args = record {
  endpoint = [];
  client_id = codes "client1";
  request_interval_ms = pos 1000;
  error_message = [];
}

-- `what` is the text of an exception of `std::stoi`.
module _ (what : Parsed → Bytes) where
  abbrev invalid : Parsed → NotifiableClientArgs → Bool × NotifiableClientArgs
  invalid p a = (false, record a { error_message = codes "Invalid request interval: " ++ what p })

  abbrev set_interval : Parsed → NotifiableClientArgs → Bool × NotifiableClientArgs
  set_interval (parsed z) a =
      if not (ltb_ℤ (pos 0) z)
      then (
        false,
        record a {
          request_interval_ms = z;
          error_message = codes "Request interval must be positive";
        },
      )
      else (true, record a { request_interval_ms = z })
  set_interval invalid_argument a = invalid invalid_argument a
  set_interval out_of_range a = invalid out_of_range a

  unfoldable pub handle_interval_argument :
      Bytes → NotifiableClientArgs → Bool × NotifiableClientArgs
  handle_interval_argument value a = set_interval (stoi value) a

  -- The flags, once the endpoint is known.
  unfoldable pub parse_flags : List Bytes → NotifiableClientArgs → Bool × NotifiableClientArgs
  parse_flags argv a =
      let named = record a { client_id = get_flag_value argv (codes "--client-id") a.client_id } in
      let shown = int_to_string named.request_interval_ms in
      let interval_value = get_flag_value argv (codes "--interval") shown in
      if bytes_eq interval_value shown
      then (true, named)
      else handle_interval_argument interval_value named

  unfoldable pub parse :
      Bytes
      → ℤ
      → List Bytes
      → List Bytes
      → NotifiableClientArgs
      → Outcome (Bool × NotifiableClientArgs)
  parse host port argv local_addresses a =
      then_ (get_listen_endpoint host port argv local_addresses)
        (λ endpoint. done (parse_flags argv (record a { endpoint = endpoint })))
