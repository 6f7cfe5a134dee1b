-- ===== src/Examples/Asking.antt =====
-- What is typed at the questions, and the check of a port.
use tcp_udp.Base.{
  ◌<◌, ◌^◌, ℕ, String, ◌≡◌, refl, ◌⊎◌, true, false, some, List, [], ◌∷◌, ◌++◌, arith, bytes_eq,
}
use tcp_udp.Base.Int.{negsuc, ℤ, pos, eqb_ℤ}
use tcp_udp.Std.Text.{Bytes, codes, find}
use tcp_udp.Std.Decimal.{stoi, to_string}
use tcp_udp.Std.Cin.{read_int}
use tcp_udp.Common.Endpoint.{Endpoint, from_string, print, get_address_string}
use tcp_udp.Sys.Exec.{ok}
use tcp_udp.Sys.World.{start, shell}
use tcp_udp.Args.Parser.{is_valid_endpoint_format}
use tcp_udp.Args.UserInput.{ask_number, at, select_remote_endpoint, handle_interactive_config}
use tcp_udp.Args.Remote.{select_remote_endpoint-total, select_remote_endpoint-drops_line}
use tcp_udp.Args.Chosen.{configured_endpoint_read}
use tcp_udp.Io.LocalAddresses.{Interfaces, get_local_ipv4_addresses, init}
use tcp_udp.Args.PortCleanup.{check_and_cleanup_port, kill_command}
use tcp_udp.Args.Cleanup.{commands, taken, check_and_cleanup_port_lem}
use tcp_udp.Examples.Scripted.{scripted, lively}

-- The bytes of a line and its end.
abbrev line : String → Bytes
line s = codes s ++ 10 ∷ []

abbrev addresses : List Bytes
addresses = codes "0.0.0.0" ∷ codes "127.0.0.1" ∷ codes "192.168.1.5" ∷ []

abbrev typed : Bytes
typed =
    line "x"
    ++ line "7"
    ++ line "1"
    ++ line "70000"
    ++ line "8080"
    ++ line "10.0.0.7:9000"
    ++ line ""

config_test :
    handle_interactive_config 60 addresses typed
    ≡ some ((some (codes "localhost:8080"), codes "10.0.0.7:9000"), [])
unfolding handle_interactive_config ask_number read_int stoi select_remote_endpoint at from_string
    find print get_address_string bytes_eq to_string
config_test = refl

-- Two interfaces, of which one has an address of another family.
abbrev interfaces : Interfaces
interfaces = record {
  status = pos 0;
  addresses =
      some (record {
        family = 10;
        set_result = negsuc 0;
        string_result = pos 0;
        text = codes "[::1]:0";
      })
      ∷ some (record {
        family = 2;
        set_result = pos 0;
        string_result = pos 0;
        text = codes "192.168.1.5:0";
      })
      ∷ [];
}

interfaces_test : init interfaces ≡ addresses
unfolding init get_local_ipv4_addresses find
interfaces_test = refl

configured_test :
    handle_interactive_config 60 (init interfaces) typed
    ≡ some ((some (codes "localhost:8080"), codes "10.0.0.7:9000"), [])
configured_test = rw interfaces_test config_test

configured_endpoint_read_example :
    ((text : Bytes) × (z : ℤ) × (host : Bytes) × (n : ℕ) × (some (codes "localhost:8080")
        ≡ some text)
      × (at (init interfaces) z ≡ some host)
      × (n < 2 ^ 16)
      × (from_string text ≡ some (record { address = get_address_string host; port = n })))
    × (is_valid_endpoint_format (codes "10.0.0.7:9000") ≡ true)
configured_endpoint_read_example =
    configured_endpoint_read 60 interfaces typed (some (codes "localhost:8080"))
      (codes "10.0.0.7:9000") [] configured_test

select_remote_endpoint-total_example :
    (answer : Bytes) × (rest : Bytes) × (select_remote_endpoint 9 (codes "host:x")
      ≡ some (answer, rest))
    × (is_valid_endpoint_format answer ≡ true)
select_remote_endpoint-total_example = select_remote_endpoint-total 9 (codes "host:x") (omega arith)

select_remote_endpoint-drops_line_example :
    select_remote_endpoint 2
      (10 ∷ (codes "host:x" ++ 10 ∷ (codes "host:80" ++ 10 ∷ (codes "other:90" ++ 10 ∷ []))))
    ≡ some (codes "other:90", [])
unfolding is_valid_endpoint_format from_string find stoi
select_remote_endpoint-drops_line_example =
    select_remote_endpoint-drops_line 0 [] (codes "host:x") (codes "host:80") (codes "other:90") []
      tt (ground arith) (ground arith) (ground arith) refl refl

abbrev ours : Endpoint
ours = record { address = codes "localhost"; port = 80 }

check_and_cleanup_port_lem_example :
    let r = check_and_cleanup_port (scripted lively) (codes "n") (codes "localhost:80") start in
    ((taken (scripted lively) start 80 ≡ false)
      × (r.0 ≡ ok (some true))
      × (commands r.1.calls ≡ []))
    ⊎ ((taken (scripted lively) start 80 ≡ true)
        × (commands r.1.calls ≡ kill_command 80 ∷ [])
        × ((t : ℕ) × (r.0
              ≡ ok (
                  some
                    (eqb_ℤ ((scripted lively).reply t (shell (kill_command 80))).value (pos 0))))))
unfolding from_string find stoi
check_and_cleanup_port_lem_example =
    check_and_cleanup_port_lem (scripted lively) start (codes "n") (codes "localhost:80") ours refl
