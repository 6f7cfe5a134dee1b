-- ===== src/Examples/Threads.antt =====
-- The threads of the notifiable client, and command lines.
use tcp_udp.Base.{◌≡◌, refl, true, List, [], ◌∷◌, bytes_eq, drop}
use tcp_udp.Base.Int.{pos}
use tcp_udp.Std.Text.{Bytes, codes, find}
use tcp_udp.Std.Decimal.{stoi, int_to_string}
use tcp_udp.Common.Endpoint.{from_string}
use tcp_udp.Sys.World
use tcp_udp.Notifiable.Validator.{start}
use tcp_udp.Notifiable.Threads.{Sender, Receiver, sender_loop}
use tcp_udp.Notifiable.Sending.{Numbered, sender_loop-Numbered}
use tcp_udp.Args.Parser.{
  done, get_listen_endpoint, listen_argument, contains, default_args, parse_flags, get_flag_value,
  flag_value, validate_listen_address, handle_interval_argument,
}
use tcp_udp.Examples.Scripted.{scripted, lively, session, small_buffer}

abbrev sender : Sender
sender = record { world = World.start; current_sequence_number = pos 0; request_count = pos 0 }

sender_loop-Numbered_example :
    Numbered
      (scripted lively)
      (session 5)
      (codes "c1")
      sender
      (sender_loop (scripted lively) (session 5) 4 (codes "c1") sender).1
sender_loop-Numbered_example =
    sender_loop-Numbered (scripted lively) (session 5) (codes "c1") 4 sender

abbrev receiver : Receiver
receiver = record { world = World.start; buffer = small_buffer; validator = start (codes "c1") }

abbrev command_line : List Bytes
command_line = codes "proxy" ∷ codes "127.0.0.1:80" ∷ []

abbrev own_addresses : List Bytes
own_addresses = codes "0.0.0.0" ∷ codes "127.0.0.1" ∷ []

chosen_endpoint :
    get_listen_endpoint (codes "0.0.0.0") (pos 0) command_line own_addresses
    ≡ done (codes "127.0.0.1:80")
unfolding get_listen_endpoint listen_argument validate_listen_address contains from_string stoi
    bytes_eq find
chosen_endpoint = refl

given_argument : listen_argument (drop 1 command_line) ≡ codes "127.0.0.1:80"
unfolding listen_argument bytes_eq
given_argument = refl

abbrev interval_line : List Bytes
interval_line = codes "client" ∷ codes "--interval" ∷ codes "250" ∷ []

accepted : (parse_flags (λ p. []) interval_line default_args).0 ≡ true
unfolding parse_flags get_flag_value handle_interval_argument stoi bytes_eq int_to_string flag_value
accepted = refl
