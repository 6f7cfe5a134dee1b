-- ===== src/Examples/Checks.antt =====
-- The texts of the notifiable client and of endpoints.
use tcp_udp.Base.{ℕ, ◌<◌, ◌≡◌, refl, none, some, [], ◌∷◌, ◌++◌, arith, bytes_eq, Lacks}
use tcp_udp.Base.Int.{pos, negsuc, IsInt, int_suc}
use tcp_udp.Std.Text.{Bytes, codes, find_text, starts_with}
use tcp_udp.Std.Dict.{lookup}
use tcp_udp.Std.Decimal.{to_string, int_to_string}
use tcp_udp.Common.Keys.{print-injective, IsNumeric}
use tcp_udp.Io.{from_size}
use tcp_udp.Io.Classify.{from_size-IsClassified, IsClassified}
use tcp_udp.Tcp.Messages.{echo_response, notification}
use tcp_udp.Notifiable.Message.{create_request_message, parse_inner_content}
use tcp_udp.Notifiable.RoundTrip.{parse_inner_content-create_request_message}
use tcp_udp.Notifiable.Validator.{
  Validator, start, validate_notification, handle_echo_response, echo_valid, notification_old,
  check_number,
}
use tcp_udp.Notifiable.Verdicts.{handle_echo_response_any_number, validate_notification_old}
use tcp_udp.Notifiable.Stream.{process_response, process_response-total}
use tcp_udp.Notifiable.Splitting.{process_response_coalesced}
use tcp_udp.Examples.Scripted.{peer}

abbrev client : Bytes
client = codes "c1"

client-Lacks : Lacks b':' client
client-Lacks = ground arith

small-IsInt : (n : ℕ) → n < 100 → IsInt (pos n)
small-IsInt n h = ground arith

-- The number 6 was the last of "c1".
abbrev validator : Validator
validator = record (start client) { client_sequence_numbers = (client, pos 6) ∷ [] }

parse_inner_content-create_request_message_example :
    parse_inner_content (create_request_message client (pos 7) (codes "hi: 1"))
    ≡ some (record { client_id = client; sequence_number = pos 7; message = codes "hi: 1" })
parse_inner_content-create_request_message_example =
    parse_inner_content-create_request_message client (pos 7) (codes "hi: 1") client-Lacks
      (small-IsInt 7 (omega arith))

handle_echo_response_any_number_example :
    handle_echo_response
      (echo_response (create_request_message client (pos 7) (codes "hi")))
      validator
    ≡ record validator { validation_logs = echo_valid client (pos 7) ∷ [] }
unfolding bytes_eq
handle_echo_response_any_number_example =
    handle_echo_response_any_number client (pos 7) (codes "hi") validator client-Lacks
      (small-IsInt 7 (omega arith))

last_found : lookup client validator.client_sequence_numbers ≡ some (pos 6)
unfolding lookup bytes_eq
last_found = refl

validate_notification_old_example :
    validate_notification
      (notification (create_request_message client (pos 6) (codes "hi")))
      validator
    ≡ record validator { validation_logs = notification_old client (pos 7) (pos 6) ∷ [] }
unfolding int_suc
validate_notification_old_example =
    validate_notification_old client (pos 6) (pos 6) (codes "hi") validator client-Lacks
      (small-IsInt 6 (omega arith)) last_found (omega arith) (omega arith)

process_response-total_example :
    (w : Validator) × (process_response 40 (codes "echo [request:c1:7:hi]notify [x]") validator
      ≡ some w)
process_response-total_example =
    process_response-total 40 (codes "echo [request:c1:7:hi]notify [x]") validator (omega arith)

no_notification : find_text (codes "notify ") (echo_response (codes "hi")) ≡ none
unfolding find_text echo_response starts_with
no_notification = refl

no_echo :
    find_text (codes "echo ") (
      notification (create_request_message client (pos 7) (codes "hi")) ++ notification (codes "x"))
    ≡ none
unfolding find_text notification create_request_message to_string starts_with int_to_string
no_echo = refl

process_response_coalesced_example :
    process_response 2
      (notification (create_request_message client (pos 7) (codes "hi"))
        ++ notification (codes "x"))
      validator
    ≡ some (
        check_number
          (record { client_id = client; sequence_number = pos 7; message = codes "hi]notify [x" })
          (some (pos 6))
          validator)
unfolding lookup bytes_eq
process_response_coalesced_example =
    process_response_coalesced 0 client (pos 7) (codes "hi") (codes "x") validator client-Lacks
      (small-IsInt 7 (omega arith)) no_echo

peer-IsNumeric : IsNumeric peer.address
peer-IsNumeric = record {
  no_colon = ground arith;
  no_localhost = λ e. ground (arith, e);
  no_any = λ e. ground (arith, e);
}

print-injective_example : peer ≡ peer
print-injective_example = print-injective peer peer peer-IsNumeric peer-IsNumeric refl

from_size-IsClassified_example : IsClassified (negsuc 0) 11 (from_size (negsuc 0) 11)
from_size-IsClassified_example = from_size-IsClassified (negsuc 0) 11
