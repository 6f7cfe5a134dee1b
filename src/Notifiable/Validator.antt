-- ===== src/Notifiable/Validator.antt =====
-- The checks of NotifiableClient.cpp: `validate_echo_response`, `validate_notification` and the two
-- handlers that call them.
use tcp_udp.Base.{String, not, Option, none, some, List, [], ◌∷◌, ◌++◌, if◌then◌else◌, bytes_eq}
use tcp_udp.Base.Int.{ℤ, int_suc, ltb_ℤ, eqb_ℤ}
use tcp_udp.Std.Text.{Bytes}
use tcp_udp.Std.Dict.{lookup, insert}
use tcp_udp.Sys.Exec.{Arg, text, int}
use tcp_udp.Sys.World.{Entry, LogLevel, info, error}
use tcp_udp.Notifiable.Message.{Request, parse_echo_response, parse_notification}

-- The members that the receiving thread reads and writes, and what it gave the validation logger.
pub record Validator : Type 0 where
  pub client_sequence_numbers : List (Bytes × ℤ)
  pub current_client_id : Bytes
  pub validation_logs : List Entry

abbrev pub start : Bytes → Validator
start client_id = record {
  client_sequence_numbers = [];
  current_client_id = client_id;
  validation_logs = [];
}

abbrev entry : LogLevel → String → List Arg → Entry
entry level format args = record {
  level = level;
  message = record { format = format; args = args };
}

abbrev log : Entry → Validator → Validator
log e v = record v { validation_logs = v.validation_logs ++ e ∷ [] }

abbrev pub echo_unreadable : Bytes → Entry
echo_unreadable response =
    entry error "VALIDATION ERROR: Failed to parse echo response: %s" (text response ∷ [])

abbrev pub echo_id_mismatch : Bytes → Bytes → Entry
echo_id_mismatch expected got =
    entry error "VALIDATION ERROR: Echo response client ID mismatch. Expected: %s, Got: %s"
      (text expected ∷ text got ∷ [])

abbrev pub echo_number_mismatch : ℤ → ℤ → Entry
echo_number_mismatch expected got =
    entry error "VALIDATION ERROR: Echo response sequence number mismatch. Expected: %d, Got: %d"
      (int expected ∷ int got ∷ [])

abbrev pub echo_valid : Bytes → ℤ → Entry
echo_valid client_id number =
    entry info "VALIDATION SUCCESS: Echo response validated for %s, sequence %d"
      (text client_id ∷ int number ∷ [])

-- What the check of an echo reports.
echo_verdict : Option Request → Bytes → Bytes → ℤ → Entry
echo_verdict none response expected_client_id expected_sequence_number = echo_unreadable response
echo_verdict (some r) response expected_client_id expected_sequence_number =
    if not (bytes_eq r.client_id expected_client_id)
    then echo_id_mismatch expected_client_id r.client_id
    else if not (eqb_ℤ r.sequence_number expected_sequence_number)
    then echo_number_mismatch expected_sequence_number r.sequence_number
    else echo_valid expected_client_id expected_sequence_number

unfoldable pub validate_echo_response : Bytes → Bytes → ℤ → Validator → Validator
unfolding echo_verdict
validate_echo_response response expected_client_id expected_sequence_number v =
    log
      (echo_verdict (parse_echo_response response) response expected_client_id
        expected_sequence_number)
      v

abbrev pub notification_unreadable : Bytes → Entry
notification_unreadable notification =
    entry error "VALIDATION ERROR: Failed to parse notification: %s" (text notification ∷ [])

abbrev pub notification_first : Bytes → ℤ → Entry
notification_first client_id number =
    entry info "VALIDATION INFO: First notification from %s, sequence %d"
      (text client_id ∷ int number ∷ [])

abbrev pub notification_old : Bytes → ℤ → ℤ → Entry
notification_old client_id expected number =
    entry error
      "VALIDATION ERROR: Notification sequence number too old for %s. Expected: %d, Got: %d"
      (text client_id ∷ int expected ∷ int number ∷ [])

abbrev pub notification_valid : Bytes → ℤ → Entry
notification_valid client_id number =
    entry info "VALIDATION SUCCESS: Notification sequence validated for %s, sequence %d"
      (text client_id ∷ int number ∷ [])

abbrev pub notification_jumped : Bytes → ℤ → ℤ → Entry
notification_jumped client_id expected number =
    entry info "VALIDATION INFO: Notification sequence jumped for %s. Expected: %d, Got: %d"
      (text client_id ∷ int expected ∷ int number ∷ [])

abbrev remember : Request → Validator → Validator
remember r v = record v {
  client_sequence_numbers = insert r.client_id r.sequence_number v.client_sequence_numbers;
}

-- The number expected next is one more, at type `int`; the sum past the largest `int`, which C++
-- leaves undefined, wraps here.
unfoldable pub check_number : Request → Option ℤ → Validator → Validator
unfolding int_suc
check_number r none v = log (notification_first r.client_id r.sequence_number) (remember r v)
check_number r (some last) v =
    let expected = int_suc last in
    if ltb_ℤ r.sequence_number expected
    then log (notification_old r.client_id expected r.sequence_number) v
    else if eqb_ℤ r.sequence_number expected
    then log (notification_valid r.client_id r.sequence_number) (remember r v)
    else log (notification_jumped r.client_id expected r.sequence_number) (remember r v)

unfoldable pub check_request : Bytes → Option Request → Validator → Validator
unfolding check_number
check_request notification none v = log (notification_unreadable notification) v
check_request notification (some r) v =
    check_number r (lookup r.client_id v.client_sequence_numbers) v

unfoldable pub validate_notification : Bytes → Validator → Validator
unfolding check_request
validate_notification notification v =
    check_request notification (parse_notification notification) v

-- The number that is checked is the one that the response itself holds.
check_echo : Bytes → Option Request → Validator → Validator
check_echo response none v = v
check_echo response (some r) v =
    validate_echo_response response v.current_client_id r.sequence_number v

unfoldable pub handle_echo_response : Bytes → Validator → Validator
unfolding check_echo
handle_echo_response response v = check_echo response (parse_echo_response response) v

unfoldable pub handle_notification_response : Bytes → Validator → Validator
handle_notification_response response v = validate_notification response v
