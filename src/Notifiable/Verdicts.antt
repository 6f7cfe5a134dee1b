-- ===== src/Notifiable/Verdicts.antt =====
-- What the checks report, and what they remember.
use tcp_udp.Base.{
  ◌≡◌, refl, sym, ap, ◌∙◌, inl, inr, true, false, Option, none, some, List, [], ◌∷◌, ◌++◌, arith,
  if◌then◌else◌, Bool-cases, Option-cases, bytes_eq, bytes_eq_sound, Lacks,
}
use mathlib.Core.Option.{some-injective}
use tcp_udp.Base.Int.{
  ℤ, int_suc, int_suc-lt, int_suc-IsInt, ltb_ℤ_irrefl, ltb_ℤ, eqb_ℤ, eqb_ℤ_refl, IsInt, int_max,
  ◌<ℤ◌, ◌≤ℤ◌,
}
use tcp_udp.Std.Text.{Bytes}
use tcp_udp.Std.Dict.{lookup, insert, lookup-insert}
use tcp_udp.Tcp.Messages.{echo_response, notification}
use tcp_udp.Notifiable.Message.{
  Request, create_request_message, parse_echo_response, parse_notification,
}
use tcp_udp.Notifiable.RoundTrip.{
  parse_echo_response-create_request_message, parse_notification-create_request_message,
}
use tcp_udp.Notifiable.Validator.{
  Validator, handle_echo_response, validate_echo_response, validate_notification, echo_valid,
  echo_id_mismatch, check_request, check_number, notification_old, notification_valid,
}

handle_echo_some :
    (response : Bytes) (r : Request) (v : Validator)
    → parse_echo_response response ≡ some r
    → handle_echo_response response v ≡ record v {
      validation_logs =
          v.validation_logs
          ++ (if bytes_eq r.client_id v.current_client_id
              then echo_valid v.current_client_id r.sequence_number
              else echo_id_mismatch v.current_client_id r.client_id)
            ∷ [];
    }
unfolding handle_echo_response validate_echo_response
handle_echo_some response r v e =
    rw (e, handle_echo_response)
      (rw (e, validate_echo_response) (ground (arith, eqb_ℤ_refl r.sequence_number)))

-- Whatever number the echo of a request holds, the client reports it as valid if the client id is
-- its own, and reports a wrong client id otherwise: the number is compared with itself. Nothing else
-- changes.
pub handle_echo_response_any_number :
    (client_id : Bytes) (z : ℤ) (message : Bytes) (v : Validator)
    → Lacks b':' client_id
    → IsInt z
    → handle_echo_response (echo_response (create_request_message client_id z message)) v
      ≡ record v {
        validation_logs =
            v.validation_logs
            ++ (if bytes_eq client_id v.current_client_id
                then echo_valid v.current_client_id z
                else echo_id_mismatch v.current_client_id client_id)
              ∷ [];
      }
handle_echo_response_any_number client_id z message v h range =
    handle_echo_some _ _ v (parse_echo_response-create_request_message client_id z message h range)

-- What a notification that can be read does depends only on its number and on the last number
-- remembered for its client.
pub validate_notification-create_request_message :
    (client_id : Bytes) (z : ℤ) (message : Bytes) (v : Validator)
    → Lacks b':' client_id
    → IsInt z
    → validate_notification (notification (create_request_message client_id z message)) v
      ≡ check_number
          (record { client_id = client_id; sequence_number = z; message = message })
          (lookup client_id v.client_sequence_numbers)
          v
unfolding validate_notification check_request
validate_notification-create_request_message client_id z message v h range =
    rw (parse_notification-create_request_message client_id z message h range) refl

-- A client whose last remembered number is z sends the number after z: the notification is reported
-- as valid, that number is remembered for the client, and nothing else changes.
pub validate_notification_next :
    (client_id : Bytes) (z : ℤ) (message : Bytes) (v : Validator)
    → Lacks b':' client_id
    → IsInt z
    → lookup client_id v.client_sequence_numbers ≡ some z
    → validate_notification (notification (create_request_message client_id (int_suc z) message)) v
      ≡ record v {
        client_sequence_numbers = insert client_id (int_suc z) v.client_sequence_numbers;
        validation_logs = v.validation_logs ++ notification_valid client_id (int_suc z) ∷ [];
      }
unfolding check_number
validate_notification_next client_id z message v h range found =
    validate_notification-create_request_message client_id (int_suc z) message v h
      (int_suc-IsInt z range)
    ∙ rw found (rw (ltb_ℤ_irrefl (int_suc z), eqb_ℤ_refl (int_suc z)) refl)

check_number-old :
    (r : Request) (z : ℤ) (v : Validator)
    → z <ℤ int_max
    → r.sequence_number ≤ℤ z
    → check_number r (some z) v ≡ record v {
      validation_logs =
          v.validation_logs ++ notification_old r.client_id (int_suc z) r.sequence_number ∷ [];
    }
unfolding check_number
check_number-old r z v below old =
    let less : ltb_ℤ r.sequence_number (int_suc z) ≡ true = ground (arith, int_suc-lt z below) in
    rw less refl

-- A notification that repeats the last number remembered for its client, or holds an older one, is
-- reported as too old, and nothing is remembered of it (the last number below the largest `int`).
pub validate_notification_old :
    (client_id : Bytes) (last z : ℤ) (message : Bytes) (v : Validator)
    → Lacks b':' client_id
    → IsInt z
    → lookup client_id v.client_sequence_numbers ≡ some last
    → last <ℤ int_max
    → z ≤ℤ last
    → validate_notification (notification (create_request_message client_id z message)) v
      ≡ record v {
        validation_logs = v.validation_logs ++ notification_old client_id (int_suc last) z ∷ [];
      }
validate_notification_old client_id last z message v h range found below old =
    validate_notification-create_request_message client_id z message v h range
    ∙ rw found (
        check_number-old (record { client_id = client_id; sequence_number = z; message = message })
          last v below old)

remember-grows :
    (k c : Bytes) (n z : ℤ) (m : List (Bytes × ℤ))
    → lookup c m ≡ some z
    → (k ≡ c → z ≤ℤ n)
    → (w : ℤ) × (lookup c (insert k n m) ≡ some w) × (z ≤ℤ w)
remember-grows k c n z m found less = elim (Bool-cases (bytes_eq k c)) [
  | inl e ↦ (n, rw (lookup-insert k c n m, e) refl, less (bytes_eq_sound k c e))
  | inr e ↦ (z, rw (lookup-insert k c n m, e) found, omega arith)
]

check_number-grows :
    (r : Request) (seen : Option ℤ) (c : Bytes) (z : ℤ) (v : Validator)
    → lookup r.client_id v.client_sequence_numbers ≡ seen
    → lookup c v.client_sequence_numbers ≡ some z
    → z <ℤ int_max
    → (w : ℤ) × (lookup c (check_number r seen v).client_sequence_numbers ≡ some w) × (z ≤ℤ w)
unfolding check_number
check_number-grows r none c z v seen found below =
    remember-grows r.client_id c r.sequence_number z v.client_sequence_numbers found
      (λ e. absurd (cc))
check_number-grows r (some last) c z v seen found below =
    let grown : ltb_ℤ r.sequence_number (int_suc last) ≡ false
        → (r.client_id ≡ c → z ≤ℤ r.sequence_number) =
      λ new e.
        let same : last ≡ z =
          some-injective last z
            (sym seen ∙ (ap (λ k. lookup k v.client_sequence_numbers) e ∙ found)) in
        ground (arith, int_suc-lt z below) in
    elim (Bool-cases (ltb_ℤ r.sequence_number (int_suc last))) [
      | inl e ↦ rw e (z, found, omega arith)
      | inr e ↦ elim (Bool-cases (eqb_ℤ r.sequence_number (int_suc last))) [
        | inl q ↦
            rw (e, q)
              (remember-grows r.client_id c r.sequence_number z v.client_sequence_numbers found
                (grown e))
        | inr q ↦
            rw (e, q)
              (remember-grows r.client_id c r.sequence_number z v.client_sequence_numbers found
                (grown e))
      ]
    ]

-- Whatever text is checked as a notification, a number that is remembered for a client and is below
-- the largest `int` is never replaced by a smaller one, and is never forgotten.
pub validate_notification-grows :
    (response c : Bytes) (z : ℤ) (v : Validator)
    → lookup c v.client_sequence_numbers ≡ some z
    → z <ℤ int_max
    → (w : ℤ) × (lookup c (validate_notification response v).client_sequence_numbers ≡ some w)
      × (z ≤ℤ w)
unfolding validate_notification check_request
validate_notification-grows response c z v found below =
    elim (Option-cases (parse_notification response)) [
      | inl e ↦ rw e (z, found, omega arith)
      | inr (r, e) ↦ rw e (
          check_number-grows r (lookup r.client_id v.client_sequence_numbers) c z v refl found
            below)
    ]
