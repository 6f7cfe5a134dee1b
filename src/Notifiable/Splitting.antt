-- ===== src/Notifiable/Splitting.antt =====
-- How `process_response` cuts what was read: one answer alone, and two notifications that one read
-- returns together.
use tcp_udp.Base.{
  ℕ, suc, ◌-◌, ◌≡◌, refl, ap, ◌∙◌, true, none, some, ◌++◌, append_assoc, arith, ltb, bytes_eq,
  length, take_all, Lacks,
}
use tcp_udp.Base.Int.{ℤ, IsInt}
use tcp_udp.Std.Text.{Bytes, codes, find_text}
use tcp_udp.Std.Dict.{lookup}
use tcp_udp.Tcp.Messages.{echo_response, notification}
use tcp_udp.Notifiable.Message.{create_request_message}
use tcp_udp.Notifiable.Validator.{
  Validator, validate_notification, handle_echo_response, handle_notification_response,
  check_number,
}
use tcp_udp.Notifiable.Verdicts.{validate_notification-create_request_message}
use tcp_udp.Notifiable.Stream.{process_response, process_loop, segment, notified, echoed, stopped}

segment_past : (response : Bytes) → segment response (length response) ≡ stopped
unfolding segment
segment_past response = ground arith

segment-notification :
    (m : Bytes)
    → find_text (codes "echo ") (notification m) ≡ none
    → segment (notification m) 0 ≡ notified (length (notification m))
unfolding segment notification bytes_eq
segment-notification m none_inside =
    let long : ltb 0 (length (notification m)) ≡ true = ground arith in rw (none_inside, long) refl

segment-echo_response :
    (m : Bytes)
    → find_text (codes "notify ") (echo_response m) ≡ none
    → segment (echo_response m) 0 ≡ echoed (length (echo_response m))
unfolding segment echo_response bytes_eq
segment-echo_response m none_inside =
    let long : ltb 0 (length (echo_response m)) ≡ true = ground arith in rw (none_inside, long) refl

process_response_whole_notification :
    (fuel : ℕ) (m : Bytes) (v : Validator)
    → find_text (codes "echo ") (notification m) ≡ none
    → process_response (suc (suc fuel)) (notification m) v
      ≡ some (validate_notification (notification m) v)
unfolding process_response process_loop handle_notification_response
process_response_whole_notification fuel m v none_inside = rw (segment-notification m none_inside) (
    rw (segment_past (notification m)) (
      ap (λ (s : Bytes). some (validate_notification s v))
        (take_all (length (notification m) - 0) (notification m) (omega arith))))

-- An echo that is read alone, with no "notify " in it, is handled as one echo.
pub process_response-echo_response :
    (fuel : ℕ) (m : Bytes) (v : Validator)
    → find_text (codes "notify ") (echo_response m) ≡ none
    → process_response (suc (suc fuel)) (echo_response m) v
      ≡ some (handle_echo_response (echo_response m) v)
unfolding process_response process_loop
process_response-echo_response fuel m v none_inside = rw (segment-echo_response m none_inside) (
    rw (segment_past (echo_response m)) (
      ap (λ (s : Bytes). some (handle_echo_response s v))
        (take_all (length (echo_response m) - 0) (echo_response m) (omega arith))))

joined :
    (client_id : Bytes) (z : ℤ) (message other : Bytes)
    → notification (create_request_message client_id z message) ++ notification other
      ≡ notification (create_request_message client_id z (message ++ (codes "]notify [" ++ other)))
unfolding notification create_request_message
joined client_id z message other = simp (append_assoc)

-- Two notifications that one read returns together, with no "echo " in them, are taken for one: the
-- check sees the first number only, and neither the number nor the client of the second.
pub process_response_coalesced :
    (fuel : ℕ) (client_id : Bytes) (z : ℤ) (message other : Bytes) (v : Validator)
    → Lacks b':' client_id
    → IsInt z
    → find_text
        (codes "echo ")
        (notification (create_request_message client_id z message) ++ notification other)
      ≡ none
    → process_response
        (suc (suc fuel))
        (notification (create_request_message client_id z message) ++ notification other)
        v
      ≡ some (
          check_number
            (record {
              client_id = client_id;
              sequence_number = z;
              message = message ++ (codes "]notify [" ++ other);
            })
            (lookup client_id v.client_sequence_numbers)
            v)
process_response_coalesced fuel client_id z message other v h range none_inside =
    let e = joined client_id z message other in
    rw e (
      process_response_whole_notification fuel
        (create_request_message client_id z (message ++ (codes "]notify [" ++ other))) v
        (rw e at none_inside)
      ∙ ap some (
          validate_notification-create_request_message client_id z
            (message ++ (codes "]notify [" ++ other)) v h range))
