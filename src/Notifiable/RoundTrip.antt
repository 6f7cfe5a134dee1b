-- ===== src/Notifiable/RoundTrip.antt =====
-- What a server puts around a request is taken off again.
use tcp_udp.Base.{
  ℕ, ◌+◌, ◌-◌, ◌≡◌, refl, ap, ◌∙◌, true, false, some, ◌∷◌, ◌++◌, arith, ltb, bytes_eq,
  bytes_eq_refl, length, take, drop, length-append, take-length_append, drop_past, drop-drop, Lacks,
}
use mathlib.Core.Path.{ap₂}
use tcp_udp.Base.Int.{ℤ, IsInt}
use tcp_udp.Std.Text.{Bytes, codes, find, find-append, find_from, substr, size_sub}
use tcp_udp.Std.Decimal.{int_to_string, stoi-int_to_string, int_to_string-Lacks_colon}
use tcp_udp.Tcp.Messages.{echo_response, notification}
use tcp_udp.Notifiable.Message.{
  create_request_message, parse_inner_content, parse_echo_response, parse_notification,
}

module _ (client_id : Bytes) (z : ℤ) (message : Bytes) where
  abbrev digits : Bytes
  digits = int_to_string z

  abbrev rest : Bytes
  rest = digits ++ b':' ∷ message

  abbrev text : Bytes
  text = create_request_message client_id z message

  first_colon : find b':' text ≡ some 7
  unfolding create_request_message find
  first_colon = refl

  behind_first : drop 8 text ≡ client_id ++ b':' ∷ rest
  unfolding create_request_message
  behind_first = refl

  behind_second : drop (8 + length client_id + 1) text ≡ rest
  behind_second =
      ap (λ n. drop n text) (omega arith)
      ∙ (drop-drop 8 (length client_id + 1) text
          ∙ (ap (drop (length client_id + 1)) behind_first ∙ drop_past client_id rest b':'))

  head_word : bytes_eq (take 7 text) (codes "request") ≡ true
  unfolding create_request_message bytes_eq
  head_word = refl

  second_colon : Lacks b':' client_id → find_from b':' text 8 ≡ some (8 + length client_id)
  second_colon h = rw behind_first (rw (find-append b':' client_id rest h) refl)

  third_colon :
      find_from b':' text (8 + length client_id + 1)
      ≡ some (8 + length client_id + 1 + length digits)
  third_colon =
      rw behind_second (rw (find-append b':' digits message (int_to_string-Lacks_colon z)) refl)

  number_part :
      substr text
        (8 + length client_id + 1)
        (8 + length client_id + 1 + length digits - (8 + length client_id) - 1)
      ≡ digits
  number_part = ap₂ take (omega arith) behind_second ∙ take-length_append digits (b':' ∷ message)

  id_part : substr text 8 (8 + length client_id - 7 - 1) ≡ client_id
  id_part = ap₂ take (omega arith) behind_first ∙ take-length_append client_id (b':' ∷ rest)

  message_part : drop (8 + length client_id + 1 + length digits + 1) text ≡ message
  message_part =
      ap (λ n. drop n text) (omega arith)
      ∙ (drop-drop (8 + length client_id + 1) (length digits + 1) text
          ∙ (ap (drop (length digits + 1)) behind_second ∙ drop_past digits message b':'))

  -- A request is read back as it was made, if the client id has no colon and the number is an `int`;
  -- the message may hold anything.
  pub parse_inner_content-create_request_message :
      Lacks b':' client_id
      → IsInt z
      → parse_inner_content (create_request_message client_id z message)
        ≡ some (record { client_id = client_id; sequence_number = z; message = message })
  unfolding parse_inner_content
  parse_inner_content-create_request_message h range =
      rw (first_colon, head_word)
        (rw (second_colon h) (
          rw third_colon
            (rw (number_part, stoi-int_to_string z range) (rw (id_part, message_part) refl))))

size_sub_add : (n j k : ℕ) → n ≡ j + k → size_sub n k ≡ j
size_sub_add n j k e = ground arith

-- The answers of the server to a message: TcpEchoHandler and NotificationHandler.
echo_parts :
    (m : Bytes)
    → (take 6 (echo_response m) ≡ codes "echo [")
      × (length (echo_response m) ≡ length m + 7)
      × (substr (echo_response m) 6 (size_sub (length (echo_response m)) 7) ≡ m)
unfolding echo_response
echo_parts m =
    let long : length (echo_response m) ≡ length m + 7 =
      omega (arith, length-append m (codes "]")) in
    (
      refl,
      long,
      ap (λ (n : ℕ). take n (m ++ codes "]"))
            (size_sub_add (length (echo_response m)) (length m) 7 long)
          ∙ take-length_append m (codes "]"),
    )

notify_parts :
    (m : Bytes)
    → (take 8 (notification m) ≡ codes "notify [")
      × (length (notification m) ≡ length m + 9)
      × (substr (notification m) 8 (size_sub (length (notification m)) 9) ≡ m)
unfolding notification
notify_parts m =
    let long : length (notification m) ≡ length m + 9 =
      omega (arith, length-append m (codes "]")) in
    (
      refl,
      long,
      ap (λ (n : ℕ). take n (m ++ codes "]"))
            (size_sub_add (length (notification m)) (length m) 9 long)
          ∙ take-length_append m (codes "]"),
    )

-- The echo of a request is read back as the request.
pub parse_echo_response-create_request_message :
    (client_id : Bytes) (z : ℤ) (message : Bytes)
    → Lacks b':' client_id
    → IsInt z
    → parse_echo_response (echo_response (create_request_message client_id z message))
      ≡ some (record { client_id = client_id; sequence_number = z; message = message })
unfolding parse_echo_response
parse_echo_response-create_request_message client_id z message h range =
    let m = create_request_message client_id z message in
    let (head, long, inner) = echo_parts m in
    let read = parse_inner_content-create_request_message client_id z message h range in
    let enough : ltb (length (echo_response m)) 6 ≡ false = ground (arith, long) in
    rw (enough, head, bytes_eq_refl (codes "echo [")) (rw inner read)

-- The notification of a request is read back as the request.
pub parse_notification-create_request_message :
    (client_id : Bytes) (z : ℤ) (message : Bytes)
    → Lacks b':' client_id
    → IsInt z
    → parse_notification (notification (create_request_message client_id z message))
      ≡ some (record { client_id = client_id; sequence_number = z; message = message })
unfolding parse_notification
parse_notification-create_request_message client_id z message h range =
    let m = create_request_message client_id z message in
    let (head, long, inner) = notify_parts m in
    let read = parse_inner_content-create_request_message client_id z message h range in
    let enough : ltb (length (notification m)) 8 ≡ false = ground (arith, long) in
    rw (enough, head, bytes_eq_refl (codes "notify [")) (rw inner read)
