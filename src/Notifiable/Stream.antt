-- ===== src/Notifiable/Stream.antt =====
-- `process_response` of NotifiableClient.cpp: what was read from the stream is cut into echoes and
-- notifications, which are handled one by one.
use tcp_udp.Base.{
  ℕ, zero, suc, ◌-◌, ◌≤◌, ◌<◌, ◌≡◌, refl, inl, inr, true, false, not, Option, none, some, [], ◌∷◌,
  arith, ltb, if◌then◌else◌, Bool-cases, Option-cases, bytes_eq, length, take, drop, length-drop,
}
use tcp_udp.Std.Text.{
  Bytes, codes, substr, starts_with, find_text, find_text_from, find_text-le, find_text-pos,
}
use tcp_udp.Notifiable.Validator.{Validator, handle_echo_response, handle_notification_response}

abbrev echo_word : Bytes
echo_word = codes "echo "

abbrev notify_word : Bytes
notify_word = codes "notify "

-- What stands at a position of the text, with the end of it; `stopped` leaves the loop.
pub data Segment : Type 0 where
  echoed : ℕ → Segment
  notified : ℕ → Segment
  stopped : Segment

abbrev found_or : ℕ → Option ℕ → ℕ
found_or n none = n
found_or n (some i) = i

unfoldable pub segment : Bytes → ℕ → Segment
segment response position =
    if not (ltb position (length response))
    then stopped
    else if bytes_eq (substr response position 5) echo_word
    then echoed (found_or (length response) (find_text_from notify_word response position))
    else if bytes_eq (substr response position 7) notify_word
    then notified (found_or (length response) (find_text_from echo_word response position))
    else stopped

-- One round of the loop, with the rest of the loop as an argument.
process_segment :
    Bytes → ℕ → Validator → (ℕ → Validator → Option Validator) → Segment → Option Validator
process_segment response position v continue (echoed last) =
    continue last (handle_echo_response (substr response position (last - position)) v)
process_segment response position v continue (notified last) =
    continue last (handle_notification_response (substr response position (last - position)) v)
process_segment response position v continue stopped = some v

-- The loop on fuel: `none` is a run that is not finished.
unfoldable pub process_loop : ℕ → Bytes → ℕ → Validator → Option Validator
unfolding process_segment
process_loop zero response position v = none
process_loop (suc fuel) response position v =
    process_segment response position v (process_loop fuel response) (segment response position)

unfoldable pub process_response : ℕ → Bytes → Validator → Option Validator
process_response fuel response v = process_loop fuel response 0 v

echo_not_notify :
    (s : Bytes) → bytes_eq (take 5 s) echo_word ≡ true → starts_with notify_word s ≡ false
unfolding bytes_eq starts_with
echo_not_notify [] h = absurd (cc)
echo_not_notify (c ∷ s) h = ground arith

notify_not_echo :
    (s : Bytes) → bytes_eq (take 7 s) notify_word ≡ true → starts_with echo_word s ≡ false
unfolding bytes_eq starts_with
notify_not_echo [] h = absurd (cc)
notify_not_echo (c ∷ s) h = ground arith

-- An end is behind the position and not behind the text.
end_behind :
    (word response : Bytes) (position : ℕ)
    → starts_with word (drop position response) ≡ false
    → position < length response
    → (position < found_or (length response) (find_text_from word response position))
      × (found_or (length response) (find_text_from word response position) ≤ length response)
end_behind word response position other inside =
    elim (Option-cases (find_text word (drop position response))) [
      | inl e ↦ rw e (inside, omega arith)
      | inr (i, e) ↦
          let ahead = find_text-pos word (drop position response) i other e in
          let within = find_text-le word (drop position response) i e in
          let rest = length-drop position response in rw e (omega arith, omega arith)
    ]

-- The loop returns, if the fuel is more than what is left of the text.
process_loop-total :
    (fuel : ℕ) (response : Bytes) (position : ℕ) (v : Validator)
    → length response - position < fuel
    → (w : Validator) × (process_loop fuel response position v ≡ some w)
unfolding process_loop segment
process_loop-total zero response position v enough = absurd (omega arith)
process_loop-total (suc fuel) response position v enough =
    elim (Bool-cases (ltb position (length response))) [
      | inr e ↦ rw e (v, refl)
      | inl e ↦ elim (Bool-cases (bytes_eq (substr response position 5) echo_word)) [
        | inl q ↦
            let (ahead, within) =
              end_behind notify_word response position (echo_not_notify (drop position response) q)
                (ground arith) in
            rw (e, q)
              (process_loop-total fuel response
                (found_or (length response) (find_text_from notify_word response position)) _
                (omega arith))
        | inr q ↦ elim (Bool-cases (bytes_eq (substr response position 7) notify_word)) [
          | inl n ↦
              let (ahead, within) =
                end_behind echo_word response position (notify_not_echo (drop position response) n)
                  (ground arith) in
              rw (e, q, n)
                (process_loop-total fuel response
                  (found_or (length response) (find_text_from echo_word response position)) _
                  (omega arith))
          | inr n ↦ rw (e, q, n) (v, refl)
        ]
      ]
    ]

-- `process_response` returns, whatever was read: as many rounds as the text has bytes, and one more,
-- are enough.
pub process_response-total :
    (fuel : ℕ) (response : Bytes) (v : Validator)
    → length response < fuel
    → (w : Validator) × (process_response fuel response v ≡ some w)
unfolding process_response
process_response-total fuel response v enough = process_loop-total fuel response 0 v (omega arith)
