-- ===== src/Args/Remote.antt =====
-- The question for the remote endpoint.
use tcp_udp.Base.{
  ℕ, zero, suc, ◌<◌, ◌≡◌, refl, sym, ap, ◌∙◌, inl, inr, Bool, true, false, some, [], ◌∷◌, ◌++◌,
  arith, if◌then◌else◌, Bool-cases, length, Lacks,
}
use tcp_udp.Std.Text.{Bytes}
use tcp_udp.Std.Cin.{
  skip_line, before, skip_line-left, read_line-le, skip_line-append, read_line-append,
}
use tcp_udp.Std.Text.{find-Lacks}
use tcp_udp.Common.Endpoint.{from_string}
use tcp_udp.Args.Parser.{is_valid_endpoint_format}
use tcp_udp.Args.UserInput.{Asked, get_user_string_input, select_remote_endpoint}

-- A round of `select_remote_endpoint`.
module _ (rounds : ℕ) (s : Bytes) where
  abbrev line : Bytes
  line = (get_user_string_input s).0

  abbrev left : Bytes
  left = (get_user_string_input s).1

  abbrev after_check : Bool → Asked Bytes
  after_check valid = if valid then some (line, left) else select_remote_endpoint rounds left

  remote_taken :
      is_valid_endpoint_format line ≡ true
      → select_remote_endpoint (suc rounds) s ≡ some (line, left)
  unfolding select_remote_endpoint
  remote_taken e = ap after_check e

  remote_again :
      is_valid_endpoint_format line ≡ false
      → select_remote_endpoint (suc rounds) s ≡ select_remote_endpoint rounds left
  unfolding select_remote_endpoint
  remote_again e = ap after_check e

pub select_remote_endpoint-valid :
    (rounds : ℕ) (s answer rest : Bytes)
    → select_remote_endpoint rounds s ≡ some (answer, rest)
    → is_valid_endpoint_format answer ≡ true
unfolding select_remote_endpoint
select_remote_endpoint-valid zero s answer rest h = cc
select_remote_endpoint-valid (suc rounds) s answer rest h =
    elim (Bool-cases (is_valid_endpoint_format (line rounds s))) [
      | inl e ↦ cc (remote_taken rounds s e, h, e)
      | inr e ↦
          select_remote_endpoint-valid rounds (left rounds s) answer rest
            (sym (remote_again rounds s e) ∙ h)
    ]

left-lt : (rounds c : ℕ) (s : Bytes) → length (left rounds (c ∷ s)) < suc (length s)
unfolding get_user_string_input
left-lt rounds c s =
    omega (arith, read_line-le (skip_line (c ∷ s)), skip_line-left (c ∷ s) (length s) (omega arith))

-- A text without a colon passes the check of the format, although the message asks for host:port.
pub is_valid_endpoint_format-Lacks :
    (endpoint : Bytes) → Lacks b':' endpoint → is_valid_endpoint_format endpoint ≡ true
unfolding is_valid_endpoint_format from_string
is_valid_endpoint_format-Lacks endpoint h = rw (find-Lacks b':' endpoint h) refl

-- The question for the remote endpoint always returns, at the latest with the empty text at the end
-- of the input, and what it returns passes the check of the format.
pub select_remote_endpoint-total :
    (rounds : ℕ) (s : Bytes)
    → length s < rounds
    → (answer : Bytes) × (rest : Bytes) × (select_remote_endpoint rounds s ≡ some (answer, rest))
      × (is_valid_endpoint_format answer ≡ true)
unfolding get_user_string_input
select_remote_endpoint-total zero s h = absurd (omega arith)
select_remote_endpoint-total (suc rounds) [] h = (
  [],
  [],
  remote_taken rounds [] (is_valid_endpoint_format-Lacks [] tt),
  is_valid_endpoint_format-Lacks [] tt,
)
select_remote_endpoint-total (suc rounds) (c ∷ s) h =
    elim (Bool-cases (is_valid_endpoint_format (line rounds (c ∷ s)))) [
      | inl e ↦ (line rounds (c ∷ s), left rounds (c ∷ s), remote_taken rounds (c ∷ s) e, e)
      | inr e ↦
          let (answer, rest, gave, valid) =
            select_remote_endpoint-total rounds (left rounds (c ∷ s))
              (omega (arith, left-lt rounds c s)) in
          (answer, rest, remote_again rounds (c ∷ s) e ∙ gave, valid)
    ]

answered :
    (before l rest : Bytes)
    → Lacks 10 before
    → Lacks 10 l
    → get_user_string_input (before ++ 10 ∷ (l ++ 10 ∷ rest)) ≡ (l, rest)
unfolding get_user_string_input
answered before l rest h k =
    rw (skip_line-append before (l ++ 10 ∷ rest) h) (read_line-append l rest k)

-- After an answer with a wrong port the next line is dropped unread, whatever it holds, and the one
-- behind it is taken for the answer (`before` is what the line of the question before still holds).
pub select_remote_endpoint-drops_line :
    (rounds : ℕ) (before wrong dropped answer rest : Bytes)
    → Lacks 10 before
    → Lacks 10 wrong
    → Lacks 10 dropped
    → Lacks 10 answer
    → is_valid_endpoint_format wrong ≡ false
    → is_valid_endpoint_format answer ≡ true
    → select_remote_endpoint
        (suc (suc rounds))
        (before ++ 10 ∷ (wrong ++ 10 ∷ (dropped ++ 10 ∷ (answer ++ 10 ∷ rest))))
      ≡ some (answer, rest)
select_remote_endpoint-drops_line rounds before wrong dropped answer rest b w d a bad good =
    let third = dropped ++ 10 ∷ (answer ++ 10 ∷ rest) in
    let first = answered before wrong third b w in
    let second = answered dropped answer rest d a in
    remote_again (suc rounds) (before ++ 10 ∷ (wrong ++ 10 ∷ third))
      (ap (λ r. is_valid_endpoint_format r.0) first ∙ bad)
    ∙ ap (λ r. select_remote_endpoint (suc rounds) r.1) first
    ∙ remote_taken rounds third (ap (λ r. is_valid_endpoint_format r.0) second ∙ good)
    ∙ ap some second
