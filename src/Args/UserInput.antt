-- ===== src/Args/UserInput.antt =====
-- UserInputHandler.cpp, InteractiveConfigurator.cpp and `get_endpoint_configuration` of ArgsParser.cpp:
-- the questions to the user, as functions of what is typed. What is shown is left out.
use tcp_udp.Base.{
  ℕ, zero, suc, Bool, ◌&&◌, not, Option, none, some, List, [], ◌∷◌, if◌then◌else◌, length, ◌⊎◌, inl,
  inr,
}
use tcp_udp.Base.Int.{ℤ, pos, negsuc, ltb_ℤ}
use tcp_udp.Std.Text.{Bytes}
use tcp_udp.Std.Cin.{read_int, skip_line, read_line, skip_char}
use tcp_udp.Args.Parser.{
  Outcome, is_valid_port, is_valid_endpoint_format, build_endpoint_string, handle_command_line_args,
}

-- What a question returns, and what is not read yet; `none` where the rounds are used up.
abbrev pub Asked : Type 0 → Type 0
Asked A = Option (A × Bytes)

abbrev pub and_then : {A B : Type 0} → Asked A → (A → Bytes → Asked B) → Asked B
and_then none f = none
and_then (some (a, s)) f = f a s

-- The loop of `get_validated_user_input` and of `select_port`, over the test of the number.
module _ (good : ℤ → Bool) where
  abbrev pub judge : Option ℤ → Bytes → Asked ℤ → Asked ℤ → Asked ℤ
  judge none s again again_in_line = again
  judge (some n) s again again_in_line = if good n then some (n, s) else again_in_line

  unfoldable pub ask_number : ℕ → Bytes → Asked ℤ
  unfolding read_int skip_line
  ask_number zero s = none
  ask_number (suc rounds) s =
      let (n, rest) = read_int s in
      let again = ask_number rounds (skip_line rest) in
      let again_in_line = ask_number rounds rest in judge n rest again again_in_line

abbrev pub in_bounds : ℤ → ℤ → ℤ → Bool
in_bounds min_value max_value n = not (ltb_ℤ n min_value) && not (ltb_ℤ max_value n)

unfoldable pub get_validated_user_input : ℕ → ℤ → ℤ → Bytes → Asked ℤ
unfolding ask_number
get_validated_user_input rounds min_value max_value =
    ask_number (in_bounds min_value max_value) rounds

unfoldable pub select_port : ℕ → Bytes → Asked ℤ
unfolding ask_number is_valid_port
select_port rounds = ask_number is_valid_port rounds

-- The rest of the line is dropped first.
unfoldable pub get_user_string_input : Bytes → Bytes × Bytes
unfolding skip_line read_line
get_user_string_input s = read_line (skip_line s)

unfoldable pub select_remote_endpoint : ℕ → Bytes → Asked Bytes
unfolding get_user_string_input is_valid_endpoint_format
select_remote_endpoint zero s = none
select_remote_endpoint (suc rounds) s =
    let (answer, rest) = get_user_string_input s in
    let again = select_remote_endpoint rounds rest in
    if is_valid_endpoint_format answer then some (answer, rest) else again

-- `static_cast<int>(addresses.size() - 1)`, for fewer than 2 ^ 31 addresses.
abbrev pub last_index : List Bytes → ℤ
last_index [] = negsuc 0
last_index (a ∷ rest) = pos (length rest)

-- `addresses[i]`, and nothing where `i` is out of range.
unfoldable pub at : List Bytes → ℤ → Option Bytes
at [] i = none
at (a ∷ rest) (pos zero) = some a
at (a ∷ rest) (pos (suc i)) = at rest (pos i)
at (a ∷ rest) (negsuc i) = none

-- `none` inside is an access out of range.
unfoldable pub select_host : ℕ → List Bytes → Bytes → Asked (Option Bytes)
unfolding get_validated_user_input at
select_host rounds addresses s =
    and_then (get_validated_user_input rounds (pos 0) (last_index addresses) s)
      (λ selection rest. some (at addresses selection, rest))

abbrev pub with_host : Option Bytes → ℤ → Option Bytes
with_host none port = none
with_host (some host) port = some (build_endpoint_string host port)

unfoldable pub handle_interactive_config : ℕ → List Bytes → Bytes → Asked (Option Bytes × Bytes)
unfolding select_host select_port select_remote_endpoint skip_char build_endpoint_string
handle_interactive_config rounds local_addresses s =
    and_then (select_host rounds local_addresses s) (λ local_host s1.
      and_then (select_port rounds s1) (λ local_port s2.
        and_then (select_remote_endpoint rounds s2) (λ forward_endpoint s3.
          some ((with_host local_host local_port, forward_endpoint), skip_char s3))))

-- With exactly two arguments the command line is used, and the user is asked otherwise.
unfoldable pub get_endpoint_configuration :
    ℕ → List Bytes → List Bytes → Bytes → Outcome (Bytes × Bytes) ⊎ Asked (Option Bytes × Bytes)
unfolding handle_interactive_config handle_command_line_args
get_endpoint_configuration rounds (program ∷ listen_arg ∷ forward_arg ∷ []) local_addresses s =
    inl (handle_command_line_args listen_arg forward_arg local_addresses)
get_endpoint_configuration rounds [] local_addresses s =
    inr (handle_interactive_config rounds local_addresses s)
get_endpoint_configuration rounds (program ∷ []) local_addresses s =
    inr (handle_interactive_config rounds local_addresses s)
get_endpoint_configuration rounds (program ∷ listen_arg ∷ []) local_addresses s =
    inr (handle_interactive_config rounds local_addresses s)
get_endpoint_configuration rounds (program ∷ a ∷ b ∷ c ∷ rest) local_addresses s =
    inr (handle_interactive_config rounds local_addresses s)
