-- ===== src/Args/Flags.antt =====
-- What `get_flag_value` finds, and what `NotifiableClientArgs::parse` accepts.
use tcp_udp.Base.{
  ◌≡◌, ◌≢◌, refl, inl, inr, true, List, [], ◌∷◌, ◌++◌, arith, Bool-cases, bytes_eq, bytes_eq_refl,
  bytes_eq_ne, All,
}
use tcp_udp.Base.Int.{pos, ◌<ℤ◌}
use tcp_udp.Std.Text.{Bytes, codes}
use tcp_udp.Std.Decimal.{Parsed, int_to_string}
use tcp_udp.Args.Parser.{
  flag_value, get_flag_value, NotifiableClientArgs, handle_interval_argument, parse_flags,
}

flag_value_found :
    (before after : List Bytes) (flag value default : Bytes)
    → All (λ a. a ≢ flag) before
    → flag_value (before ++ flag ∷ value ∷ after) flag default ≡ value
unfolding flag_value
flag_value_found [] after flag value default h = rw (bytes_eq_refl flag) refl
flag_value_found (a ∷ []) after flag value default h =
    rw (bytes_eq_ne a flag h.0) (flag_value_found [] after flag value default tt)
flag_value_found (a ∷ b ∷ before) after flag value default h =
    rw (bytes_eq_ne a flag h.0) (flag_value_found (b ∷ before) after flag value default h.1)

-- The value of a flag is the argument behind its first occurrence.
pub get_flag_value_found :
    (program : Bytes) (before after : List Bytes) (flag value default : Bytes)
    → All (λ a. a ≢ flag) before
    → get_flag_value (program ∷ before ++ flag ∷ value ∷ after) flag default ≡ value
unfolding get_flag_value
get_flag_value_found program before after flag value default h =
    flag_value_found before after flag value default h

handle_interval_argument-positive :
    (what : Parsed → Bytes) (value : Bytes) (a : NotifiableClientArgs)
    → (handle_interval_argument what value a).0 ≡ true
    → pos 0 <ℤ (handle_interval_argument what value a).1.request_interval_ms
unfolding handle_interval_argument
handle_interval_argument-positive what value a h = ground arith

-- Arguments that are accepted have a positive request interval, if it was positive before.
pub parse_flags-positive :
    (what : Parsed → Bytes) (argv : List Bytes) (a : NotifiableClientArgs)
    → pos 0 <ℤ a.request_interval_ms
    → (parse_flags what argv a).0 ≡ true
    → pos 0 <ℤ (parse_flags what argv a).1.request_interval_ms
unfolding parse_flags
parse_flags-positive what argv a h good =
    let named = record a { client_id = get_flag_value argv (codes "--client-id") a.client_id } in
    let shown = int_to_string a.request_interval_ms in
    let value = get_flag_value argv (codes "--interval") shown in
    elim (Bool-cases (bytes_eq value shown)) [
      | inl e ↦ rw e h
      | inr e ↦ rw e (handle_interval_argument-positive what value named (rw e at good))
    ]
