-- ===== src/Args/Configured.antt =====
-- What the interactive configuration returns.
use tcp_udp.Base.{
  ℕ, zero, suc, ◌<◌, ◌≡◌, refl, sym, ap, ◌∙◌, true, Option, none, some, List, [], ◌∷◌, arith,
  length,
}
use tcp_udp.Base.Int.{ℤ, pos, negsuc}
use tcp_udp.Std.Text.{Bytes}
use tcp_udp.Std.Cin.{skip_char}
use tcp_udp.Args.Parser.{is_valid_port, is_valid_endpoint_format, build_endpoint_string}
use tcp_udp.Args.UserInput.{
  Asked, and_then, in_bounds, get_validated_user_input, select_port, select_remote_endpoint,
  last_index, at, select_host, with_host, handle_interactive_config,
}
use tcp_udp.Args.Answers.{ask_number-good}
use tcp_udp.Args.Remote.{select_remote_endpoint-valid}

and_then-some :
    {A B : Type 0} (x : Asked A) (f : A → Bytes → Asked B) (b : B × Bytes)
    → and_then x f ≡ some b
    → (a : A) × (s : Bytes) × (x ≡ some (a, s)) × (f a s ≡ some b)
and_then-some none f b h = cc
and_then-some (some (a, s)) f b h = (a, s, refl, h)

at-bounds : (l : List Bytes) (i : ℕ) → i < length l → (a : Bytes) × (at l (pos i) ≡ some a)
unfolding at
at-bounds [] i h = absurd (omega arith)
at-bounds (a ∷ l) zero h = (a, refl)
at-bounds (a ∷ l) (suc i) h = at-bounds l i (omega arith)

at-in_bounds :
    (l : List Bytes) (z : ℤ)
    → in_bounds (pos 0) (last_index l) z ≡ true
    → (a : Bytes) × (at l z ≡ some a)
at-in_bounds [] z h = absurd (ground arith)
at-in_bounds (a ∷ l) (pos i) h = at-bounds (a ∷ l) i (ground arith)
at-in_bounds (a ∷ l) (negsuc i) h = absurd (ground arith)

-- A host that is selected is one of the list: the list is never read out of range.
pub select_host-at :
    (rounds : ℕ) (addresses : List Bytes) (s : Bytes) (host : Option Bytes) (rest : Bytes)
    → select_host rounds addresses s ≡ some (host, rest)
    → (z : ℤ) × (a : Bytes) × (host ≡ some a) × (at addresses z ≡ some a)
unfolding select_host get_validated_user_input
select_host-at rounds addresses s host rest h =
    let (z, left, gave, f) =
      and_then-some (get_validated_user_input rounds (pos 0) (last_index addresses) s)
        (λ selection rest. some (at addresses selection, rest)) (host, rest) h in
    let good = ask_number-good (in_bounds (pos 0) (last_index addresses)) rounds s z left gave in
    let (a, is) = at-in_bounds addresses z good in (z, a, cc (f, is), is)

abbrev given : Asked (Option Bytes × Bytes) → (Option Bytes × Bytes)
given none = (none, [])
given (some (a, s)) = a

returned :
    (host listen : Option Bytes) (port : ℤ) (a forward remote s rest : Bytes)
    → ◌≡◌ {A = Asked (Option Bytes × Bytes)}
        (some ((with_host host port, remote), s))
        (some ((listen, forward), rest))
    → host ≡ some a
    → (listen ≡ some (build_endpoint_string a port)) × (remote ≡ forward)
returned host listen port a forward remote s rest h e =
    (sym (ap (λ r. (given r).0) h) ∙ ap (λ x. with_host x port) e, ap (λ r. (given r).1) h)

-- What the interactive configuration returns, whatever is typed: the listen endpoint is made of an
-- address of the list and a port from 0 to 65535, and the forward endpoint passes the check of the
-- format.
pub handle_interactive_config-valid :
    (rounds : ℕ) (addresses : List Bytes) (s : Bytes) (listen : Option Bytes) (forward rest : Bytes)
    → handle_interactive_config rounds addresses s ≡ some ((listen, forward), rest)
    → ((z : ℤ) × (host : Bytes) × (port : ℤ) × (at addresses z ≡ some host)
        × (is_valid_port port ≡ true)
        × (listen ≡ some (build_endpoint_string host port)))
      × (is_valid_endpoint_format forward ≡ true)
unfolding handle_interactive_config select_port
handle_interactive_config-valid rounds addresses s listen forward rest h =
    let (host, s1, chose, h1) = and_then-some (select_host rounds addresses s) _ _ h in
    let (port, s2, typed, h2) = and_then-some (select_port rounds s1) _ _ h1 in
    let (remote, s3, named, h3) = and_then-some (select_remote_endpoint rounds s2) _ _ h2 in
    let (z, a, is_host, is_at) = select_host-at rounds addresses s host s1 chose in
    let valid = select_remote_endpoint-valid rounds s2 remote s3 named in
    let (is_listen, is_forward) =
      returned host listen port a forward remote (skip_char s3) rest h3 is_host in
    (
      (z, a, port, is_at, ask_number-good is_valid_port rounds s1 port s2 typed, is_listen),
      ap is_valid_endpoint_format (sym is_forward) ∙ valid,
    )
