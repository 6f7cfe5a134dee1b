-- ===== src/Args/Chosen.antt =====
-- The listen endpoint that the user chooses among the local addresses, as the programs read it.
use tcp_udp.Base.{
  ℕ, zero, suc, ◌<◌, ◌^◌, ◌≡◌, refl, sym, ap, subst, Option, ◌%◌, ◌∙◌, true, some, List, [], ◌∷◌,
  Lacks, All, arith,
}
use mathlib.Core.Option.{some-injective}
use tcp_udp.Base.Int.{ℤ, pos, negsuc}
use tcp_udp.Std.Text.{Bytes}
use tcp_udp.Common.Endpoint.{get_address_string, from_string, print}
use tcp_udp.Common.Keys.{from_string-print}
use tcp_udp.Io.LocalAddresses.{Interfaces, init, init-Lacks}
use tcp_udp.Args.Parser.{is_valid_port, is_valid_endpoint_format, build_endpoint_string}
use tcp_udp.Args.UserInput.{at, handle_interactive_config}
use tcp_udp.Args.Configured.{handle_interactive_config-valid}

at-All : (P : Bytes → Type 0) (l : List Bytes) (z : ℤ) (a : Bytes) → All P l → at l z ≡ some a → P a
unfolding at
at-All P [] z a h e = absurd cc
at-All P (b ∷ l) (pos zero) a h e = subst P (some-injective b a e) h.0
at-All P (b ∷ l) (pos (suc i)) a h e = at-All P l (pos i) a h.1 e
at-All P (b ∷ l) (negsuc i) a h e = absurd cc

is_valid_port-pos : (z : ℤ) → is_valid_port z ≡ true → (n : ℕ) × (z ≡ pos n) × (n < 2 ^ 16)
unfolding is_valid_port
is_valid_port-pos (pos n) h = (n, refl, ground arith)
is_valid_port-pos (negsuc n) h = absurd (ground arith)

build_endpoint_string-read :
    (host : Bytes) (n : ℕ)
    → Lacks b':' host
    → n < 2 ^ 16
    → from_string (build_endpoint_string host (pos n))
      ≡ some (record { address = get_address_string host; port = n })
unfolding build_endpoint_string
build_endpoint_string-read host n h p =
    let same : n % 2 ^ 16 ≡ n = omega arith in
    subst
      (λ k.
        from_string (print (record { address = host; port = k }))
        ≡ some (record { address = get_address_string host; port = n }))
      (sym same) (from_string-print (record { address = host; port = n }) h p)

-- Where the user chooses from the addresses that the libraries hand out, the programs read the listen
-- endpoint that the interactive configuration returns, whatever was typed, as the word for one of
-- these addresses, which is `any` for 0.0.0.0, `localhost` for 127.0.0.1 and the address itself
-- otherwise, and a port below 65536; and the forward endpoint passes the check of the format.
pub configured_endpoint_read :
    (rounds : ℕ) (i : Interfaces) (s : Bytes) (listen : Option Bytes) (forward rest : Bytes)
    → let addresses = init i in
      handle_interactive_config rounds addresses s ≡ some ((listen, forward), rest)
      → ((text : Bytes) × (z : ℤ) × (host : Bytes) × (n : ℕ) × (listen ≡ some text)
          × (at addresses z ≡ some host)
          × (n < 2 ^ 16)
          × (from_string text ≡ some (record { address = get_address_string host; port = n })))
        × (is_valid_endpoint_format forward ≡ true)
configured_endpoint_read rounds i s listen forward rest h =
    let addresses = init i in
    let ((z, host, port, is_at, valid, is_listen), is_forward) =
      handle_interactive_config-valid rounds addresses s listen forward rest h in
    let (n, is_pos, small) = is_valid_port-pos port valid in
    let no_colon = at-All (Lacks b':') addresses z host (init-Lacks i) is_at in
    (
      (
        build_endpoint_string host (pos n),
        z,
        host,
        n,
        is_listen ∙ ap (λ p. some (build_endpoint_string host p)) is_pos,
        is_at,
        small,
        build_endpoint_string-read host n no_colon small,
      ),
      is_forward,
    )
