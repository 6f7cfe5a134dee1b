-- ===== src/Args/Listen.antt =====
-- Which listen endpoint a command line gives.
use tcp_udp.Base.{
  ◌≡◌, ◌≢◌, refl, ap, ◌∙◌, inl, inr, true, false, some, List, [], ◌∷◌, ◌++◌, arith, Bool-cases,
  Option-cases, bytes_eq, bytes_eq_sound, drop,
}
use tcp_udp.Base.Int.{ℤ}
use tcp_udp.Std.Text.{Bytes}
use tcp_udp.Common.Endpoint.{Endpoint, from_string}
use tcp_udp.Args.Parser.{
  choose, done, contains, validate_listen_address, get_listen_endpoint, listen_argument, is_flag,
}

contains_sound :
    (a : Bytes) (addresses : List Bytes)
    → contains a addresses ≡ true
    → (xs : List Bytes) × (ys : List Bytes) × (addresses ≡ xs ++ a ∷ ys)
unfolding contains
contains_sound a [] h = absurd (cc)
contains_sound a (b ∷ rest) h = elim (Bool-cases (bytes_eq b a)) [
  | inl e ↦ ([], rest, ap (λ c. c ∷ rest) (bytes_eq_sound b a e))
  | inr e ↦
      let (xs, ys, split) = contains_sound a rest (rw e at h) in (b ∷ xs, ys, ap (◌∷◌ b) split)
]

choose_local :
    (host : Bytes) (port : ℤ) (arg : Bytes) (local_addresses : List Bytes) (chosen : Bytes)
    → arg ≢ []
    → choose host port local_addresses arg ≡ done chosen
    → (chosen ≡ arg)
      × ((e : Endpoint) × (from_string chosen ≡ some e)
          × ((xs : List Bytes) × (ys : List Bytes) × (local_addresses ≡ xs ++ e.address ∷ ys)))
unfolding validate_listen_address
choose_local host port [] local_addresses chosen given result = absurd (given refl)
choose_local host port (c ∷ rest) local_addresses chosen given result =
    elim (Option-cases (from_string (c ∷ rest))) [
      | inl none_read ↦ absurd (ground (arith, none_read))
      | inr (e, read) ↦ elim (Bool-cases (contains e.address local_addresses)) [
        | inl own ↦
            let same : chosen ≡ c ∷ rest = ground (arith, read, own) in
            (same, (e, ap from_string same ∙ read, contains_sound e.address local_addresses own))
        | inr foreign ↦ absurd (ground (arith, read, foreign))
      ]
    ]

-- An endpoint that is taken from the command line is on one of the machine's own addresses; any other
-- address ends the program, and a text that is no endpoint throws.
pub get_listen_endpoint-local :
    (host : Bytes) (port : ℤ) (argv local_addresses : List Bytes) (chosen : Bytes)
    → listen_argument (drop 1 argv) ≢ []
    → get_listen_endpoint host port argv local_addresses ≡ done chosen
    → (chosen ≡ listen_argument (drop 1 argv))
      × ((e : Endpoint) × (from_string chosen ≡ some e)
          × ((xs : List Bytes) × (ys : List Bytes) × (local_addresses ≡ xs ++ e.address ∷ ys)))
unfolding get_listen_endpoint
get_listen_endpoint-local host port argv local_addresses chosen given result =
    choose_local host port (listen_argument (drop 1 argv)) local_addresses chosen given result

-- The program does not know which flags have values: if its first argument is a flag and the second
-- is not, the second is taken for the listen endpoint, whatever follows.
pub get_listen_endpoint_flag_value :
    (host : Bytes) (port : ℤ) (program flag value : Bytes) (rest rest' local_addresses : List Bytes)
    → is_flag flag ≡ true
    → is_flag value ≡ false
    → get_listen_endpoint host port (program ∷ flag ∷ value ∷ rest) local_addresses
      ≡ get_listen_endpoint host port (program ∷ value ∷ rest') local_addresses
unfolding get_listen_endpoint listen_argument
get_listen_endpoint_flag_value host port program flag value rest rest' local_addresses f v =
    rw (f, v) refl
