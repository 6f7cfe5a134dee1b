-- ===== src/Io/LocalAddresses.antt =====
-- src/libacetools/LocalAddresses.cpp and ACEInitializer.cpp: the local addresses that the user chooses
-- from.
use tcp_udp.Base.{
  ℕ, ◌≡◌, refl, subst, inl, inr, Bool, true, false, ◌&&◌, Option, none, some, List, [], ◌∷◌, ◌==◌,
  if◌then◌else◌, Bool-cases, Option-cases, Lacks, All, arith,
}
use tcp_udp.Base.Int.{ℤ, pos, negsuc, eqb_ℤ}
use tcp_udp.Std.Text.{Bytes, codes, find, substr}

-- An address of an interface: its family, what `ACE_INET_Addr::set` returns for it, and what
-- `addr_to_string` then returns and leaves in the buffer.
pub record SocketAddress : Type 0 where
  pub family : ℕ
  pub set_result : ℤ
  pub string_result : ℤ
  pub text : Bytes

-- What `getifaddrs` returns, and the list that it makes; an interface may have no address.
pub record Interfaces : Type 0 where
  pub status : ℤ
  pub addresses : List (Option SocketAddress)

-- `AF_INET`.
abbrev pub af_inet : ℕ
af_inet = 2

abbrev is_empty : Bytes → Bool
is_empty [] = true
is_empty (c ∷ s) = false

abbrev until : Bytes → Option ℕ → Bytes
until s (some at) = substr s 0 at
until s none = s

unfoldable pub strip_port : Bytes → Bytes
unfolding find
strip_port s = until s (find b':' s)

unfoldable pub sockaddr_to_string : SocketAddress → Bytes
unfolding strip_port
sockaddr_to_string a =
    let set_ok = eqb_ℤ a.set_result (pos 0) in
    let to_string_ok = eqb_ℤ a.string_result (pos 0) in
    if set_ok && to_string_ok then strip_port a.text else []

unfoldable pub is_ipv4_addr : Option SocketAddress → Bool
is_ipv4_addr none = false
is_ipv4_addr (some a) = a.family == af_inet

-- An address with the addresses of the interfaces behind it.
abbrev keep : Bytes → List Bytes → List Bytes
keep address rest = if is_empty address then rest else address ∷ rest

unfoldable pub collect : List (Option SocketAddress) → List Bytes
unfolding is_ipv4_addr sockaddr_to_string
collect [] = []
collect (none ∷ rest) = collect rest
collect (some a ∷ rest) =
    let addresses = collect rest in
    if is_ipv4_addr (some a) then keep (sockaddr_to_string a) addresses else addresses

unfoldable pub get_local_ipv4_addresses : Interfaces → List Bytes
unfolding collect
get_local_ipv4_addresses i = if eqb_ℤ i.status (pos 0) then collect i.addresses else []

-- `ACEInitializer::init`: every address and the loop back come first.
unfoldable pub init : Interfaces → List Bytes
unfolding get_local_ipv4_addresses
init i = codes "0.0.0.0" ∷ codes "127.0.0.1" ∷ get_local_ipv4_addresses i

two_found :
    get_local_ipv4_addresses (record {
      status = pos 0;
      addresses =
          some (record {
            family = 2;
            set_result = pos 0;
            string_result = pos 0;
            text = codes "127.0.0.1:0";
          })
          ∷ none
          ∷ some (record { family = 10; set_result = negsuc 0; string_result = pos 0; text = [] })
          ∷ [];
    })
    ≡ codes "127.0.0.1" ∷ []
unfolding find get_local_ipv4_addresses
two_found = refl

-- A text up to its first colon has no colon.
until-Lacks : (s : Bytes) → Lacks b':' (until s (find b':' s))
unfolding find
until-Lacks [] = tt
until-Lacks (d ∷ s) = elim (Bool-cases (d == b':')) [
  | inl e ↦ rw e tt
  | inr e ↦ elim (Option-cases (find b':' s)) [
    | inl f ↦ rw (e, f) (ground (arith, e), subst (λ o. Lacks b':' (until s o)) f (until-Lacks s))
    | inr (k, f) ↦
        rw (e, f) (ground (arith, e), subst (λ o. Lacks b':' (until s o)) f (until-Lacks s))
  ]
]

sockaddr_to_string-Lacks : (a : SocketAddress) → Lacks b':' (sockaddr_to_string a)
unfolding sockaddr_to_string
sockaddr_to_string-Lacks a =
    elim (Bool-cases (eqb_ℤ a.set_result (pos 0) && eqb_ℤ a.string_result (pos 0))) [
      | inl e ↦ rw e (until-Lacks a.text)
      | inr e ↦ rw e tt
    ]

keep-All :
    (address : Bytes) (rest : List Bytes)
    → Lacks b':' address
    → All (Lacks b':') rest
    → All (Lacks b':') (keep address rest)
keep-All [] rest h k = k
keep-All (c ∷ s) rest h k = (h, k)

collect-Lacks : (l : List (Option SocketAddress)) → All (Lacks b':') (collect l)
unfolding collect
collect-Lacks [] = tt
collect-Lacks (none ∷ rest) = collect-Lacks rest
collect-Lacks (some a ∷ rest) = elim (Bool-cases (is_ipv4_addr (some a))) [
  | inl e ↦ rw e (
      keep-All (sockaddr_to_string a) (collect rest) (sockaddr_to_string-Lacks a)
        (collect-Lacks rest))
  | inr e ↦ rw e (collect-Lacks rest)
]

-- No local address that is found has a colon.
get_local_ipv4_addresses-Lacks : (i : Interfaces) → All (Lacks b':') (get_local_ipv4_addresses i)
unfolding get_local_ipv4_addresses
get_local_ipv4_addresses-Lacks i = elim (Bool-cases (eqb_ℤ i.status (pos 0))) [
  | inl e ↦ rw e (collect-Lacks i.addresses)
  | inr e ↦ rw e tt
]

-- No address that the user chooses from has a colon.
pub init-Lacks : (i : Interfaces) → All (Lacks b':') (init i)
unfolding init
init-Lacks i = (ground arith, (ground arith, get_local_ipv4_addresses-Lacks i))
