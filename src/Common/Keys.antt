-- ===== src/Common/Keys.antt =====
-- The printed form of an endpoint, which the proxies use as the key of a peer.
use tcp_udp.Base.{
  ℕ, ◌+◌, ◌<◌, ◌^◌, ◌≡◌, ◌≢◌, ◌⊎◌, sym, ap, ◌∙◌, some, ◌∷◌, ◌++◌, Lacks, bytes_eq, bytes_eq_iff,
  arith, length, take, drop, take-length_append, drop_past, Bool-cases, inl, inr,
}
use mathlib.Core.Path.{ap₂}
use tcp_udp.Std.Text.{Bytes, codes, find, find-append}
use tcp_udp.Std.Decimal.{to_string, to_string-injective, stoi-to_string}
use tcp_udp.Common.Endpoint.{
  Endpoint, localhost, any_address, get_address_string, print, from_string,
}

-- An address as the system prints it: no colon, and neither of the two words that the program
-- prints for an address.
pub record IsNumeric (a : Bytes) : Type 0 where
  pub no_colon : Lacks b':' a
  pub no_localhost : a ≢ codes "localhost"
  pub no_any : a ≢ codes "any"

get_address_string-Lacks : (a : Bytes) → Lacks b':' a → Lacks b':' (get_address_string a)
unfolding get_address_string
get_address_string-Lacks a h = elim (Bool-cases (bytes_eq a localhost)) [
  | inl e ↦ rw e (omega arith)
  | inr e ↦
      rw e
        (elim (Bool-cases (bytes_eq a any_address)) [ inl q ↦ rw q (omega arith) | inr q ↦ rw q h ])
]

-- A printed endpoint is read back with its port, and with the address as it was printed.
pub from_string-print :
    (e : Endpoint)
    → Lacks b':' e.address
    → e.port < 2 ^ 16
    → from_string (print e)
      ≡ some (record { address = get_address_string e.address; port = e.port })
unfolding from_string print
from_string-print e h p =
    let shown = get_address_string e.address in
    let digits = to_string e.port in
    rw (find-append b':' shown digits (get_address_string-Lacks e.address h)) (
      rw (drop_past shown digits b':', stoi-to_string e.port (omega arith))
        (rw (take-length_append shown (b':' ∷ digits)) (ground arith)))

get_address_string-injective :
    (a b : Bytes) → IsNumeric a → IsNumeric b → get_address_string a ≡ get_address_string b → a ≡ b
unfolding get_address_string
get_address_string-injective a b ha hb h = ground (
  arith,
  bytes_eq_iff a localhost,
  bytes_eq_iff b localhost,
  bytes_eq_iff a any_address,
  bytes_eq_iff b any_address,
)

-- The colon splits the two parts of a printed endpoint in one way only.
split_unique :
    (c : ℕ) (p q s t : Bytes) → Lacks c p → Lacks c q → p ++ c ∷ s ≡ q ++ c ∷ t → (p ≡ q) × (s ≡ t)
split_unique c p q s t hp hq h =
    let same_length : length p ≡ length q =
      ground (arith, find-append c p s hp, find-append c q t hq, ap (find c) h) in
    (
      sym (take-length_append p (c ∷ s)) ∙ ap₂ take same_length h ∙ take-length_append q (c ∷ t),
      sym (drop_past p s c) ∙ ap₂ (λ n x. drop (n + 1) x) same_length h ∙ drop_past q t c,
    )

-- Two peers with numeric addresses have one key only if they are one peer.
pub print-injective :
    (e f : Endpoint) → IsNumeric e.address → IsNumeric f.address → print e ≡ print f → e ≡ f
unfolding print
print-injective e f he hf h =
    let parts =
      split_unique b':' (get_address_string e.address) (get_address_string f.address)
        (to_string e.port) (to_string f.port) (get_address_string-Lacks e.address he.no_colon)
        (get_address_string-Lacks f.address hf.no_colon) h in
    cc (
      get_address_string-injective e.address f.address he hf parts.0,
      to_string-injective e.port f.port parts.1,
    )

-- An endpoint on either well-known address does not survive printing and reading.
pub from_string-print_ne :
    (e : Endpoint)
    → (e.address ≡ localhost) ⊎ (e.address ≡ any_address)
    → e.port < 2 ^ 16
    → from_string (print e) ≢ some e
unfolding get_address_string bytes_eq
from_string-print_ne e (inl a) p h =
    let read = from_string-print e (rw a (omega arith)) p in ground (arith, a, h, read)
from_string-print_ne e (inr a) p h =
    let read = from_string-print e (rw a (omega arith)) p in ground (arith, a, h, read)
