-- ===== src/Std/Decimal.antt =====
-- `std::to_string` of an integer and `std::stoi`.
use tcp_udp.Base.{
  ℕ, zero, suc, ◌+◌, ◌-◌, ◌*◌, ◌/◌, ◌%◌, ◌≤◌, ◌<◌, ◌≡◌, refl, Bool, true, false, ◌&&◌, ◌||◌, [],
  ◌∷◌, arith, ltb, leb, ◌==◌, if◌then◌else◌, Lacks, Bool-cases, inl, inr,
}
use tcp_udp.Base.Int.{ℤ, pos, negsuc, IsInt, ltb_ℤ, int_max, int_min}
use tcp_udp.Std.Text.{Bytes, codes}

-- The decimal digits of `n` in front of `out`; `suc n` rounds are enough.
digits_loop : ℕ → ℕ → Bytes → Bytes
digits_loop zero n out = out
digits_loop (suc f) n out =
    let rest = digits_loop f (n / 10) ((b'0' + n % 10) ∷ out) in
    if ltb n 10 then (b'0' + n) ∷ out else rest

unfoldable pub to_string : ℕ → Bytes
unfolding digits_loop
to_string n = digits_loop (suc n) n []

unfoldable pub int_to_string : ℤ → Bytes
unfolding to_string
int_to_string (pos n) = to_string n
int_to_string (negsuc n) = b'-' ∷ to_string (suc n)

abbrev pub is_digit : ℕ → Bool
is_digit c = leb b'0' c && leb c b'9'

abbrev pub is_space : ℕ → Bool
is_space c = c == 32 || (leb 9 c && leb c 13)

-- The value of the digits at the front, behind `acc`.
scan : ℕ → Bytes → ℕ
scan acc [] = acc
scan acc (c ∷ s) = if is_digit c then scan (acc * 10 + (c - b'0')) s else acc

-- What `std::stoi` returns or throws.
pub data Parsed : Type 0 where
  parsed : ℤ → Parsed
  invalid_argument out_of_range : Parsed

abbrev in_range : ℤ → Parsed
in_range z = if ltb_ℤ z int_min || ltb_ℤ int_max z then out_of_range else parsed z

abbrev pub negate : ℕ → ℤ
negate zero = pos 0
negate (suc n) = negsuc n

unfoldable pub unsigned : Bool → Bytes → Parsed
unfolding scan
unsigned minus [] = invalid_argument
unsigned minus (c ∷ s) =
    if is_digit c
    then in_range (if minus then negate (scan 0 (c ∷ s)) else pos (scan 0 (c ∷ s)))
    else invalid_argument

unfoldable pub signed : Bytes → Parsed
unfolding unsigned
signed [] = invalid_argument
signed (c ∷ s) =
    if c == b'-'
    then unsigned true s
    else if c == b'+'
    then unsigned false s
    else unsigned false (c ∷ s)

-- White space, a sign, digits; what follows the digits is not read.
unfoldable pub stoi : Bytes → Parsed
unfolding signed
stoi [] = invalid_argument
stoi (c ∷ s) = if is_space c then stoi s else signed (c ∷ s)

stoi_tests :
    (stoi (codes " 17x") ≡ parsed (pos 17))
    × (stoi (codes "-3") ≡ parsed (negsuc 2))
    × (stoi (codes "x") ≡ invalid_argument)
    × (stoi (codes "2147483648") ≡ out_of_range)
unfolding stoi
stoi_tests = (refl, refl, refl, refl)

to_string_test : to_string 16001 ≡ codes "16001"
unfolding to_string
to_string_test = refl

scan-digits_loop : (f n : ℕ) (out : Bytes) → n < f → scan 0 (digits_loop f n out) ≡ scan n out
unfolding digits_loop scan
scan-digits_loop zero n out h = absurd (omega arith)
scan-digits_loop (suc f) n out h =
    ground (arith, scan-digits_loop f (n / 10) ((b'0' + n % 10) ∷ out))

-- The digits begin with a digit.
data DigitsFirst : Bytes → Type 0 where
  first : (c : ℕ) (s : Bytes) → b'0' ≤ c → c ≤ b'9' → DigitsFirst (c ∷ s)

digits_loop-first : (f n : ℕ) (out : Bytes) → n < f → DigitsFirst (digits_loop f n out)
unfolding digits_loop
digits_loop-first zero n out h = absurd (omega arith)
digits_loop-first (suc f) n out h = elim (Bool-cases (ltb n 10)) [
  | inl e ↦ rw e (first (b'0' + n) out (omega arith) (ground arith))
  | inr e ↦ rw e (digits_loop-first f (n / 10) ((b'0' + n % 10) ∷ out) (ground arith))
]

unsigned-first :
    (b : Bool) (s : Bytes)
    → DigitsFirst s
    → unsigned b s ≡ in_range (if b then negate (scan 0 s) else pos (scan 0 s))
unfolding unsigned
unsigned-first b _ (first c s lo hi) = ground arith

stoi-first : (s : Bytes) → DigitsFirst s → stoi s ≡ unsigned false s
unfolding stoi signed
stoi-first _ (first c s lo hi) = ground arith

stoi-minus : (s : Bytes) → stoi (b'-' ∷ s) ≡ unsigned true s
unfolding stoi signed
stoi-minus s = refl

scan-to_string : (n : ℕ) → scan 0 (to_string n) ≡ n
unfolding to_string scan
scan-to_string n = scan-digits_loop (suc n) n [] (omega arith)

to_string-first : (n : ℕ) → DigitsFirst (to_string n)
unfolding to_string
to_string-first n = digits_loop-first (suc n) n [] (omega arith)

-- The digits of a natural number hold no byte but digits.
digits_loop-Lacks :
    (c f n : ℕ) (out : Bytes)
    → ltb c b'0' || ltb b'9' c ≡ true
    → Lacks c out
    → Lacks c (digits_loop f n out)
unfolding digits_loop
digits_loop-Lacks c zero n out h l = l
digits_loop-Lacks c (suc f) n out h l =
    ground (arith, digits_loop-Lacks c f (n / 10) ((b'0' + n % 10) ∷ out))

pub to_string-Lacks : (c n : ℕ) → ltb c b'0' || ltb b'9' c ≡ true → Lacks c (to_string n)
unfolding to_string
to_string-Lacks c n h = digits_loop-Lacks c (suc n) n [] h tt

pub int_to_string-Lacks_colon : (z : ℤ) → Lacks b':' (int_to_string z)
unfolding int_to_string
int_to_string-Lacks_colon (pos n) = to_string-Lacks b':' n refl
int_to_string-Lacks_colon (negsuc n) = (ground arith, to_string-Lacks b':' (suc n) refl)

-- Every `int` is read back from its print.
pub stoi-int_to_string : (z : ℤ) → IsInt z → stoi (int_to_string z) ≡ parsed z
unfolding int_to_string
stoi-int_to_string (pos n) h =
    rw (stoi-first _ (to_string-first n), unsigned-first false _ (to_string-first n))
      (rw (scan-to_string n) (ground arith))
stoi-int_to_string (negsuc n) h =
    rw (stoi-minus, unsigned-first true _ (to_string-first (suc n)))
      (rw (scan-to_string (suc n)) (ground arith))

pub stoi-to_string : (n : ℕ) → n ≤ 2147483647 → stoi (to_string n) ≡ parsed (pos n)
stoi-to_string n h =
    rw (stoi-first _ (to_string-first n), unsigned-first false _ (to_string-first n))
      (rw (scan-to_string n) (ground arith))

-- Different numbers print differently.
pub to_string-injective : (m n : ℕ) → to_string m ≡ to_string n → m ≡ n
to_string-injective m n h = cc (scan-to_string m, scan-to_string n)
