-- ===== src/Std/Cin.antt =====
-- What the program uses of `std::cin`, as a function of the bytes that are not read yet. Reading
-- fails where nothing is left, so the flags of the stream need no state of their own.
use tcp_udp.Base.{
  ℕ, suc, ◌≤◌, ◌<◌, ◌≡◌, refl, sym, ap, ◌∙◌, inl, inr, Bool, true, false, ◌||◌, Option, none, some,
  [], ◌∷◌, ◌++◌, arith, ◌==◌, if◌then◌else◌, Bool-cases, length, Lacks,
}
use tcp_udp.Base.Int.{ℤ, pos}
use tcp_udp.Std.Text.{Bytes, codes}
use tcp_udp.Std.Decimal.{
  stoi, signed, unsigned, Parsed, parsed, invalid_argument, out_of_range, is_digit, is_space,
}

unfoldable pub skip_space : Bytes → Bytes
skip_space [] = []
skip_space (c ∷ s) = if is_space c then skip_space s else c ∷ s

unfoldable pub skip_digits : Bytes → Bytes
skip_digits [] = []
skip_digits (c ∷ s) = if is_digit c then skip_digits s else c ∷ s

abbrev pub skip_sign : Bytes → Bytes
skip_sign [] = []
skip_sign (c ∷ s) = if c == b'-' || c == b'+' then s else c ∷ s

abbrev value_of : Parsed → Option ℤ
value_of (parsed z) = some z
value_of invalid_argument = none
value_of out_of_range = none

-- `std::cin >> n` for an `int`: the value, unless it fails, and what is left. The characters that
-- are taken are those of the longest number there is, also where it is out of range.
unfoldable pub read_int : Bytes → Option ℤ × Bytes
unfolding skip_space skip_digits
read_int s = (value_of (stoi s), skip_digits (skip_sign (skip_space s)))

-- `std::cin.ignore(max, '\n')`.
unfoldable pub skip_line : Bytes → Bytes
skip_line [] = []
skip_line (c ∷ s) = if c == 10 then s else skip_line s

abbrev pub before : ℕ → Bytes × Bytes → Bytes × Bytes
before c (line, rest) = (c ∷ line, rest)

-- `std::getline`.
unfoldable pub read_line : Bytes → Bytes × Bytes
read_line [] = ([], [])
read_line (c ∷ s) = if c == 10 then ([], s) else before c (read_line s)

-- `std::cin.get()`.
unfoldable pub skip_char : Bytes → Bytes
skip_char [] = []
skip_char (c ∷ s) = s

read_int_tests :
    (read_int (codes " 17x") ≡ (some (pos 17), codes "x"))
    × (read_int (codes "-x") ≡ (none, codes "x"))
    × (read_int (codes "99999999999 1") ≡ (none, codes " 1"))
unfolding read_int stoi
read_int_tests = (refl, refl, refl)

skip_digits-le : (s : Bytes) → length (skip_digits s) ≤ length s
unfolding skip_digits
skip_digits-le [] = ground arith
skip_digits-le (c ∷ s) = ground (arith, skip_digits-le s)

skip_space-le : (s : Bytes) → length (skip_space s) ≤ length s
unfolding skip_space
skip_space-le [] = ground arith
skip_space-le (c ∷ s) = ground (arith, skip_space-le s)

skip_sign-le : (s : Bytes) → length (skip_sign s) ≤ length s
skip_sign-le [] = ground arith
skip_sign-le (c ∷ s) = ground arith

skip_line-le : (s : Bytes) → length (skip_line s) ≤ length s
unfolding skip_line
skip_line-le [] = ground arith
skip_line-le (c ∷ s) = ground (arith, skip_line-le s)

-- Reading a number leaves no more than there was.
pub read_int-le : (s : Bytes) → length (read_int s).1 ≤ length s
unfolding read_int
read_int-le s =
    omega (
      arith,
      skip_digits-le (skip_sign (skip_space s)),
      skip_sign-le (skip_space s),
      skip_space-le s,
    )

unsigned-lt :
    (minus : Bool) (s : Bytes) (n : ℤ)
    → value_of (unsigned minus s) ≡ some n
    → length (skip_digits s) < length s
unfolding unsigned skip_digits
unsigned-lt minus [] n h = absurd (ground arith)
unsigned-lt minus (c ∷ s) n h = ground (arith, skip_digits-le s)

read_int-space : (c : ℕ) (s : Bytes) → is_space c ≡ true → read_int (c ∷ s) ≡ read_int s
unfolding read_int stoi skip_space
read_int-space c s e = rw e refl

read_int-signed :
    (c : ℕ) (s : Bytes)
    → is_space c ≡ false
    → read_int (c ∷ s) ≡ (value_of (signed (c ∷ s)), skip_digits (skip_sign (c ∷ s)))
unfolding read_int stoi skip_space
read_int-signed c s e = rw e refl

signed-lt :
    (c : ℕ) (s : Bytes) (n : ℤ)
    → value_of (signed (c ∷ s)) ≡ some n
    → length (skip_digits (skip_sign (c ∷ s))) < suc (length s)
unfolding signed
signed-lt c s n h =
    ground (arith, unsigned-lt true s n, unsigned-lt false s n, unsigned-lt false (c ∷ s) n)

-- A number that is read takes a digit at least.
pub read_int-lt : (s : Bytes) (n : ℤ) → (read_int s).0 ≡ some n → length (read_int s).1 < length s
unfolding read_int stoi
read_int-lt [] n h = absurd (ground arith)
read_int-lt (c ∷ s) n h = elim (Bool-cases (is_space c)) [
  | inl e ↦
      let same = read_int-space c s e in
      let less = read_int-lt s n (sym (ap (λ r. r.0) same) ∙ h) in
      rw (ap (λ r. r.1) same) (omega (arith, less))
  | inr e ↦
      let same = read_int-signed c s e in
      rw (ap (λ r. r.1) same) (signed-lt c s n (sym (ap (λ r. r.0) same) ∙ h))
]

pub skip_line-left : (s : Bytes) (n : ℕ) → length s ≤ suc n → length (skip_line s) < suc n
unfolding skip_line
skip_line-left [] n h = ground arith
skip_line-left (c ∷ s) n h = ground (arith, skip_line-le s)

pub read_line-le : (s : Bytes) → length (read_line s).1 ≤ length s
unfolding read_line
read_line-le [] = ground arith
read_line-le (c ∷ s) = ground (arith, read_line-le s)

pub skip_line-append : (l s : Bytes) → Lacks 10 l → skip_line (l ++ 10 ∷ s) ≡ s
unfolding skip_line
skip_line-append [] s h = ground arith
skip_line-append (c ∷ l) s h = ground (arith, skip_line-append l s h.1)

pub read_line-append : (l s : Bytes) → Lacks 10 l → read_line (l ++ 10 ∷ s) ≡ (l, s)
unfolding read_line
read_line-append [] s h = ground arith
read_line-append (c ∷ l) s h = ground (arith, read_line-append l s h.1)
