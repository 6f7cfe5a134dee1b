-- ===== src/Std/Text.antt =====
-- `std::string` as a list of bytes.
use Prim.Native.Char.{code}
use tcp_udp.Base.{
  ℕ, suc, ◌+◌, ◌-◌, ◌^◌, ◌≤◌, ◌<◌, String, ◌≡◌, refl, Bool, true, false, Option, none, some, List,
  [], ◌∷◌, ◌++◌, arith, leb, ◌==◌, if◌then◌else◌, length, take, drop, Lacks, Option-cases, inl, inr,
}

abbrev pub Bytes : Type 0
Bytes = List ℕ

-- The bytes of an ASCII literal.
abbrev pub codes : String → Bytes
codes String.[] = []
codes (String.◌∷◌ c s) = code c ∷ codes s

-- `a - b` at type `size_t`, for operands in range.
abbrev pub size_sub : ℕ → ℕ → ℕ
size_sub a b = if leb b a then a - b else 2 ^ 64 + a - b

-- `s.substr(at, count)`, where `at <= s.size()`.
abbrev pub substr : Bytes → ℕ → ℕ → Bytes
substr s at count = take count (drop at s)

-- `s.substr(at)`.
abbrev pub substr_from : Bytes → ℕ → Bytes
substr_from s at = drop at s

abbrev pub next_index : Option ℕ → Option ℕ
next_index none = none
next_index (some i) = some (suc i)

-- `s.find(c)`; `none` is `npos`.
unfoldable pub find : ℕ → Bytes → Option ℕ
find c [] = none
find c (d ∷ s) = if d == c then some 0 else next_index (find c s)

abbrev pub shift : ℕ → Option ℕ → Option ℕ
shift k none = none
shift k (some i) = some (k + i)

-- `s.find(c, at)`.
abbrev pub find_from : ℕ → Bytes → ℕ → Option ℕ
find_from c s at = shift at (find c (drop at s))

unfoldable pub starts_with : Bytes → Bytes → Bool
starts_with [] s = true
starts_with (c ∷ p) [] = false
starts_with (c ∷ p) (d ∷ s) = if c == d then starts_with p s else false

-- `s.find(p)` for a text `p`.
unfoldable pub find_text : Bytes → Bytes → Option ℕ
find_text p [] = if starts_with p [] then some 0 else none
find_text p (d ∷ s) = if starts_with p (d ∷ s) then some 0 else next_index (find_text p s)

-- `s.find(p, at)`.
abbrev pub find_text_from : Bytes → Bytes → ℕ → Option ℕ
find_text_from p s at = shift at (find_text p (drop at s))

-- The first `c` stands behind a prefix without one.
pub find-append : (c : ℕ) (p rest : Bytes) → Lacks c p → find c (p ++ c ∷ rest) ≡ some (length p)
unfolding find
find-append c [] rest h = ground arith
find-append c (d ∷ p) rest h = ground (arith, find-append c p rest h.1)

pub find-Lacks : (c : ℕ) (p : Bytes) → Lacks c p → find c p ≡ none
unfolding find
find-Lacks c [] h = refl
find-Lacks c (d ∷ p) h = ground (arith, find-Lacks c p h.1)

pub find-lt : (c : ℕ) (s : Bytes) (i : ℕ) → find c s ≡ some i → i < length s
unfolding find
find-lt c [] i h = cc
find-lt c (d ∷ s) i h = elim (Option-cases (find c s)) [
  | inl e ↦ ground arith
  | inr (k, e) ↦ ground (arith, find-lt c s k e)
]

pub find_text-le : (p s : Bytes) (i : ℕ) → find_text p s ≡ some i → i ≤ length s
unfolding find_text
find_text-le p [] i h = ground arith
find_text-le p (d ∷ s) i h = elim (Option-cases (find_text p s)) [
  | inl e ↦ ground arith
  | inr (k, e) ↦ ground (arith, find_text-le p s k e)
]

-- A text that does not begin with `p` has no `p` at its front.
pub find_text-pos : (p s : Bytes) (i : ℕ) → starts_with p s ≡ false → find_text p s ≡ some i → 0 < i
unfolding find_text
find_text-pos p [] i n h = ground arith
find_text-pos p (d ∷ s) i n h = elim (Option-cases (find_text p s)) [
  | inl e ↦ ground arith
  | inr (k, e) ↦ ground arith
]
