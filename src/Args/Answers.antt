-- ===== src/Args/Answers.antt =====
-- What the questions to the user return, and when they never do.
use tcp_udp.Base.{
  ℕ, zero, suc, ◌<◌, ◌≡◌, refl, sym, ap, ◌∙◌, ◌⊎◌, inl, inr, Bool, true, false, none, some, [], ◌∷◌,
  arith, Bool-cases, Option-cases, length,
}
use tcp_udp.Base.Int.{ℤ}
use tcp_udp.Std.Text.{Bytes}
use tcp_udp.Std.Cin.{read_int, skip_line, skip_line-left, read_int-le, read_int-lt}
use tcp_udp.Std.Decimal.{stoi}
use tcp_udp.Args.UserInput.{ask_number, judge}

module _ (good : ℤ → Bool) where
  module _ (rounds : ℕ) (s : Bytes) where
    ask_again :
        (read_int s).0 ≡ none
        → ask_number good (suc rounds) s ≡ ask_number good rounds (skip_line (read_int s).1)
    unfolding ask_number
    ask_again e =
        ap
          (λ n.
            judge good n (read_int s).1 (ask_number good rounds (skip_line (read_int s).1))
              (ask_number good rounds (read_int s).1))
          e

    ask_taken :
        (n : ℤ)
        → (read_int s).0 ≡ some n
        → good n ≡ true
        → ask_number good (suc rounds) s ≡ some (n, (read_int s).1)
    unfolding ask_number
    ask_taken n e g =
        ap
          (λ n.
            judge good n (read_int s).1 (ask_number good rounds (skip_line (read_int s).1))
              (ask_number good rounds (read_int s).1))
          e
        ∙ rw g refl

    ask_refused :
        (n : ℤ)
        → (read_int s).0 ≡ some n
        → good n ≡ false
        → ask_number good (suc rounds) s ≡ ask_number good rounds (read_int s).1
    unfolding ask_number
    ask_refused n e g =
        ap
          (λ n.
            judge good n (read_int s).1 (ask_number good rounds (skip_line (read_int s).1))
              (ask_number good rounds (read_int s).1))
          e
        ∙ rw g refl

  abbrev AsksAgain : Bytes → Bytes → Type 0
  AsksAgain s rest =
      (rest ≡ skip_line (read_int s).1)
      ⊎ (((n : ℤ) × ((read_int s).0 ≡ some n)) × (rest ≡ (read_int s).1))

  -- What a round does does not depend on how many there are.
  ask-cases :
      (s : Bytes)
      → ((n : ℤ) × (good n ≡ true)
          × ((rounds : ℕ) → ask_number good (suc rounds) s ≡ some (n, (read_int s).1)))
        ⊎ ((rest : Bytes) × AsksAgain s rest
            × ((rounds : ℕ) → ask_number good (suc rounds) s ≡ ask_number good rounds rest))
  ask-cases s = elim (Option-cases (read_int s).0) [
    | inl e ↦ inr (skip_line (read_int s).1, inl refl, λ rounds. ask_again rounds s e)
    | inr (n, e) ↦ elim (Bool-cases (good n)) [
      | inl g ↦ inl (n, g, λ rounds. ask_taken rounds s n e g)
      | inr g ↦ inr ((read_int s).1, inr ((n, e), refl), λ rounds. ask_refused rounds s n e g)
    ]
  ]

  pub ask_number-good :
      (rounds : ℕ) (s : Bytes) (z : ℤ) (rest : Bytes)
      → ask_number good rounds s ≡ some (z, rest)
      → good z ≡ true
  unfolding ask_number
  ask_number-good zero s z rest h = cc
  ask_number-good (suc rounds) s z rest h = elim (ask-cases s) [
    | inl (n, g, taken) ↦ cc (taken rounds, h, g)
    | inr (left, _, again) ↦ ask_number-good rounds left z rest (sym (again rounds) ∙ h)
  ]

  -- Where nothing is left to read, the question is never answered, however long it is repeated.
  pub ask_number-at_end : (rounds : ℕ) → ask_number good rounds [] ≡ none
  unfolding ask_number read_int stoi
  ask_number-at_end zero = refl
  ask_number-at_end (suc rounds) = ask_number-at_end rounds

  -- Each round that asks again leaves less to read, as long as anything is left.
  ask_again-lt : (c : ℕ) (s rest : Bytes) → AsksAgain (c ∷ s) rest → length rest < suc (length s)
  ask_again-lt c s rest (inl e) =
      rw e (skip_line-left (read_int (c ∷ s)).1 (length s) (read_int-le (c ∷ s)))
  ask_again-lt c s rest (inr ((n, number), e)) = rw e (read_int-lt (c ∷ s) n number)

  -- With more rounds than there are bytes to read, what a question for a number returns, and whether
  -- it returns, does not depend on how many rounds there are.
  pub ask_number-enough :
      (m n : ℕ) (s : Bytes)
      → length s < m
      → length s < n
      → ask_number good m s ≡ ask_number good n s
  ask_number-enough zero n s h k = absurd (omega arith)
  ask_number-enough (suc m) zero s h k = absurd (omega arith)
  ask_number-enough (suc m) (suc n) [] h k =
      ask_number-at_end (suc m) ∙ sym (ask_number-at_end (suc n))
  ask_number-enough (suc m) (suc n) (c ∷ s) h k = elim (ask-cases (c ∷ s)) [
    | inl (z, g, taken) ↦ taken m ∙ sym (taken n)
    | inr (rest, why, again) ↦
        let less = ask_again-lt c s rest why in
        again m
        ∙ ask_number-enough m n rest (omega (arith, less)) (omega (arith, less))
        ∙ sym (again n)
  ]
