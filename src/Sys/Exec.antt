-- ===== src/Sys/Exec.antt =====
-- Methods that change an object and may throw a `std::runtime_error`. What was written before a
-- throw stays written, so the state comes back beside the exception too.
use tcp_udp.Base.{String, List, ℕ, ◌≡◌, ◌⊎◌, inl, inr, refl}
use tcp_udp.Base.Int.{ℤ}
use tcp_udp.Std.Text.{Bytes}

-- An argument of a format string; `what` is the text of an exception, whose own arguments follow it.
pub data Arg : Type 0 where
  text : Bytes → Arg
  int : ℤ → Arg
  size : ℕ → Arg
  what : String → Arg

-- A format string with its arguments, before `vsnprintf` puts them in.
pub record Message : Type 0 where
  pub format : String
  pub args : List Arg

-- The outcome of a call: a value, or a `std::runtime_error` with its `what()`.
pub data Result {ℓ} (A : Type ℓ) : Type ℓ where
  ok : A → Result A
  thrown : Message → Result A

abbrev pub Exec {ℓ} : Type ℓ → Type ℓ → Type ℓ
Exec S A = S → Result A × S

module _ {ℓ} {S A : Type ℓ} where
  abbrev pub pure : A → Exec S A
  pure a s = (ok a, s)

  abbrev pub throw : Message → Exec S A
  throw m s = (thrown m, s)

module _ {ℓ} {S A B : Type ℓ} where
  abbrev pub continue : Result A → (A → Exec S B) → Exec S B
  continue (ok a) f s = f a s
  continue (thrown m) f s = (thrown m, s)

  infixl 10 ◌>>=◌ ◌>>◌
  abbrev pub ◌>>=◌ : Exec S A → (A → Exec S B) → Exec S B
  ◌>>=◌ m f s = let (r, s') = m s in continue r f s'

  abbrev pub ◌>>◌ : Exec S A → Exec S B → Exec S B
  m >> n = m >>= λ _. n

-- `try { body } catch (std::runtime_error& e) { handler }`.
module _ {ℓ} {S A : Type ℓ} where
  abbrev pub recover : Result A → (Message → Exec S A) → Exec S A
  recover (ok a) h s = (ok a, s)
  recover (thrown m) h s = h m s

  abbrev pub catch : Exec S A → (Message → Exec S A) → Exec S A
  catch m h s = let (r, s') = m s in recover r h s'

-- An action on a part of the state.
module _ {ℓ} {S T A : Type ℓ} where
  abbrev pub zoom : (S → T) → (T → S → S) → Exec T A → Exec S A
  zoom get put m s = let (r, t) = m (get s) in (r, put t s)

pub Result-cases {ℓ} :
    {A : Type ℓ} (r : Result A) → ((a : A) × (r ≡ ok a)) ⊎ ((m : Message) × (r ≡ thrown m))
Result-cases (ok a) = inl (a, refl)
Result-cases (thrown m) = inr (m, refl)
