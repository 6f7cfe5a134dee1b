-- ===== src/Io/Classify.antt =====
-- What `SocketIO::from_size` makes of a return value and an error number.
use tcp_udp.Base.{ℕ, zero, suc, ◌≡◌, ◌≢◌, refl, ◌⊎◌, inl, inr, [], ◌++◌, ◌↔◌, arith}
use tcp_udp.Base.Int.{ℤ, pos, negsuc, ◌<ℤ◌, pos_part}
use tcp_udp.Std.Text.{codes}
use tcp_udp.Std.Decimal.{to_string}
use tcp_udp.Io.{
  IoResult, IoResultCode, success, connection_closed, timeout, error, from_size,
  create_error_message, eagain, etime, econnreset, enotconn, ebadf,
}

-- The two groups of error numbers with a meaning of their own.
abbrev pub IsRetry : ℕ → Type 0
IsRetry e = (e ≡ eagain) ⊎ (e ≡ etime)

abbrev pub IsDisconnect : ℕ → Type 0
IsDisconnect e = (e ≡ econnreset) ⊎ (e ≡ enotconn) ⊎ (e ≡ ebadf)

-- The outcomes of a socket call, each with the values that lead to it.
pub record IsClassified (n : ℤ) (e : ℕ) (r : IoResult) : Type 0 where
  pub succeeded : (r.code ≡ success) ↔ (pos 0 <ℤ n)
  pub counted : r.count ≡ pos_part n
  pub closed : (r.code ≡ connection_closed) ↔ ((n ≡ pos 0) ⊎ ((n <ℤ pos 0) × IsDisconnect e))
  pub timed_out : (r.code ≡ timeout) ↔ ((n <ℤ pos 0) × IsRetry e)
  pub failed : (r.code ≡ error) ↔ ((n <ℤ pos 0) × ¬ IsRetry e × ¬ IsDisconnect e)
  pub silent : r.code ≢ error → r.error_message ≡ []
  pub message :
      r.code ≡ error
      → r.error_message
        ≡ codes "Socket read ace_last_error: "
          ++ (codes "Unknown ace_last_error (" ++ (to_string e ++ codes ")"))

-- For every return value and error number, `from_size` reports success exactly for a positive value,
-- and counts it; a closed connection for zero and for the three errors of a lost connection; a
-- timeout for the errors of a call to repeat; and an error for any other error number. A message
-- comes with an error only, and it always says that the error number is unknown.
pub from_size-IsClassified : (n : ℤ) (e : ℕ) → IsClassified n e (from_size n e)
unfolding from_size create_error_message
from_size-IsClassified (pos n) e = record {
  succeeded = (λ h. ground arith, λ h. ground arith);
  counted = ground arith;
  closed = (λ h. ground arith, λ h. ground arith);
  timed_out = (λ h. ground arith, λ h. ground arith);
  failed = (λ h. ground arith, λ h. ground arith);
  silent = λ h. ground arith;
  message = λ h. ground arith;
}
from_size-IsClassified (negsuc n) e = record {
  succeeded = (λ h. ground arith, λ h. ground arith);
  counted = ground arith;
  closed = (λ h. ground arith, λ h. ground arith);
  timed_out = (λ h. ground arith, λ h. ground arith);
  failed = (λ h. ground arith, λ h. ground arith);
  silent = λ h. ground arith;
  message = λ h. ground arith;
}

pub from_size-success :
    (n : ℤ) (e : ℕ)
    → (from_size n e).code ≡ success
    → (k : ℕ) × (n ≡ pos (suc k)) × ((from_size n e).count ≡ suc k)
unfolding from_size
from_size-success (pos zero) e h = absurd (ground arith)
from_size-success (pos (suc n)) e h = (n, refl, ground arith)
from_size-success (negsuc n) e h = absurd (ground arith)

pub success-cases : (c : IoResultCode) → (c ≡ success) ⊎ (c ≢ success)
success-cases success = inl refl
success-cases connection_closed = inr (λ h. cc)
success-cases timeout = inr (λ h. cc)
success-cases error = inr (λ h. cc)

pub IoResultCode-cases :
    (c : IoResultCode) → ((c ≡ success) ⊎ (c ≡ timeout)) ⊎ ((c ≡ connection_closed) ⊎ (c ≡ error))
IoResultCode-cases success = inl (inl refl)
IoResultCode-cases timeout = inl (inr refl)
IoResultCode-cases connection_closed = inr (inl refl)
IoResultCode-cases error = inr (inr refl)
