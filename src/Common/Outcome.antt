-- ===== src/Common/Outcome.antt =====
-- Fallible code: `anyhow::Result` with the errors of the model, which stand for the source's texts.
use Prim.Native.Nat.{ℕ}
use mathlib.Core.Path.{◌≡◌, refl, ap}
use mathlib.Core.Logic.{◌⊎◌, inl, inr}

-- One constructor for each `bail!` and `anyhow!` of the modelled code, and one for a failed read.
pub data Error : Type 0 where
  varint_eof read_eof truncated_user_agent : Error
  stream_closed bad_magic : Error
  oversized : ℕ → Error
  refused_no_auth host_too_long : Error
  connect_failed unexpected_atyp : ℕ → Error
  no_version needs_proxy : Error
  unknown_network : Error
  rpc_failed rpc_error no_result not_integer : Error
  not_text json_failed null_value unresolved no_seeds keep_days_zero : Error
  io_timed_out io_would_block io_other : Error

pub data Result {ℓ} (A : Type ℓ) : Type ℓ where
  ok : A → Result A
  err : Error → Result A

infixl 5 ◌>>=◌
abbrev pub ◌>>=◌ {ℓ κ} : {A : Type ℓ} {B : Type κ} → Result A → (A → Result B) → Result B
ok a >>= f = f a
err e >>= f = err e

pub Result-cases {ℓ} :
    {A : Type ℓ} (r : Result A) → ((e : Error) × (r ≡ err e)) ⊎ ((a : A) × (r ≡ ok a))
Result-cases (ok a) = inr (a, refl)
Result-cases (err e) = inl (e, refl)

pub ok-injective {ℓ} : {A : Type ℓ} {a b : A} → ok a ≡ ok b → a ≡ b
ok-injective {A} {a} {b} e = ap (from a) e
  where
    from : A → Result A → A
    from d (ok x) = x
    from d (err x) = d

-- A chain of two that succeeds succeeds at both.
pub bind_ok {ℓ κ} :
    {A : Type ℓ} {B : Type κ} (r : Result A) (f : A → Result B) {b : B}
    → (r >>= f) ≡ ok b
    → (a : A) × (r ≡ ok a) × (f a ≡ ok b)
bind_ok (ok a) f e = (a, refl, e)
bind_ok (err x) f e = absurd (cc e)
