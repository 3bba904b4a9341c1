-- ===== src/Go/Result.antt =====
-- A Go function that may return an error, panic, or (in the model) use up its fuel.
use redi_go.Prelude.{Bytes, ◌≡◌, refl}

pub data Result {ℓ} (A : Type ℓ) : Type ℓ where
  ok : A → Result A
  -- `errors.New(message)`
  err : Bytes → Result A
  -- a run-time panic: an index, slice or length out of range
  panic : Result A
  -- the fuel of the model ran out; no run of the program ends so
  hang : Result A

infixl 5 ◌>>=◌
abbrev pub ◌>>=◌ {ℓ κ} : {A : Type ℓ} {B : Type κ} → Result A → (A → Result B) → Result B
ok a >>= f = f a
err e >>= f = err e
panic >>= f = panic
hang >>= f = hang

pub bind_assoc {ℓ κ μ} :
    {A : Type ℓ} {B : Type κ} {C : Type μ} (m : Result A) (f : A → Result B) (g : B → Result C)
    → ((m >>= f) >>= g) ≡ (m >>= λ a. f a >>= g)
bind_assoc (ok a) f g = refl
bind_assoc (err e) f g = refl
bind_assoc panic f g = refl
bind_assoc hang f g = refl

-- A bind runs out of fuel only if one of its parts does.
pub bind_hang {ℓ κ} :
    {A : Type ℓ} {B : Type κ} (m : Result A) (f : A → Result B)
    → ¬ (m ≡ hang)
    → ((a : A) → m ≡ ok a → ¬ (f a ≡ hang))
    → ¬ ((m >>= f) ≡ hang)
bind_hang (ok a) f hm hf e = hf a refl e
bind_hang (err _) f hm hf e = cc
bind_hang panic f hm hf e = cc
bind_hang hang f hm hf e = hm refl
