-- ===== src/Common/State.antt =====
-- Stateful code as explicit state passing: an action returns its result and the new state.
abbrev pub State {ℓ κ} : Type ℓ → Type κ → Type (ℓ ⊔ κ)
State S A = S → A × S

abbrev pub pure {ℓ κ} : {S : Type ℓ} {A : Type κ} → A → State S A
pure a s = (a, s)

infixl 5 ◌>>=◌ ◌>>◌
abbrev pub ◌>>=◌ {ℓ κ μ} :
    {S : Type ℓ} {A : Type κ} {B : Type μ} → State S A → (A → State S B) → State S B
◌>>=◌ m f s = let (a, s') = m s in f a s'

-- A statement whose result the code drops.
abbrev pub ◌>>◌ {ℓ κ μ} : {S : Type ℓ} {A : Type κ} {B : Type μ} → State S A → State S B → State S B
m >> k = m >>= λ _. k
