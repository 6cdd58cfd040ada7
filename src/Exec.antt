-- ===== src/Exec.antt =====
-- Event handlers: `fn(&mut self, ..) -> anyhow::Result<A>`. A call works on a state and ends in a
-- value or an error; what was written before the error stays written.
pub mod Steps
use mur_mesh.Prelude.{Bool, true, false, Option, none, some, ◌≡◌, refl, ◌⊎◌, inl, inr}

-- `bail` is an `Err` that the call returns, `panic` a failed assertion, `unwrap` or index.
-- `out_of_fuel` is of the model alone: a `while` loop used up the rounds that it was given.
pub data Error : Type 0 where
  bail panic out_of_fuel : Error

pub data Outcome {ℓ} (A : Type ℓ) : Type ℓ where
  ok : A → Outcome A
  err : Error → Outcome A

pub Outcome-cases {ℓ} :
    {A : Type ℓ} (r : Outcome A) → ((a : A) × (r ≡ ok a)) ⊎ ((e : Error) × (r ≡ err e))
Outcome-cases (ok a) = inl (a, refl)
Outcome-cases (err e) = inr (e, refl)

abbrev pub Exec {ℓ κ} : Type ℓ → Type κ → Type (ℓ ⊔ κ)
Exec S A = S → Outcome A × S

module _ {ℓ κ} {S : Type ℓ} {A : Type κ} where
  abbrev pub pure : A → Exec S A
  pure a s = (ok a, s)

  abbrev pub fail : Error → Exec S A
  fail e s = (err e, s)

  -- A result computed without the state, as with `?`.
  abbrev pub lift : Outcome A → Exec S A
  lift r s = (r, s)

  -- `ok_or(..)?`, `unwrap()`, an index.
  abbrev pub or_fail : Error → Option A → Exec S A
  or_fail e o s = (elim o [ none ↦ err e | some a ↦ ok a ], s)

  -- A conditional between calls.
  infix 1 when◌then◌else◌
  abbrev pub when◌then◌else◌ : Bool → Exec S A → Exec S A → Exec S A
  when◌then◌else◌ b m n s = elim b [ true ↦ m s | false ↦ n s ]

abbrev pub self {ℓ} : {S : Type ℓ} → Exec S S
self s = (ok s, s)

abbrev pub modify {ℓ} : {S : Type ℓ} → (S → S) → Exec S (Unit {0})
modify f s = (ok tt, f s)

-- `assert!` and `anyhow::ensure!`.
abbrev pub assert {ℓ} : {S : Type ℓ} → Bool → Exec S (Unit {0})
assert b s = (elim b [ true ↦ ok tt | false ↦ err panic ], s)

abbrev pub ensure {ℓ} : {S : Type ℓ} → Bool → Exec S (Unit {0})
ensure b s = (elim b [ true ↦ ok tt | false ↦ err bail ], s)

module _ {ℓ κ λ'} {S : Type ℓ} {A : Type κ} {B : Type λ'} where
  abbrev pub continue : Outcome A → (A → Exec S B) → Exec S B
  continue r f s = elim r [ ok a ↦ f a s | err e ↦ (err e, s) ]

  infixl 5 ◌>>=◌
  abbrev pub ◌>>=◌ : Exec S A → (A → Exec S B) → Exec S B
  ◌>>=◌ m f s = continue (m s).0 f (m s).1

  -- `if let Some(a) = o { f(a) } else { m }`
  abbrev pub match_option : Option A → Exec S B → (A → Exec S B) → Exec S B
  match_option o m f s = elim o [ none ↦ m s | some a ↦ f a s ]

infixl 5 ◌>>◌
abbrev pub ◌>>◌ {ℓ κ} : {S : Type ℓ} {B : Type κ} → Exec S (Unit {0}) → Exec S B → Exec S B
m >> k = m >>= λ _. k

-- A call on a part of the state: `self.part.method(..)`.
abbrev pub zoom {ℓ κ μ} :
    {S : Type ℓ} {T : Type κ} {A : Type μ} → (S → T) → (T → S → S) → Exec T A → Exec S A
zoom get put m s = let (r, t) = m (get s) in (r, put t s)
