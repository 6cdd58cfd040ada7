-- ===== src/Exec/Steps.antt =====
-- What a handler does to the state, whatever its outcome: a relation between the state before and
-- after, closed under sequence, with one rule for each way to build a handler. Reading the state and
-- assignments compute, so they need no rule: what they did is shown where a rule asks for the relation.
use mur_mesh.Prelude.{Bool, true, false, Option, none, some, ◌≡◌, refl}
use mur_mesh.Exec.{Error, Outcome, ok, err, panic, Exec, continue, ◌>>=◌}

-- A relation that holds from a state to itself and along a sequence of steps.
pub record Law (S : Type 0) : Type 1 where
  pub Rel : S → S → Type 0
  pub stay : (s : S) → Rel s s
  pub join : {s t u : S} → Rel s t → Rel t u → Rel s u

-- The state that a call ended in is in relation to `s`.
pub record At {S A : Type 0} (L : Law S) (s : S) (r : Outcome A × S) : Type 0 where
  pub step : L.Rel s r.1

-- The handler obeys the law wherever it starts.
pub record Steps {S A : Type 0} (L : Law S) (m : Exec S A) : Type 0 where
  pub at : (s : S) → At L s (m s)

-- Each rule is about a call that began at `s` and has got to `t`.
module _ {S A : Type 0} {L : Law S} {s : S} where
  pub At-end : {t : S} {r : Outcome A} → L.Rel s t → At L s (r, t)
  At-end h = record { step = h }

  -- A call from `t`, the last thing done.
  pub At-call : {t : S} {r : Outcome A × S} → L.Rel s t → At L t r → At L s r
  At-call h g = record { step = L.join h g.step }

  pub At-if :
      (b : Bool) {p q : Outcome A × S}
      → (b ≡ true → At L s p)
      → (b ≡ false → At L s q)
      → At {A = A} L s (elim b [ true ↦ p | false ↦ q ])
  At-if true kp kq = kp refl
  At-if false kp kq = kq refl

module _ {S A B : Type 0} {L : Law S} {s : S} where
  -- A call and what follows it.
  pub At-bind :
      (m : Exec S A) (f : A → Exec S B) (t : S)
      → At L s (m t)
      → ((a : A) → Steps L (f a))
      → At L s ((m >>= f) t)
  At-bind m f t h hf = go (m t).0 h.step
    where
      go : (o : Outcome A) → L.Rel s (m t).1 → At L s (continue o f (m t).1)
      go (ok a) r = record { step = L.join r ((hf a).at (m t).1).step }
      go (err e) r = record { step = r }

  pub At-option :
      (o : Option A) {p : Outcome B × S} {k : A → Outcome B × S}
      → (o ≡ none → At L s p)
      → ((a : A) → o ≡ some a → At L s (k a))
      → At {A = B} L s (elim o [ none ↦ p | some a ↦ k a ])
  At-option none kp kk = kp refl
  At-option (some a) kp kk = kk a refl

  -- What follows an `ok_or(..)?`, an `unwrap` or an index has the value.
  pub At-or_fail :
      (x : Error) (o : Option A) (t : S) (k : A → Outcome B × S)
      → L.Rel s t
      → ((a : A) → o ≡ some a → At L s (k a))
      → At {A = B} L s (elim (let r : Outcome A = elim o [ none ↦ err x | some a ↦ ok a ] in r) [
        | ok a ↦ k a
        | err e ↦ (err e, t)
      ])
  At-or_fail x none t k h g = record { step = h }
  At-or_fail x (some a) t k h g = g a refl

module _ {S B : Type 0} {L : Law S} {s : S} where
  -- What follows an assertion knows that it held.
  pub At-assert :
      (b : Bool) (t : S) (k : Unit {0} → Outcome B × S)
      → L.Rel s t
      → (b ≡ true → At L s (k tt))
      → At {A = B} L s
          (elim (let r : Outcome (Unit {0}) = elim b [ true ↦ ok tt | false ↦ err panic ] in r) [
            | ok a ↦ k a
            | err e ↦ (err e, t)
          ])
  At-assert true t k h g = g refl
  At-assert false t k h g = record { step = h }

module _ {S A : Type 0} {L : Law S} where
  pub Steps-of : {m : Exec S A} → ((s : S) → At L s (m s)) → Steps L m
  Steps-of h = record { at = h }
