-- ===== src/Workload/Iter.antt =====
-- src/workload/combinators.rs, `Iter` and `UncheckedIter`: the operations of an iterator, with or without
-- the results that they are to have.
pub mod Order
use mur_mesh.Prelude.{Bool, true, false, Option, none, some, is_none}
use mur_mesh.Exec.{
  Exec, ok, bail, pure, self, modify, ensure, or_fail, match_option, zoom, ◌>>=◌, ◌>>◌,
}
use mur_mesh.Workload.{Workload}

-- An iterator: `next` takes an item and moves on.
pub record Iterator (A : Type 0) : Type 1 where
  pub State : Type 0
  pub next : State → Option A × State

abbrev take_next :
    {A T : Type 0} (i : Iterator A) → (T → i.State) → (i.State → T → T) → Exec T (Option A)
take_next i get put t = let (item, rest) = i.next (get t) in (ok item, put rest t)

module _ {Op Result : Type 0} (items : Iterator (Op × Result)) (same : Result → Result → Bool) where
  pub record Iter : Type 0 where
    pub generate : items.State
    pub expected_result : Option Result
    pub done : Bool

  unfoldable pub new : items.State → Iter
  new generate = record { generate = generate; expected_result = none; done = false }

  module _ {T : Type 0} (send : Op → Exec T (Unit {0})) where
    abbrev generate_next : Exec (Iter × T) (Option (Op × Result))
    generate_next =
        take_next items (λ s. s.0.generate) (λ g s. (record (s.0) { generate = g }, s.1))

    abbrev sent : Op → Exec (Iter × T) (Unit {0})
    sent op = zoom (λ s. s.1) (λ t s. (s.0, t)) (send op)

    abbrev finish : Exec (Iter × T) (Unit {0})
    finish = modify (λ s. (record (s.0) { done = true }, s.1))

    abbrev expect : Option Result → Exec (Iter × T) (Unit {0})
    expect result = modify (λ s. (record (s.0) { expected_result = result }, s.1))

    unfoldable pub init : Exec (Iter × T) (Unit {0})
    init = do
      item ← generate_next
      match_option item finish (λ next. do
        s ← self
        expect (some next.1)
        ensure (is_none s.0.expected_result)
        sent next.0)

    unfoldable pub on_result : Result → Exec (Iter × T) (Unit {0})
    on_result result = do
      s ← self
      expect none
      expected ← or_fail bail s.0.expected_result
      ensure (same result expected)
      item ← generate_next
      match_option item finish (λ next. do expect (some next.1); sent next.0)

  abbrev pub workload : Workload Op Result
  workload = record { State = Iter; init = init; on_result = on_result }

module _ {Op : Type 0} (items : Iterator Op) where
  pub record UncheckedIter : Type 0 where
    pub generate : items.State
    pub done : Bool

  unfoldable pub new_unchecked : items.State → UncheckedIter
  new_unchecked generate = record { generate = generate; done = false }

  unfoldable pub init_unchecked :
      {T : Type 0} → (Op → Exec T (Unit {0})) → Exec (UncheckedIter × T) (Unit {0})
  init_unchecked send = do
    item ← take_next items (λ s. s.0.generate) (λ g s. (record (s.0) { generate = g }, s.1))
    match_option item (modify (λ s. (record (s.0) { done = true }, s.1)))
        (λ op. zoom (λ s. s.1) (λ t s. (s.0, t)) (send op))

  abbrev pub unchecked : (Result : Type 0) → Workload Op Result
  unchecked Result = record {
    State = UncheckedIter;
    init = init_unchecked;
    on_result = λ send result. init_unchecked send;
  }
