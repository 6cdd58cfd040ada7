-- ===== src/Pbft/Replica/Ordering/Batch.antt =====
-- src/pbft/replica.rs: what closing a batch does.
use mur_mesh.Prelude.{
  ℕ, suc, ◌≡◌, ◌≤◌, ◌<◌, refl, Bool, true, false, List, [], ◌∷◌, ◌++◌, arith, not, length, take,
  drop, is_empty, get_elem?, take-append-drop, length-take-le, length-resize, lt_of_get_elem?,
  Option-cases, inl, inr, ◌⊎◌, ltb, Bool-cases, ap, subst, sym, ◌∙◌, zero,
}
use Prim.Native.Nat.{min}
use mur_mesh.Exec.{Exec, ok, assert, ◌>>◌}
use mur_mesh.Pbft.Messages.{Request}
use mur_mesh.Pbft.Replica.State.{
  State, Node, is_primary, view_change, op_num, sign_batch, extend_log, default_entry,
}
use mur_mesh.Pbft.Replica.Ordering.{close_batch}

ltb_lt : (a b : ℕ) → ltb a b ≡ true → a < b
ltb_lt a b e = ground arith

ltb_ge : (a b : ℕ) → ltb a b ≡ false → b ≤ a
ltb_ge a b e = ground arith

length-take : {B : Type 0} (k : ℕ) (xs : List B) → k < length xs → length (take k xs) ≡ k
length-take zero xs h = refl
length-take (suc k) [] h = absurd (omega arith)
length-take (suc k) (x ∷ xs) h = ap suc (length-take k xs (omega arith))

drop_all : {B : Type 0} (xs : List B) → drop (length xs) xs ≡ []
drop_all [] = refl
drop_all (x ∷ xs) = drop_all xs

take_or_all :
    {B : Type 0} (xs : List B) (k : ℕ)
    → (length (take (min (length xs) k) xs) ≡ k) ⊎ (drop (min (length xs) k) xs ≡ [])
take_or_all xs k = elim (Bool-cases (ltb k (length xs))) [
  | inl e ↦
      let m : min (length xs) k ≡ k = omega (arith, ltb_lt k (length xs) e) in
      inl (rw m (length-take k xs (ltb_lt k (length xs) e)))
  | inr e ↦
      let m : min (length xs) k ≡ length xs = omega (arith, ltb_ge k (length xs) e) in
      inr (rw m (drop_all xs))
]

module _ {S A : Type 0} where
  extend_log-bound : (op : ℕ) (s : State S A) → op < length (extend_log op s).log
  extend_log-bound op s = elim (Option-cases (get_elem? s.log op)) [
    | inl e ↦ rw (e, length-resize s.log (suc op) (default_entry s)) (omega arith)
    | inr (_, f) ↦ rw f (lt_of_get_elem? s.log op f)
  ]

  extend_log-requests : (op : ℕ) (s : State S A) → (extend_log op s).requests ≡ s.requests
  extend_log-requests op s = elim (Option-cases (get_elem? s.log op)) [
    | inl e ↦ rw e refl
    | inr (_, f) ↦ rw f refl
  ]

  abbrev pub batch_size : Node S A → ℕ
  batch_size n = min (length n.requests) n.config.max_batch_size

  -- The node after its batch is closed.
  abbrev pub closed : Node S A → Node S A
  closed n = record n {
    state =
        extend_log (op_num n.state)
          (record (n.state) { requests = drop (batch_size n) n.requests });
    context = record (n.context) {
      submitted =
          n.context.submitted
          ++ sign_batch n.view_num (op_num n.state) (take (batch_size n) n.requests) ∷ [];
    };
  }

  asserted :
      (a b c : Bool) (k : Exec (Node S A) (Unit {0})) (n : Node S A)
      → a ≡ true
      → b ≡ false
      → c ≡ false
      → (assert a >> (assert (not b) >> (assert (not c) >> k))) n ≡ k n
  asserted true false false k n p q r = refl
  asserted false b c k n p q r = absurd cc
  asserted true true c k n p q r = absurd cc
  asserted true false true k n p q r = absurd cc

  pub close_batch_lem :
      (n : Node S A)
      → is_primary n.state ≡ true
      → view_change n.state ≡ false
      → is_empty n.requests ≡ false
      → close_batch n ≡ (ok tt, closed n)
  unfolding close_batch
  close_batch_lem n primary entered waiting =
      asserted (is_primary n.state) (view_change n.state) (is_empty n.requests)
        (λ m. (ok tt, closed n)) n primary entered waiting

  -- In the primary of a view that it has entered, with requests that wait, closing a batch succeeds: the
  -- batch is the longest head of the queue within `max_batch_size` and leaves it, what is left stays in
  -- order, the batch is submitted for signing under the next op number, and the log gets its slot.
  pub close_batch-splits :
      (n : Node S A)
      → is_primary n.state ≡ true
      → view_change n.state ≡ false
      → is_empty n.requests ≡ false
      → let (outcome, m) = close_batch n in
        (outcome ≡ ok tt)
        × ((batch : List (Request A)) × (batch ++ m.requests ≡ n.requests)
            × (length batch ≤ n.config.max_batch_size)
            × ((length batch ≡ n.config.max_batch_size) ⊎ (m.requests ≡ []))
            × (m.context.submitted
                ≡ n.context.submitted ++ sign_batch n.view_num (op_num n.state) batch ∷ [])
            × (op_num n.state < length m.log))
  unfolding close_batch
  close_batch-splits n primary entered waiting =
      let queue : State S A = record (n.state) { requests = drop (batch_size n) n.requests } in
      let rest = extend_log-requests (op_num n.state) queue in
      rw (close_batch_lem n primary entered waiting) (
        refl,
        (
          take (batch_size n) n.requests,
          subst (λ l. take (batch_size n) n.requests ++ l ≡ n.requests) (sym rest)
              (take-append-drop (batch_size n) n.requests),
          omega (arith, length-take-le (batch_size n) n.requests),
          elim (take_or_all n.requests n.config.max_batch_size) [
            | inl full ↦ inl full
            | inr all ↦ inr (rest ∙ all)
          ],
          refl,
          extend_log-bound (op_num n.state) queue,
        ),
      )
