-- ===== src/Workload/Iter/Order.antt =====
-- src/workload/combinators.rs, `Iter` on a list: a whole session of operations and results.
use mur_mesh.Prelude.{
  suc, ◌≡◌, ◌≢◌, ◌↔◌, refl, sym, ◌∙◌, ap, Bool, true, false, Bool-cases, inl, inr, Option, none,
  some, List, [], ◌∷◌, ◌++◌, map, take, length, is_empty,
}
use mur_mesh.Exec.{Exec, Outcome, ok, err, bail, pure, continue, ◌>>=◌, ◌>>◌}
use mur_mesh.Workload as Loop
use mur_mesh.Workload.{Workload, CloseLoop, send_option}
use mur_mesh.Workload.Iter as Iter
use mur_mesh.Workload.Iter.{Iterator}

abbrev pub next_of_list : {A : Type 0} → List A → Option A × List A
next_of_list [] = (none, [])
next_of_list (x ∷ xs) = (some x, xs)

abbrev pub list_items : (A : Type 0) → Iterator A
list_items A = record { State = List A; next = next_of_list }

module _ {Op Result : Type 0} (w : Workload Op Result) where
  -- The operation that waits is taken.
  unfoldable pub take_sent : Exec (CloseLoop w) (List Op)
  take_sent loop =
      (ok (elim loop.sender [ none ↦ [] | some op ↦ op ∷ [] ]), record loop { sender = none })

  -- The operations that are sent, while the results are handed over one by one.
  unfoldable pub session : List Result → Exec (CloseLoop w) (List Op)
  unfolding take_sent Loop.send
  session [] = take_sent
  session (r ∷ rs) = do ops ← take_sent; Loop.send w r; rest ← session rs; pure (ops ++ rest)

tail_inj : {A : Type 0} {r r' : A} {rs ss : List A} → r ∷ rs ≡ r' ∷ ss → rs ≡ ss
tail_inj e = cc

first_inj : {A : Type 0} {r r' : A} {rs ss : List A} → r ∷ rs ≡ r' ∷ ss → r ≡ r'
first_inj e = cc

nil-append : {A : Type 0} (rs ss : List A) → [] ≡ rs ++ ss → (rs ≡ []) × (ss ≡ [])
nil-append [] ss e = (refl, sym e)
nil-append (r ∷ rs) ss e = cc

nil-append_ne : {A : Type 0} (s : A) (rs ss : List A) → Path (List A) [] (rs ++ s ∷ ss) → ⊥
nil-append_ne s [] ss e = cc
nil-append_ne s (r ∷ rs) ss e = cc

module _ {Result : Type 0} (same : Result → Result → Bool)
    (lawful : (r s : Result) → (same r s ≡ true) ↔ (r ≡ s)) where
  head_same : (r r' : Result) (rs ss : List Result) → r ∷ rs ≡ r' ∷ ss → same r' r ≡ true
  head_same r r' rs ss e = (lawful r' r).1 cc

  unlike : (x r : Result) → x ≢ r → same x r ≡ false
  unlike x r other = elim (Bool-cases (same x r)) [
    | inl e ↦ absurd (other ((lawful x r).0 e))
    | inr e ↦ e
  ]

module _ {Op Result : Type 0} (same : Result → Result → Bool) where
  -- The workload of a list of operations with their results.
  abbrev pub listed : Workload Op Result
  listed = Iter.workload (list_items (Op × Result)) same

  abbrev pub start : List (Op × Result) → CloseLoop listed
  start items = record { workload = Iter.new (list_items (Op × Result)) same items; sender = none }

  abbrev pub played : List (Op × Result) → List Result → Outcome (List Op) × CloseLoop listed
  played items rs = (do Loop.init listed; session listed rs) (start items)

  -- An operation is sent, and its result expected.
  abbrev waiting : Op → Result → List (Op × Result) → CloseLoop listed
  waiting op r items = record {
    workload = record { generate = items; expected_result = some r; done = false };
    sender = some op;
  }

  abbrev idle : Result → List (Op × Result) → CloseLoop listed
  idle r items = record {
    workload = record { generate = items; expected_result = some r; done = false };
    sender = none;
  }

  abbrev finished : CloseLoop listed
  finished = record {
    workload = record { generate = []; expected_result = none; done = true };
    sender = none;
  }

  send-last :
      (r r' : Result) → same r' r ≡ true → Loop.send listed r' (idle r []) ≡ (ok tt, finished)
  unfolding Loop.send Iter.on_result
  send-last r r' e = rw e refl

  send-next :
      (r r' : Result) (op : Op) (s : Result) (items : List (Op × Result))
      → same r' r ≡ true
      → Loop.send listed r' (idle r ((op, s) ∷ items)) ≡ (ok tt, waiting op s items)
  unfolding Loop.send Iter.on_result send_option
  send-next r r' op s items e = rw e refl

  send-wrong :
      (r r' : Result) (items : List (Op × Result))
      → same r' r ≡ false
      → Loop.send listed r' (idle r items) ≡ (
        err bail,
        record {
          workload = record { generate = items; expected_result = none; done = false };
          sender = none;
        },
      )
  unfolding Loop.send Iter.on_result
  send-wrong r r' items e = rw e refl

  -- A result that is accepted.
  session-cons :
      (op : Op) (r r' : Result) (items : List (Op × Result)) (rs : List Result)
      (loop : CloseLoop listed)
      → Loop.send listed r' (idle r items) ≡ (ok tt, loop)
      → session listed (r' ∷ rs) (waiting op r items)
        ≡ (do rest ← session listed rs; pure (op ∷ rest)) loop
  unfolding session take_sent
  session-cons op r r' items rs loop e =
      ap (λ p. continue p.0 (λ _. (do rest ← session listed rs; pure (op ∷ rest))) p.1) e

  module _ (lawful : (r s : Result) → (same r s ≡ true) ↔ (r ≡ s)) where
    session-waiting :
        (op : Op) (r : Result) (items : List (Op × Result)) (rs ss : List Result)
        → r ∷ map (λ i. i.1) items ≡ rs ++ ss
        → let (result, loop) = session listed rs (waiting op r items) in
          (result ≡ ok (take (suc (length rs)) (op ∷ map (λ i. i.0) items)))
          × (loop.workload.done ≡ is_empty ss)
    unfolding session take_sent
    session-waiting op r items [] ss e = (refl, ap is_empty e)
    session-waiting op r [] (r' ∷ rs) ss e =
        let (a, b) = nil-append rs ss (tail_inj e) in
        rw
          (
            session-cons op r r' [] rs finished
                (send-last r r' (head_same same lawful r r' [] (rs ++ ss) e)),
            a,
            b,
          )
          (refl, refl)
    session-waiting op r ((op', s) ∷ items) (r' ∷ rs) ss e =
        let (a, b) = session-waiting op' s items rs ss (tail_inj e) in
        rw
          (
            session-cons op r r' ((op', s) ∷ items) rs (waiting op' s items)
                (send-next r r' op' s items (head_same same lawful r r' _ (rs ++ ss) e)),
            a,
          )
          (refl, b)

    -- `Iter` of a list of operations with the results expected, with a test that tells results apart: handed the first of these results, as
    -- many as there are or fewer, the workload is started and sends the operations in order, the first and
    -- one more for each result; no error is returned, and it is `done` just when no result is left.
    pub played-in_order :
        (items : List (Op × Result)) (rs ss : List Result)
        → map (λ i. i.1) items ≡ rs ++ ss
        → let (result, loop) = played items rs in
          (result ≡ ok (take (suc (length rs)) (map (λ i. i.0) items)))
          × (loop.workload.done ≡ is_empty ss)
    unfolding session take_sent Loop.init Iter.init Iter.new send_option
    played-in_order [] rs ss e = let (a, b) = nil-append rs ss e in rw (a, b) (refl, refl)
    played-in_order ((op, r) ∷ items) rs ss e = session-waiting op r items rs ss e

    session-wrong :
        (op : Op) (r : Result) (items : List (Op × Result)) (rs ss more : List Result)
        (x s : Result)
        → r ∷ map (λ i. i.1) items ≡ rs ++ s ∷ ss
        → x ≢ s
        → (session listed (rs ++ x ∷ more) (waiting op r items)).0 ≡ err bail
    unfolding session take_sent
    session-wrong op r items [] ss more x s e other =
        let f : same x r ≡ false = unlike same lawful x r (λ g. other (g ∙ first_inj e)) in
        ap (λ p. (continue p.0 (λ _. (do rest ← session listed more; pure (op ∷ rest))) p.1).0)
          (send-wrong r x items f)
    session-wrong op r [] (r' ∷ rs) ss more x s e other =
        absurd (nil-append_ne s rs ss (tail_inj e))
    session-wrong op r ((op', t) ∷ items) (r' ∷ rs) ss more x s e other =
        let a = session-wrong op' t items rs ss more x s (tail_inj e) other in
        rw
          (
            session-cons op r r' ((op', t) ∷ items) (rs ++ x ∷ more) (waiting op' t items)
                (send-next r r' op' t items (head_same same lawful r r' _ (rs ++ s ∷ ss) e)),
            a,
          )
          refl

    -- `Iter` of a list of operations with the results expected, with a test that tells results apart: on the first result that is another one, an
    -- error is returned, whatever would follow.
    pub played-wrong :
        (items : List (Op × Result)) (rs ss more : List Result) (x s : Result)
        → map (λ i. i.1) items ≡ rs ++ s ∷ ss
        → x ≢ s
        → (played items (rs ++ x ∷ more)).0 ≡ err bail
    unfolding session take_sent Loop.init Iter.init Iter.new send_option
    played-wrong [] rs ss more x s e other = absurd (nil-append_ne s rs ss e)
    played-wrong ((op, r) ∷ items) rs ss more x s e other =
        session-wrong op r items rs ss more x s e other
