-- ===== src/Pbft/Replica/Commit/Frame.antt =====
-- src/pbft/replica.rs: what one round of the execution loop keeps, and how it ends.
use mur_mesh.Prelude.{
  ℕ, zero, suc, ◌+◌, ◌≡◌, inl, inr, refl, ◌∙◌, some, List, [], ◌∷◌, get_elem?, set, length, add_u32,
  length-set, Option-cases, Bool-cases,
}
use mur_mesh.Exec.{Exec, bail, panic, out_of_fuel, Outcome, ok, err, continue, ◌>>=◌}
use mur_mesh.Exec.Steps.{Law, At, Steps, At-end, At-if, At-bind, At-or_fail, Steps-of}
use mur_mesh.Map
use mur_mesh.Timer
use mur_mesh.Timer.{Timer}
use mur_mesh.Model.Schedule as Schedule
use mur_mesh.Model.Schedule.{Schedule, schedule_event}
use mur_mesh.Crypto.{Bytes, Verifiable}
use mur_mesh.Pbft.Messages.{Request, PrePrepare, Reply}
use mur_mesh.Pbft.Replica.State.{LogEntry, Node, TimerEvent, Timing, send, on_state_transfer_timer}
use mur_mesh.Pbft.Replica.Commit.{
  not_later, remember, answer, execute_op, execute_request, execute_requests, execute_slot,
}

-- A call returns, or fails as the code does: it has not used up its rounds.
abbrev pub Ends {ℓ} : {A : Type ℓ} → Outcome A → Type 0
Ends (ok _) = Unit {0}
Ends (err bail) = Unit {0}
Ends (err panic) = Unit {0}
Ends (err out_of_fuel) = ⊥

module _ {S A B : Type 0} where
  Ends-bind :
      (m : Exec S A) (f : A → Exec S B) (s : S)
      → Ends (m s).0
      → ((a : A) (t : S) → Ends (f a t).0)
      → Ends ((m >>= f) s).0
  Ends-bind m f s h k = go (m s).0 h
    where
      go : (o : Outcome A) → Ends o → Ends (continue o f (m s).1).0
      go (ok a) h = k a (m s).1
      go (err bail) h = tt
      go (err panic) h = tt
      go (err out_of_fuel) h = h

ensure_unset-Ends :
    (t : Timer) (c : Schedule TimerEvent)
    → Ends (Timer.ensure_unset (schedule_event TimerEvent) (t, c)).0
unfolding Timer.ensure_unset Timer.unset Schedule.unset Schedule.remove
ensure_unset-Ends t c = elim (Option-cases t.id) [
  | inl e ↦ rw e tt
  | inr (id, e) ↦ elim (Option-cases (Schedule.extract id c.envelops)) [
    | inl f ↦ rw (e, f) tt
    | inr (p, f) ↦ rw (e, f) tt
  ]
]

-- What execution keeps of a slot.
set-keeps_commits :
    {A : Type 0} (xs : List (LogEntry A)) (i j : ℕ) (e v a : LogEntry A)
    → get_elem? xs i ≡ some e
    → v.commits ≡ e.commits
    → get_elem? xs j ≡ some a
    → (b : LogEntry A) × (get_elem? (set xs i v) j ≡ some b) × (b.commits ≡ a.commits)
set-keeps_commits [] i j e v a h same k = cc
set-keeps_commits (x ∷ xs) zero zero e v a h same k = (v, refl, cc)
set-keeps_commits (x ∷ xs) zero (suc j) e v a h same k = (a, k, refl)
set-keeps_commits (x ∷ xs) (suc i) zero e v a h same k = (a, k, refl)
set-keeps_commits (x ∷ xs) (suc i) (suc j) e v a h same k = set-keeps_commits xs i j e v a h same k

module _ {A : Type 0} where
  -- The slots are as many, and each is committed as before.
  abbrev pub Kept : List (LogEntry A) → List (LogEntry A) → Type 0
  Kept xs ys =
      (length ys ≡ length xs)
      × ((op : ℕ) (a : LogEntry A)
          → get_elem? xs op ≡ some a
          → (b : LogEntry A) × (get_elem? ys op ≡ some b) × (b.commits ≡ a.commits))

  pub Kept-refl : (xs : List (LogEntry A)) → Kept xs xs
  Kept-refl xs = (refl, λ op a e. (a, e, refl))

  pub Kept-join : (xs ys zs : List (LogEntry A)) → Kept xs ys → Kept ys zs → Kept xs zs
  Kept-join xs ys zs h g = (
    g.0 ∙ h.0,
    λ op a e.
        let (b, f, same) = h.1 op a e in let (c, f', same') = g.1 op b f in (c, f', same' ∙ same),
  )

module _ {S A : Type 0} where
  abbrev pub frame : Law (Node S A)
  frame = record {
    Rel = λ n m. (m.commit_num ≡ n.commit_num) × Kept n.log m.log;
    stay = λ n. (refl, Kept-refl n.log);
    join = λ h g. (g.0 ∙ h.0, Kept-join _ _ _ h.1 g.1);
  }

  timer-frame :
      (op : ℕ) (call : Timing) → Steps frame (on_state_transfer_timer {S = S} {A = A} op call)
  unfolding on_state_transfer_timer
  timer-frame op call = Steps-of λ n.
      At-or_fail panic (get_elem? n.log op) _ _ (refl, Kept-refl n.log)
        λ e found. record {
          step = (
            refl,
            (length-set n.log op _, λ j a k. set-keeps_commits n.log op j e _ a found refl k),
          );
        }

  timer-Ends :
      (op : ℕ) (n : Node S A)
      → Ends (on_state_transfer_timer op (Timer.ensure_unset (schedule_event TimerEvent)) n).0
  unfolding on_state_transfer_timer
  timer-Ends op n = elim (Option-cases (get_elem? n.log op)) [
    | inl e ↦ rw e tt
    | inr (a, e) ↦ rw e (ensure_unset-Ends a.state_transfer_timer n.context.schedule)
  ]

  remember-frame :
      (client : ℕ) (reply : Reply) → Steps frame (remember {S = S} {A = A} client reply)
  unfolding remember
  remember-frame client reply = Steps-of λ n.
      At-if (not_later reply.seq (Map.get client n.replies)) (λ due. At-end (refl, Kept-refl n.log))
        (λ late. At-end (refl, Kept-refl n.log))

  remember-Ends : (client : ℕ) (reply : Reply) (n : Node S A) → Ends (remember client reply n).0
  unfolding remember
  remember-Ends client reply n =
      elim (Bool-cases (not_later reply.seq (Map.get client n.replies))) [
        | inl e ↦ rw e tt
        | inr e ↦ rw e tt
      ]

  answer-frame :
      (p : PrePrepare) (r : Request A) (result : Bytes) → Steps frame (answer {S = S} p r result)
  unfolding answer
  answer-frame p r result = Steps-of λ n.
      At-bind (remember r.client_id _) (λ _. send _) n ((remember-frame _ _).at n)
        (λ _. Steps-of λ t. At-end (refl, Kept-refl t.log))

  answer-Ends :
      (p : PrePrepare) (r : Request A) (result : Bytes) (n : Node S A)
      → Ends (answer p r result n).0
  unfolding answer
  answer-Ends p r result n =
      Ends-bind (remember r.client_id _) (λ _. send _) n (remember-Ends _ _ n) (λ _ t. tt)

module _ {S A : Type 0} (execute : Bytes → Exec S Bytes)
    (returns : (op : Bytes) (s : S) → Ends (execute op s).0) where
  request-frame : (p : PrePrepare) (r : Request A) → Steps frame (execute_request execute p r)
  unfolding execute_request execute_op
  request-frame p r = Steps-of λ n.
      At-bind (execute_op execute r.op) (λ result. answer p r result) n
        (At-end (refl, Kept-refl n.log)) (λ result. answer-frame p r result)

  request-Ends :
      (p : PrePrepare) (r : Request A) (n : Node S A) → Ends (execute_request execute p r n).0
  unfolding execute_request execute_op
  request-Ends p r n =
      Ends-bind (execute_op execute r.op) (λ result. answer p r result) n (returns r.op n.app)
        (λ result t. answer-Ends p r result t)

  requests-frame :
      (p : PrePrepare) (rs : List (Request A)) → Steps frame (execute_requests execute p rs)
  unfolding execute_requests
  requests-frame p [] = Steps-of λ n. At-end (refl, Kept-refl n.log)
  requests-frame p (r ∷ rs) = Steps-of λ n.
      At-bind (execute_request execute p r) (λ _. execute_requests execute p rs) n
        ((request-frame p r).at n) (λ _. requests-frame p rs)

  requests-Ends :
      (p : PrePrepare) (rs : List (Request A)) (n : Node S A)
      → Ends (execute_requests execute p rs n).0
  unfolding execute_requests
  requests-Ends p [] n = tt
  requests-Ends p (r ∷ rs) n =
      Ends-bind (execute_request execute p r) (λ _. execute_requests execute p rs) n
        (request-Ends p r n) (λ _ t. requests-Ends p rs t)

  abbrev pub advanced : Node S A → Node S A
  advanced n = record n { state = record (n.state) { commit_num = add_u32 n.commit_num 1 } }

  pub slot-frame :
      (e : LogEntry A) (p : Verifiable PrePrepare) (n : Node S A)
      → At frame (advanced n) (execute_slot execute e p n)
  unfolding execute_slot
  slot-frame e p n =
      At-bind (on_state_transfer_timer (n.commit_num + 1) _)
        (λ _. execute_requests execute p.inner e.requests) _ ((timer-frame _ _).at _)
        (λ _. requests-frame p.inner e.requests)

  pub slot-Ends :
      (e : LogEntry A) (p : Verifiable PrePrepare) (n : Node S A)
      → Ends (execute_slot execute e p n).0
  unfolding execute_slot
  slot-Ends e p n =
      Ends-bind (on_state_transfer_timer (n.commit_num + 1) _)
        (λ _. execute_requests execute p.inner e.requests) (advanced n)
        (timer-Ends (n.commit_num + 1) (advanced n)) (λ _ t. requests-Ends p.inner e.requests t)
