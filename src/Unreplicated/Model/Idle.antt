-- ===== src/Unreplicated/Model/Idle.antt =====
-- src/unreplicated.rs, `model`: what waits in the clients' senders, between the steps.
use mur_mesh.Prelude.{
  ◌≡◌, inl, inr, refl, sym, subst, ◌∙◌, ap, none, Option-cases, List, [], ◌∷◌, All,
}
use mur_mesh.Exec.{Exec, Outcome, Outcome-cases, Error, ok, err, continue}
use mur_mesh.Crypto.{Bytes}
use mur_mesh.Model.Schedule
use mur_mesh.Workload.{Workload}
use mur_mesh.Unreplicated.Client.{Node, invoke, send_request}
use mur_mesh.Unreplicated.Model.Order.{Addr}
use mur_mesh.Unreplicated.Model.{
  Net, Endpoint, State, deliver, on_client, fix_client, fix, on_clients, init_clients, init,
  dispatch, send,
}
use mur_mesh.Unreplicated.Model.Growth.{continue_holds}
use mur_mesh.Unreplicated.Model.AtMostOnce.{Reach, started, stepped}

-- An invocation passes nothing up.
invoke-upcalls : (op : Bytes) (n : Node Addr) → (invoke op n).1.upcalls ≡ n.upcalls
unfolding invoke send_request Schedule.set
invoke-upcalls op n = elim (Option-cases n.outstanding) [
  | inl e ↦ rw e refl
  | inr (o, e) ↦ rw e refl
]

-- Of two calls that succeed, the second one's result is left.
last_ok :
    {S A B : Type 0} (r : Outcome A) (f : A → Exec S B) (s : S) {b : B}
    → (continue r f s).0 ≡ ok b
    → (a : A) × (continue r f s ≡ f a s)
last_ok (ok a) f s e = (a, refl)
last_ok (err x) f s e = absurd (failed e)
  where
    failed : {C : Type 0} {c : C} {y : Error} → Path (Outcome C) (err y) (ok c) → ⊥
    failed g = cc

module _ (w : Workload Bytes Bytes) where
  -- No operation waits.
  abbrev pub Rests : Endpoint w → Type 0
  Rests c = c.1.upcall.sender ≡ none

  deliver-nil : (rs : List Bytes) (p : Endpoint w × Net) → rs ≡ [] → (deliver w rs p).1 ≡ p
  unfolding deliver
  deliver-nil [] p e = refl
  deliver-nil (r ∷ rs) p e = cc

  on_client-invoke :
      (op : Bytes) (p : Endpoint w × Net) → (on_client w (invoke op) p).1.0.1.upcall ≡ p.0.1.upcall
  unfolding on_client
  on_client-invoke op p =
      let start : Node Addr = record {
        state = p.0.0;
        sent = [];
        upcalls = [];
        schedule = p.0.1.schedule;
      } in
      let (r, n) = invoke op start in
      continue_holds (λ q. q.0.1.upcall ≡ p.0.1.upcall) r (λ _. deliver w n.upcalls) _ refl
        (λ _. ap (λ q. q.0.1.upcall) (deliver-nil n.upcalls _ (invoke-upcalls op start)))

  fix_client-Rests :
      (p : Endpoint w × Net) → (fix_client w p).0 ≡ ok tt → Rests (fix_client w p).1.0
  unfolding fix_client
  fix_client-Rests p e = elim (Option-cases p.0.1.upcall.sender) [
    | inl f ↦ rw (fix_client, f) f
    | inr (op, f) ↦ rw (fix_client, f) (ap (λ u. u.sender) (on_client-invoke op (_, p.1)))
  ]

  fix-Rests :
      (cs : List (Endpoint w)) (n : Net) → (fix w (cs, n)).0 ≡ ok tt → All Rests (fix w (cs, n)).1.0
  unfolding fix
  fix-Rests [] n e = tt
  fix-Rests (c ∷ cs) n e =
      let (r, (c', n')) = fix_client w (c, n) in
      elim (Outcome-cases r) [
        | inl (tt, f) ↦ rw (fix, f) (fix_client-Rests (c, n) f, fix-Rests cs n' (rw (fix, f) at e))
        | inr (x, f) ↦ absurd (failed (rw (fix, f) at e))
      ]
    where
      failed : {x : Error} → Path (Outcome (Unit {0})) (err x) (ok tt) → ⊥
      failed g = cc

  module _ {S : Type 0} (execute : Bytes → Exec S Bytes) (app : S) where
    -- In every state that the system reaches by successful steps, no operation waits in a client's sender:
    -- the assertion of `events` holds.
    pub Reach-Rests : {s : State w S} → Reach w execute app s → All Rests s.clients
    unfolding init send
    Reach-Rests (started {s} b e) =
        let t : State w S = record s { clients = (init_clients w s.clients).1 } in
        let (_, made) = last_ok (init_clients w s.clients).0 (λ _. on_clients w (fix w)) t e in
        subst (λ p. All Rests p.1.clients) (sym made)
          (fix-Rests t.clients t.network (sym (ap (λ p. p.0) made) ∙ e))
    Reach-Rests (stepped {s} event r m e) =
        let (o, t) = dispatch w execute event s in
        let (_, made) = last_ok o (λ _. on_clients w (fix w)) t e in
        subst (λ p. All Rests p.1.clients) (sym made)
          (fix-Rests t.clients t.network (sym (ap (λ p. p.0) made) ∙ e))
