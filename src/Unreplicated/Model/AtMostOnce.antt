-- ===== src/Unreplicated/Model/AtMostOnce.antt =====
-- src/unreplicated.rs, `model`: the states that the system reaches, and the executions behind them.
use mur_mesh.Prelude.{ℕ, suc, u8, ◌≡◌, inl, inr, refl, sym, subst, List, [], ◌∷◌, map}
use mathlib.Core.List.{Memᴰ}
use mathlib.Core.List.Memᴰ
use mur_mesh.Exec.{Exec, Outcome, ok, err, continue}
use mur_mesh.Crypto.{Bytes}
use mur_mesh.Map
use mur_mesh.Model.Schedule
use mur_mesh.Workload.{Workload}
use mur_mesh.Unreplicated.Client.{Resend}
use mur_mesh.Unreplicated.Server
use mur_mesh.Unreplicated.Server.{ServerState}
use mur_mesh.Unreplicated.Model.Order.{Addr, Message}
use mur_mesh.Unreplicated.Model.{
  Event, Endpoint, State, new, push_client, init_clients, init, timers, events, on_message,
  on_timer, on_server, dispatch, send, fix, on_clients,
}
use mur_mesh.Unreplicated.Model.History.{Done, IsConsistent, latest}
use mur_mesh.Unreplicated.Model.Growth.{
  continue_holds, Quiet, fix-Grows, on_message-Grows, on_timer-Grows, at_client-Quiet,
}
use mur_mesh.Unreplicated.Model.Executions.{Fits-Grows, Fits-recv}

-- The first of two calls succeeded, if both did.
pub first_ok :
    {S A B : Type 0} (r : Outcome A) (f : A → Exec S B) (s : S) {b : B}
    → (continue r f s).0 ≡ ok b
    → (a : A) × (r ≡ ok a)
first_ok (ok a) f s h = (a, refl)
first_ok (err e) f s h = cc

Memᴰ-map :
    {A B : Type 0} (f : A → B) (xs : List A) (y : B)
    → Memᴰ y (map f xs)
    → (x : A) × Memᴰ x xs × (y ≡ f x)
Memᴰ-map f [] y m = absurd (Memᴰ.not-nil m)
Memᴰ-map f (x ∷ xs) y m = elim (Memᴰ.cases_cons m) [
  | inl e ↦ (x, Memᴰ.head refl, e)
  | inr k ↦ let (z, n, e) = Memᴰ-map f xs y k in (z, Memᴰ.tail n, e)
]

module _ (w : Workload Bytes Bytes) where
  message-timers :
      (index : ℕ) (cs : List (Endpoint w)) (addr : Addr) (m : Message)
      → Memᴰ (Event.message addr m) (timers w index cs)
      → ⊥
  unfolding timers
  message-timers index [] addr m h = Memᴰ.not-nil h
  message-timers index (c ∷ cs) addr m h = elim (Memᴰ.append_cases _ h) [
    | inl k ↦
        let (t, _, e) =
          Memᴰ-map (λ t. Event.timer (u8 index) t.0 t.1) (Schedule.events c.1.schedule)
            (Event.message addr m) k in
        not-timer e
    | inr k ↦ message-timers (suc index) cs addr m k
  ]
    where
      not-timer : {i j : ℕ} {t : Resend} → Event.message addr m ≡ Event.timer i j t → ⊥
      not-timer e = cc

  module _ {S : Type 0} where
    -- A message that may be delivered is in the network.
    message-events :
        (s : State w S) (addr : Addr) (m : Message)
        → Memᴰ (Event.message addr m) (events w s)
        → Memᴰ (addr, m) s.network.messages
    unfolding events
    message-events s addr m h = elim (Memᴰ.append_cases _ h) [
      | inl k ↦
          let (t, n, e) =
            Memᴰ-map (λ m. Event.message m.0 m.1) s.network.messages (Event.message addr m) k in
          Memᴰ.cast (message_inj e) n
      | inr k ↦ absurd (message-timers 0 s.clients addr m k)
    ]
      where
        message_inj :
            {a b : Addr} {m n : Message}
            → Event.message a m ≡ Event.message b n
            → Path (Addr × Message) (a, m) (b, n)
        message_inj e = cc

    module _ (execute : Bytes → Exec S Bytes) (app : S) where
      -- The states of the system: the clients are added, then `init`, then any of the events.
      pub data Built : State w S → Type 0 where
        built_new : Built (new w app)
        built_push :
            {s : State w S} (workload : w.State) → Built s → Built (push_client w workload s)

      pub data Reach : State w S → Type 0 where
        started : {s : State w S} → Built s → (init w s).0 ≡ ok tt → Reach (init w s).1
        stepped :
            {s : State w S} (event : Event)
            → Reach s
            → Memᴰ event (events w s)
            → (send w execute event s).0 ≡ ok tt
            → Reach (send w execute event s).1

      abbrev pub IsAtMostOnce : State w S → Type 0
      IsAtMostOnce s = (h : List Done) × IsConsistent execute app h s.server s.network

      Built-empty : {s : State w S} → Built s → IsConsistent execute app [] s.server s.network
      unfolding new push_client latest Map.get Server.new
      Built-empty built_new = record {
        runs = refl;
        ascending = tt;
        replies = λ id. refl;
        requested = λ d m. absurd (Memᴰ.not-nil m);
        replied = λ addr r m. absurd (Memᴰ.not-nil m);
      }
      Built-empty (built_push x b) = Built-empty b

      fix-keeps :
          (s : State w S)
          → IsAtMostOnce s
          → IsAtMostOnce (record s { network = (fix w (s.clients, s.network)).1.1 })
      fix-keeps s (h, c) = (h, Fits-Grows execute app (fix-Grows w s.clients s.network) c)

      Quiet-keeps : {s s' : State w S} → Quiet w s s' → IsAtMostOnce s → IsAtMostOnce s'
      Quiet-keeps {s = s} q (h, c) = (
        h,
        Fits-Grows execute app q.network
            (subst (λ x. IsConsistent execute app h x s.network) (sym q.server) c),
      )

      dispatch-keeps :
          (event : Event) (s : State w S)
          → Memᴰ event (events w s)
          → (dispatch w execute event s).0 ≡ ok tt
          → IsAtMostOnce s
          → IsAtMostOnce (dispatch w execute event s).1
      unfolding dispatch on_server
      dispatch-keeps (Event.message (Addr.client index) m) s _ e k =
          Quiet-keeps (at_client-Quiet w index (on_message w m) s (on_message-Grows w m)) k
      dispatch-keeps (Event.timer index id event) s _ e k =
          Quiet-keeps (at_client-Quiet w index (on_timer w id event) s (on_timer-Grows w id event))
            k
      dispatch-keeps (Event.message Addr.server (Message.reply r)) s _ e k = k
      dispatch-keeps (Event.message Addr.server (Message.request q)) s m e (h, c) =
          Fits-recv execute app h s.server s.network q c
            (message-events s Addr.server (Message.request q) m) e

      init-keeps : (s : State w S) → IsAtMostOnce s → IsAtMostOnce (init w s).1
      unfolding init
      init-keeps s k =
          continue_holds IsAtMostOnce (init_clients w s.clients).0 (λ _. on_clients w (fix w))
            (record s { clients = (init_clients w s.clients).1 }) k
            (λ _. fix-keeps (record s { clients = (init_clients w s.clients).1 }) k)

      send-keeps :
          (event : Event) (s : State w S)
          → Memᴰ event (events w s)
          → (send w execute event s).0 ≡ ok tt
          → IsAtMostOnce s
          → IsAtMostOnce (send w execute event s).1
      unfolding send
      send-keeps event s m e k =
          let (_, e') =
            first_ok (dispatch w execute event s).0 (λ _. on_clients w (fix w))
              (dispatch w execute event s).1 e in
          let k' = dispatch-keeps event s m e' k in
          continue_holds IsAtMostOnce (dispatch w execute event s).0 (λ _. on_clients w (fix w))
            (dispatch w execute event s).1 k' (λ _. fix-keeps (dispatch w execute event s).1 k')

      -- In every state that the system reaches, clients added, `init` and any events of `events` all
      -- successful, there is a history of executions: the application got from its first state to its
      -- state by it, the sequence numbers of each client strictly ascend in it, the server keeps the last
      -- reply of each client, every request of it is in the network, and every reply in the network is that
      -- of an execution and goes to the sender of a request with the same client and sequence number.
      pub Reach-IsAtMostOnce : {s : State w S} → Reach s → IsAtMostOnce s
      Reach-IsAtMostOnce (started b e) = init-keeps _ ([], Built-empty b)
      Reach-IsAtMostOnce (stepped event r m e) = send-keeps event _ m e (Reach-IsAtMostOnce r)
