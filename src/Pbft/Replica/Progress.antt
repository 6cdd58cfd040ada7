-- ===== src/Pbft/Replica/Progress.antt =====
-- src/pbft/replica.rs: what only grows in the state of a replica, and what never changes.
use mur_mesh.Prelude.{
  ℕ, ◌≤◌, ◌≡◌, refl, subst, Option, none, some, Option-cases, get_elem?, drop, ◌∙◌, List, arith,
  inl, inr, Bool-cases, ◌==◌, ==_iff,
}
use mur_mesh.Exec.{Exec}
use mur_mesh.Map
use mur_mesh.Map.{Map}
use mur_mesh.Map.Laws.{get-insert}
use mur_mesh.Crypto.{Bytes}
use mur_mesh.Pbft.Messages.{Reply}
use mur_mesh.Pbft.Replica.State.{State, Node, extend_log, op_num}
use mur_mesh.Pbft.Replica.Event.{Event}
use mur_mesh.Pbft.Replica.Handle.{after}
use mur_mesh.Pbft.Replica.Step.{Step, Reach, here, next}
use mur_mesh.Pbft.Replica.Refine.Handle.{after-Reach}

-- The number of the last request of the client is known, and at least `seq`.
abbrev pub Knows : ℕ → ℕ → Map (ℕ × Option Reply) → Type 0
Knows client seq m = (known : ℕ × Option Reply) × (Map.get client m ≡ some known) × (seq ≤ known.0)

-- No client's last request number is forgotten or lowered.
abbrev pub Remembers : Map (ℕ × Option Reply) → Map (ℕ × Option Reply) → Type 0
Remembers m m' = (client seq : ℕ) → Knows client seq m → Knows client seq m'

insert-Remembers :
    (client : ℕ) (new : ℕ × Option Reply) (m : Map (ℕ × Option Reply))
    → ((known : ℕ × Option Reply) → Map.get client m ≡ some known → known.0 ≤ new.0)
    → Remembers m (Map.insert client new m)
insert-Remembers client new m later q seq (known, e, h) = elim (Bool-cases (client == q)) [
  | inl f ↦
      let same : client ≡ q = (==_iff client q).0 f in
      let le : known.0 ≤ new.0 = later known (rw same e) in
      (new, rw (get-insert q client new m, f) refl, omega arith)
  | inr f ↦ (known, rw (get-insert q client new m, f) e, h)
]

-- From one state to a later one.
pub record Progress {S A : Type 0} (s t : State S A) : Type 0 where
  pub view_num : s.view_num ≤ t.view_num
  pub id : s.id ≡ t.id
  pub config : s.config ≡ t.config
  pub replies : Remembers s.replies t.replies

module _ {S A : Type 0} where
  -- A step that writes none of the four.
  same :
      {s t : State S A}
      → s.view_num ≡ t.view_num
      → s.id ≡ t.id
      → s.config ≡ t.config
      → s.replies ≡ t.replies
      → Progress s t
  same v i c r = record {
    view_num = omega arith;
    id = i;
    config = c;
    replies = λ client seq k. subst (Knows client seq) r k;
  }

  answered :
      {s t : State S A}
      → s.view_num ≡ t.view_num
      → s.id ≡ t.id
      → s.config ≡ t.config
      → Remembers s.replies t.replies
      → Progress s t
  answered v i c r = record { view_num = omega arith; id = i; config = c; replies = r }

  extended : (op : ℕ) (s t : State S A) → Progress s t → Progress s (extend_log op t)
  extended op s t h = elim (Option-cases (get_elem? t.log op)) [
    | inl e ↦
        rw e (record { view_num = h.view_num; id = h.id; config = h.config; replies = h.replies })
    | inr (_, e) ↦ rw e h
  ]

  Step-Progress : {s t : State S A} → Step s t → Progress s t
  Step-Progress (Step.time_view_change s _) = same refl refl refl refl
  Step-Progress (Step.time_progress_view_change s _) = same refl refl refl refl
  Step-Progress (Step.time_progress s _ _ _ _) = same refl refl refl refl
  Step-Progress (Step.time_state_transfer s _ _ _ _) = same refl refl refl refl
  Step-Progress (Step.enqueue s r _ _ later) = answered refl refl refl (
      insert-Remembers r.client_id (r.seq, none) s.replies
        (λ known e. omega (arith, later known e)))
  Step-Progress (Step.close s size _ _ _) =
      extended (op_num s) s (record s { requests = drop size s.requests })
        (same refl refl refl refl)
  Step-Progress (Step.propose s _ _ _ _) = same refl refl refl refl
  Step-Progress (Step.fill s _ _ _ _) = same refl refl refl refl
  Step-Progress (Step.reserve s op) = extended op s s (same refl refl refl refl)
  Step-Progress (Step.accept s _ _ _ _ _ _) = same refl refl refl refl
  Step-Progress (Step.discard s _) = same refl refl refl refl
  Step-Progress (Step.vote_prepare s _ _) = same refl refl refl refl
  Step-Progress (Step.prepared s _ _ _ _ _ _ _ _) = same refl refl refl refl
  Step-Progress (Step.pend_prepares s _) = same refl refl refl refl
  Step-Progress (Step.vote_commit s _ _) = same refl refl refl refl
  Step-Progress (Step.committed s _ _ _ _ _ _ _ _) = same refl refl refl refl
  Step-Progress (Step.pend_commits s _) = same refl refl refl refl
  Step-Progress (Step.advance s _ _ _) = same refl refl refl refl
  Step-Progress (Step.run_app s _) = same refl refl refl refl
  Step-Progress (Step.answer s client reply later) =
      answered refl refl refl (insert-Remembers client (reply.seq, some reply) s.replies later)
  Step-Progress (Step.move_view s view h) = record {
    view_num = h;
    id = refl;
    config = refl;
    replies = λ client seq k. k;
  }
  Step-Progress (Step.open_votes s _) = same refl refl refl refl
  Step-Progress (Step.vote_view_change s _ _ _ _ _) = same refl refl refl refl
  Step-Progress (Step.restart s _ _ _) = same refl refl refl refl
  Step-Progress (Step.truncate s _) = same refl refl refl refl
  Step-Progress (Step.clear s) = same refl refl refl refl
  Step-Progress (Step.install s _) = same refl refl refl refl

  Reach-Progress : {s t : State S A} → Reach s t → Progress s t
  Reach-Progress here = same refl refl refl refl
  Reach-Progress (next r step) =
      let p = Reach-Progress r in
      let q = Step-Progress step in
      record {
        view_num = omega (arith, p.view_num, q.view_num);
        id = p.id ∙ q.id;
        config = p.config ∙ q.config;
        replies = λ client seq k. q.replies client seq (p.replies client seq k);
      }

module _ {S A : Type 0} (execute : Bytes → Exec S Bytes) where
  -- Whatever events a replica handles, and whatever their outcomes: its view number does not go down,
  -- its id and its parameters stay, and for no client is the last request number that it knows
  -- forgotten or lowered.
  pub after-Progress :
      (n : Node S A) (es : List (Event A)) → Progress n.state (after execute n es).state
  after-Progress n es = Reach-Progress (after-Reach execute n es)
