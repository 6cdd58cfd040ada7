-- ===== src/Unreplicated/Model/Rounds.antt =====
-- src/unreplicated.rs, `model`: the clients' turns in `fix`, one by one.
use mur_mesh.Prelude.{
  ℕ, suc, ◌<◌, ◌≤◌, ◌^◌, ◌≡◌, inl, inr, refl, sym, subst, ap, some, List, [], ◌∷◌, ◌++◌, length,
  get_elem?, set, map, All, arith,
}
use mathlib.Core.List.{append_assoc}
use mur_mesh.Exec.{Outcome-cases}
use mur_mesh.Crypto.{Bytes}
use mur_mesh.Workload.{Workload}
use mur_mesh.Unreplicated.Client.{ClientState}
use mur_mesh.Unreplicated.Model.Order.{Addr}
use mur_mesh.Unreplicated.Model.{Net, Endpoint, fix_client, fix}
use mur_mesh.Unreplicated.Model.Turn.{Goes}
use mur_mesh.Unreplicated.Model.Asked.{IsAssigned, Turn-IsAssigned, next_seq}
use mur_mesh.Unreplicated.Model.Turns.{Turned, fix_client-Turned}

module _ {A : Type 0} where
  get_elem?-middle :
      (xs : List A) (y : A) (ys : List A) → get_elem? (xs ++ y ∷ ys) (length xs) ≡ some y
  get_elem?-middle [] y ys = refl
  get_elem?-middle (x ∷ xs) y ys = get_elem?-middle xs y ys

  set-middle :
      (xs : List A) (y z : A) (ys : List A) → set (xs ++ y ∷ ys) (length xs) z ≡ xs ++ z ∷ ys
  set-middle [] y z ys = refl
  set-middle (x ∷ xs) y z ys = ap (λ l. x ∷ l) (set-middle xs y z ys)

-- No client has counted further.
abbrev pub IsBelow : ℕ → List (ClientState Addr) → Type 0
IsBelow k = All (λ c. c.seq ≤ k)

pub IsBelow-suc : (k : ℕ) (cs : List (ClientState Addr)) → IsBelow k cs → IsBelow (suc k) cs
IsBelow-suc k [] h = tt
IsBelow-suc k (c ∷ cs) h = (omega arith, IsBelow-suc k cs h.1)

pub Turned-IsAssigned :
    (cs : List (ClientState Addr)) (n n' : Net) (i : ℕ) (c c' : ClientState Addr)
    → IsAssigned cs n
    → get_elem? cs i ≡ some c
    → Turned c n c' n'
    → suc c.seq < 2 ^ 32
    → IsAssigned (set cs i c') n'
Turned-IsAssigned cs n n' i c c' h at t small =
    subst (IsAssigned (set cs i c')) (sym t.network)
      (Turn-IsAssigned cs n i c c' t.sent h at t.turn small)

-- A turn counts once at most.
Turned-le :
    {c c' : ClientState Addr} {n n' : Net} (k : ℕ)
    → Turned c n c' n'
    → c.seq ≤ k
    → suc k < 2 ^ 32
    → c'.seq ≤ suc k
Turned-le {c} {c'} k t low small = go t.turn.goes
  where
    go : Goes c c' → c'.seq ≤ suc k
    go (inl (e, _)) = omega arith
    go (inr e) = let f = next_seq c.seq c'.seq e (omega arith) in omega arith

module _ (w : Workload Bytes Bytes) where
  abbrev pub states : List (Endpoint w) → List (ClientState Addr)
  states = map (λ c. c.0)

  -- The clients take turns, after some others.
  pub fix-IsAssigned :
      (k : ℕ) (before : List (ClientState Addr)) (cs : List (Endpoint w)) (n : Net)
      → suc k < 2 ^ 32
      → IsAssigned (before ++ states cs) n
      → IsBelow k (states cs)
      → let p = (fix w (cs, n)).1 in
        IsAssigned (before ++ states p.0) p.1 × IsBelow (suc k) (states p.0)
  unfolding fix
  fix-IsAssigned k before [] n small h low = (h, tt)
  fix-IsAssigned k before (c ∷ cs) n small h low =
      let (r, (c', n')) = fix_client w (c, n) in
      let t : Turned c.0 n c'.0 n' = fix_client-Turned w (c, n) in
      let le : c'.0.seq ≤ suc k = Turned-le k t low.0 small in
      let h' : IsAssigned (before ++ c'.0 ∷ states cs) n' =
        subst (λ l. IsAssigned l n') (set-middle before c.0 c'.0 (states cs))
          (Turned-IsAssigned (before ++ c.0 ∷ states cs) n n' (length before) c.0 c'.0 h
            (get_elem?-middle before c.0 (states cs)) t (omega (arith, low.0))) in
      elim (Outcome-cases r) [
        | inr (x, e) ↦ rw (fix, e) (h', (le, IsBelow-suc k (states cs) low.1))
        | inl (_, e) ↦
            let (a, b) =
              fix-IsAssigned k (before ++ c'.0 ∷ []) cs n' small
                (subst (λ l. IsAssigned l n') (sym (append_assoc before (c'.0 ∷ []) (states cs)))
                  h')
                low.1 in
            rw (fix, e)
              (
                subst (λ l. IsAssigned l (fix w (cs, n')).1.1)
                    (append_assoc before (c'.0 ∷ []) (states (fix w (cs, n')).1.0)) a,
                (le, b),
              )
      ]
