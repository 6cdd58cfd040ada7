-- ===== src/Net.antt =====
-- src/net/combinators.rs: messages sent to a fixed address, by index, or to all but one. The network below is
-- a parameter: what it does with a message for an address.
pub mod Broadcast
use mur_mesh.Prelude.{ℕ, suc, Bool, true, false, Option, none, some, List, [], ◌∷◌, ◌==◌, get_elem?}
use mur_mesh.Exec.{Exec, bail, pure, self, or_fail, zoom, when◌then◌else◌, ◌>>=◌, ◌>>◌}

pub record IndexNet (A N : Type 0) : Type 0 where
  pub addrs : List A
  pub all_except : Option ℕ
  pub inner : N

abbrev pub is_excepted : ℕ → Option ℕ → Bool
is_excepted index none = false
is_excepted index (some i) = index == i

module _ {A M N : Type 0} (send : A → M → Exec N (Unit {0})) where
  -- `Forward`
  unfoldable pub forward : A → M → Exec N (Unit {0})
  forward addr message = send addr message

  abbrev pub send_inner : A → M → Exec (IndexNet A N) (Unit {0})
  send_inner addr message = zoom (λ s. s.inner) (λ n s. record s { inner = n }) (send addr message)

  unfoldable pub send_index : ℕ → M → Exec (IndexNet A N) (Unit {0})
  send_index index message = do
    s ← self
    addr ← or_fail bail (get_elem? s.addrs index)
    send_inner addr message

  -- The loop over the addresses, from an index on.
  unfoldable pub send_from : ℕ → List A → M → Exec (IndexNet A N) (Unit {0})
  send_from index [] message = pure tt
  send_from index (addr ∷ addrs) message = do
    s ← self
    when is_excepted index s.all_except
        then send_from (suc index) addrs message
        else (do send_inner addr message; send_from (suc index) addrs message)

  unfoldable pub send_all : M → Exec (IndexNet A N) (Unit {0})
  unfolding send_from
  send_all message = do s ← self; send_from 0 s.addrs message
