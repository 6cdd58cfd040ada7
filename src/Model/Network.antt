-- ===== src/Model/Network.antt =====
-- src/model/search/state.rs, `Network`: the messages that were ever sent, each with its receiver; none is
-- lost. The `BTreeSet` is the list of its elements in their order, `Ord`.
use mur_mesh.Prelude.{List, []}
use mur_mesh.Exec.{Exec, modify}
use mur_mesh.OrderedSet.{Compare, insert}

pub record Network (A M : Type 0) : Type 0 where
  pub messages : List (A × M)

module _ {A M : Type 0} where
  abbrev pub new : Network A M
  new = record { messages = [] }

  unfoldable pub send : Compare (A × M) → A → M → Exec (Network A M) (Unit {0})
  unfolding insert
  send cmp remote message =
      modify (λ n. record { messages = insert cmp (remote, message) n.messages })

  abbrev pub events : Network A M → List (A × M)
  events n = n.messages
