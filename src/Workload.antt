-- ===== src/Workload.antt =====
-- src/workload.rs: what a client is to do, and the loop that feeds the results back; below, the
-- combinators and an application.
pub mod Kvstore
pub mod Iter
pub mod Record
pub mod Codec
use mur_mesh.Prelude.{ℕ, List, [], Bool, true, false, Option, none, some, is_none}
use mur_mesh.Exec.{Exec, pure, self, modify, ensure, ◌>>=◌, ◌>>◌}
use mur_mesh.Crypto.{Bytes}

-- The trait `Workload`: each call may send an operation to the sender that it is given.
pub record Workload (Op Result : Type 0) : Type 1 where
  pub State : Type 0
  pub init : {T : Type 0} → (Op → Exec T (Unit {0})) → Exec (State × T) (Unit {0})
  pub on_result : {T : Type 0} → (Op → Exec T (Unit {0})) → Result → Exec (State × T) (Unit {0})

-- `SendEvent` for `Option`: it takes one event.
unfoldable pub send_option : {M : Type 0} → M → Exec (Option M) (Unit {0})
send_option event = do replaced ← self; modify (λ _. some event); ensure (is_none replaced)

-- The application `Null`.
unfoldable pub execute_null : {S : Type 0} → Bytes → Exec S Bytes
execute_null op = pure []

-- `CloseLoop<W, Option<Invoke<Op>>>`: the workload, and the operation that waits to be invoked.
pub record CloseLoop {Op Result : Type 0} (w : Workload Op Result) : Type 0 where
  pub workload : w.State
  pub sender : Option Op

module _ {Op Result : Type 0} (w : Workload Op Result) where
  abbrev on_pair : Exec (w.State × Option Op) (Unit {0}) → Exec (CloseLoop w) (Unit {0})
  on_pair call loop =
      let (r, s) = call (loop.workload, loop.sender) in (r, record { workload = s.0; sender = s.1 })

  unfoldable pub init : Exec (CloseLoop w) (Unit {0})
  init = on_pair (w.init send_option)

  -- A result is handed to the workload.
  unfoldable pub send : Result → Exec (CloseLoop w) (Unit {0})
  send result = on_pair (w.on_result send_option result)
