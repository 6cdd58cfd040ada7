-- ===== src/Workload/Record.antt =====
-- src/workload/combinators.rs, `Record`: a workload whose operations and results are kept.
use mur_mesh.Prelude.{List, [], ◌∷◌, ◌++◌, Option, none, some, is_none}
use mur_mesh.Exec.{Exec, bail, pure, self, modify, ensure, or_fail, match_option, zoom, ◌>>=◌, ◌>>◌}
use mur_mesh.Workload.{Workload, send_option}

module _ {Op Result : Type 0} (w : Workload Op Result) where
  pub record Record : Type 0 where
    pub inner : w.State
    pub invocations : List (Op × Result)
    pub outstanding : Option Op

  unfoldable pub new : w.State → Record
  new inner = record { inner = inner; invocations = []; outstanding = none }

  module _ {T : Type 0} (send : Op → Exec T (Unit {0})) where
    -- A call of the inner workload; what it sends is intercepted.
    abbrev intercepted : Exec (w.State × Option Op) (Unit {0}) → Exec (Record × T) (Option Op)
    intercepted call =
        zoom (λ s. (s.0.inner, none)) (λ p s. (record (s.0) { inner = p.0 }, s.1))
          (do call; p ← self; pure p.1)

    abbrev sent : Op → Exec (Record × T) (Unit {0})
    sent op = zoom (λ s. s.1) (λ t s. (s.0, t)) (send op)

    abbrev remember : Option Op → Exec (Record × T) (Unit {0})
    remember op = modify (λ s. (record (s.0) { outstanding = op }, s.1))

    unfoldable pub init : Exec (Record × T) (Unit {0})
    init = do
      intercept ← intercepted (w.init send_option)
      op ← or_fail bail intercept
      s ← self
      remember (some op)
      ensure (is_none s.0.outstanding)
      sent op

    unfoldable pub on_result : Result → Exec (Record × T) (Unit {0})
    on_result result = do
      s ← self
      remember none
      op ← or_fail bail s.0.outstanding
      modify (λ t. (record (t.0) { invocations = t.0.invocations ++ (op, result) ∷ [] }, t.1))
      intercept ← intercepted (w.on_result send_option result)
      match_option intercept (pure tt) (λ next. do remember (some next); sent next)

  abbrev pub workload : Workload Op Result
  workload = record { State = Record; init = init; on_result = on_result }
