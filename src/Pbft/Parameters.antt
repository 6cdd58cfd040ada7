-- ===== src/Pbft/Parameters.antt =====
-- src/pbft/mod.rs: the parameters that clients and replicas share.
use mur_mesh.Prelude.{ℕ, ◌*◌, ◌/◌, leb, if◌then◌else◌}
use mur_mesh.Exec.{Outcome, ok, err, panic}
use mur_mesh.Model.Schedule.{max_duration}

-- `PublicParameters`; durations are numbers of nanoseconds.
pub record PublicParameters : Type 0 where
  pub num_replica : ℕ
  pub num_faulty : ℕ
  pub num_concurrent : ℕ
  pub max_batch_size : ℕ
  pub client_resend_interval : ℕ
  pub progress_prepare_interval : ℕ
  pub view_change_delay : ℕ
  pub progress_view_change_interval : ℕ
  pub state_transfer_delay : ℕ

-- The multiplication panics where it would not fit.
unfoldable pub durations : ℕ → Outcome PublicParameters
durations interval =
    if leb (interval * 10) max_duration
    then ok (record {
      client_resend_interval = interval;
      progress_prepare_interval = interval / 5;
      view_change_delay = interval / 2;
      progress_view_change_interval = interval / 10;
      state_transfer_delay = interval * 10;
      num_replica = 0;
      num_faulty = 0;
      num_concurrent = 0;
      max_batch_size = 0;
    })
    else err panic
