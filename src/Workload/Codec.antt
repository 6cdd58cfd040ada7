-- ===== src/Workload/Codec.antt =====
-- src/codec.rs, `Encode` and `Decode` round an application and a workload. The encoders are parameters.
use mur_mesh.Prelude.{none}
use mur_mesh.Exec.{Exec, Outcome, bail, self, lift, or_fail, zoom, pure, ◌>>=◌, ◌>>◌}
use mur_mesh.Crypto.{Bytes}
use mur_mesh.Workload.{Workload, send_option}

-- An application that is sent operations, and sends each result to the sender that it is given.
pub record Responder (S Op Result : Type 0) : Type 1 where
  pub respond : {T : Type 0} → (Result → Exec T (Unit {0})) → Op → Exec (S × T) (Unit {0})

module _ {S Op Result : Type 0} where
  -- `Encode<R, A>` of an application: the results are sent encoded.
  abbrev pub encode_results :
      (Result → Outcome Bytes) → Responder S Op Result → Responder S Op Bytes
  encode_results encode app = record {
    respond = λ send. app.respond (λ result. (do encoded ← lift (encode result); send encoded));
  }

module _ {S Op : Type 0} where
  -- `App` for `Decode<O, A>`
  unfoldable pub execute : (Bytes → Outcome Op) → Responder S Op Bytes → Bytes → Exec S Bytes
  execute decode app bytes = do
    op ← lift (decode bytes)
    response ←
        zoom (λ s. (s, none)) (λ p s. p.0) (do app.respond send_option op; p ← self; pure p.1)
    or_fail bail response

module _ {Op Result : Type 0} where
  -- `Workload` for `Encode<W::Op, W>` and for `Decode<W::Result, W>`
  abbrev pub encode_ops : (Op → Outcome Bytes) → Workload Op Result → Workload Bytes Result
  encode_ops encode w = record {
    State = w.State;
    init = λ send. w.init (λ op. (do encoded ← lift (encode op); send encoded));
    on_result =
        λ send result. w.on_result (λ op. (do encoded ← lift (encode op); send encoded)) result;
  }

  abbrev pub decode_results : (Bytes → Outcome Result) → Workload Op Result → Workload Op Bytes
  decode_results decode w = record {
    State = w.State;
    init = w.init;
    on_result = λ send bytes. (do result ← lift (decode bytes); w.on_result send result);
  }
