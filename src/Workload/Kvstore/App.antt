-- ===== src/Workload/Kvstore/App.antt =====
-- src/workload/app/kvstore.rs, `App`: the store behind decoded operations and encoded results
-- (src/codec.rs).
use mur_mesh.Prelude.{◌≡◌, refl, inl, inr, List, [], ◌∷◌}
use mur_mesh.Exec.{Exec, Outcome, Outcome-cases, ok, err, Error, self, modify, zoom, ◌>>=◌, ◌>>◌}
use mur_mesh.Crypto.{Bytes}
use mur_mesh.Workload.{send_option}
use mur_mesh.Workload.Codec.{Responder, encode_results, execute}
use mur_mesh.Workload.Kvstore.{KvStore, Op, Result, invoke}

-- `SendEvent<Invoke<Op>>` for the store and where its response goes
unfoldable pub respond :
    {T : Type 0} → (Result → Exec T (Unit {0})) → Op → Exec (KvStore × T) (Unit {0})
unfolding invoke
respond send op = do
  s ← self
  let (result, store) = invoke op s.0
  modify (λ t. (store, t.1))
  zoom (λ t. t.1) (λ r t. (t.0, r)) (send result)

abbrev pub kv_store : Responder KvStore Op Result
kv_store = record { respond = respond }

module _ (decode : Bytes → Outcome Op) (encode : Result → Outcome Bytes) where
  -- `App`, that is `Decode<Op, Encode<Result, KVStore>>`
  unfoldable pub app : Bytes → Exec KvStore Bytes
  unfolding execute
  app = execute decode (encode_results encode kv_store)

  pub app-invoke :
      (bytes : Bytes) (op : Op) (store : KvStore)
      → decode bytes ≡ ok op
      → app bytes store ≡ (encode (invoke op store).0, (invoke op store).1)
  unfolding app execute respond send_option
  app-invoke bytes op store e = elim (Outcome-cases (encode (invoke op store).0)) [
    | inl (encoded, f) ↦ rw (e, f) refl
    | inr (x, f) ↦ rw (e, f) refl
  ]

  pub app-undecoded :
      (bytes : Bytes) (x : Error) (store : KvStore)
      → decode bytes ≡ err x
      → app bytes store ≡ (err x, store)
  unfolding app execute
  app-undecoded bytes x store e = rw e refl

  -- A server's calls of the application, one after the other.
  unfoldable pub served : List Bytes → KvStore → List (Outcome Bytes)
  served [] store = []
  served (bytes ∷ requests) store = let r = app bytes store in r.0 ∷ served requests r.1
