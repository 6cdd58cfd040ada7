-- ===== src/Workload/Kvstore/Session.antt =====
-- src/workload/app/kvstore.rs, `App`: a session of requests, against a function from keys to values.
use mur_mesh.Prelude.{
  ◌≡◌, refl, sym, ap, ◌∙◌, inl, inr, Option, none, some, List, [], ◌∷◌, ◌++◌, bytes_eq,
  if◌then◌else◌,
}
use mur_mesh.Exec.{Outcome, Outcome-cases, ok, err}
use mur_mesh.Crypto.{Bytes}
use mur_mesh.Workload.Kvstore.{Str, KvStore, Op, Result, find, invoke}
use mur_mesh.Workload.Kvstore.Expected.{find-insert}
use mur_mesh.Workload.Kvstore.App.{app-invoke, app-undecoded, served}

-- What a client thinks of the store: the value of each key, however it is held.
abbrev pub Contents : Type 0
Contents = Str → Option Str

abbrev written : Str → Str → Contents → Contents
written key value m = λ q. if bytes_eq key q then some value else m q

abbrev text : Option Str → Str
text none = []
text (some value) = value

abbrev found : Option Str → Result
found none = Result.key_not_found
found (some value) = Result.get_result value

unfoldable pub promised_result : Op → Contents → Result
promised_result (Op.put key value) m = Result.put_ok
promised_result (Op.get key) m = found (m key)
promised_result (Op.append key postfix) m = Result.append_result (text (m key) ++ postfix)

unfoldable pub promised_contents : Op → Contents → Contents
promised_contents (Op.put key value) m = written key value m
promised_contents (Op.get key) m = m
promised_contents (Op.append key postfix) m = written key (text (m key) ++ postfix) m

-- The contents are those of the store.
abbrev Shows : Contents → KvStore → Type 0
Shows m store = (q : Str) → m q ≡ find q store

written-Shows :
    (key value : Str) (m : Contents) (store : KvStore)
    → Shows m store
    → (q : Str) → written key value m q ≡ (if bytes_eq key q then some value else find q store)
written-Shows key value m store h q = rw (h q) refl

invoke-Shows :
    (op : Op) (m : Contents) (store : KvStore)
    → Shows m store
    → ((invoke op store).0 ≡ promised_result op m)
      × Shows (promised_contents op m) (invoke op store).1
unfolding invoke promised_result promised_contents
invoke-Shows (Op.put key value) m store h =
    (refl, λ q. written-Shows key value m store h q ∙ sym (find-insert q key value store))
invoke-Shows (Op.get key) m store h = (rw (h key) (same (find key store)), h)
  where
    same :
        (o : Option Str)
        → (elim o [ none ↦ Result.key_not_found | some value ↦ Result.get_result value ]) ≡ found o
    same none = refl
    same (some value) = refl
invoke-Shows (Op.append key postfix) m store h =
    let e : text (m key) ≡ (elim (find key store) [ none ↦ [] | some value ↦ value ]) =
      ap text (h key) ∙ same (find key store) in
    (
      ap (λ v. Result.append_result (v ++ postfix)) (sym e),
      λ q.
          written-Shows key (text (m key) ++ postfix) m store h q
          ∙ ap (λ v. if bytes_eq key q then some (v ++ postfix) else find q store) e
          ∙ sym (find-insert q key _ store),
    )
  where
    same : (o : Option Str) → text o ≡ (elim o [ none ↦ [] | some value ↦ value ])
    same none = refl
    same (some value) = refl

module _ (decode : Bytes → Outcome Op) (encode : Result → Outcome Bytes) where
  -- The answers that a function from keys to values gives.
  unfoldable pub promised : List Bytes → Contents → List (Outcome Bytes)
  promised [] m = []
  promised (bytes ∷ requests) m = elim (decode bytes) [
    | ok op ↦ encode (promised_result op m) ∷ promised requests (promised_contents op m)
    | err x ↦ err x ∷ promised requests m
  ]

  served-Shows :
      (requests : List Bytes) (m : Contents) (store : KvStore)
      → Shows m store
      → served decode encode requests store ≡ promised requests m
  unfolding served promised
  served-Shows [] m store h = refl
  served-Shows (bytes ∷ requests) m store h = elim (Outcome-cases (decode bytes)) [
    | inl (op, e) ↦
        let (same, shows) = invoke-Shows op m store h in
        rw (app-invoke decode encode bytes op store e, promised, e)
          (ap (λ r. encode r ∷ served decode encode requests (invoke op store).1) same
            ∙ ap (λ l. encode (promised_result op m) ∷ l)
                (served-Shows requests (promised_contents op m) (invoke op store).1 shows))
    | inr (x, e) ↦
        rw (app-undecoded decode encode bytes x store e, promised, e)
          (ap (λ l. err x ∷ l) (served-Shows requests m store h))
  ]

  -- Whatever requests the application is sent, one after the other, it answers as a function from keys to
  -- values does: a put and an append change the value of their key and of no other, a get answers the value
  -- last written; what cannot be decoded is answered by that error and changes nothing; a result that
  -- cannot be encoded is answered by that error, and what its operation wrote stays.
  pub served-promised :
      (requests : List Bytes) (store : KvStore)
      → served decode encode requests store ≡ promised requests (λ q. find q store)
  served-promised requests store = served-Shows requests (λ q. find q store) store (λ q. refl)
