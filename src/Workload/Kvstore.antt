-- ===== src/Workload/Kvstore.antt =====
-- src/workload/app/kvstore.rs: the key-value store, and the endless workload of puts and gets on it.
-- A string is the list of its characters' codes. The store is never iterated, so the map is an
-- association list. What the random generator draws, an index and a value, is given to each call.
pub mod Expected
pub mod App
pub mod Session
use mur_mesh.Prelude.{
  ℕ, ◌+◌, Bool, true, false, Option, none, some, List, [], ◌∷◌, ◌++◌, not, ◌==◌, bytes_eq, is_empty,
  if◌then◌else◌,
}

abbrev pub Str : Type 0
Str = List ℕ

abbrev pub KvStore : Type 0
KvStore = List (Str × Str)

pub data Op : Type 0 where
  put : Str → Str → Op
  get : Str → Op
  append : Str → Str → Op

pub data Result : Type 0 where
  put_ok : Result
  get_result : Str → Result
  key_not_found : Result
  append_result : Str → Result

-- `store.get(&key)` and `store.insert(key, value)`
unfoldable pub find : Str → KvStore → Option Str
find key [] = none
find key ((j, v) ∷ store) = if bytes_eq j key then some v else find key store

unfoldable pub insert : Str → Str → KvStore → KvStore
insert key value [] = (key, value) ∷ []
insert key value ((j, v) ∷ store) =
    if bytes_eq j key then (key, value) ∷ store else (j, v) ∷ insert key value store

abbrev pub find_or_default : Str → KvStore → Str
find_or_default key store = elim (find key store) [ none ↦ [] | some value ↦ value ]

-- The handler of `Invoke(op)`: the result that it responds with, and the store after.
unfoldable pub invoke : Op → KvStore → Result × KvStore
invoke (Op.put key value) store = (Result.put_ok, insert key value store)
invoke (Op.get key) store = (
  (elim (find key store) [ none ↦ Result.key_not_found | some value ↦ Result.get_result value ]),
  store,
)
invoke (Op.append key postfix) store =
    let value = find_or_default key store ++ postfix in
    (Result.append_result value, insert key value store)

-- The array of the last values put, as a function of the index.
pub record InfinitePutGet : Type 0 where
  pub namespace : Str
  pub values : ℕ → Str
  pub should_get : Bool

unfoldable pub new : Str → InfinitePutGet
new namespace = record { namespace = namespace; values = λ _. []; should_get = false }

-- `format!("{}-{index}", namespace)`, for an index of one digit.
abbrev pub key_of : Str → ℕ → Str
key_of namespace index = namespace ++ 45 ∷ (48 + index) ∷ []

abbrev pub expected_get : Str → Result
expected_get value = if is_empty value then Result.key_not_found else Result.get_result value

-- The next operation with the result that it is to have.
unfoldable pub next_item : ℕ → Str → InfinitePutGet → (Op × Result) × InfinitePutGet
next_item index value g =
    if g.should_get
    then (
      (Op.get (key_of g.namespace index), expected_get (g.values index)),
      record g { should_get = false },
    )
    else (
      (Op.put (key_of g.namespace index) value, Result.put_ok),
      record g { values = λ i. if i == index then value else g.values i; should_get = true },
    )
