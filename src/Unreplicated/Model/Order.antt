-- ===== src/Unreplicated/Model/Order.antt =====
-- src/unreplicated.rs: the addresses and messages of the model, and `Ord` as it is derived: by the order of
-- the constructors and of the fields.
use mur_mesh.Prelude.{ℕ, [], ◌∷◌}
use Prim.Native.Nat.{Ordering, compare}
use mur_mesh.Crypto.{Bytes}
use mur_mesh.OrderedSet.{Compare, then, compare_pair}
use mur_mesh.Unreplicated.Messages.{Request, Reply}

pub data Addr : Type 0 where
  client : ℕ → Addr
  server : Addr

pub data Message : Type 0 where
  request : Request Addr → Message
  reply : Reply → Message

unfoldable pub compare_bytes : Compare Bytes
compare_bytes [] [] = Ordering.eq
compare_bytes [] (y ∷ ys) = Ordering.lt
compare_bytes (x ∷ xs) [] = Ordering.gt
compare_bytes (x ∷ xs) (y ∷ ys) = then (compare x y) (compare_bytes xs ys)

unfoldable pub compare_addr : Compare Addr
compare_addr (Addr.client i) (Addr.client j) = compare i j
compare_addr (Addr.client i) Addr.server = Ordering.lt
compare_addr Addr.server (Addr.client j) = Ordering.gt
compare_addr Addr.server Addr.server = Ordering.eq

unfoldable pub compare_request : Compare (Request Addr)
unfolding compare_bytes compare_addr
compare_request a b = then (compare a.seq b.seq) (
    then (compare_bytes a.op b.op)
      (then (compare a.client_id b.client_id) (compare_addr a.client_addr b.client_addr)))

unfoldable pub compare_reply : Compare Reply
unfolding compare_bytes
compare_reply a b = then (compare a.seq b.seq) (compare_bytes a.result b.result)

unfoldable pub compare_message : Compare Message
unfolding compare_request compare_reply
compare_message (Message.request a) (Message.request b) = compare_request a b
compare_message (Message.request a) (Message.reply b) = Ordering.lt
compare_message (Message.reply a) (Message.request b) = Ordering.gt
compare_message (Message.reply a) (Message.reply b) = compare_reply a b

-- The pairs of the network.
unfoldable pub compare_sent : Compare (Addr × Message)
unfolding compare_addr compare_message
compare_sent = compare_pair compare_addr compare_message
