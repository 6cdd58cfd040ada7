-- ===== src/Net/Broadcast.antt =====
-- src/net/combinators.rs, `IndexNet`: a message to all, over the network of a simulation.
use mur_mesh.Prelude.{
  ℕ, suc, zero, ◌+◌, ◌≡◌, refl, sym, subst, ◌∙◌, ap, true, false, Option, none, some, List, [], ◌∷◌,
  ◌++◌, map, take, drop, arith,
}
use mathlib.Core.List.{append_assoc, append-nil}
use mur_mesh.Exec.{ok}
use mur_mesh.Model.Simulate as Simulate
use mur_mesh.Model.Simulate.{NetworkState}
use mur_mesh.Net.{IndexNet, is_excepted, send_from, send_all}

-- The addresses but the excepted one.
abbrev pub others : {A : Type 0} → Option ℕ → List A → List A
others none addrs = addrs
others (some i) addrs = take i addrs ++ drop (suc i) addrs

module _ {A M : Type 0} where
  -- What is sent: the message to each of the addresses, in order.
  abbrev pub and_sent : List A → M → IndexNet A (NetworkState A M) → IndexNet A (NetworkState A M)
  and_sent addrs m n = record n {
    inner = record { messages = n.inner.messages ++ map (λ a. (a, m)) addrs };
  }

  and_sent-cons :
      (a : A) (xs : List A) (m : M) (n : IndexNet A (NetworkState A M))
      → and_sent xs m (and_sent (a ∷ []) m n) ≡ and_sent (a ∷ xs) m n
  and_sent-cons a xs m n =
      ap
        (λ l.
          let x : IndexNet A (NetworkState A M) = record n { inner = record { messages = l } } in x)
        (append_assoc n.inner.messages ((a, m) ∷ []) (map (λ b. (b, m)) xs))

  and_sent-nil : (m : M) (n : IndexNet A (NetworkState A M)) → n ≡ and_sent [] m n
  and_sent-nil m n =
      ap
        (λ l.
          let x : IndexNet A (NetworkState A M) = record n { inner = record { messages = l } } in x)
        (sym (append-nil n.inner.messages))

  -- No index from here on is excepted.
  send_from-each :
      (k : ℕ) (xs : List A) (m : M) (n : IndexNet A (NetworkState A M))
      → ((j : ℕ) → is_excepted (k + j) n.all_except ≡ false)
      → send_from Simulate.send k xs m n ≡ (ok tt, and_sent xs m n)
  unfolding send_from Simulate.send
  send_from-each k [] m n h = ap (λ x. (ok tt, x)) (and_sent-nil m n)
  send_from-each k (a ∷ xs) m n h =
      let e : is_excepted k n.all_except ≡ false =
        subst (λ i. is_excepted i n.all_except ≡ false) (omega arith) (h 0) in
      rw (send_from, e)
        (send_from-each (suc k) xs m (and_sent (a ∷ []) m n)
            (λ j. subst (λ i. is_excepted i n.all_except ≡ false) (omega arith) (h (suc j)))
          ∙ ap (λ x. (ok tt, x)) (and_sent-cons a xs m n))

  -- The excepted index is still to come.
  send_from-others :
      (k j : ℕ) (xs : List A) (m : M) (n : IndexNet A (NetworkState A M))
      → n.all_except ≡ some (k + j)
      → send_from Simulate.send k xs m n ≡ (ok tt, and_sent (others (some j) xs) m n)
  unfolding send_from Simulate.send
  send_from-others k zero [] m n e = ap (λ x. (ok tt, x)) (and_sent-nil m n)
  send_from-others k (suc j) [] m n e = ap (λ x. (ok tt, x)) (and_sent-nil m n)
  send_from-others k zero (a ∷ xs) m n e =
      let here : is_excepted k n.all_except ≡ true = rw e (ground arith) in
      rw (send_from, here) (send_from-each (suc k) xs m n (λ i. rw e (ground arith)))
  send_from-others k (suc j) (a ∷ xs) m n e =
      let here : is_excepted k n.all_except ≡ false = rw e (ground arith) in
      rw (send_from, here)
        (send_from-others (suc k) j xs m (and_sent (a ∷ []) m n) (e ∙ ap some (omega arith))
          ∙ ap (λ x. (ok tt, x)) (and_sent-cons a (others (some j) xs) m n))

  -- A message to `All` over the network of a simulation: no error is returned, and it is sent once to each
  -- address, in order, but to the one at the index that is excepted, if there is one.
  pub send_all-others :
      (m : M) (n : IndexNet A (NetworkState A M))
      → send_all Simulate.send m n ≡ (ok tt, and_sent (others n.all_except n.addrs) m n)
  unfolding send_all
  send_all-others m n = go n.all_except refl
    where
      go :
          (o : Option ℕ)
          → n.all_except ≡ o
          → send_from Simulate.send 0 n.addrs m n ≡ (ok tt, and_sent (others o n.addrs) m n)
      go none e = send_from-each 0 n.addrs m n (λ j. rw e refl)
      go (some i) e = send_from-others 0 i n.addrs m n (e ∙ ap some (omega arith))
