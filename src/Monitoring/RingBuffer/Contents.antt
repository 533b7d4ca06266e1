-- ===== src/Monitoring/RingBuffer/Contents.antt =====
-- What `GetAll` of monitoring/metrics.go replies after calls of `Add`.
use native.Mathlib.Nat.{mod-eq_of_lt, add-zero}
use distributed_caching_syst.Prelude.{
  ℕ, suc, ◌+◌, ◌%◌, ◌<◌, ◌≡◌, refl, sym, ◌∙◌, List, [], ◌∷◌, length, ==_iff, arith,
}
use distributed_caching_syst.Monitoring.RingBuffer.{
  RingBuffer, new_ring_buffer, add, add_all, get_all,
}

module _ {A : Type 0} where
  -- Before the first wrap: tail and head are the number of the samples.
  record IsLevel (n : ℕ) (rb : RingBuffer A) : Type 0 where
    at_head : rb.head ≡ n
    at_tail : rb.tail ≡ n

  add-size : (x : A) (rb : RingBuffer A) → (add x rb).size ≡ rb.size
  unfolding add
  add-size x rb = refl

  add-IsLevel :
      (n : ℕ) (x : A) (rb : RingBuffer A)
      → IsLevel n rb
      → suc n < rb.size
      → IsLevel (suc n) (add x rb)
  unfolding add
  add-IsLevel n x rb level room =
      let next : (rb.head + 1) % rb.size ≡ suc n =
        mod-eq_of_lt (omega (arith, level.at_head)) ∙ omega (arith, level.at_head) in
      record { at_head = next; at_tail = rw next (ground (arith, level.at_tail)) }

  add_all-IsLevel :
      (xs : List A) (n : ℕ) (rb : RingBuffer A)
      → IsLevel n rb
      → n + length xs < rb.size
      → IsLevel (n + length xs) (add_all xs rb)
  add_all-IsLevel [] n rb level room = rw add-zero level
  add_all-IsLevel (x ∷ xs) n rb level room = rw (← shifted) (
      add_all-IsLevel xs (suc n) (add x rb) (add-IsLevel n x rb level (omega arith))
        (rw (add-size x rb) (omega arith)))
    where
      shifted : suc n + length xs ≡ n + suc (length xs)
      shifted = omega arith

  -- After fewer calls of `Add` on a new buffer than it has places, `GetAll` replies no sample at
  -- all.
  pub get_all-filling :
      (blank : A) (size : ℕ) (xs : List A)
      → length xs < size
      → get_all (add_all xs (new_ring_buffer blank size)) ≡ []
  get_all-filling blank size xs room =
      let level =
        add_all-IsLevel xs 0 (new_ring_buffer blank size)
          (record { at_head = refl; at_tail = refl }) (omega arith) in
      empty (add_all xs (new_ring_buffer blank size)) (level.at_head ∙ sym level.at_tail)
    where
      empty : (rb : RingBuffer A) → rb.head ≡ rb.tail → get_all rb ≡ []
      empty rb same = unfold get_all in ground (arith, ==_iff rb.head rb.tail)
