-- ===== src/Monitoring/RingBuffer.antt =====
-- The ring buffer of monitoring/metrics.go for calls that do not overlap. A size of zero, on which the
-- remainder panics, is left out by the results; a sample is whatever a place can hold.
pub mod Contents
use distributed_caching_syst.Prelude.{
  ℕ, zero, suc, ◌+◌, ◌-◌, ◌%◌, Option, none, some, List, [], ◌∷◌, if◌then◌else◌, ltb, ◌==◌,
  get_elem?,
}

pub record RingBuffer (A : Type 0) : Type 0 where
  pub buffer : List A
  pub head : ℕ
  pub tail : ℕ
  pub size : ℕ

module _ {A : Type 0} where
  abbrev pub places : ℕ → A → List A
  places zero blank = []
  places (suc n) blank = blank ∷ places n blank

  abbrev pub new_ring_buffer : A → ℕ → RingBuffer A
  new_ring_buffer blank size = record {
    buffer = places size blank;
    head = 0;
    tail = 0;
    size = size;
  }

  -- `rb.buffer[i] = x`
  unfoldable pub set_elem : ℕ → A → List A → List A
  set_elem i x [] = []
  set_elem zero x (y ∷ ys) = x ∷ ys
  set_elem (suc i) x (y ∷ ys) = y ∷ set_elem i x ys

  unfoldable pub add : A → RingBuffer A → RingBuffer A
  add x rb =
      let next = (rb.head + 1) % rb.size in
      record rb {
        buffer = set_elem rb.head x rb.buffer;
        head = next;
        tail = if ltb rb.tail next then next else rb.tail;
      }

  -- The loop of `GetAll` from index `i`; it meets the head within as many rounds as there are places.
  unfoldable pub collect : ℕ → ℕ → RingBuffer A → List A
  collect zero i rb = []
  collect (suc fuel) i rb =
      let rest = collect fuel ((i + 1) % rb.size) rb in
      if i == rb.head then [] else elim (get_elem? rb.buffer i) [ none ↦ rest | some x ↦ x ∷ rest ]

  unfoldable pub get_all : RingBuffer A → List A
  get_all rb = if rb.head == rb.tail then [] else collect rb.size rb.tail rb

  abbrev pub add_all : List A → RingBuffer A → RingBuffer A
  add_all [] rb = rb
  add_all (x ∷ xs) rb = add_all xs (add x rb)
