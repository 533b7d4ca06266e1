-- ===== src/CacheManager/Coalescer.antt =====
-- cache-manager/singleflight.go as a step relation: any number of goroutines inside `Do`, each step a part
-- of it that the lock makes atomic or that touches nothing shared, interleaved with `Forget` and `Clear`.
pub mod SingleFlight
use distributed_caching_syst.Prelude.{
  ℕ, suc, ◌≡◌, Bool, true, false, Option, none, some, List, [], ◌∷◌, if◌then◌else◌, ◌==◌, length,
}
use distributed_caching_syst.GoMap.{lookup, insert, delete}
use distributed_caching_syst.GoString.{Bytes, bytes_eq, bytes_key}

-- Where a goroutine stands in `Do`. It is idle, it runs the function for a key, it has the outcome and still its
-- entry, it has deleted the entry, it waits for a call, or it has returned.
pub data Phase (R : Type 0) : Type 0 where
  idle : Phase R
  running : Bytes → ℕ → Phase R
  ran : Bytes → ℕ → R → Phase R
  released : ℕ → R → Phase R
  waiting : ℕ → Phase R
  returned : R → Phase R

-- `calls` is the map, from keys to the identities of call objects; `outcome` is what a call holds once its wait
-- group is done; `next_call` is an identity that is not yet used.
pub record Machine (R : Type 0) : Type 0 where
  pub calls : List (Bytes × ℕ)
  pub outcome : ℕ → Option R
  pub next_call : ℕ
  pub threads : ℕ → Phase R

abbrev pub goto : {R : Type 0} → ℕ → Phase R → (ℕ → Phase R) → ℕ → Phase R
goto i p threads j = if i == j then p else threads j

-- A step of `Do`; `forget` and `clear` are the other two calls.
pub data Step {R : Type 0} : Machine R → Machine R → Type 0 where
  join :
      (s : Machine R) (i : ℕ) (key : Bytes) (id : ℕ)
      → s.threads i ≡ idle
      → lookup key s.calls ≡ some id
      → Step s (record s { threads = goto i (waiting id) s.threads })
  lead :
      (s : Machine R) (i : ℕ) (key : Bytes)
      → s.threads i ≡ idle
      → lookup key s.calls ≡ none
      → Step s (record s {
        calls = insert key s.next_call s.calls;
        next_call = suc s.next_call;
        threads = goto i (running key s.next_call) s.threads;
      })
  run :
      (s : Machine R) (i : ℕ) (key : Bytes) (id : ℕ) (r : R)
      → s.threads i ≡ running key id
      → Step s (record s { threads = goto i (ran key id r) s.threads })
  release :
      (s : Machine R) (i : ℕ) (key : Bytes) (id : ℕ) (r : R)
      → s.threads i ≡ ran key id r
      → Step s (record s { calls = delete key s.calls; threads = goto i (released id r) s.threads })
  finish :
      (s : Machine R) (i id : ℕ) (r : R)
      → s.threads i ≡ released id r
      → Step s (record s {
        outcome = λ j. if id == j then some r else s.outcome j;
        threads = goto i (returned r) s.threads;
      })
  wake :
      (s : Machine R) (i id : ℕ) (r : R)
      → s.threads i ≡ waiting id
      → s.outcome id ≡ some r
      → Step s (record s { threads = goto i (returned r) s.threads })

unfoldable pub forget : {R : Type 0} → Bytes → Machine R → Machine R
forget key s = record s { calls = delete key s.calls }

unfoldable pub clear : {R : Type 0} → Machine R → Machine R
clear s = record s { calls = [] }

abbrev pub new_request_coalescer : {R : Type 0} → Machine R
new_request_coalescer = record {
  calls = [];
  outcome = λ _. none;
  next_call = 0;
  threads = λ _. idle;
}

unfoldable pub in_flight : {R : Type 0} → Machine R → ℕ
in_flight s = length s.calls
