-- ===== src/Examples/Calls.antt =====
-- The request coalescer on concrete runs.
use distributed_caching_syst.Prelude.{ℕ, refl}
use distributed_caching_syst.GoMap.{lookup}
use distributed_caching_syst.GoString.{codes, bytes_key}
use distributed_caching_syst.CacheManager.Coalescer.{Machine, Step, new_request_coalescer}
use distributed_caching_syst.CacheManager.Coalescer.SingleFlight.{
  IsSingle, Reach, Displaced, Reach-IsSingle, new-IsSingle, forget_deletes_twice,
}

-- One call from beginning to end.
abbrev one_call : (s : Machine ℕ) × Reach new_request_coalescer s
unfolding lookup
one_call = (
  _,
  Reach.next
      (Reach.next
        (Reach.next (Reach.next Reach.here (Step.lead _ 0 (codes "k") refl refl))
          (Step.run _ 0 (codes "k") 0 7 refl))
        (Step.release _ 0 (codes "k") 0 7 refl))
      (Step.finish _ 0 0 7 refl),
)

Reach-IsSingle_example : IsSingle one_call.0
Reach-IsSingle_example = Reach-IsSingle new-IsSingle one_call.1

forget_deletes_twice_example : Displaced {R = ℕ} (codes "k") 7
forget_deletes_twice_example = forget_deletes_twice (codes "k") 7
