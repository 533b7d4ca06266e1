-- ===== src/CacheManager/Coalescer/SingleFlight.antt =====
-- Which goroutines of cache-manager/singleflight.go run the function of a key, and how often.
use distributed_caching_syst.Prelude.{
  nat_eq, ℕ, suc, ◌≡◌, ◌⊎◌, refl, sym, ◌∙◌, Bool, true, false, Option, none, some, [], ◌==◌, ==_iff,
  arith, inl, inr, Bool-cases,
}
use distributed_caching_syst.GoMap.{
  lookup, insert, delete, Distinct, lookup-insert, lookup-delete, insert-Distinct, delete-Distinct,
}
use distributed_caching_syst.GoString.{Bytes, bytes_eq, bytes_eq_iff, bytes_key}
use distributed_caching_syst.CacheManager.Coalescer.{
  Phase, idle, running, ran, released, waiting, returned, Machine, goto, Step, join, lead, run,
  release, finish, wake, forget, new_request_coalescer,
}

-- The goroutine holds the entry of the key: it runs the function or has not yet deleted the entry.
abbrev pub leads : {R : Type 0} → Phase R → Bytes → Bool
leads idle key = false
leads (running k id) key = bytes_eq k key
leads (ran k id r) key = bytes_eq k key
leads (released id r) key = false
leads (waiting id) key = false
leads (returned r) key = false

abbrev pub held : Option ℕ → Bool
held none = false
held (some _) = true

-- Every leader has its entry, and no key has two leaders.
pub record IsSingle {R : Type 0} (s : Machine R) : Type 0 where
  pub distinct : Distinct s.calls
  pub entry :
      (i : ℕ) (key : Bytes) → leads (s.threads i) key ≡ true → held (lookup key s.calls) ≡ true
  pub single :
      (i j : ℕ) (key : Bytes)
      → leads (s.threads i) key ≡ true
      → leads (s.threads j) key ≡ true
      → i ≡ j

pub data Reach {R : Type 0} (s : Machine R) : Machine R → Type 0 where
  here : Reach s s
  next : {t u : Machine R} → Reach s t → Step t u → Reach s u

module _ {R : Type 0} where
  -- A phase that leads no key but those of the goroutine before adds no leader.
  kept :
      (i a : ℕ) (p : Phase R) (threads : ℕ → Phase R) (key : Bytes)
      → (leads p key ≡ true → leads (threads i) key ≡ true)
      → leads (goto i p threads a) key ≡ true
      → leads (threads a) key ≡ true
  kept i a p threads key h on = elim (Bool-cases (i == a)) [
    | inl same ↦ rw (← (==_iff i a).0 same) (h (rw same at on))
    | inr other ↦ rw other at on
  ]

  calm :
      {s : Machine R} (i : ℕ) (p : Phase R) (outcome : ℕ → Option R)
      → IsSingle s
      → ((key : Bytes) → leads p key ≡ true → leads (s.threads i) key ≡ true)
      → IsSingle (record s { outcome = outcome; threads = goto i p s.threads })
  calm {s} i p outcome h no_more = record {
    distinct = h.distinct;
    entry = λ a key on. h.entry a key (kept i a p s.threads key (no_more key) on);
    single = λ a b key on on'.
        h.single a b key (kept i a p s.threads key (no_more key) on)
          (kept i b p s.threads key (no_more key) on');
  }

  lead_or :
      (i a n : ℕ) (key k : Bytes) (threads : ℕ → Phase R)
      → leads (goto i (running key n) threads a) k ≡ true
      → ((i ≡ a) × (bytes_eq key k ≡ true)) ⊎ (leads (threads a) k ≡ true)
  lead_or i a n key k threads on = elim (Bool-cases (i == a)) [
    | inl same ↦ inl ((==_iff i a).0 same, rw same at on)
    | inr other ↦ inr (rw other at on)
  ]

  -- The steps that change the map: a leader without an entry before it, and one whose entry goes.
  lead-IsSingle :
      {s : Machine R} (i : ℕ) (key : Bytes)
      → lookup key s.calls ≡ none
      → IsSingle s
      → IsSingle (record s {
        calls = insert key s.next_call s.calls;
        next_call = suc s.next_call;
        threads = goto i (running key s.next_call) s.threads;
      })
  lead-IsSingle {s} i key free h = record {
    distinct = insert-Distinct key s.next_call s.calls h.distinct;
    entry = λ a k on. elim (lead_or i a s.next_call key k s.threads on) [
      | inl (_, same) ↦ ground (arith, lookup-insert key k s.next_call s.calls)
      | inr before ↦ ground (arith, lookup-insert key k s.next_call s.calls, h.entry a k before)
    ];
    single = λ a b k on on'. elim (lead_or i a s.next_call key k s.threads on) [
      | inl (p, same) ↦ elim (lead_or i b s.next_call key k s.threads on') [
        | inl (q, _) ↦ sym p ∙ q
        | inr before ↦ absurd (nobody b k same before)
      ]
      | inr before ↦ elim (lead_or i b s.next_call key k s.threads on') [
        | inl (_, same) ↦ absurd (nobody a k same before)
        | inr before' ↦ h.single a b k before before'
      ]
    ];
  }
    where
      nobody : (b : ℕ) (k : Bytes) → bytes_eq key k ≡ true → leads (s.threads b) k ≡ true → ⊥
      nobody b k same on = ground (arith, bytes_eq_iff key k, h.entry b k on)

  release-IsSingle :
      {s : Machine R} (i id : ℕ) (key : Bytes) (r : R)
      → s.threads i ≡ ran key id r
      → IsSingle s
      → IsSingle
          (record s { calls = delete key s.calls; threads = goto i (released id r) s.threads })
  release-IsSingle {s} i id key r at h = record {
    distinct = delete-Distinct key s.calls h.distinct;
    entry = λ a k on. elim (Bool-cases (i == a)) [
      | inl same ↦ absurd (off a k same on)
      | inr other ↦ elim (Bool-cases (bytes_eq key k)) [
        | inl mine ↦ absurd (taken a k other mine (rw other at on))
        | inr apart ↦
            ground (arith, lookup-delete key k s.calls h.distinct, h.entry a k (rw other at on))
      ]
    ];
    single = λ a b k on on'.
        h.single a b k (kept i a (released id r) s.threads k (λ bad. absurd (ground arith)) on)
          (kept i b (released id r) s.threads k (λ bad. absurd (ground arith)) on');
  }
    where
      off :
          (a : ℕ) (k : Bytes)
          → (i == a) ≡ true
          → leads (goto i (released id r) s.threads a) k ≡ true
          → ⊥
      off a k same on = let bad : false ≡ true = rw same at on in ground arith

      taken :
          (a : ℕ) (k : Bytes)
          → (i == a) ≡ false
          → bytes_eq key k ≡ true
          → leads (s.threads a) k ≡ true
          → ⊥
      taken a k other mine on =
          let same : i ≡ a = h.single i a k (rw at mine) on in ground (arith, ==_iff i a)

  Step-IsSingle : {s t : Machine R} → Step s t → IsSingle s → IsSingle t
  Step-IsSingle (join s i key id at found) h =
      calm i (waiting id) s.outcome h (λ k bad. absurd (ground arith))
  Step-IsSingle (run s i key id r at) h = calm i (ran key id r) s.outcome h (λ k on. rw at on)
  Step-IsSingle (finish s i id r at) h = calm i (returned r) _ h (λ k bad. absurd (ground arith))
  Step-IsSingle (wake s i id r at done) h =
      calm i (returned r) s.outcome h (λ k bad. absurd (ground arith))
  Step-IsSingle (lead s i key at free) h = lead-IsSingle i key free h
  Step-IsSingle (release s i key id r at) h = release-IsSingle i id key r at h

  -- Without `Forget` and `Clear`, however the goroutines interleave: from a machine in which every leader has its
  -- entry and no key has two leaders, only such machines are reached; so one call at most is in flight for a key.
  pub Reach-IsSingle : {s t : Machine R} → IsSingle s → Reach s t → IsSingle t
  Reach-IsSingle h here = h
  Reach-IsSingle h (next reached step) = Step-IsSingle step (Reach-IsSingle h reached)

  pub new-IsSingle : IsSingle (new_request_coalescer {R = R})
  new-IsSingle = record {
    distinct = tt;
    entry = λ i key bad. absurd (ground arith);
    single = λ i j key bad. absurd (ground arith);
  }

one_entry : (key : Bytes) (id : ℕ) → delete key (insert key id []) ≡ []
unfolding delete insert
one_entry key id = ground (arith, bytes_eq_iff key key)

-- A run of one `Forget` of the key: what comes before it, what follows, the end of the forgotten call, and what follows.
pub record Displaced {R : Type 0} (key : Bytes) (r : R) : Type 0 where
  pub before : Machine R
  pub after : Machine R
  pub ended : Machine R
  pub last : Machine R
  pub led : Reach new_request_coalescer before
  pub only_first : (before.threads 0 ≡ running key 0) × ((j : ℕ) → before.threads (suc j) ≡ idle)
  pub forgotten : Reach (forget key before) after
  pub forgotten_ran : after.threads 0 ≡ ran key 0 r
  pub second_runs : (after.threads 1 ≡ running key 1) × (lookup key after.calls ≡ some 1)
  pub ending : Step after ended
  pub forgotten_ended : ended.threads 0 ≡ released 0 r
  pub deleted : lookup key ended.calls ≡ none
  pub later : Reach ended last
  pub both_run : (last.threads 1 ≡ running key 1) × (last.threads 2 ≡ running key 2)

module _ {R : Type 0} where
  -- `Do` deletes by key: a run with one `Forget` exists in which the forgotten call has run its
  -- function while a second call of the key runs and holds its entry, the end of the forgotten
  -- call deletes that entry, and then a third goroutine runs the function of the key while the
  -- second still does.
  pub forget_deletes_twice : (key : Bytes) (r : R) → Displaced key r
  unfolding forget
  forget_deletes_twice key r = record {
    before = led.0;
    after = second.0;
    ended = ended.0;
    last = third.0;
    led = led.1;
    only_first = (refl, λ j. ground arith);
    forgotten = second.1;
    forgotten_ran = refl;
    second_runs = (refl, found);
    ending = ended.1;
    forgotten_ended = refl;
    deleted = rw (one_entry key 0, one_entry key 1) absent;
    later = third.1;
    both_run = (refl, refl);
  }
    where
      absent : lookup {V = ℕ} key [] ≡ none
      absent = unfold lookup in refl

      led : (s : Machine R) × Reach new_request_coalescer s
      led = (_, next here (lead _ 0 key refl absent))

      second : (s : Machine R) × Reach (forget key led.0) s
      second = (
        _,
        next (next here (lead _ 1 key refl (rw (one_entry key 0) absent))) (run _ 0 key 0 r refl),
      )

      found : lookup key second.0.calls ≡ some 1
      found = ground (
        arith,
        lookup-insert {V = ℕ} key key 1 (delete key (insert key 0 [])),
        bytes_eq_iff key key,
      )

      ended : (s : Machine R) × Step second.0 s
      ended = (_, release _ 0 key 0 r refl)

      third : (s : Machine R) × Reach ended.0 s
      third = (_, next here (lead _ 2 key refl (rw (one_entry key 0, one_entry key 1) absent)))
