-- ===== src/CacheManager/L1Cache/Rows.antt =====
-- What the cache of cache-manager/cache.go holds, with the handles gone: the rows of the recency list,
-- front to back.
use distributed_caching_syst.Prelude.{
  nat_eq, ℕ, ◌≡◌, refl, false, none, some, List, [], ◌∷◌, arith, inl, inr, ==_iff, length, All,
  Bool-cases, ◌==◌,
}
use distributed_caching_syst.Prelude.Int.{ℤ}
use distributed_caching_syst.GoMap.{lookup, delete, Distinct}
use distributed_caching_syst.GoString.{Bytes, bytes_key, bytes_eq, bytes_eq_iff}
use distributed_caching_syst.CacheManager.L1Cache.{LruEntry, back}
use distributed_caching_syst.CacheManager.L1Cache.Links.{PointsBack}

-- The value of a key and the instant at which it expires.
abbrev pub Row : Type 0
Row = Bytes × ℤ

abbrev pub row : LruEntry → Row
row entry = (entry.value, entry.expires_at)

unfoldable pub rows : List (Bytes × LruEntry) → List (ℕ × Bytes) → List (Bytes × Row)
rows m [] = []
rows m ((i, k) ∷ l) = elim (lookup k m) [ none ↦ rows m l | some entry ↦ (k, row entry) ∷ rows m l ]

abbrev pub Links : List (Bytes × LruEntry) → List (ℕ × Bytes) → Type 0
Links m = All (λ x. PointsBack m x.0 x.1)

-- Reading the same, the same rows.
rows_ext :
    (m m' : List (Bytes × LruEntry)) (l : List (ℕ × Bytes))
    → All (λ x. lookup x.1 m' ≡ lookup x.1 m) l
    → rows m' l ≡ rows m l
unfolding rows
rows_ext m m' [] h = refl
rows_ext m m' ((i, k) ∷ l) h = ground (arith, h.0, rows_ext m m' l h.1)

-- Two maps that differ at one key only.
module _ (m m' : List (Bytes × LruEntry)) (key : Bytes)
    (agree : (k : Bytes) → bytes_eq key k ≡ false → lookup k m' ≡ lookup k m) where
  pub rows_absent : (l : List (ℕ × Bytes)) → lookup key m ≡ none → Links m l → rows m' l ≡ rows m l
  unfolding rows
  rows_absent [] absent h = refl
  rows_absent ((i, k) ∷ l) absent h =
      let (other, p, pe) = h.0 in
      let elsewhere : bytes_eq key k ≡ false = ground (arith, bytes_eq_iff key k) in
      ground (arith, agree k elsewhere, rows_absent l absent h.1)

  module _ (entry : LruEntry) (found : lookup key m ≡ some entry) where
    rows_unlinked :
        (l : List (ℕ × Bytes)) → lookup entry.element l ≡ none → Links m l → rows m' l ≡ rows m l
    unfolding rows lookup
    rows_unlinked [] out h = refl
    rows_unlinked ((i, k) ∷ l) out h =
        let (other, p, pe) = h.0 in
        let elsewhere : bytes_eq key k ≡ false =
          ground (arith, bytes_eq_iff key k, ==_iff i entry.element) in
        ground (arith, agree k elsewhere, rows_unlinked l (ground arith) h.1)

    pub rows_unlink :
        (l : List (ℕ × Bytes))
        → Distinct l
        → lookup entry.element l ≡ some key
        → Links m l
        → rows m' (delete entry.element l) ≡ delete key (rows m l)
    unfolding rows lookup delete
    rows_unlink [] d q h = refl
    rows_unlink ((i, k) ∷ l) d q h =
        let (other, p, pe) = h.0 in
        elim (Bool-cases (i == entry.element)) [
          | inl here ↦ ground (
            arith,
            ==_iff i entry.element,
            bytes_eq_iff k key,
            rows_unlinked l (ground (arith, ==_iff i entry.element, d.0)) h.1,
          )
          | inr there ↦
              let elsewhere : bytes_eq key k ≡ false =
                ground (arith, bytes_eq_iff key k, ==_iff i entry.element) in
              ground (
                arith,
                agree k elsewhere,
                bytes_eq_iff k key,
                bytes_eq_iff key k,
                rows_unlink l d.1 (ground arith) h.1,
              )
        ]

module _ (m : List (Bytes × LruEntry)) where
  pub length-rows : (l : List (ℕ × Bytes)) → Links m l → length (rows m l) ≡ length l
  unfolding rows
  length-rows [] h = refl
  length-rows ((i, k) ∷ l) h = let (other, p, pe) = h.0 in ground (arith, length-rows l h.1)

  pub lookup-rows-none :
      (key : Bytes) (l : List (ℕ × Bytes)) → lookup key m ≡ none → lookup key (rows m l) ≡ none
  unfolding rows lookup
  lookup-rows-none key [] q = refl
  lookup-rows-none key ((i, k) ∷ l) q = ground (arith, bytes_eq_iff k key, lookup-rows-none key l q)

  module _ (key : Bytes) (entry : LruEntry) (found : lookup key m ≡ some entry) where
    lookup-rows_unlinked :
        (l : List (ℕ × Bytes))
        → lookup entry.element l ≡ none
        → Links m l
        → lookup key (rows m l) ≡ none
    unfolding rows lookup
    lookup-rows_unlinked [] q h = refl
    lookup-rows_unlinked ((i, k) ∷ l) q h =
        let (other, p, pe) = h.0 in
        ground (
          arith,
          bytes_eq_iff k key,
          ==_iff i entry.element,
          lookup-rows_unlinked l (ground arith) h.1,
        )

    pub lookup-rows-some :
        (l : List (ℕ × Bytes))
        → lookup entry.element l ≡ some key
        → Links m l
        → lookup key (rows m l) ≡ some (row entry)
    unfolding rows lookup
    lookup-rows-some [] q h = absurd (ground arith)
    lookup-rows-some ((i, k) ∷ l) q h =
        let (other, p, pe) = h.0 in
        elim (Bool-cases (i == entry.element)) [
          | inl here ↦ ground (arith, bytes_eq_iff k key, ==_iff i entry.element)
          | inr there ↦ ground (
            arith,
            bytes_eq_iff k key,
            ==_iff i entry.element,
            lookup-rows-some l (ground arith) h.1,
          )
        ]

  pub rows-cons :
      (i : ℕ) (k : Bytes) (entry : LruEntry) (l : List (ℕ × Bytes))
      → lookup k m ≡ some entry
      → rows m ((i, k) ∷ l) ≡ (k, row entry) ∷ rows m l
  unfolding rows
  rows-cons i k entry l p = ground arith

  pub rows-Distinct : (l : List (ℕ × Bytes)) → Distinct l → Links m l → Distinct (rows m l)
  rows-Distinct [] d h = unfold rows in tt
  rows-Distinct ((i, k) ∷ l) d h =
      let (other, p, pe) = h.0 in
      rw (rows-cons i k other l p)
        (lookup-rows_unlinked k other p l (rw pe d.0) h.1, rows-Distinct l d.1 h.1)

  -- The back of the recency list is the back of the rows.
  pub back-rows :
      (l : List (ℕ × Bytes)) (x : ℕ × Bytes)
      → Links m l
      → back l ≡ some x
      → (r : Row) × (back (rows m l) ≡ some (x.1, r))
  unfolding rows back
  back-rows [] x h q = absurd (ground arith)
  back-rows (y ∷ []) x h q = let (other, p, pe) = h.0 in (row other, ground arith)
  back-rows (y ∷ z ∷ l) x h q =
      let (other, p, pe) = h.0 in
      let (second, p', pe') = h.1.0 in let (r, e) = back-rows (z ∷ l) x h.1 q in (r, ground arith)
