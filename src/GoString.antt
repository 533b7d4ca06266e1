-- ===== src/GoString.antt =====
-- Go strings as lists of bytes, with the functions of package strings that the program calls:
-- `==`, `HasPrefix`, `HasSuffix`, `Contains`, `TrimSuffix`, `TrimPrefix`, `Trim`.
use Prim.Native.Char.{code}
use Prim.Native.String.{String}
use distributed_caching_syst.Prelude.{
  ℕ, ◌-◌, ◌≡◌, ◌↔◌, Bool, true, false, ◌&&◌, ◌||◌, List, [], ◌∷◌, arith, Eq, if◌then◌else◌, length,
  ◌==◌, ==_iff, take, drop, leb,
}

abbrev pub Bytes : Type 0
Bytes = List ℕ

-- The code points of a literal, which are its bytes where it is ASCII.
abbrev pub codes : String → Bytes
codes String.[] = []
codes (String.◌∷◌ c s) = code c ∷ codes s

abbrev pub bytes_eq : Bytes → Bytes → Bool
bytes_eq [] [] = true
bytes_eq [] (_ ∷ _) = false
bytes_eq (_ ∷ _) [] = false
bytes_eq (a ∷ s) (b ∷ t) = (a == b) && bytes_eq s t

pub bytes_eq_iff : (s t : Bytes) → (bytes_eq s t ≡ true) ↔ (s ≡ t)
bytes_eq_iff [] [] = ground arith
bytes_eq_iff [] (_ ∷ _) = ground arith
bytes_eq_iff (_ ∷ _) [] = ground arith
bytes_eq_iff (a ∷ s) (b ∷ t) = ground (arith, ==_iff a b, bytes_eq_iff s t)

instance abbrev pub bytes_key : Eq Bytes
bytes_key = record { beq = bytes_eq; beq_iff = bytes_eq_iff }

-- `strings.HasPrefix(s, p)`, with the prefix first
unfoldable pub has_prefix : Bytes → Bytes → Bool
has_prefix [] s = true
has_prefix (a ∷ p) [] = false
has_prefix (a ∷ p) (b ∷ s) = (a == b) && has_prefix p s

-- `strings.Contains(s, p)`, with the part first
unfoldable pub contains : Bytes → Bytes → Bool
unfolding has_prefix
contains p [] = has_prefix p []
contains p (b ∷ s) = has_prefix p (b ∷ s) || contains p s

-- `strings.HasSuffix(s, p)`: the last `len(p)` bytes of a text that is long enough
unfoldable pub has_suffix : Bytes → Bytes → Bool
has_suffix p s = leb (length p) (length s) && bytes_eq (drop (length s - length p) s) p

-- `strings.TrimSuffix(s, p)`
unfoldable pub trim_suffix : Bytes → Bytes → Bytes
unfolding has_suffix
trim_suffix p s = if has_suffix p s then take (length s - length p) s else s

-- `strings.TrimPrefix(s, p)`
unfoldable pub trim_prefix : Bytes → Bytes → Bytes
unfolding has_prefix
trim_prefix p s = if has_prefix p s then drop (length p) s else s

trim_left : ℕ → Bytes → Bytes
trim_left c [] = []
trim_left c (b ∷ s) = if b == c then trim_left c s else b ∷ s

trim_right : ℕ → Bytes → Bytes
trim_right c [] = []
trim_right c (b ∷ s) = elim (trim_right c s) [
  | [] ↦ if b == c then [] else b ∷ []
  | a ∷ rest ↦ b ∷ a ∷ rest
]

-- `strings.Trim(s, cutset)` for a cutset of one byte
unfoldable pub trim : ℕ → Bytes → Bytes
unfolding trim_left trim_right
trim c s = trim_right c (trim_left c s)
