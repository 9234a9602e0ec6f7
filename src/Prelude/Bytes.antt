-- ===== src/Prelude/Bytes.antt =====
-- Bytes. A fixed array of `n` bytes (a Pubkey, a hash, a signature) is the number below `256 ^ n`
-- whose little-endian base-256 digits it holds, so that `le_bytes n` is both `as_ref` and
-- `to_le_bytes`, and `from_le` is both `new_from_array` and `from_le_bytes`.
use Prim.Native.String.{String}
use Prim.Native.Char.{code}
use native.Mathlib.Nat.{pow-suc}
use agentpay.Prelude.{
  ℕ, zero, suc, ◌+◌, ◌-◌, ◌*◌, ◌/◌, ◌%◌, ◌^◌, ◌<◌, ◌≡◌, refl, sym, ap, ◌∙◌, Bool, true, false, ◌&&◌,
  List, [], ◌∷◌, ◌++◌, arith, ltb, if◌then◌else◌, ◌==◌, length, take, drop,
}
use agentpay.Prelude.Int.{ℤ, pos, negsuc}
use agentpay.Prelude.Words.{i64_max, u64_max, IsI64}

abbrev pub Bytes : Type 0
Bytes = List ℕ

-- The code points of a text: its bytes, if it is ASCII.
abbrev pub codes : String → Bytes
codes String.[] = []
codes (String.◌∷◌ c s) = code c ∷ codes s

abbrev pub bytes_eq : Bytes → Bytes → Bool
bytes_eq [] [] = true
bytes_eq [] (y ∷ ys) = false
bytes_eq (x ∷ xs) [] = false
bytes_eq (x ∷ xs) (y ∷ ys) = x == y && bytes_eq xs ys

pub bytes_eq_sound : (xs ys : Bytes) → bytes_eq xs ys ≡ true → xs ≡ ys
bytes_eq_sound [] [] h = refl
bytes_eq_sound [] (y ∷ ys) h = cc
bytes_eq_sound (x ∷ xs) [] h = cc
bytes_eq_sound (x ∷ xs) (y ∷ ys) h = ground (arith, bytes_eq_sound xs ys)

pub bytes_eq_refl : (xs : Bytes) → bytes_eq xs xs ≡ true
bytes_eq_refl [] = refl
bytes_eq_refl (x ∷ xs) = ground (arith, bytes_eq_refl xs)

-- `&data[off..off + len]`, where the source has checked the range
abbrev pub slice : Bytes → ℕ → ℕ → Bytes
slice bs off len = take len (drop off bs)

unfoldable pub le_bytes : ℕ → ℕ → Bytes
le_bytes zero n = []
le_bytes (suc w) n = (n % 256) ∷ le_bytes w (n / 256)

unfoldable pub from_le : Bytes → ℕ
from_le [] = 0
from_le (b ∷ bs) = b + 256 * from_le bs

pub length-le_bytes : (w n : ℕ) → length (le_bytes w n) ≡ w
unfolding le_bytes
length-le_bytes zero n = refl
length-le_bytes (suc w) n = ap suc (length-le_bytes w (n / 256))

pub from_le-le_bytes : (w n : ℕ) → n < 256 ^ w → from_le (le_bytes w n) ≡ n
unfolding le_bytes from_le
from_le-le_bytes zero n h = omega arith
from_le-le_bytes (suc w) n h =
    omega (arith, from_le-le_bytes w (n / 256) (omega (arith, pow-suc 256 w)))

-- Equal little-endian texts of one width spell equal numbers.
pub le_bytes-injective :
    (w a b : ℕ) → a < 256 ^ w → b < 256 ^ w → le_bytes w a ≡ le_bytes w b → a ≡ b
le_bytes-injective w a b ha hb e =
    sym (from_le-le_bytes w a ha) ∙ ap from_le e ∙ from_le-le_bytes w b hb

-- An i64 as the word that `to_le_bytes` writes, and back.
abbrev pub i64_word : ℤ → ℕ
i64_word (pos n) = n
i64_word (negsuc n) = u64_max - n

abbrev pub word_i64 : ℕ → ℤ
word_i64 w = if ltb i64_max w then negsuc (u64_max - w) else pos w

pub word_i64-i64_word : (z : ℤ) → IsI64 z → word_i64 (i64_word z) ≡ z
word_i64-i64_word (pos n) h = ground arith
word_i64-i64_word (negsuc n) h = ground arith

pub i64_word_bound : (z : ℤ) → IsI64 z → i64_word z < 256 ^ 8
i64_word_bound (pos n) h = omega arith
i64_word_bound (negsuc n) h = omega arith

pub i64_word-injective : (a b : ℤ) → IsI64 a → IsI64 b → i64_word a ≡ i64_word b → a ≡ b
i64_word-injective a b ha hb e =
    sym (word_i64-i64_word a ha) ∙ ap word_i64 e ∙ word_i64-i64_word b hb

-- Two pairs of blocks of equal width that join to one text are equal.
pub append-injective :
    (xs xs' ys ys' : Bytes)
    → length xs ≡ length xs'
    → xs ++ ys ≡ xs' ++ ys'
    → (xs ≡ xs') × (ys ≡ ys')
append-injective [] [] ys ys' h e = (refl, e)
append-injective [] (x' ∷ xs') ys ys' h e = absurd (omega arith)
append-injective (x ∷ xs) [] ys ys' h e = absurd (omega arith)
append-injective (x ∷ xs) (x' ∷ xs') ys ys' h e =
    let (p, q) = append-injective xs xs' ys ys' (omega arith) (cc) in (cc, q)
