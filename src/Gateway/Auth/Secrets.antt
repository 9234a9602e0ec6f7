-- ===== src/Gateway/Auth/Secrets.antt =====
-- The comparison of two secrets without an early exit is the comparison of their digests.
use Prim.Native.Nat.{bit_or, bit_xor, bit_or-bitwise, bit_xor-bitwise, digits, differ, max}
use agentpay.Prelude.{
  ℕ, zero, suc, ◌/◌, ◌%◌, ◌≤◌, ◌≡◌, ◌↔◌, refl, sym, ap, ◌∙◌, true, List, [], ◌∷◌, arith, length,
  ==_iff,
}
use agentpay.Prelude.Bytes.{Bytes}
use agentpay.Gateway.Auth.{difference, secret_eq}

differ-zero : (x y : ℕ) → differ x y ≡ 0 → x ≡ y
differ-zero zero y h = sym h
differ-zero (suc x) zero h = absurd (omega arith)
differ-zero (suc x) (suc y) h = ap suc (differ-zero x y h)

differ_refl : (x : ℕ) → differ x x ≡ 0
differ_refl zero = refl
differ_refl (suc x) = differ_refl x

xor_digits-zero : (n a b : ℕ) → a ≤ n → digits (λ b. b) differ n a b ≡ 0 → a ≡ b
xor_digits-zero zero zero b l h = sym h
xor_digits-zero zero (suc a) b l h = absurd (omega arith)
xor_digits-zero (suc n) zero b l h = sym h
xor_digits-zero (suc n) (suc a) b l h = omega (
  arith,
  xor_digits-zero n (suc a / 2) (b / 2) (omega arith) (omega (arith, h)),
  differ-zero (suc a % 2) (b % 2) (omega (arith, h)),
)

xor_digits_refl : (n a : ℕ) → a ≤ n → digits (λ b. b) differ n a a ≡ 0
xor_digits_refl zero zero l = refl
xor_digits_refl zero (suc a) l = absurd (omega arith)
xor_digits_refl (suc n) zero l = refl
xor_digits_refl (suc n) (suc a) l =
    omega (arith, xor_digits_refl n (suc a / 2) (omega arith), differ_refl (suc a % 2))

or_digits-zero : (n a b : ℕ) → a ≤ n → digits (λ b. b) max n a b ≡ 0 → (a ≡ 0) × (b ≡ 0)
or_digits-zero zero zero b l h = (refl, h)
or_digits-zero zero (suc a) b l h = absurd (omega arith)
or_digits-zero (suc n) zero b l h = (refl, h)
or_digits-zero (suc n) (suc a) b l h =
    let (p, q) = or_digits-zero n (suc a / 2) (b / 2) (omega arith) (omega (arith, h)) in
    (omega (arith, h), omega (arith, h, q))

bit_xor-zero : (a b : ℕ) → bit_xor a b ≡ 0 → a ≡ b
bit_xor-zero a b h = xor_digits-zero a a b (omega arith) (sym (bit_xor-bitwise a b) ∙ h)

bit_xor_refl : (a : ℕ) → bit_xor a a ≡ 0
bit_xor_refl a = bit_xor-bitwise a a ∙ xor_digits_refl a a (omega arith)

bit_or-zero : (a b : ℕ) → bit_or a b ≡ 0 → (a ≡ 0) × (b ≡ 0)
bit_or-zero a b h = or_digits-zero a a b (omega arith) (sym (bit_or-bitwise a b) ∙ h)

difference-zero :
    (xs ys : List ℕ) (d : ℕ) → length xs ≡ length ys → difference xs ys d ≡ 0 → (d ≡ 0) × (xs ≡ ys)
unfolding difference
difference-zero [] [] d e h = (h, refl)
difference-zero [] (y ∷ ys) d e h = absurd (omega arith)
difference-zero (x ∷ xs) [] d e h = absurd (omega arith)
difference-zero (x ∷ xs) (y ∷ ys) d e h =
    let (z, same) = difference-zero xs ys (bit_or d (bit_xor x y)) (omega arith) h in
    let (d_is, x_is) = bit_or-zero d (bit_xor x y) z in
    (d_is, rw (bit_xor-zero x y x_is, same) refl)

difference_refl : (xs : List ℕ) → difference xs xs 0 ≡ 0
unfolding difference
difference_refl [] = refl
difference_refl (x ∷ xs) = rw (bit_xor_refl x) (difference_refl xs)

-- If digests have one length, the comparison holds exactly if the digests are equal.
pub secret_eq_iff :
    (digest : Bytes → List ℕ) (shown expected : Bytes)
    → ((s : Bytes) → length (digest s) ≡ 32)
    → (secret_eq digest shown expected ≡ true) ↔ (digest shown ≡ digest expected)
unfolding secret_eq
secret_eq_iff digest shown expected sized = (
  λ h.
      (difference-zero (digest shown) (digest expected) 0 (sized shown ∙ sym (sized expected))
        ((==_iff (difference (digest shown) (digest expected) 0) 0).0 h)).1,
  λ e. rw e (
      (==_iff (difference (digest expected) (digest expected) 0) 0).1
        (difference_refl (digest expected))),
)
