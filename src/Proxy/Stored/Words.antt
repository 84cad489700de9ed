-- ===== src/Proxy/Stored/Words.antt =====
-- Big-endian words.
use native.Mathlib.Nat.{pow-suc, div-div-eq-div-mul}
use synctv.Base.{ℕ, zero, suc, ◌+◌, ◌*◌, ◌/◌, ◌%◌, ◌^◌, ◌<◌, length, ◌≡◌, refl, arith, ap, sym, ◌∙◌}
use synctv.Proxy.Stored.{big_endian, word_value}

pub length-big_endian : (k n : ℕ) → length (big_endian k n) ≡ k
unfolding big_endian
length-big_endian zero n = refl
length-big_endian (suc k) n = ap suc (length-big_endian k n)

-- The bytes of a number, after what stands above them.
word_value_from : (k n : ℕ) → word_value (n / 256 ^ k) (big_endian k n) ≡ n
unfolding big_endian word_value
word_value_from zero n = omega arith
word_value_from (suc k) n =
    let up : n / 256 ^ suc k ≡ n / 256 ^ k / 256 =
      ap (λ p. n / p) (pow-suc 256 k) ∙ sym (div-div-eq-div-mul n (256 ^ k) 256) in
    let digit : n / 256 ^ suc k * 256 + n / 256 ^ k % 256 ≡ n / 256 ^ k = omega (arith, up) in
    ap (λ a. word_value a (big_endian k n)) digit ∙ word_value_from k n

pub word_value-big_endian : (n : ℕ) → n < 2 ^ 64 → word_value 0 (big_endian 8 n) ≡ n
word_value-big_endian n h =
    let high : n / 256 ^ 8 ≡ 0 = omega arith in
    ap (λ a. word_value a (big_endian 8 n)) (sym high) ∙ word_value_from 8 n
