-- ===== src/Model/Member/Permission/Laws.antt =====
-- A permission value is the set of its bits: `Has` is inclusion, `Add` union, `Remove` difference.
use synctv.Base.{
  ℕ, ◌^◌, ◌<◌, ◌≤◌, ◌≡◌, ◌↔◌, true, false, ◌||◌, arith, ◌==◌, Bool-cases, bit_and, inl, inr, bit_or,
  ap, ◌∙◌,
}
use synctv.Base.Bits.{
  bit_at, bit_at-bit_and, bit_at-bit_or, bit_at_ext, bit_at_complement, bit_at_above,
}
use native.Mathlib.Decide.{dec_lt}
use synctv.Model.Member.Permission.{has, add, remove, complement}

same_iff : (a b : ℕ) → ((a == b) ≡ true) ↔ (a ≡ b)
same_iff a b = ground arith

-- Every bit of `q` is one of `p`.
abbrev pub Includes : ℕ → ℕ → Type 0
Includes p q = (i : ℕ) → bit_at i q ≡ true → bit_at i p ≡ true

-- `Has` holds exactly when every bit of the permission asked for is a bit of the set.
pub has-Includes : (p q : ℕ) → (has p q ≡ true) ↔ Includes p q
unfolding has
has-Includes p q = (to, from)
  where
    to : (bit_and p q == q) ≡ true → Includes p q
    to h i e =
        let same : bit_and p q ≡ q = (same_iff (bit_and p q) q).0 h in
        ground (arith, bit_at-bit_and i p q, ap (bit_at i) same)

    from : Includes p q → (bit_and p q == q) ≡ true
    from h = (same_iff (bit_and p q) q).1 (
        bit_at_ext (bit_and p q) q λ i.
          bit_at-bit_and i p q
          ∙ elim (Bool-cases (bit_at i q)) [ inl e ↦ rw (e, h i e) | inr e ↦ rw e ground arith ])

-- After `Add`, `Has` holds of exactly the sets whose bits are each held before or just added.
has-add :
    (p q r : ℕ)
    → (has (add p q) r ≡ true) ↔ ((i : ℕ) → bit_at i r ≡ true → (bit_at i p || bit_at i q) ≡ true)
unfolding add
has-add p q r = (
  λ h i e. let k = (has-Includes (bit_or p q) r).0 h i e in rw (bit_at-bit_or i p q) at k,
  λ h. (has-Includes (bit_or p q) r).1 λ i e. rw bit_at-bit_or (h i e),
)

bit_at-complement_above : (i q : ℕ) → 32 ≤ i → bit_at i (complement q) ≡ false
bit_at-complement_above i q h = bit_at_above 32 i (complement q) (omega arith) h

bit_at-remove :
    (i p q : ℕ)
    → p < 2 ^ 32
    → q < 2 ^ 32
    → bit_at i (remove p q) ≡ true
    → (bit_at i p ≡ true) × (bit_at i q ≡ false)
unfolding remove
bit_at-remove i p q hp hq e = elim (dec_lt i 32) [
  | yes low ↦ ground (arith, bit_at-bit_and i p (complement q), bit_at_complement 32 i q hq low)
  | no high ↦
      ground (arith, bit_at-bit_and i p (complement q), bit_at-complement_above i q (omega arith))
]

bit_at-remove_keeps :
    (i p q : ℕ)
    → p < 2 ^ 32
    → q < 2 ^ 32
    → bit_at i p ≡ true
    → bit_at i q ≡ false
    → bit_at i (remove p q) ≡ true
unfolding remove
bit_at-remove_keeps i p q hp hq e f = elim (dec_lt i 32) [
  | yes low ↦ ground (arith, bit_at-bit_and i p (complement q), bit_at_complement 32 i q hq low)
  | no high ↦ ground (arith, bit_at_above 32 i p hp (omega arith))
]

-- After `Remove` of a uint32 set from another, `Has` holds of exactly the sets that were held
-- before and share no bit with what was removed.
has-remove :
    (p q r : ℕ)
    → p < 2 ^ 32
    → q < 2 ^ 32
    → (has (remove p q) r ≡ true)
      ↔ ((has p r ≡ true) × ((i : ℕ) → bit_at i r ≡ true → bit_at i q ≡ false))
has-remove p q r hp hq = (
  λ h.
      let inside = (has-Includes (remove p q) r).0 h in
      (
        (has-Includes p r).1 (λ i e. (bit_at-remove i p q hp hq (inside i e)).0),
        λ i e. (bit_at-remove i p q hp hq (inside i e)).1,
      ),
  λ h.
      (has-Includes (remove p q) r).1
        λ i e. bit_at-remove_keeps i p q hp hq ((has-Includes p r).0 h.0 i e) (h.1 i e),
)
