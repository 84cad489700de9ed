-- ===== src/Proxy/Header/Parsed.antt =====
-- The ranges that the proxy accepts.
use synctv.Base.{
  ℕ, zero, suc, ◌^◌, ◌≤◌, ◌<◌, Bool, true, false, Option, none, some, List, [], ◌∷◌, ◌++◌, ◌≡◌,
  refl, arith, ap, ◌∙◌, inl, inr, Bool-cases,
}
use synctv.Base.Result.{ok, Result-cases}
use synctv.Base.Int.{pos}
use synctv.Base.Text.{
  Text, codes, is_empty, is_digit, has_prefix, trim_prefix, contains, split, trim_space, decimal,
  parse_int, unsigned, signed,
}
use synctv.Base.Text.Laws.{
  has_prefix-append, trim_prefix-append, IsSeparator, split_whole, split-append, trim_space-tight,
  digits-NoSpace, contains-append, contains_digits, decimal-AllDigits, decimal-is_empty,
  parse_int-decimal,
}
use synctv.Proxy.Slice.{ByteRange}
use synctv.Proxy.Header.{
  parse_value, parse_end, parse_bounds, parse_parts, parse_byte_range, range_value, request_end,
  hyphen,
}

-- What the slices rely on: both ends are numbers of 63 bits, in order.
pub record IsInOrder (r : ByteRange) : Type 0 where
  pub start_fits : r.start < 2 ^ 63
  pub end_fits : (e : ℕ) → r.end ≡ some e → (r.start ≤ e) × (e < 2 ^ 63)

signed_fits : (b : Bool) (o : Option ℕ) (n : ℕ) → signed b o ≡ some (pos n) → n < 2 ^ 63
signed_fits false (some m) n h = ground arith
signed_fits true (some zero) n h = ground arith
signed_fits true (some (suc m)) n h = ground arith
signed_fits b none n h = ground arith

parse_int_fits : (s : Text) (n : ℕ) → parse_int s ≡ some (pos n) → n < 2 ^ 63
unfolding parse_int
parse_int_fits [] n h = cc
parse_int_fits (c ∷ s) n h = ground (
  arith,
  signed_fits false (unsigned s) n,
  signed_fits true (unsigned s) n,
  signed_fits false (unsigned (c ∷ s)) n,
)

parse_value_fits : (s : Text) (n : ℕ) → parse_value s ≡ ok n → n < 2 ^ 63
unfolding parse_value
parse_value_fits s n h = ground (arith, parse_int_fits s n)

parse_end-IsInOrder :
    (start : ℕ) (s : Text) (r : ByteRange) → start < 2 ^ 63 → parse_end start s ≡ ok r → IsInOrder r
unfolding parse_end
parse_end-IsInOrder start [] r f h = record {
  start_fits = ground arith;
  end_fits = λ e g. ground arith;
}
parse_end-IsInOrder start (c ∷ s) r f h = elim (Result-cases (parse_value (c ∷ s))) [
  | inr (x, g) ↦ ground arith
  | inl (n, g) ↦ record {
    start_fits = ground arith;
    end_fits = λ e i. ground (arith, parse_value_fits (c ∷ s) n g);
  }
]

parse_bounds-IsInOrder : (s t : Text) (r : ByteRange) → parse_bounds s t ≡ ok r → IsInOrder r
unfolding parse_bounds
parse_bounds-IsInOrder [] [] r h = cc
parse_bounds-IsInOrder [] (d ∷ t) r h = parse_end-IsInOrder 0 (d ∷ t) r (omega arith) h
parse_bounds-IsInOrder (c ∷ s) t r h = elim (Result-cases (parse_value (c ∷ s))) [
  | inr (x, g) ↦ ground arith
  | inl (n, g) ↦ parse_end-IsInOrder n t r (parse_value_fits (c ∷ s) n g) (ground arith)
]

parse_parts-IsInOrder : (l : List Text) (r : ByteRange) → parse_parts l ≡ ok r → IsInOrder r
unfolding parse_parts
parse_parts-IsInOrder (s ∷ t ∷ []) r h = parse_bounds-IsInOrder (trim_space s) (trim_space t) r h
parse_parts-IsInOrder [] r h = cc
parse_parts-IsInOrder (s ∷ []) r h = cc
parse_parts-IsInOrder (s ∷ t ∷ u ∷ l) r h = cc

-- A range that is parsed starts at a number of 63 bits, and its end, if it has one, is such a
-- number and not before the start.
pub parse_byte_range-IsInOrder :
    (s : Text) (r : ByteRange) → parse_byte_range s ≡ ok r → IsInOrder r
unfolding parse_byte_range
parse_byte_range-IsInOrder s r h = elim (Bool-cases (is_empty s)) [
  | inl e ↦ record { start_fits = ground arith; end_fits = λ k g. ground arith }
  | inr e ↦ elim (Bool-cases (has_prefix s (codes "bytes="))) [
    | inr p ↦ ground arith
    | inl p ↦ elim (Bool-cases (contains s b',')) [
      | inl c ↦ ground arith
      | inr c ↦
          parse_parts-IsInOrder (split (trim_prefix s (codes "bytes=")) hyphen) r (ground arith)
    ]
  ]
]

parse_bounds_values :
    (s t : Text) (m n : ℕ)
    → is_empty s ≡ false
    → is_empty t ≡ false
    → parse_int s ≡ some (pos m)
    → parse_int t ≡ some (pos n)
    → m ≤ n
    → parse_bounds s t ≡ ok (record { start = m; end = some n })
unfolding parse_bounds parse_end parse_value is_empty
parse_bounds_values [] t m n a b h k l = cc
parse_bounds_values (c ∷ s) [] m n a b h k l = cc
parse_bounds_values (c ∷ s) (d ∷ t) m n a b h k l = ground arith

parse_byte_range-prefixed :
    (s : Text)
    → contains s b',' ≡ false
    → parse_byte_range (codes "bytes=" ++ s) ≡ parse_parts (split s hyphen)
unfolding parse_byte_range is_empty contains
parse_byte_range-prefixed s c =
    rw (has_prefix-append (codes "bytes=") s, trim_prefix-append (codes "bytes=") s, c) refl

-- The header that the proxy sends to its source is a range that it accepts: the one it stands for.
pub parse_byte_range-range_value :
    (start end : ℕ)
    → start ≤ end
    → end < 2 ^ 63
    → parse_byte_range (range_value start end) ≡ ok (record { start = start; end = some end })
unfolding range_value parse_parts is_digit contains
parse_byte_range-range_value start end h k =
    let a = decimal-AllDigits start in
    let b = decimal-AllDigits end in
    let free = λ (c : ℕ) (i : IsSeparator c). contains_digits (decimal start) c a i in
    let last = λ (c : ℕ) (i : IsSeparator c). contains_digits (decimal end) c b i in
    parse_byte_range-prefixed (decimal start ++ hyphen ∷ decimal end)
      (rw (contains-append, free b',' refl, last b',' refl) refl)
    ∙ ap parse_parts (
        split-append (decimal start) (decimal end) hyphen (free hyphen refl)
        ∙ ap (◌∷◌ (decimal start)) (split_whole (decimal end) hyphen (last hyphen refl)))
    ∙ rw
        (
          trim_space-tight (decimal start) (digits-NoSpace (decimal start) a),
          trim_space-tight (decimal end) (digits-NoSpace (decimal end) b),
        )
        (parse_bounds_values (decimal start) (decimal end) start end (decimal-is_empty start)
          (decimal-is_empty end) (parse_int-decimal start (omega arith)) (parse_int-decimal end k)
          h)

-- What `createRequest` asks for lies inside a known length and starts at the offset.
pub request_end_bounds :
    (offset per_length total : ℕ)
    → 0 < per_length
    → offset < total
    → (offset ≤ request_end offset per_length total) × (request_end offset per_length total < total)
unfolding request_end
request_end_bounds offset per_length total h k = ground arith
