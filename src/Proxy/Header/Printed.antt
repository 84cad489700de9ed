-- ===== src/Proxy/Header/Printed.antt =====
-- What the proxy prints as `Content-Range` is read back by the parsers of its own reader.
use mathlib.Core.List.{append_assoc}
use synctv.Base.{
  sym, ℕ, zero, suc, ◌^◌, ◌<◌, false, Option, none, some, [], ◌∷◌, ◌++◌, ◌≡◌, refl, arith, ap, ◌∙◌,
  ◌==◌,
}
use synctv.Base.Result.{ok}
use synctv.Base.Int.{ℤ, pos, negsuc, diff}
use synctv.Base.Text.{
  Text, codes, texts_eq, is_empty, is_digit, split, contains, trim_space, decimal, format_int,
  parse_int, is_space,
}
use synctv.Base.Text.Laws.{
  has_prefix-append, trim_prefix-append, AllDigits, IsSeparator, split_whole, split-append,
  trim_space-tight, digits-NoSpace, NoSpace, NoSpace-append, contains-append, contains_digits,
  decimal-AllDigits, decimal-is_empty, parse_int-decimal,
}
use synctv.Proxy.Header.{
  hyphen, slash, total_text, range_text, fmt_content_range, content_range_end, content_range_ends,
  content_range_parts, two_parts, parse_content_range_start_and_end, content_range_total,
  parse_content_range_total_length,
}

-- The last byte of a range, where it is known.
abbrev pub last_byte : Option ℕ → Option ℕ → Option ℕ
last_byte (some end) total = some end
last_byte none none = none
last_byte none (some zero) = none
last_byte none (some (suc n)) = some n

abbrev pub total_int : Option ℕ → ℤ
total_int none = negsuc 0
total_int (some n) = pos n

abbrev pub Fits : Option ℕ → Type 0
Fits none = Unit {0}
Fits (some n) = n < 2 ^ 63

-- Two numbers with a hyphen between them.
abbrev span : ℕ → ℕ → Text
span start end = decimal start ++ hyphen ∷ decimal end

range_text-span :
    (start last : ℕ) (total : Option ℕ)
    → range_text start (pos last) total
      ≡ codes "bytes " ++ (span start last ++ slash ∷ total_text total)
unfolding range_text format_int
range_text-span start last total =
    ap (◌++◌ (codes "bytes "))
      (sym (append_assoc (decimal start) (hyphen ∷ decimal last) (slash ∷ total_text total)))

same_some : (m n : ℕ) → some m ≡ some n → m ≡ n
same_some m n h = cc

fmt_content_range-span :
    (start : ℕ) (end total : Option ℕ) (last : ℕ)
    → last_byte end total ≡ some last
    → fmt_content_range start end total
      ≡ codes "bytes " ++ (span start last ++ slash ∷ total_text total)
unfolding fmt_content_range
fmt_content_range-span start (some e) total last h =
    ap (λ x. range_text start (pos x) total) (same_some e last h) ∙ range_text-span start last total
fmt_content_range-span start none none last h = cc
fmt_content_range-span start none (some zero) last h = cc
fmt_content_range-span start none (some (suc n)) last h =
    let e : diff (suc n) 1 ≡ pos last = ground (arith, same_some n last h) in
    ap (λ x. range_text start x (some (suc n))) e ∙ range_text-span start last (some (suc n))

total_text_digits :
    (total : Option ℕ) (c : ℕ)
    → IsSeparator c
    → (b'*' == c) ≡ false
    → contains (total_text total) c ≡ false
unfolding contains
total_text_digits none c h k = ground arith
total_text_digits (some n) c h k = contains_digits (decimal n) c (decimal-AllDigits n) h

parts-printed :
    (start last : ℕ) (total : Option ℕ)
    → content_range_parts (codes "bytes " ++ (span start last ++ slash ∷ total_text total))
      ≡ ok (span start last, total_text total)
unfolding content_range_parts two_parts is_empty is_digit contains
parts-printed start last total =
    let rest = span start last ++ slash ∷ total_text total in
    let free : contains (span start last) slash ≡ false =
      rw
        (
          contains-append,
          contains_digits (decimal start) slash (decimal-AllDigits start) refl,
          contains_digits (decimal last) slash (decimal-AllDigits last) refl,
        )
        refl in
    let cut : split rest slash ≡ span start last ∷ total_text total ∷ [] =
      split-append (span start last) (total_text total) slash free
      ∙ ap (◌∷◌ (span start last))
          (split_whole (total_text total) slash (total_text_digits total slash refl refl)) in
    rw (has_prefix-append (codes "bytes ") rest, trim_prefix-append (codes "bytes ") rest, cut) refl

span-NoSpace : (start last : ℕ) → NoSpace (span start last)
unfolding is_space
span-NoSpace start last =
    NoSpace-append (decimal start) (hyphen ∷ decimal last)
      (digits-NoSpace (decimal start) (decimal-AllDigits start))
      (refl, digits-NoSpace (decimal last) (decimal-AllDigits last))

not_star : (s : Text) → AllDigits s → texts_eq s (b'*' ∷ []) ≡ false
unfolding texts_eq is_digit
not_star [] a = refl
not_star (c ∷ s) (e, a) = ground arith

star_is_no_number : (n : ℕ) → texts_eq (decimal n) (b'*' ∷ []) ≡ false
star_is_no_number n = not_star (decimal n) (decimal-AllDigits n)

end-decimal : (n : ℕ) → n < 2 ^ 63 → content_range_end (decimal n) ≡ some (pos n)
unfolding content_range_end
end-decimal n h = rw (decimal-is_empty n, star_is_no_number n, parse_int-decimal n h) refl

ends_values :
    (s t : Text) (m n : ℤ)
    → parse_int (trim_space s) ≡ some m
    → content_range_end (trim_space t) ≡ some n
    → content_range_ends (s ∷ t ∷ []) ≡ ok (m, n)
unfolding content_range_ends
ends_values s t m n h k = ground arith

ends-span :
    (start last : ℕ)
    → start < 2 ^ 63
    → last < 2 ^ 63
    → content_range_ends (split (trim_space (span start last)) hyphen) ≡ ok (pos start, pos last)
unfolding is_digit
ends-span start last h k =
    let a = decimal-AllDigits start in
    let b = decimal-AllDigits last in
    let cut : split (span start last) hyphen ≡ decimal start ∷ decimal last ∷ [] =
      split-append (decimal start) (decimal last) hyphen
        (contains_digits (decimal start) hyphen a refl)
      ∙ ap (◌∷◌ (decimal start))
          (split_whole (decimal last) hyphen (contains_digits (decimal last) hyphen b refl)) in
    let plain =
      ap parse_int (trim_space-tight (decimal start) (digits-NoSpace (decimal start) a)) in
    let ending =
      ap content_range_end (trim_space-tight (decimal last) (digits-NoSpace (decimal last) b)) in
    rw (trim_space-tight (span start last) (span-NoSpace start last), cut)
      (ends_values (decimal start) (decimal last) (pos start) (pos last)
        (plain ∙ parse_int-decimal start h) (ending ∙ end-decimal last k))

total-printed :
    (total : Option ℕ) → Fits total → content_range_total (total_text total) ≡ ok (total_int total)
unfolding content_range_total is_empty texts_eq
total-printed none h = refl
total-printed (some n) h =
    rw
      (
        decimal-is_empty n,
        star_is_no_number n,
        trim_space-tight (decimal n) (digits-NoSpace (decimal n) (decimal-AllDigits n)),
        parse_int-decimal n h,
      )
      refl

-- Where the last byte is known and the numbers fit 63 bits, the parsers of Content-Range read the
-- start, the last byte and the length, or -1 for a length that is not known, from what is
-- printed.
pub content_range_round_trip :
    (start : ℕ) (end total : Option ℕ) (last : ℕ)
    → last_byte end total ≡ some last
    → start < 2 ^ 63
    → last < 2 ^ 63
    → Fits total
    → (parse_content_range_start_and_end (fmt_content_range start end total)
        ≡ ok (pos start, pos last))
      × (parse_content_range_total_length (fmt_content_range start end total)
          ≡ ok (total_int total))
unfolding parse_content_range_start_and_end parse_content_range_total_length
content_range_round_trip start end total last known h k f =
    let e = fmt_content_range-span start end total last known in
    let parts = ap content_range_parts e ∙ parts-printed start last total in
    (
      rw (parts, parse_content_range_start_and_end) (ends-span start last h k),
      rw (parts, parse_content_range_total_length) (total-printed total f),
    )
