-- ===== src/Base/Text/Laws.antt =====
-- Laws of texts: equality, splitting, trimming, and the decimal round trip.
use Prim.Native.Nat.{ℕ, zero, suc, ◌+◌, ◌/◌, ◌%◌, ◌^◌, ◌<◌}
use mathlib.Core.Bool.{true, false, ◌||◌}
use mathlib.Core.Logic.{◌↔◌}
use mathlib.Core.Option.{some}
use mathlib.Core.Path.{◌≡◌, refl, ap, ◌∙◌}
use mathlib.Core.List.{[], ◌∷◌, ◌++◌}
use native.Mathlib.Omega.{arith}
use synctv.Base.Tests.{ltb, if_true}
use synctv.Base.Lists.{length, drop}
use synctv.Base.Int.{pos}
use synctv.Base.Text.{
  Text, texts_eq, is_empty, has_prefix, trim_prefix, split, is_space, trim_left_space,
  trim_right_space, trim_space, is_digit, decimal_loop, decimal, digits_value, signed, unsigned,
  parse_int, contains,
}

pub texts_eq_iff : (s t : Text) → (texts_eq s t ≡ true) ↔ (s ≡ t)
unfolding texts_eq
texts_eq_iff [] [] = ground arith
texts_eq_iff [] (d ∷ t) = ground arith
texts_eq_iff (c ∷ s) [] = ground arith
texts_eq_iff (c ∷ s) (d ∷ t) = ground (arith, texts_eq_iff s t)

pub texts_eq_refl : (s : Text) → texts_eq s s ≡ true
texts_eq_refl s = (texts_eq_iff s s).1 refl

-- Texts of which every character is a digit.
abbrev pub AllDigits : Text → Type 0
AllDigits [] = Unit {0}
AllDigits (c ∷ s) = (is_digit c ≡ true) × AllDigits s

-- Characters that no digit is.
abbrev pub IsSeparator : ℕ → Type 0
IsSeparator c = is_digit c ≡ false

pub has_prefix-append : (p s : Text) → has_prefix (p ++ s) p ≡ true
unfolding has_prefix
has_prefix-append [] [] = refl
has_prefix-append [] (d ∷ s) = refl
has_prefix-append (c ∷ p) s = ground (arith, has_prefix-append p s)

drop-append : (p s : Text) → drop (length p) (p ++ s) ≡ s
drop-append [] s = refl
drop-append (c ∷ p) s = drop-append p s

pub trim_prefix-append : (p s : Text) → trim_prefix (p ++ s) p ≡ s
unfolding trim_prefix
trim_prefix-append p s = rw (has_prefix-append p s) (drop-append p s)

pub contains_digits : (p : Text) (c : ℕ) → AllDigits p → IsSeparator c → contains p c ≡ false
unfolding contains is_digit
contains_digits [] c a h = refl
contains_digits (d ∷ p) c (e, a) h = ground (arith, contains_digits p c a h)

pub contains-append : (p q : Text) (c : ℕ) → contains (p ++ q) c ≡ (contains p c || contains q c)
unfolding contains
contains-append [] q c = refl
contains-append (d ∷ p) q c = ground (arith, contains-append p q c)

pub split_whole : (p : Text) (c : ℕ) → contains p c ≡ false → split p c ≡ p ∷ []
unfolding split contains
split_whole [] c h = refl
split_whole (d ∷ p) c h = ground (arith, split_whole p c)

-- A text is split first where the character stands first.
pub split-append :
    (p q : Text) (c : ℕ) → contains p c ≡ false → split (p ++ c ∷ q) c ≡ p ∷ split q c
unfolding split contains
split-append [] q c h = ground arith
split-append (d ∷ p) q c h = ground (arith, split-append p q c)

-- Texts without white space.
abbrev pub NoSpace : Text → Type 0
NoSpace [] = Unit {0}
NoSpace (c ∷ s) = (is_space c ≡ false) × NoSpace s

pub NoSpace-append : (s t : Text) → NoSpace s → NoSpace t → NoSpace (s ++ t)
NoSpace-append [] t a b = b
NoSpace-append (c ∷ s) t (e, a) b = (e, NoSpace-append s t a b)

pub digits-NoSpace : (s : Text) → AllDigits s → NoSpace s
unfolding is_space is_digit
digits-NoSpace [] a = tt
digits-NoSpace (c ∷ s) (e, a) = (ground arith, digits-NoSpace s a)

trim_left_space-tight : (p : Text) → NoSpace p → trim_left_space p ≡ p
unfolding trim_left_space
trim_left_space-tight [] a = refl
trim_left_space-tight (c ∷ p) (e, a) = ground arith

trim_right_space-tight : (p : Text) → NoSpace p → trim_right_space p ≡ p
unfolding trim_right_space is_empty
trim_right_space-tight [] a = refl
trim_right_space-tight (c ∷ p) (e, a) = ground (arith, trim_right_space-tight p a)

pub trim_space-tight : (p : Text) → NoSpace p → trim_space p ≡ p
unfolding trim_space
trim_space-tight p a = rw (trim_left_space-tight p a) (trim_right_space-tight p a)

decimal_loop-AllDigits : (f n : ℕ) (t : Text) → AllDigits t → AllDigits (decimal_loop f n t)
unfolding decimal_loop is_digit
decimal_loop-AllDigits zero n t a = a
decimal_loop-AllDigits (suc f) n t a =
    let low : is_digit (48 + n % 10) ≡ true = ground arith in
    ground (arith, decimal_loop-AllDigits f (n / 10) ((48 + n % 10) ∷ t) (low, a))

pub decimal-AllDigits : (n : ℕ) → AllDigits (decimal n)
unfolding decimal
decimal-AllDigits n = decimal_loop-AllDigits (suc n) n [] tt

decimal_loop-value :
    (f n : ℕ) (t : Text) → n < f → digits_value (decimal_loop f n t) 0 ≡ digits_value t n
unfolding decimal_loop digits_value is_digit
decimal_loop-value zero n t h = elim h [ ]
decimal_loop-value (suc f) n t h = ground (arith, decimal_loop-value f (n / 10) ((48 + n % 10) ∷ t))

decimal-value : (n : ℕ) → digits_value (decimal n) 0 ≡ some n
unfolding decimal digits_value
decimal-value n = decimal_loop-value (suc n) n [] (omega arith)

decimal_loop_cons : (f n : ℕ) (t : Text) → is_empty (decimal_loop (suc f) n t) ≡ false
unfolding decimal_loop is_empty
decimal_loop_cons zero n t = ground arith
decimal_loop_cons (suc f) n t = ground (arith, decimal_loop_cons f (n / 10) ((48 + n % 10) ∷ t))

pub decimal-is_empty : (n : ℕ) → is_empty (decimal n) ≡ false
unfolding decimal
decimal-is_empty n = decimal_loop_cons n n []

unsigned_digits : (s : Text) → is_empty s ≡ false → unsigned s ≡ digits_value s 0
unfolding unsigned is_empty
unsigned_digits [] h = cc
unsigned_digits (c ∷ s) h = refl

pub unsigned-decimal : (n : ℕ) → unsigned (decimal n) ≡ some n
unsigned-decimal n = unsigned_digits (decimal n) (decimal-is_empty n) ∙ decimal-value n

parse_int_digits :
    (s : Text) → AllDigits s → is_empty s ≡ false → parse_int s ≡ signed false (unsigned s)
unfolding parse_int is_digit is_empty
parse_int_digits [] a h = cc
parse_int_digits (c ∷ s) (e, a) h = ground arith

-- The number whose digits are parsed comes back.
pub parse_int-decimal : (n : ℕ) → n < 2 ^ 63 → parse_int (decimal n) ≡ some (pos n)
parse_int-decimal n h =
    parse_int_digits (decimal n) (decimal-AllDigits n) (decimal-is_empty n)
    ∙ ap (signed false) (unsigned-decimal n)
    ∙ if_true (ltb n (2 ^ 63)) _ _ (ground arith)

pub decimal_injective : (m n : ℕ) → decimal m ≡ decimal n → m ≡ n
decimal_injective m n e = cc (decimal-value m, decimal-value n)
