-- ===== src/Utils/Page/Laws.antt =====
-- Pages cover the items, in order and without a gap.
use synctv.Base.Int.{pos, int64_small}
use synctv.Base.{
  ◌^◌, leb, false, Option, none, some, ℕ, zero, suc, ◌-◌, ◌*◌, ◌≤◌, ◌<◌, ◌≡◌, refl, List, [], ◌∷◌,
  ◌++◌, arith, min, length, take, drop, ap, ◌∙◌, sym, String, ◌↔◌, true, str_eq, eq_iff, Bool-cases,
  inl, inr,
}
use mathlib.Core.List.{Memᴰ}
use native.Mathlib.Nat.{suc-mul}
use synctv.Utils.Page.{get_page_items, get_page_items_range, in_list}

range-eq-min :
    (total page page_size : ℕ)
    → 0 < page_size
    → suc page * page_size < 2 ^ 63
    → get_page_items_range total (suc page) page_size
      ≡ (pos (min (page * page_size) total), pos (min (suc page * page_size) total))
unfolding get_page_items_range
range-eq-min total page page_size k fits =
    let before : page * page_size < 2 ^ 63 = omega (arith, suc-mul page page_size) in
    let asked : leb page_size 0 ≡ false = ground arith in
    let less : suc page - 1 ≡ page = omega arith in
    rw (asked, less, int64_small (page * page_size) before, int64_small (suc page * page_size) fits)
      (ground arith)

module _ {ℓ} {A : Type ℓ} where
  -- The pages 1 to n, one after the other, where `none` is a panic.
  abbrev pub pages : List A → ℕ → ℕ → Option (List A)
  pages items zero page_size = some []
  pages items (suc n) page_size = elim (pages items n page_size) [
    | none ↦ none
    | some before ↦ elim (get_page_items items (suc n) page_size) [
      | none ↦ none
      | some page ↦ some (before ++ page)
    ]
  ]

  take-nil : (n : ℕ) → take {A = A} n [] ≡ []
  take-nil zero = refl
  take-nil (suc n) = refl

  take-append-take-drop :
      (a b : ℕ) (xs : List A) → a ≤ b → take a xs ++ take (b - a) (drop a xs) ≡ take b xs
  take-append-take-drop zero b xs h = let all : b - 0 ≡ b = omega arith in rw all
  take-append-take-drop (suc a) zero xs h = absurd (omega arith)
  take-append-take-drop (suc a) (suc b) [] h = take-nil (suc b - suc a)
  take-append-take-drop (suc a) (suc b) (x ∷ xs) h =
      let fewer : suc b - suc a ≡ b - a = omega arith in
      rw fewer (ap (◌∷◌ x) (take-append-take-drop a b xs (omega arith)))

  take-min-length : (n : ℕ) (xs : List A) → take (min n (length xs)) xs ≡ take n xs
  take-min-length zero xs = let none_left : min 0 (length xs) ≡ 0 = omega arith in rw none_left
  take-min-length (suc n) [] = let none_left : min (suc n) 0 ≡ 0 = omega arith in rw none_left
  take-min-length (suc n) (x ∷ xs) =
      let fewer : min (suc n) (suc (length xs)) ≡ suc (min n (length xs)) = omega arith in
      rw fewer (ap (◌∷◌ x) (take-min-length n xs))

  -- One page is between its bounds.
  page-eq-take :
      (items : List A) (n page_size : ℕ)
      → 0 < page_size
      → suc n * page_size < 2 ^ 63
      → get_page_items items (suc n) page_size
        ≡ some (
            take
              (min (suc n * page_size) (length items) - min (n * page_size) (length items))
              (drop (min (n * page_size) (length items)) items))
  unfolding get_page_items
  page-eq-take items n page_size h fits =
      let ordered : min (n * page_size) (length items) ≤ min (suc n * page_size) (length items) =
        omega (arith, suc-mul n page_size) in
      rw (range-eq-min (length items) n page_size h fits) (ground arith)

  -- The pages before and one more.
  next-page :
      (items : List A) (n page_size : ℕ)
      → take (n * page_size) items
          ++ take
              (min (suc n * page_size) (length items) - min (n * page_size) (length items))
              (drop (min (n * page_size) (length items)) items)
        ≡ take (suc n * page_size) items
  next-page items n page_size = rw (← take-min-length (n * page_size) items) (
      take-append-take-drop (min (n * page_size) (length items))
        (min (suc n * page_size) (length items)) items (omega (arith, suc-mul n page_size))
      ∙ take-min-length (suc n * page_size) items)

  -- For a positive page size, where n * page_size is below 2 ^ 63, the pages 1 to n come without
  -- a panic and, one after the other, are the first n * page_size items.
  pub pages-eq-take :
      (items : List A) (n page_size : ℕ)
      → 0 < page_size
      → n * page_size < 2 ^ 63
      → pages items n page_size ≡ some (take (n * page_size) items)
  pages-eq-take items zero page_size h fits =
      let nothing : 0 * page_size ≡ 0 = omega arith in rw nothing refl
  pages-eq-take items (suc n) page_size h fits =
      let fewer : n * page_size < 2 ^ 63 = omega (arith, suc-mul n page_size) in
      rw (pages-eq-take items n page_size h fewer, page-eq-take items n page_size h fits)
        (ap some (next-page items n page_size))

in_list_of_Mem : (item : String) (items : List String) → Memᴰ item items → in_list items item ≡ true
unfolding in_list
in_list_of_Mem item [] m = elim m [ ]
in_list_of_Mem item (v ∷ items) (Memᴰ.head e) = ground (arith, eq_iff v item, sym e)
in_list_of_Mem item (v ∷ items) (Memᴰ.tail m) = ground (arith, in_list_of_Mem item items m)

Mem_of_in_list : (item : String) (items : List String) → in_list items item ≡ true → Memᴰ item items
unfolding in_list
Mem_of_in_list item [] h = cc
Mem_of_in_list item (v ∷ items) h = elim (Bool-cases (str_eq v item)) [
  | inl e ↦ Memᴰ.head (sym ((eq_iff v item).0 e))
  | inr e ↦ Memᴰ.tail (Mem_of_in_list item items (ground arith))
]

-- `In` holds exactly of the members of the slice.
pub in_list_iff :
    (item : String) (items : List String) → (in_list items item ≡ true) ↔ Memᴰ item items
in_list_iff item items = (Mem_of_in_list item items, in_list_of_Mem item items)
