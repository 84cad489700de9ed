-- ===== src/Proxy/Slice/Range.antt =====
-- The bytes that the proxy serves are those of the source.
use synctv.Base.{
  ℕ, zero, suc, ◌-◌, ◌<◌, min, none, some, List, [], ◌∷◌, ◌++◌, length, take, drop, ◌≡◌, refl,
  arith, ap, inl, inr, sym, ◌∙◌, ◌+◌, ◌≤◌, length-drop,
}
use synctv.Base.Result.{ok, Result-cases}
use synctv.Proxy.Slice.{
  CacheItem, Read, full, partial, at_end, failed, Source, Cache, fetch_from_source, fetched,
  new_item, known_length, content_total_length,
}

-- What `ReadFull` and the length of a source of these bytes are. A read that ends early may end
-- before the bytes do.
pub record IsSourceOf (content : List ℕ) (source : Source) : Type 0 where
  pub full_is :
      (offset n : ℕ) (d : List ℕ)
      → source.read_full offset n ≡ full d
      → (d ≡ take n (drop offset content)) × (length d ≡ n)
  pub partial_is :
      (offset n : ℕ) (d : List ℕ)
      → source.read_full offset n ≡ partial d
      → (d ≡ take (length d) (drop offset content)) × (0 < length d) × (length d < n)
  pub total_is : (t : ℕ) → source.total_length ≡ ok (some t) → t ≡ length content

-- The item of a slice.
abbrev pub IsSlice : List ℕ → ℕ → ℕ → CacheItem → Type 0
IsSlice content slice_size offset item =
    (item.bytes ≡ take slice_size (drop offset content))
    × (0 < length item.bytes)
    × (item.content_total_length ≡ some (length content))

-- A cache keeps a property of its items: it gives nothing that was not set. `Holds P s` says that
-- every item that the state may give has the property.
pub record CacheLaws {S : Type 0} (cache : Cache S) (Holds : (ℕ → CacheItem → Type 0) → S → Type 0)
    : Type 1 where
  pub get_holds :
      (P : ℕ → CacheItem → Type 0) (k : ℕ) (s : S) → Holds P s → Holds P (cache.get k s).1
  pub get_is :
      (P : ℕ → CacheItem → Type 0) (k : ℕ) (s : S) (item : CacheItem)
      → Holds P s
      → (cache.get k s).0 ≡ ok (some item)
      → P k item
  pub set_holds :
      (P : ℕ → CacheItem → Type 0) (k : ℕ) (item : CacheItem) (s : S)
      → Holds P s
      → P k item
      → Holds P (cache.set k item s).1

pub take-nil : (n : ℕ) → take {A = ℕ} n [] ≡ []
take-nil zero = refl
take-nil (suc n) = refl

-- The first part of what is asked for, up to the end of a slice, and then the rest.
pub splice :
    (size n : ℕ) (xs : List ℕ)
    → let k = min (length (take size xs)) n in
      take k (take size xs) ++ take (n - k) (drop size xs) ≡ take n xs
splice zero n xs =
    let k : min 0 n ≡ 0 = omega arith in let m : n - 0 ≡ n = omega arith in rw (k, m) refl
splice (suc size) n [] =
    let k : min 0 n ≡ 0 = omega arith in let m : n - 0 ≡ n = omega arith in rw (k, m) refl
splice (suc size) zero (x ∷ xs) =
    let k : min (suc (length (take size xs))) 0 ≡ 0 = omega arith in rw k refl
splice (suc size) (suc n) (x ∷ xs) =
    let k : min (suc (length (take size xs))) (suc n) ≡ suc (min (length (take size xs)) n) =
      omega arith in
    let m : suc n - suc (min (length (take size xs)) n) ≡ n - min (length (take size xs)) n =
      omega arith in
    rw (k, m) (ap (◌∷◌ x) (splice size n xs))

pub take-all : (n : ℕ) (xs : List ℕ) → length xs ≤ n → take n xs ≡ xs
take-all n [] h = take-nil n
take-all zero (x ∷ xs) h = absurd (omega arith)
take-all (suc n) (x ∷ xs) h = ap (◌∷◌ x) (take-all n xs (omega arith))

-- A part of the rest that is as long as the rest is what was asked for.
part-take :
    (offset size : ℕ) (content d : List ℕ)
    → d ≡ take (length d) (drop offset content)
    → length content ≡ offset + length d
    → length d < size
    → d ≡ take size (drop offset content)
part-take offset size content d part whole short =
    let rest : length (drop offset content) ≡ length d =
      omega (arith, length-drop offset content) in
    part
    ∙ take-all (length d) (drop offset content) (omega arith)
    ∙ sym (take-all size (drop offset content) (omega arith))

module _ (content : List ℕ) (source : Source) (is : IsSourceOf content source) where
  total-length : (t : ℕ) → content_total_length source ≡ ok t → t ≡ length content
  unfolding content_total_length known_length
  total-length t e = elim (Result-cases source.total_length) [
    | inr (x, d) ↦ ground arith
    | inl (none, d) ↦ ground arith
    | inl (some u, d) ↦ ground (arith, is.total_is u d)
  ]

  new_item-is :
      (total : ℕ) (bytes : List ℕ) (item : CacheItem)
      → new_item source total bytes ≡ ok item
      → (item.bytes ≡ bytes) × (item.content_total_length ≡ some total)
  unfolding new_item
  new_item-is total bytes item e = ground arith

  -- A short read gives an item only where it ends with the source.
  partial-IsSlice :
      (size offset : ℕ) (bytes : List ℕ) (item : CacheItem) (t : ℕ)
      → content_total_length source ≡ ok t
      → source.read_full offset size ≡ partial bytes
      → fetched source offset (partial bytes) ≡ ok item
      → IsSlice content size offset item
  unfolding fetched
  partial-IsSlice size offset bytes item t d read e =
      let (part, some_bytes, short) = is.partial_is offset size bytes read in
      let total = total-length t d in
      let whole : t ≡ offset + length bytes = ground arith in
      let (same, length_known) = new_item-is t bytes item (ground arith) in
      (
        same ∙ part-take offset size content bytes part (omega arith) short,
        ground arith,
        length_known ∙ ap some total,
      )

  fetched-IsSlice :
      (size offset : ℕ) (r : Read) (item : CacheItem)
      → 0 < size
      → source.read_full offset size ≡ r
      → fetched source offset r ≡ ok item
      → IsSlice content size offset item
  unfolding fetched
  fetched-IsSlice size offset (full bytes) item p read e =
      elim (Result-cases (content_total_length source)) [
        | inr (x, d) ↦ ground arith
        | inl (t, d) ↦ ground (
          arith,
          total-length t d,
          new_item-is t bytes item (ground arith),
          is.full_is offset size bytes read,
        )
      ]
  fetched-IsSlice size offset (partial bytes) item p read e =
      elim (Result-cases (content_total_length source)) [
        | inr (x, d) ↦ ground arith
        | inl (t, d) ↦ partial-IsSlice size offset bytes item t d read e
      ]
  fetched-IsSlice size offset at_end item p read e = ground arith
  fetched-IsSlice size offset (failed x) item p read e = ground arith

  pub fetch-IsSlice :
      (size offset : ℕ) (item : CacheItem)
      → 0 < size
      → fetch_from_source source size offset ≡ ok item
      → IsSlice content size offset item
  unfolding fetch_from_source
  fetch-IsSlice size offset item p e =
      fetched-IsSlice size offset (source.read_full offset size) item p refl (ground arith)
