-- ===== src/Proxy/Slice/Body.antt =====
-- What `writeResponse` writes.
use synctv.Base.{
  ℕ, zero, suc, ◌+◌, ◌-◌, ◌<◌, ◌≤◌, min, Bool, Option, none, some, List, [], ◌∷◌, ◌++◌, length,
  take, drop, ◌≡◌, refl, ◌∙◌, arith, ap, inl, inr,
}
use synctv.Base.Result.{wrapped, Result, ok, err, Result-cases}
use synctv.Proxy.Slice.{
  CacheItem, Written, Source, Cache, fetch_from_source, get_cache_item, found_or_fetched, keep_item,
  write_slices, write_slice, prepend,
}
use synctv.Proxy.Slice.Range.{IsSourceOf, IsSlice, CacheLaws, splice, fetch-IsSlice}

drop-nil : (n : ℕ) → drop {A = ℕ} n [] ≡ []
drop-nil zero = refl
drop-nil (suc n) = refl

pub drop-drop : (a b : ℕ) (xs : List ℕ) → drop (a + b) xs ≡ drop b (drop a xs)
drop-drop zero b xs = let e : 0 + b ≡ b = omega arith in rw e refl
drop-drop (suc a) b [] = rw (drop-nil (suc a + b), drop-nil b) refl
drop-drop (suc a) b (x ∷ xs) =
    let e : suc a + b ≡ suc (a + b) = omega arith in rw e (drop-drop a b xs)

-- A slice up to its end, and what is left of the rest.
pub joined :
    (size remaining : ℕ) (xs bytes ws : List ℕ)
    → bytes ≡ take size xs
    → ws ≡ take (remaining - min (length bytes) remaining) (drop size xs)
    → take (min (length bytes) remaining) bytes ++ ws ≡ take remaining xs
joined size remaining xs bytes ws e f = rw (f, e) (splice size remaining xs)

module _ (content : List ℕ) (source : Source) (is : IsSourceOf content source) {S : Type 0}
    (cache : Cache S) (Holds : (ℕ → CacheItem → Type 0) → S → Type 0) (laws : CacheLaws cache Holds)
    (size : ℕ) (p : 0 < size) where
  -- Every slice in the cache is one of the source.
  abbrev pub IsCoherent : S → Type 0
  IsCoherent s = Holds (IsSlice content size) s

  found-IsSlice :
      (offset : ℕ) (found : Result (Option CacheItem)) (s : S) (item : CacheItem) (cached : Bool)
      → ((i : CacheItem) → found ≡ ok (some i) → IsSlice content size offset i)
      → (found_or_fetched source cache size offset found s).0 ≡ ok (item, cached)
      → IsSlice content size offset item
  unfolding found_or_fetched keep_item
  found-IsSlice offset (err x) s item cached h e = ground arith
  found-IsSlice offset (ok (some i)) s item cached h e = ground (arith, h i refl)
  found-IsSlice offset (ok none) s item cached h e =
      elim (Result-cases (fetch_from_source source size offset)) [
        | inr (x, d) ↦ ground arith
        | inl (i, d) ↦ ground (arith, fetch-IsSlice content source is size offset i p d)
      ]

  pub get_cache_item-IsSlice :
      (offset : ℕ) (s : S) (item : CacheItem) (cached : Bool)
      → IsCoherent s
      → (get_cache_item source cache size offset s).0 ≡ ok (item, cached)
      → IsSlice content size offset item
  unfolding get_cache_item
  get_cache_item-IsSlice offset s item cached h e =
      found-IsSlice offset (cache.get offset s).0 (cache.get offset s).1 item cached
        (λ i d. laws.get_is (IsSlice content size) offset s i h d) e

  keep_item-state :
      (offset : ℕ) (i : CacheItem) (s : S)
      → (keep_item source cache size offset (ok i) s).1 ≡ (cache.set offset i s).1
  unfolding keep_item
  keep_item-state offset i s = ground arith

  found-IsCoherent :
      (offset : ℕ) (found : Result (Option CacheItem)) (s : S)
      → IsCoherent s
      → IsCoherent (found_or_fetched source cache size offset found s).1
  unfolding found_or_fetched
  found-IsCoherent offset (err x) s h = h
  found-IsCoherent offset (ok (some i)) s h = h
  found-IsCoherent offset (ok none) s h =
      elim (Result-cases (fetch_from_source source size offset)) [
        | inr (x, d) ↦ rw d h
        | inl (i, d) ↦
            rw (d, keep_item-state offset i s)
              (laws.set_holds (IsSlice content size) offset i s h
                (fetch-IsSlice content source is size offset i p d))
      ]

  pub get_cache_item-IsCoherent :
      (offset : ℕ) (s : S) → IsCoherent s → IsCoherent (get_cache_item source cache size offset s).1
  unfolding get_cache_item
  get_cache_item-IsCoherent offset s h =
      found-IsCoherent offset (cache.get offset s).0 (cache.get offset s).1
        (laws.get_holds (IsSlice content size) offset s h)

  slice-fuel :
      (rest : ℕ → S → Option (Written S)) (offset remaining : ℕ) (r : Result (CacheItem × Bool))
      (s : S)
      → ((item : CacheItem) (cached : Bool)
          → r ≡ ok (item, cached)
          → IsSlice content size offset item)
      → ((left : ℕ) → left < remaining → (w : Written S) × (rest left s ≡ some w) × IsCoherent w.2)
      → 0 < remaining
      → IsCoherent s
      → (w : Written S) × (write_slice rest remaining r s ≡ some w) × IsCoherent w.2
  unfolding write_slice
  slice-fuel rest offset remaining (err x) s good more some_left h =
      ((err (wrapped "failed to get cache item: " x), [], s), refl, h)
  slice-fuel rest offset remaining (ok (item, cached)) s good more some_left h =
      let (is_part, nonempty, total) = good item cached refl in
      let (w, e, k) =
        more (remaining - min (length item.bytes) remaining) (omega (arith, nonempty)) in
      ((w.0, take (min (length item.bytes) remaining) item.bytes ++ w.1, w.2), rw e refl, k)

  pub write_slices-fuel :
      (fuel offset remaining : ℕ) (s : S)
      → IsCoherent s
      → remaining ≤ fuel
      → (w : Written S) × (write_slices source cache size fuel offset remaining s ≡ some w)
        × IsCoherent w.2
  unfolding write_slices
  write_slices-fuel fuel offset zero s h e = ((ok tt, [], s), refl, h)
  write_slices-fuel zero offset (suc r) s h e = absurd (omega arith)
  write_slices-fuel (suc fuel) offset (suc r) s h e =
      let got = get_cache_item source cache size offset s in
      slice-fuel (λ left t. write_slices source cache size fuel (offset + size) left t) offset
        (suc r) got.0 got.1 (λ item cached d. get_cache_item-IsSlice offset s item cached h d)
        (λ left less.
          write_slices-fuel fuel (offset + size) left got.1 (get_cache_item-IsCoherent offset s h)
            (omega (arith, less, e)))
        (omega arith) (get_cache_item-IsCoherent offset s h)

  pub prepended :
      (bytes written : List ℕ) (s' : S) (w : Option (Written S))
      → prepend bytes w ≡ some (ok tt, written, s')
      → (ws : List ℕ) × (w ≡ some (ok tt, ws, s')) × (written ≡ bytes ++ ws)
  prepended bytes written s' none e = ground arith
  prepended bytes written s' (some (r, ws, t)) e = (ws, ground arith, ground arith)

  slice-content :
      (rest : ℕ → S → Option (Written S)) (offset remaining : ℕ) (r : Result (CacheItem × Bool))
      (s s' : S) (written : List ℕ)
      → ((item : CacheItem) (cached : Bool)
          → r ≡ ok (item, cached)
          → IsSlice content size offset item)
      → ((left : ℕ) (ws : List ℕ)
          → rest left s ≡ some (ok tt, ws, s')
          → ws ≡ take left (drop (offset + size) content))
      → write_slice rest remaining r s ≡ some (ok tt, written, s')
      → written ≡ take remaining (drop offset content)
  unfolding write_slice
  slice-content rest offset remaining (err x) s s' written good more e = ground arith
  slice-content rest offset remaining (ok (item, cached)) s s' written good more e =
      let (is_part, nonempty, total) = good item cached refl in
      let n = min (length item.bytes) remaining in
      let (ws, d, whole) = prepended (take n item.bytes) written s' (rest (remaining - n) s) e in
      whole
      ∙ joined size remaining (drop offset content) item.bytes ws is_part
          (more (remaining - n) ws d ∙ ap (take (remaining - n)) (drop-drop offset size content))

  pub write_slices-content :
      (fuel offset remaining : ℕ) (s s' : S) (written : List ℕ)
      → IsCoherent s
      → write_slices source cache size fuel offset remaining s ≡ some (ok tt, written, s')
      → written ≡ take remaining (drop offset content)
  unfolding write_slices
  write_slices-content fuel offset zero s s' written h e = ground arith
  write_slices-content zero offset (suc r) s s' written h e = ground arith
  write_slices-content (suc fuel) offset (suc r) s s' written h e =
      let got = get_cache_item source cache size offset s in
      slice-content (λ left t. write_slices source cache size fuel (offset + size) left t) offset
        (suc r) got.0 got.1 s' written
        (λ item cached d. get_cache_item-IsSlice offset s item cached h d)
        (λ left ws d.
          write_slices-content fuel (offset + size) left got.1 s' ws
            (get_cache_item-IsCoherent offset s h) d)
        e
