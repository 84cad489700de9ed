-- ===== src/Proxy/Slice/Reliable.antt =====
-- With a source and a cache that do not fail, the proxy serves every range that starts in the
-- source.
use synctv.Base.{
  if_false, ℕ, zero, suc, ◌+◌, ◌-◌, ◌<◌, ◌≤◌, min, String, Bool, true, false, Option, none, some,
  List, [], ◌++◌, ltb, ◌==◌, length, take, drop, ◌≡◌, ◌⊎◌, refl, sym, ◌∙◌, arith, ap, inl, inr,
  length-take, length-drop,
}
use mathlib.Core.Path.{subst}
use synctv.Base.Result.{Result, ok, err}
use synctv.Base.Int.{positive_part}
use synctv.Proxy.Slice.{
  ByteRange, CacheItem, Read, full, partial, Source, Cache, Response, Written, proxy,
  content_length, aligned_offset, fetch_from_source, fetched, new_item, content_total_length,
  known_length, get_cache_item, found_or_fetched, keep_item, write_slices, write_slice,
  write_response, respond, response_headers, with_body,
}
use synctv.Proxy.Slice.Range.{IsSourceOf, IsSlice, CacheLaws}
use synctv.Proxy.Slice.Body.{IsCoherent, get_cache_item-IsSlice, get_cache_item-IsCoherent}
use synctv.Proxy.Slice.Served.{aligned, prepended-some}

-- No call fails: a read inside the source gives a whole slice or the rest.
pub record IsReliable (content : List ℕ) (source : Source) {S : Type 0} (cache : Cache S)
    : Type 0 where
  pub seeks : (offset : ℕ) → source.seek offset ≡ none
  pub reads :
      (offset n : ℕ)
      → offset < length content
      → (d : List ℕ) × ((source.read_full offset n ≡ full d)
          ⊎ ((source.read_full offset n ≡ partial d) × (length content ≡ offset + length d)))
  pub totals : source.total_length ≡ ok (some (length content))
  pub types : (t : String) × (source.media_type ≡ ok t)
  pub gets : (k : ℕ) (s : S) → (found : Option CacheItem) × ((cache.get k s).0 ≡ ok found)
  pub sets : (k : ℕ) (item : CacheItem) (s : S) → (cache.set k item s).0 ≡ ok tt

module _ (content : List ℕ) (source : Source) (is : IsSourceOf content source) {S : Type 0}
    (cache : Cache S) (Holds : (ℕ → CacheItem → Type 0) → S → Type 0) (laws : CacheLaws cache Holds)
    (size : ℕ) (p : 0 < size) (reliable : IsReliable content source cache) where
  total_known : content_total_length source ≡ ok (length content)
  unfolding content_total_length known_length
  total_known = rw reliable.totals refl

  new_item-ok :
      (total : ℕ) (bytes : List ℕ) → (i : CacheItem) × (new_item source total bytes ≡ ok i)
  unfolding new_item
  new_item-ok total bytes =
      let (t, e) = reliable.types in
      (record { bytes = bytes; content_total_length = some total; content_type = t }, rw e refl)

  fetched-ok :
      (offset : ℕ) (r : Read) (d : List ℕ)
      → (r ≡ full d) ⊎ ((r ≡ partial d) × (length content ≡ offset + length d))
      → (i : CacheItem) × (fetched source offset r ≡ ok i)
  unfolding fetched
  fetched-ok offset r d (inl e) =
      let (i, k) = new_item-ok (length content) d in (i, rw (e, fetched, total_known) k)
  fetched-ok offset r d (inr (e, whole)) =
      let (i, k) = new_item-ok (length content) d in
      let same : (length content == offset + length d) ≡ true = ground arith in
      (i, rw (e, fetched, total_known, same) k)

  fetch-ok :
      (offset : ℕ)
      → offset < length content
      → (i : CacheItem) × (fetch_from_source source size offset ≡ ok i)
  unfolding fetch_from_source
  fetch-ok offset h =
      let (d, e) = reliable.reads offset size h in
      let (i, k) = fetched-ok offset (source.read_full offset size) d e in
      (i, rw (fetch_from_source, reliable.seeks offset) k)

  found-ok :
      (offset : ℕ) (found : Option CacheItem) (s : S)
      → offset < length content
      → (x : CacheItem × Bool) × ((found_or_fetched source cache size offset (ok found) s).0 ≡ ok x)
  unfolding found_or_fetched keep_item
  found-ok offset (some i) s h = ((i, true), refl)
  found-ok offset none s h =
      let (i, k) = fetch-ok offset h in
      ((i, false), rw k (rw (keep_item, reliable.sets offset i s) refl))

  get_cache_item-ok :
      (offset : ℕ) (s : S)
      → offset < length content
      → (x : CacheItem × Bool) × ((get_cache_item source cache size offset s).0 ≡ ok x)
  unfolding get_cache_item
  get_cache_item-ok offset s h =
      let (found, e) = reliable.gets offset s in
      let (x, k) = found-ok offset found (cache.get offset s).1 h in (x, rw e k)

  -- A slice is as long as the size or the rest of the source.
  slice_length :
      (offset : ℕ) (item : CacheItem)
      → IsSlice content size offset item
      → length item.bytes ≡ min size (length content - offset)
  slice_length offset item (part, nonempty, total) =
      ap (λ (b : List ℕ). length b) part
      ∙ length-take size (drop offset content)
      ∙ ap (min size) (length-drop offset content)

  slice-ok :
      (rest : ℕ → S → Option (Written S)) (offset remaining : ℕ) (r : Result (CacheItem × Bool))
      (s : S)
      → ((item : CacheItem) (cached : Bool)
          → r ≡ ok (item, cached)
          → IsSlice content size offset item)
      → (x : CacheItem × Bool) × (r ≡ ok x)
      → remaining ≤ length content - offset
      → ((left : ℕ)
          → left < remaining
          → left ≤ length content - (offset + size)
          → (w : List ℕ × S) × (rest left s ≡ some (ok tt, w.0, w.1)))
      → 0 < remaining
      → (w : List ℕ × S) × (write_slice rest remaining r s ≡ some (ok tt, w.0, w.1))
  unfolding write_slice
  slice-ok rest offset remaining (err e) s good (x, k) le more some_left = ground arith
  slice-ok rest offset remaining (ok (item, cached)) s good x le more some_left =
      let is_slice = good item cached refl in
      let n = min (length item.bytes) remaining in
      let len : length item.bytes ≡ min size (length content - offset) =
        slice_length offset item is_slice in
      let (w, e) = more (remaining - n) (omega (arith, is_slice.1)) (omega (arith, len)) in
      ((take n item.bytes ++ w.0, w.1), rw e refl)

  write_slices-ok :
      (fuel offset remaining : ℕ) (s : S)
      → IsCoherent content source is cache Holds laws size p s
      → remaining ≤ fuel
      → remaining ≤ length content - offset
      → (w : List ℕ × S) × (write_slices source cache size fuel offset remaining s
          ≡ some (ok tt, w.0, w.1))
  unfolding write_slices
  write_slices-ok fuel offset zero s h e le = (([], s), refl)
  write_slices-ok zero offset (suc r) s h e le = absurd (omega arith)
  write_slices-ok (suc fuel) offset (suc r) s h e le =
      let got = get_cache_item source cache size offset s in
      slice-ok (λ left t. write_slices source cache size fuel (offset + size) left t) offset (suc r)
        got.0 got.1
        (λ item cached d.
          get_cache_item-IsSlice content source is cache Holds laws size p offset s item cached h d)
        (get_cache_item-ok offset s (omega (arith, le))) le
        (λ left less within.
          write_slices-ok fuel (offset + size) left got.1
            (get_cache_item-IsCoherent content source is cache Holds laws size p offset s h)
            (omega (arith, less, e)) within)
        (omega arith)

  length_inside :
      (start : ℕ) (end : Option ℕ)
      → positive_part (content_length start end (some (length content))) ≤ length content - start
  unfolding content_length
  length_inside start none = ground arith
  length_inside start (some end) = ground arith

  write_response-ok :
      (r : ByteRange) (from : ℕ) (item : CacheItem) (s : S)
      → from ≤ r.start
      → r.start < from + size
      → IsSlice content size from item
      → IsCoherent content source is cache Holds laws size p s
      → (w : List ℕ × S) × (write_response source cache size r from item s ≡ some (ok tt, w.0, w.1))
  unfolding write_response
  write_response-ok r from item s le lt good h =
      let so = r.start - from in
      let l = positive_part (content_length r.start r.end item.content_total_length) in
      let n = min (length item.bytes - so) l in
      let inside : l ≤ length content - r.start =
        subst (λ t. positive_part (content_length r.start r.end t) ≤ length content - r.start)
          (sym good.2) (length_inside r.start r.end) in
      let len : length item.bytes ≡ min size (length content - from) =
        slice_length from item good in
      let (w, e) =
        write_slices-ok l (from + size) (l - n) s h (omega arith)
          (omega (arith, len, inside, le, lt)) in
      (
        (take n (drop so item.bytes) ++ w.0, w.1),
        if_false (ltb r.start from) _ _ (ground arith)
            ∙ prepended-some content source is cache Holds laws size p (take n (drop so item.bytes))
                (write_slices source cache size l (from + size) (l - n) s) (ok tt, w.0, w.1) e,
      )

  respond-ok :
      (r : ByteRange) (b : Bool) (from : ℕ) (item : Result (CacheItem × Bool)) (s : S)
      → from ≤ r.start
      → r.start < from + size
      → ((i : CacheItem) (cached : Bool) → item ≡ ok (i, cached) → IsSlice content size from i)
      → (x : CacheItem × Bool) × (item ≡ ok x)
      → IsCoherent content source is cache Holds laws size p s
      → (w : Response × S) × (respond source cache size r b from item s ≡ some (ok tt, w.0, w.1))
  unfolding respond
  respond-ok r b from (err e) s le lt good (x, k) h = ground arith
  respond-ok r b from (ok (i, cached)) s le lt good x h =
      let (w, e) = write_response-ok r from i s le lt (good i cached refl) h in
      (
        (record (response_headers r i cached b) { body = w.0 }, w.1),
        ap (with_body (response_headers r i cached b)) e,
      )

  -- With a positive slice size, a source that reads its bytes without failing, a cache that does
  -- not fail and gives only what it was given, and slices of that source in it, every request for
  -- a range that starts inside the source gets an answer without an error.
  pub proxy-serves :
      (r : ByteRange) (b : Bool) (s : S)
      → IsCoherent content source is cache Holds laws size p s
      → r.start < length content
      → (w : Response × S) × (proxy source cache size r b s ≡ some (ok tt, w.0, w.1))
  unfolding proxy
  proxy-serves r b s h inside =
      let from = aligned_offset r.start size in
      let got = get_cache_item source cache size from s in
      let (le, lt) = aligned r.start size p in
      respond-ok r b from got.0 got.1 le lt
        (λ i cached d.
          get_cache_item-IsSlice content source is cache Holds laws size p from s i cached h d)
        (get_cache_item-ok from s (omega (arith, le, inside)))
        (get_cache_item-IsCoherent content source is cache Holds laws size p from s h)
