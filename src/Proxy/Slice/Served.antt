-- ===== src/Proxy/Slice/Served.antt =====
-- What the proxy answers to a request for a range.
use synctv.Base.{
  if_true, if_false, ℕ, zero, suc, ◌+◌, ◌-◌, ◌<◌, ◌≤◌, min, Bool, false, Option, none, some, List,
  [], ◌∷◌, ◌++◌, ltb, length, take, drop, if◌then◌else◌, ◌≡◌, refl, sym, ◌∙◌, arith, ap, inl, inr,
  Bool-cases, length-drop,
}
use native.Mathlib.Nat.{mod-add-div', mod-lt}
use synctv.Base.Result.{Result, ok, err}
use synctv.Base.Int.{positive_part}
use synctv.Proxy.Slice.{
  ByteRange, CacheItem, Written, Source, Cache, Response, respond, response_headers, get_cache_item,
  write_slices, write_response, prepend, with_body, proxy, aligned_offset, content_length,
}
use synctv.Proxy.Slice.Range.{IsSourceOf, IsSlice, CacheLaws, take-nil}
use synctv.Proxy.Slice.Body.{
  IsCoherent, write_slices-fuel, write_slices-content, get_cache_item-IsSlice,
  get_cache_item-IsCoherent, prepended, drop-drop, joined,
}

pub drop-take : (a n : ℕ) (xs : List ℕ) → drop a (take n xs) ≡ take (n - a) (drop a xs)
drop-take zero n xs = let e : n - 0 ≡ n = omega arith in rw e refl
drop-take (suc a) zero xs = let e : 0 - suc a ≡ 0 = omega arith in rw e refl
drop-take (suc a) (suc n) [] = sym (take-nil (suc n - suc a))
drop-take (suc a) (suc n) (x ∷ xs) =
    let e : suc n - suc a ≡ n - a = omega arith in rw e (drop-take a n xs)

-- The aligned offset is the start of the slice with the offset.
pub aligned :
    (offset size : ℕ)
    → 0 < size
    → (aligned_offset offset size ≤ offset) × (offset < aligned_offset offset size + size)
unfolding aligned_offset
aligned offset size p = (
  omega (arith, mod-add-div' offset size),
  omega (arith, mod-add-div' offset size, mod-lt offset p),
)

past_test : {A : Type 0} (b : Bool) (x y z : A) → b ≡ false → (if b then x else y) ≡ z → y ≡ z
past_test b x y z f e = ground arith

-- The parts of a range that lie in its first slice and in those that follow.
joined_at :
    (size start from l : ℕ) (content bytes ws : List ℕ)
    → from ≤ start
    → start < from + size
    → drop (start - from) bytes ≡ take (size - (start - from)) (drop start content)
    → ws ≡ take (l - min (length bytes - (start - from)) l) (drop (from + size) content)
    → take (min (length bytes - (start - from)) l) (drop (start - from) bytes) ++ ws
      ≡ take l (drop start content)
joined_at size start from l content bytes ws le lt first rest =
    let so = start - from in
    let there : start + (size - so) ≡ from + size = omega arith in
    let later : drop (from + size) content ≡ drop (size - so) (drop start content) =
      ap (λ k. drop k content) (sym there) ∙ drop-drop start (size - so) content in
    let k : length bytes - so ≡ length (drop so bytes) = sym (length-drop so bytes) in
    rw k (
      joined (size - so) l (drop start content) (drop so bytes) ws first (
        rest
        ∙ ap (λ j. take (l - min j l) (drop (from + size) content)) k
        ∙ ap (take (l - min (length (drop so bytes)) l)) later))

module _ (content : List ℕ) (source : Source) (is : IsSourceOf content source) {S : Type 0}
    (cache : Cache S) (Holds : (ℕ → CacheItem → Type 0) → S → Type 0) (laws : CacheLaws cache Holds)
    (size : ℕ) (p : 0 < size) where
  -- The length of the range.
  abbrev pub range_length : ByteRange → ℕ
  range_length r = positive_part (content_length r.start r.end (some (length content)))

  -- The first slice holds the range up to its end.
  first_slice :
      (start from : ℕ) (bytes : List ℕ)
      → from ≤ start
      → bytes ≡ take size (drop from content)
      → drop (start - from) bytes ≡ take (size - (start - from)) (drop start content)
  first_slice start from bytes le e =
      let there : from + (start - from) ≡ start = omega arith in
      ap (drop (start - from)) e
      ∙ drop-take (start - from) size (drop from content)
      ∙ ap (take (size - (start - from)))
          (sym (drop-drop from (start - from) content) ∙ ap (λ k. drop k content) there)

  write_response-content :
      (r : ByteRange) (from : ℕ) (item : CacheItem) (s s' : S) (written : List ℕ)
      → from ≤ r.start
      → r.start < from + size
      → IsSlice content size from item
      → IsCoherent content source is cache Holds laws size p s
      → write_response source cache size r from item s ≡ some (ok tt, written, s')
      → written ≡ take (range_length r) (drop r.start content)
  unfolding write_response
  write_response-content r from item s s' written le lt (part, nonempty, total) h e =
      let so = r.start - from in
      let l = positive_part (content_length r.start r.end item.content_total_length) in
      let n = min (length item.bytes - so) l in
      let same : l ≡ range_length r =
        ap (λ t. positive_part (content_length r.start r.end t)) total in
      let (ws, d, whole) =
        prepended content source is cache Holds laws size p (take n (drop so item.bytes)) written s'
          (write_slices source cache size l (from + size) (l - n) s)
          (past_test (ltb r.start from) _ _ _ (ground arith) e) in
      let rest : ws ≡ take (l - n) (drop (from + size) content) =
        write_slices-content content source is cache Holds laws size p l (from + size) (l - n) s s'
          ws h d in
      whole
      ∙ joined_at size r.start from l content item.bytes ws le lt
          (first_slice r.start from item.bytes le part) rest
      ∙ ap (λ k. take k (drop r.start content)) same

  pub prepended-some :
      (bytes : List ℕ) (o : Option (Written S)) (w : Written S)
      → o ≡ some w
      → prepend bytes o ≡ some (w.0, bytes ++ w.1, w.2)
  prepended-some bytes o w e = rw e refl

  write_response-returns :
      (r : ByteRange) (from : ℕ) (item : CacheItem) (s : S)
      → IsCoherent content source is cache Holds laws size p s
      → (w : Written S) × (write_response source cache size r from item s ≡ some w)
        × IsCoherent content source is cache Holds laws size p w.2
  unfolding write_response
  write_response-returns r from item s h =
      let so = r.start - from in
      let l = positive_part (content_length r.start r.end item.content_total_length) in
      let n = min (length item.bytes - so) l in
      let (w, e, k) =
        write_slices-fuel content source is cache Holds laws size p l (from + size) (l - n) s h
          (omega arith) in
      elim (Bool-cases (ltb r.start from)) [
        | inl bad ↦ ((_, [], s), if_true _ _ _ bad, h)
        | inr good ↦ (
          (w.0, take n (drop so item.bytes) ++ w.1, w.2),
          if_false (ltb r.start from) _ _ good
              ∙ prepended-some (take n (drop so item.bytes))
                  (write_slices source cache size l (from + size) (l - n) s) w e,
          k,
        )
      ]

  respond-returns :
      (r : ByteRange) (b : Bool) (from : ℕ) (item : Result (CacheItem × Bool)) (s : S)
      → IsCoherent content source is cache Holds laws size p s
      → (w : Result (Unit {0}) × Response × S) × (respond source cache size r b from item s
          ≡ some w)
        × IsCoherent content source is cache Holds laws size p w.2
  unfolding respond
  respond-returns r b from (err x) s h = (_, refl, h)
  respond-returns r b from (ok (item, cached)) s h =
      let (w, e, k) = write_response-returns r from item s h in
      (
        (w.0, record (response_headers r item cached b) { body = w.1 }, w.2),
        ap (with_body (response_headers r item cached b)) e,
        k,
      )

  -- With a positive slice size, a source whose reads are parts of its bytes, a cache that gives
  -- only what it was given, and slices of that source in it, every request gets an answer, with
  -- an error or not, and the cache still holds slices of that source.
  pub proxy-returns :
      (r : ByteRange) (b : Bool) (s : S)
      → IsCoherent content source is cache Holds laws size p s
      → (w : Result (Unit {0}) × Response × S) × (proxy source cache size r b s ≡ some w)
        × IsCoherent content source is cache Holds laws size p w.2
  unfolding proxy
  proxy-returns r b s h =
      let from = aligned_offset r.start size in
      let got = get_cache_item source cache size from s in
      respond-returns r b from got.0 got.1
        (get_cache_item-IsCoherent content source is cache Holds laws size p from s h)

  bodied :
      (headers response : Response) (s' : S) (o : Option (Written S))
      → with_body headers o ≡ some (ok tt, response, s')
      → (ws : List ℕ) × (o ≡ some (ok tt, ws, s'))
        × (response.body ≡ ws)
        × (response.content_length ≡ headers.content_length)
  bodied headers response s' none e = ground arith
  bodied headers response s' (some (x, ws, t)) e = (ws, ground arith, ground arith, ground arith)

  respond-range :
      (r : ByteRange) (b : Bool) (from : ℕ) (item : Result (CacheItem × Bool)) (s s' : S)
      (response : Response)
      → from ≤ r.start
      → r.start < from + size
      → ((i : CacheItem) (cached : Bool) → item ≡ ok (i, cached) → IsSlice content size from i)
      → IsCoherent content source is cache Holds laws size p s
      → respond source cache size r b from item s ≡ some (ok tt, response, s')
      → (response.body ≡ take (range_length r) (drop r.start content))
        × (response.content_length ≡ content_length r.start r.end (some (length content)))
  unfolding respond response_headers
  respond-range r b from (err x) s s' response le lt good h e = ground arith
  respond-range r b from (ok (item, cached)) s s' response le lt good h e =
      let (part, nonempty, total) = good item cached refl in
      let (ws, d, body, length_is) =
        bodied (response_headers r item cached b) response s'
          (write_response source cache size r from item s) e in
      (
        body ∙ write_response-content r from item s s' ws le lt (part, nonempty, total) h d,
        length_is ∙ ap (content_length r.start r.end) total,
      )

  pub proxied :
      (r : ByteRange) (b : Bool) (s s' : S) (response : Response)
      → IsCoherent content source is cache Holds laws size p s
      → proxy source cache size r b s ≡ some (ok tt, response, s')
      → (response.body ≡ take (range_length r) (drop r.start content))
        × (response.content_length ≡ content_length r.start r.end (some (length content)))
  unfolding proxy
  proxied r b s s' response h e =
      let from = aligned_offset r.start size in
      let got = get_cache_item source cache size from s in
      let (le, lt) = aligned r.start size p in
      respond-range r b from got.0 got.1 s' response le lt
        (λ i cached d.
          get_cache_item-IsSlice content source is cache Holds laws size p from s i cached h d)
        (get_cache_item-IsCoherent content source is cache Holds laws size p from s h) e
