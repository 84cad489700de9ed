-- ===== src/Proxy/Slice/Answer.antt =====
-- The answer of the proxy is the range that was asked for.
use synctv.Base.{
  ℕ, zero, suc, ◌+◌, ◌-◌, ◌<◌, ◌≤◌, Bool, Option, none, some, List, [], ◌∷◌, leb, length, take,
  drop, ◌≡◌, ◌⊎◌, sym, ◌∙◌, arith, ap, inl, inr, Bool-cases, length-take, length-drop,
}
use synctv.Base.Result.{ok}
use synctv.Base.Int.{pos, diff, positive_part}
use synctv.Proxy.Slice.{ByteRange, CacheItem, Source, Cache, Response, proxy, content_length}
use synctv.Proxy.Slice.Range.{IsSourceOf, CacheLaws, take-nil}
use synctv.Proxy.Slice.Body.{IsCoherent}
use synctv.Proxy.Slice.Served.{proxied, drop-take}

-- The end of the range that is asked for: after its last byte, or that of the source.
abbrev pub stop : List ℕ → Option ℕ → ℕ
stop content none = length content
stop content (some end) = end + 1

-- The bytes that are asked for.
abbrev pub asked : List ℕ → ByteRange → List ℕ
asked content r = drop r.start (take (stop content r.end) content)

take-all : (n : ℕ) (xs : List ℕ) → length xs ≤ n → take n xs ≡ xs
take-all n [] h = take-nil n
take-all zero (x ∷ xs) h = absurd (omega arith)
take-all (suc n) (x ∷ xs) h = ap (◌∷◌ x) (take-all n xs (omega arith))

-- Both take all of the rest or as much of it.
take-same :
    (m n : ℕ) (xs : List ℕ) → (m ≡ n) ⊎ ((length xs ≤ m) × (length xs ≤ n)) → take m xs ≡ take n xs
take-same m n xs (inl e) = ap (λ k. take k xs) e
take-same m n xs (inr (a, b)) = take-all m xs a ∙ sym (take-all n xs b)

part-diff : (a b : ℕ) → positive_part (diff a b) ≡ a - b
part-diff a b = elim (Bool-cases (leb b a)) [ inl e ↦ ground arith | inr e ↦ ground arith ]

-- The length that the code computes takes as much of the rest as the range has.
length_taken :
    (start : ℕ) (end : Option ℕ) (content : List ℕ)
    → let n = positive_part (content_length start end (some (length content))) in
      (n ≡ stop content end - start)
      ⊎ ((length content - start ≤ n) × (length content - start ≤ stop content end - start))
unfolding content_length
length_taken start none content = inl (part-diff (length content) start)
length_taken start (some end) content = elim (Bool-cases (leb (length content) end)) [
  | inl past ↦ inr (ground (arith, part-diff (length content) start), ground arith)
  | inr inside ↦ inl (ground (arith, part-diff (end + 1) start))
]

length_asked :
    (start : ℕ) (end : Option ℕ) (content : List ℕ)
    → take (positive_part (content_length start end (some (length content)))) (drop start content)
      ≡ drop start (take (stop content end) content)
length_asked start end content =
    take-same _ (stop content end - start) (drop start content)
      (rw (length-drop start content) (length_taken start end content))
    ∙ sym (drop-take start (stop content end) content)

-- Within the source, the length is not negative.
length_within :
    (start : ℕ) (end : Option ℕ) (content : List ℕ)
    → start < length content
    → start < stop content end
    → content_length start end (some (length content))
      ≡ pos (length (drop start (take (stop content end) content)))
unfolding content_length
length_within start none content h k =
    ground (
      arith,
      length-drop start (take (length content) content),
      length-take (length content) content,
    )
length_within start (some end) content h k =
    ground (arith, length-drop start (take (end + 1) content), length-take (end + 1) content)

module _ (content : List ℕ) (source : Source) (is : IsSourceOf content source) {S : Type 0}
    (cache : Cache S) (Holds : (ℕ → CacheItem → Type 0) → S → Type 0) (laws : CacheLaws cache Holds)
    (size : ℕ) (p : 0 < size) where
  -- With a positive slice size, a source whose reads are parts of its bytes, a cache that gives
  -- only what it was given, and slices of that source in it, an answer without an error has as
  -- its body exactly the bytes of the source from the start of the range to its end, or to the
  -- end of the source.
  pub proxy-asked :
      (r : ByteRange) (b : Bool) (s s' : S) (response : Response)
      → IsCoherent content source is cache Holds laws size p s
      → proxy source cache size r b s ≡ some (ok tt, response, s')
      → response.body ≡ asked content r
  proxy-asked r b s s' response h e =
      (proxied content source is cache Holds laws size p r b s s' response h e).0
      ∙ length_asked r.start r.end content

  -- With a positive slice size, a source whose reads are parts of its bytes, a cache that gives
  -- only what it was given, and slices of that source in it, the headers of an answer without an
  -- error give the length of its body, if the range starts inside the source and does not end
  -- before it starts.
  pub proxy-content_length :
      (r : ByteRange) (b : Bool) (s s' : S) (response : Response)
      → IsCoherent content source is cache Holds laws size p s
      → r.start < length content
      → r.start < stop content r.end
      → proxy source cache size r b s ≡ some (ok tt, response, s')
      → response.content_length ≡ pos (length response.body)
  proxy-content_length r b s s' response h inside ordered e =
      (proxied content source is cache Holds laws size p r b s s' response h e).1
      ∙ length_within r.start r.end content inside ordered
      ∙ sym (ap (λ k. pos (length k)) (proxy-asked r b s s' response h e))
