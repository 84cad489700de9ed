-- ===== src/Proxy/Request/Served.antt =====
-- Requests through the cache in memory.
use synctv.Base.{ℕ, ◌<◌, not, Option, some, List, [], ◌∷◌, ◌≡◌, refl, ap, ◌∙◌, inl, inr}
use synctv.Base.Result.{Error, wrapped, Result, ok, err, Result-cases}
use synctv.Base.Text.{Text, is_empty}
use synctv.Proxy.Slice.{ByteRange, CacheItem, Source, Cache, Response, proxy, no_response}
use synctv.Proxy.Slice.Range.{IsSourceOf, IsSlice, CacheLaws}
use synctv.Proxy.Slice.Body.{IsCoherent}
use synctv.Proxy.Slice.Served.{proxy-returns}
use synctv.Proxy.Slice.Answer.{asked, proxy-asked}
use synctv.Proxy.Header.{parse_byte_range}
use synctv.Proxy.Memory.{Dllist, MemoryCache, new_memory_cache}
use synctv.Proxy.Memory.Entries.{Entries, DllistLaws, item_of}
use synctv.Proxy.Memory.Invariant.{new-IsValid}
use synctv.Proxy.Request.{cache_key, memory_cache, proxy_range, proxy_request, proxy_requests}
use synctv.Proxy.Request.Stored.{Holds, memory-CacheLaws}

-- What a client may rely on: a header that is no range has the status 400, and an answer without an
-- error has as its body the bytes that its header asks for.
pub record IsAnswered (content : List ℕ) (header : Text) (answer : Result (Unit {0}) × Response)
    : Type 0 where
  pub refused : (e : Error) → parse_byte_range header ≡ err e → answer.1.status ≡ 400
  pub served :
      (r : ByteRange)
      → parse_byte_range header ≡ ok r
      → answer.0 ≡ ok tt
      → answer.1.body ≡ asked content r

abbrev pub AllAnswered : List ℕ → List Text → List (Result (Unit {0}) × Response) → Type 0
AllAnswered content [] [] = Unit {0}
AllAnswered content [] (a ∷ rest) = ⊥
AllAnswered content (h ∷ hs) [] = ⊥
AllAnswered content (h ∷ hs) (a ∷ rest) = IsAnswered content h a × AllAnswered content hs rest

module _ (content : List ℕ) (source : Source) (is : IsSourceOf content source) {S : Type 0}
    (cache : Cache S) (Holds : (ℕ → CacheItem → Type 0) → S → Type 0) (laws : CacheLaws cache Holds)
    (size : ℕ) (p : 0 < size) where
  refused_request :
      (header : Text) (e : Error) (s : S)
      → parse_byte_range header ≡ err e
      → proxy_request source cache size header s
        ≡ some ((err (wrapped "failed to parse Range header: " e), no_response 400), s)
  unfolding proxy_request proxy_range
  refused_request header e s a = ap (λ x. proxy_range source cache size header x s) a

  ranged_request :
      (header : Text) (r : ByteRange) (s s' : S) (result : Result (Unit {0})) (response : Response)
      → parse_byte_range header ≡ ok r
      → proxy source cache size r (not (is_empty header)) s ≡ some (result, response, s')
      → proxy_request source cache size header s ≡ some ((result, response), s')
  unfolding proxy_request proxy_range
  ranged_request header r s s' result response a b =
      ap (λ x. proxy_range source cache size header x s) a ∙ rw (b, proxy_range) refl

  served_range :
      (header : Text) (r : ByteRange) (s s' : S) (result : Result (Unit {0})) (response : Response)
      → IsCoherent content source is cache Holds laws size p s
      → parse_byte_range header ≡ ok r
      → proxy source cache size r (not (is_empty header)) s ≡ some (result, response, s')
      → IsAnswered content header (result, response)
  served_range header r s s' result response h a b = record {
    refused = λ e f. absurd (cc (a, f));
    served = λ q f done.
        let same : r ≡ q = cc (a, f) in
        proxy-asked content source is cache Holds laws size p r (not (is_empty header)) s s'
          response h (b ∙ ap (λ x. some (x, response, s')) done)
        ∙ ap (asked content) same;
  }

  request-IsAnswered :
      (header : Text) (s : S)
      → IsCoherent content source is cache Holds laws size p s
      → (w : (Result (Unit {0}) × Response) × S) × (proxy_request source cache size header s
          ≡ some w)
        × IsAnswered content header w.0
        × IsCoherent content source is cache Holds laws size p w.1
  request-IsAnswered header s h = elim (Result-cases (parse_byte_range header)) [
    | inr (e, a) ↦ (
      ((err (wrapped "failed to parse Range header: " e), no_response 400), s),
      refused_request header e s a,
      record { refused = λ x f. refl; served = λ r f done. absurd (cc (a, f)) },
      h,
    )
    | inl (r, a) ↦
        let (w, b, k) =
          proxy-returns content source is cache Holds laws size p r (not (is_empty header)) s h in
        (
          ((w.0, w.1), w.2),
          ranged_request header r s w.2 w.0 w.1 a b,
          served_range header r s w.2 w.0 w.1 h a b,
          k,
        )
  ]

  pub requests-AllAnswered :
      (headers : List Text) (s : S)
      → IsCoherent content source is cache Holds laws size p s
      → (w : List (Result (Unit {0}) × Response) × S) × (proxy_requests source cache size headers s
          ≡ some w)
        × AllAnswered content headers w.0
        × IsCoherent content source is cache Holds laws size p w.1
  unfolding proxy_requests
  requests-AllAnswered [] s h = (([], s), refl, tt, h)
  requests-AllAnswered (x ∷ xs) s h =
      let (w, a, b, k) = request-IsAnswered x s h in
      let (rest, c, d, l) = requests-AllAnswered xs w.1 k in
      ((w.0 ∷ rest.0, rest.1), rw (a, proxy_requests, c) refl, (b, d), l)

module _ (content : List ℕ) (source : Source) (is : IsSourceOf content source) {L : Type 0}
    (list : Dllist L) (view : L → Entries) (laws : DllistLaws list view)
    (metadata : CacheItem → Option (List ℕ)) where
  -- With a source whose reads are parts of its bytes, a list that follows its library's
  -- documentation and a positive slice size, any requests one after the other through a new cache
  -- in memory, of any capacity and size, all get an answer: a header that is no range has the
  -- status 400, and an answer without an error has as its body exactly the bytes that the header
  -- asks for, whatever was cached and evicted before.
  pub memory-AllAnswered :
      (hash : Text) (size capacity max_size : ℕ) (headers : List Text)
      → 0 < size
      → (w : List (Result (Unit {0}) × Response) × MemoryCache L) × (proxy_requests source
            (memory_cache list metadata hash size)
            size
            headers
            (new_memory_cache list capacity max_size)
          ≡ some w)
        × AllAnswered content headers w.0
  unfolding new_memory_cache
  memory-AllAnswered hash size capacity max_size headers p =
      let cache = memory_cache list metadata hash size in
      let rules = memory-CacheLaws list view laws metadata hash size in
      let start = new_memory_cache list capacity max_size in
      let nothing : Holds list view laws metadata hash size (IsSlice content size) start = record {
        valid = new-IsValid list view laws capacity max_size;
        all =
            λ offset item e. absurd (cc (ap (item_of (cache_key hash size offset)) laws.new_is, e));
      } in
      let (w, a, b, k) =
        requests-AllAnswered content source is cache (Holds list view laws metadata hash size) rules
          size p headers start nothing in
      (w, a, b)
