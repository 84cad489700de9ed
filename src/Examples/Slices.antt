-- ===== src/Examples/Slices.antt =====
-- The theorems on the proxy at a source of five bytes, a cache that is a map, and slices of two.
use synctv.Base.{
  ℕ, ◌+◌, true, false, Option, none, some, List, [], ◌∷◌, leb, ltb, ◌==◌, length, take, drop,
  if◌then◌else◌, ◌≡◌, refl, arith, inl, inr, Bool-cases, length-take, length-drop, ◌<◌, ◌-◌, ◌∙◌,
  sym, ap,
}
use synctv.Base.Result.{Result, ok}
use synctv.Base.Int.{pos}
use synctv.Proxy.Slice.{
  ByteRange, CacheItem, Read, full, partial, at_end, Source, Cache, Response, proxy, aligned_offset,
  get_cache_item, found_or_fetched, keep_item, fetch_from_source, fetched, new_item,
  content_total_length, known_length, respond, write_response, write_slices, write_slice,
  content_length, response_headers,
}
use synctv.Proxy.Slice.Range.{IsSourceOf, CacheLaws, take-all}
use synctv.Proxy.Slice.Body.{IsCoherent}
use synctv.Proxy.Slice.Served.{proxy-returns}
use synctv.Proxy.Slice.Reliable.{IsReliable, proxy-serves}
use synctv.Proxy.Slice.Answer.{asked, proxy-asked, proxy-content_length}

abbrev pub letters : List ℕ
letters = 10 ∷ 11 ∷ 12 ∷ 13 ∷ 14 ∷ []

unfoldable pub read_letters : ℕ → ℕ → Read
read_letters offset n =
    if leb (offset + n) (length letters)
    then full (take n (drop offset letters))
    else if ltb offset (length letters)
    then partial (take n (drop offset letters))
    else at_end

abbrev pub source : Source
source = record {
  seek = λ o. none;
  read_full = read_letters;
  total_length = ok (some 5);
  media_type = ok "video/mp4";
}

read_letters-partial :
    (offset n : ℕ) (d : List ℕ)
    → read_letters offset n ≡ partial d
    → (d ≡ take (length d) (drop offset letters)) × (0 < length d) × (length d < n)
unfolding read_letters
read_letters-partial offset n d e =
    let parts : (d ≡ take n (drop offset letters)) × (offset < 5) × (5 < offset + n) =
      ground arith in
    let rest : length (drop offset letters) ≡ 5 - offset =
      omega (arith, length-drop offset letters) in
    let whole = take-all n (drop offset letters) (omega arith) in
    let same : d ≡ drop offset letters = parts.0 ∙ whole in
    let count : length d ≡ 5 - offset = ap length same ∙ rest in
    (same ∙ sym (take-all (length d) (drop offset letters) (omega arith)), omega arith, omega arith)

pub source-IsSourceOf : IsSourceOf letters source
unfolding read_letters
source-IsSourceOf = record {
  full_is = λ offset n d e.
      ground (arith, length-take n (drop offset letters), length-drop offset letters);
  partial_is = λ offset n d e. read_letters-partial offset n d e;
  total_is = λ t e. ground arith;
}

abbrev Items : Type 0
Items = ℕ → Option CacheItem

abbrev cache : Cache Items
cache = record {
  get = λ k s. (ok (s k), s);
  set = λ k item s. (ok tt, λ j. if j == k then some item else s j);
}

abbrev Holds : (ℕ → CacheItem → Type 0) → Items → Type 0
Holds P s = (k : ℕ) (item : CacheItem) → s k ≡ some item → P k item

cache-CacheLaws : CacheLaws cache Holds
cache-CacheLaws = record {
  get_holds = λ P k s h. h;
  get_is = λ P k s item h e. h k item (ground arith);
  set_holds = λ P k item s h p j i e. elim (Bool-cases (j == k)) [
    | inl hit ↦
        let same : j ≡ k = ground arith in
        let stored : item ≡ i = ground arith in rw (same, ← stored) p
    | inr miss ↦ h j i (ground arith)
  ];
}

abbrev request : ByteRange
request = record { start = 1; end = some 3 }

abbrev item : List ℕ → CacheItem
item bytes = record { bytes = bytes; content_total_length = some 5; content_type = "video/mp4" }

abbrev empty : Items
empty k = none

abbrev filled : Items
filled j =
    if j == 2
    then some (item (12 ∷ 13 ∷ []))
    else if j == 0
    then some (item (10 ∷ 11 ∷ []))
    else none

abbrev response : Response
response = record {
  status = 206;
  hit = false;
  content_length = pos 3;
  content_type = "video/mp4";
  body = 11 ∷ 12 ∷ 13 ∷ [];
}

empty-Holds : (P : ℕ → CacheItem → Type 0) → Holds P empty
empty-Holds P k i e = ground arith

served : proxy source cache 2 request true empty ≡ some (ok tt, response, filled)
unfolding proxy aligned_offset get_cache_item found_or_fetched keep_item fetch_from_source fetched
    new_item content_total_length known_length respond write_response write_slices write_slice
    content_length response_headers read_letters
served = refl

proxy-returns_example :
    (w : Result (Unit {0}) × Response × Items) × (proxy source cache 2 request true empty ≡ some w)
    × IsCoherent letters source source-IsSourceOf cache Holds cache-CacheLaws 2 (omega arith) w.2
proxy-returns_example =
    proxy-returns letters source source-IsSourceOf cache Holds cache-CacheLaws 2 (omega arith)
      request true empty (empty-Holds _)

proxy-asked_example : response.body ≡ asked letters request
proxy-asked_example =
    proxy-asked letters source source-IsSourceOf cache Holds cache-CacheLaws 2 (omega arith) request
      true empty filled response (empty-Holds _) served

proxy-content_length_example : response.content_length ≡ pos (length response.body)
proxy-content_length_example =
    proxy-content_length letters source source-IsSourceOf cache Holds cache-CacheLaws 2
      (omega arith) request true empty filled response (empty-Holds _) (omega arith) (omega arith)
      served

cache-IsReliable : IsReliable letters source cache
unfolding read_letters
cache-IsReliable = record {
  seeks = λ o. refl;
  reads = λ o n h. elim (Bool-cases (leb (o + n) 5)) [
    | inl whole ↦ (take n (drop o letters), inl (ground arith))
    | inr part ↦ (
      take n (drop o letters),
      inr (
        ground (arith, h),
        ground (arith, length-take n (drop o letters), length-drop o letters),
      ),
    )
  ];
  totals = refl;
  types = ("video/mp4", refl);
  gets = λ k s. (s k, refl);
  sets = λ k i s. refl;
}

proxy-serves_example :
    (w : Response × Items) × (proxy source cache 2 request true empty ≡ some (ok tt, w.0, w.1))
proxy-serves_example =
    proxy-serves letters source source-IsSourceOf cache Holds cache-CacheLaws 2 (omega arith)
      cache-IsReliable request true empty (empty-Holds _) (omega arith)
