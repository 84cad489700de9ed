-- ===== src/Proxy/Header.antt =====
-- server/handlers/proxy/slice.go and readseeker.go: the headers `Range` and `Content-Range`, as
-- the proxy reads and writes them. -1 is `none` where the code never prints it; the texts of the
-- errors are without the header that they quote.
pub mod Parsed
pub mod Printed
use synctv.Base.{
  ℕ, ◌+◌, ◌-◌, ◌<◌, Bool, true, false, ◌&&◌, Option, none, some, List, [], ◌∷◌, ◌++◌, ltb,
  if◌then◌else◌,
}
use synctv.Base.Result.{Error, failure, Result, ok, err}
use synctv.Base.Int.{ℤ, pos, negsuc, diff}
use synctv.Base.Text.{
  Text, codes, texts_eq, is_empty, has_prefix, trim_prefix, contains, split, trim_space, decimal,
  format_int, parse_int,
}
use synctv.Proxy.Slice.{ByteRange}

abbrev pub hyphen : ℕ
hyphen = b'-'

abbrev slash : ℕ
slash = b'/'

-- One value of the header: 0 or more.
unfoldable pub parse_value : Text → Result ℕ
parse_value s = elim (parse_int s) [
  | none ↦ err (failure "failed to parse range value")
  | some (pos n) ↦ ok n
  | some (negsuc n) ↦ err (failure "range value must be non-negative")
]

-- The end of the range, with the test that the start is not beyond it.
unfoldable pub parse_end : ℕ → Text → Result ByteRange
unfolding parse_value
parse_end start [] = ok (record { start = start; end = none })
parse_end start (c ∷ s) = elim (parse_value (c ∷ s)) [
  | err e ↦ err e
  | ok end ↦
      if ltb end start
      then err (failure "range start value cannot be greater than end value")
      else ok (record { start = start; end = some end })
]

unfoldable pub parse_bounds : Text → Text → Result ByteRange
unfolding parse_end
parse_bounds [] [] = err (failure "range header cannot have empty start and end values")
parse_bounds [] (d ∷ t) = parse_end 0 (d ∷ t)
parse_bounds (c ∷ s) t = elim (parse_value (c ∷ s)) [ err e ↦ err e | ok start ↦ parse_end start t ]

unfoldable pub parse_parts : List Text → Result ByteRange
unfolding parse_bounds
parse_parts (s ∷ t ∷ []) = parse_bounds (trim_space s) (trim_space t)
parse_parts parts = err (failure "range header must contain exactly one hyphen (-) separator")

unfoldable pub parse_byte_range : Text → Result ByteRange
unfolding parse_parts
parse_byte_range r =
    if is_empty r
    then ok (record { start = 0; end = none })
    else if has_prefix r (codes "bytes=")
    then if contains r b','
      then err (failure "not support multi-range")
      else parse_parts (split (trim_prefix r (codes "bytes=")) hyphen)
    else err (failure "range header must start with 'bytes='")

-- What `createRequest` asks its source for.
unfoldable pub range_value : ℕ → ℕ → Text
range_value offset end = codes "bytes=" ++ (decimal offset ++ hyphen ∷ decimal end)

-- The end of the request, at most the last byte of a known length.
unfoldable pub request_end : ℕ → ℕ → ℕ → ℕ
request_end offset per_length total =
    let end : ℕ = offset + per_length - 1 in
    if ltb 0 total && ltb (total - 1) end then total - 1 else end

-- The length, or a star where it is not known.
abbrev pub total_text : Option ℕ → Text
total_text none = b'*' ∷ []
total_text (some total) = decimal total

unfoldable pub range_text : ℕ → ℤ → Option ℕ → Text
range_text start end total =
    codes "bytes " ++ (decimal start ++ hyphen ∷ (format_int end ++ slash ∷ total_text total))

unfoldable pub fmt_content_range : ℕ → Option ℕ → Option ℕ → Text
unfolding range_text
fmt_content_range start none none = codes "bytes */*"
fmt_content_range start none (some total) = range_text start (diff total 1) (some total)
fmt_content_range start (some end) total = range_text start (pos end) total

unfoldable pub content_range_end : Text → Option ℤ
content_range_end s =
    if is_empty s
    then some (negsuc 0)
    else if texts_eq s (b'*' ∷ [])
    then some (negsuc 0)
    else parse_int s

unfoldable pub content_range_ends : List Text → Result (ℤ × ℤ)
unfolding content_range_end
content_range_ends (s ∷ t ∷ []) = elim (parse_int (trim_space s)) [
  | none ↦ err (failure "invalid Content-Range start value")
  | some start ↦ elim (content_range_end (trim_space t)) [
    | none ↦ err (failure "invalid Content-Range end value")
    | some end ↦ ok (start, end)
  ]
]
content_range_ends parts = err (failure "invalid Content-Range range format (expected start-end)")

unfoldable pub two_parts : List Text → Result (Text × Text)
two_parts (s ∷ t ∷ []) = ok (s, t)
two_parts parts =
    err (failure "invalid Content-Range header format (expected 2 parts separated by '/')")

-- What both parsers of `Content-Range` do first: the texts before and after the slash.
unfoldable pub content_range_parts : Text → Result (Text × Text)
unfolding two_parts
content_range_parts r =
    if is_empty r
    then err (failure "Content-Range header is empty")
    else if has_prefix r (codes "bytes ")
    then two_parts (split (trim_prefix r (codes "bytes ")) slash)
    else err (failure "invalid Content-Range header format (expected 'bytes ' prefix)")

unfoldable pub parse_content_range_start_and_end : Text → Result (ℤ × ℤ)
unfolding content_range_parts content_range_ends
parse_content_range_start_and_end r = elim (content_range_parts r) [
  | err e ↦ err e
  | ok (range, total) ↦ content_range_ends (split (trim_space range) hyphen)
]

unfoldable pub content_range_total : Text → Result ℤ
content_range_total s =
    if is_empty s
    then ok (negsuc 0)
    else if texts_eq s (b'*' ∷ [])
    then ok (negsuc 0)
    else elim (parse_int (trim_space s)) [
      | none ↦ err (failure "invalid Content-Range total length value")
      | some (pos n) ↦ ok (pos n)
      | some (negsuc n) ↦ err (failure "Content-Range total length cannot be negative")
    ]

unfoldable pub parse_content_range_total_length : Text → Result ℤ
unfolding content_range_parts content_range_total
parse_content_range_total_length r = elim (content_range_parts r) [
  | err e ↦ err e
  | ok (range, total) ↦ content_range_total total
]
