-- ===== src/Proxy/Stored/RoundTrip.antt =====
-- What is written is read back.
use mathlib.Core.List.{append_assoc}
use synctv.Base.{
  ℕ, ◌+◌, ◌^◌, ◌<◌, Bool, false, Option, none, some, List, [], ◌++◌, ltb, leb, ◌==◌, ◌||◌, length,
  length-append, take-append, drop-append, String, ◌≡◌, refl, arith, ap, sym, ◌∙◌,
}
use synctv.Base.Result.{Error, Result, ok, err, M, ◌>>=◌}
use synctv.Proxy.Stored.{
  StoredItem, Writer, Written, big_endian, write_part, write_parts, write_to, read_word, read_full,
  read_data, read_json, read_metadata, read_from, set_bytes,
}
use synctv.Proxy.Stored.Words.{length-big_endian, word_value-big_endian}

-- A writer that takes all it is given.
abbrev pub TakesAll : Writer → Type 0
TakesAll w = (call : ℕ) (part : List ℕ) → w call part ≡ none

-- The bytes of an item.
abbrev pub encoded : List ℕ → List ℕ → List ℕ
encoded json bytes = big_endian 8 (length json) ++ (json ++ (big_endian 8 (length bytes) ++ bytes))

module _ {Metadata : Type 0} where
  read_full-part :
      (text : String) (n : ℕ) (part rest : List ℕ) (i : StoredItem Metadata) (r : ℕ)
      → length part ≡ n
      → read_full text n (record { item = i; left = part ++ rest; read = r })
        ≡ (ok part, record { item = i; left = rest; read = r + n })
  unfolding read_full
  read_full-part text n part rest i r e =
      let enough : ltb (length (part ++ rest)) n ≡ false =
        ground (arith, length-append part rest) in
      rw (enough, take-append n part rest e, drop-append n part rest e) refl

  read_word-word :
      (text : String) (n : ℕ) (rest : List ℕ) (i : StoredItem Metadata) (r : ℕ)
      → n < 2 ^ 64
      → read_word text (record { item = i; left = big_endian 8 n ++ rest; read = r })
        ≡ (ok n, record { item = i; left = rest; read = r + 8 })
  unfolding read_word
  read_word-word text n rest i r h =
      let word = big_endian 8 n in
      let size = length-big_endian 8 n in
      let enough : ltb (length (word ++ rest)) 8 ≡ false =
        ground (arith, length-append word rest) in
      rw
        (
          enough,
          take-append 8 word rest size,
          drop-append 8 word rest size,
          word_value-big_endian n h,
        )
        refl

write_part-all :
    (w : Writer) (call : ℕ) (text : String) (counted : Bool) (part : List ℕ)
    (next : Written → Written) (s : Written)
    → TakesAll w
    → write_part w call text counted part next s
      ≡ next (record s { output = s.output ++ part; written = s.written + length part })
unfolding write_part
write_part-all w call text counted part next s all = rw (all call part, write_part) refl

flat : (a b c d : List ℕ) → (((([] ++ a) ++ b) ++ c) ++ d) ≡ a ++ (b ++ (c ++ d))
flat a b c d = simp append_assoc

same_written :
    (a b : List ℕ) (m n : ℕ)
    → a ≡ b
    → m ≡ n
    → ◌≡◌ {A = Written}
        (record { output = a; written = m; error = none })
        (record { output = b; written = n; error = none })
same_written a b m n p q = λ i. record { output = p i; written = q i; error = none }

length-encoded :
    (json bytes : List ℕ)
    → length (encoded json bytes)
      ≡ 0
        + length (big_endian 8 (length json))
        + length json
        + length (big_endian 8 (length bytes))
        + length bytes
length-encoded json bytes = omega (
  arith,
  length-append (big_endian 8 (length json)) (json ++ (big_endian 8 (length bytes) ++ bytes)),
  length-append json (big_endian 8 (length bytes) ++ bytes),
  length-append (big_endian 8 (length bytes)) bytes,
)

module _ {Metadata : Type 0} (marshal : Metadata → Result (List ℕ)) where
  write_to-encoded :
      (w : Writer) (m : Metadata) (json bytes : List ℕ)
      → TakesAll w
      → marshal m ≡ ok json
      → write_to marshal w (record { metadata = some m; bytes = bytes }) ≡ record {
        output = encoded json bytes;
        written = length (encoded json bytes);
        error = none;
      }
  unfolding write_to write_parts
  write_to-encoded w m json bytes all e =
      let a = big_endian 8 (length json) in
      let b = big_endian 8 (length bytes) in
      rw (e, write_to)
        (write_part-all w 0 _ _ a _ _ all
          ∙ write_part-all w 1 _ _ json _ _ all
          ∙ write_part-all w 2 _ _ b _ _ all
          ∙ write_part-all w 3 _ _ bytes _ _ all
          ∙ same_written _ _ _ _ (flat a json b bytes) (sym (length-encoded json bytes)))

abbrev bind_rest : {S A B : Type 0} → (A → M S B) → Result A × S → Result B × S
bind_rest f p = elim p.0 [ ok a ↦ f a p.1 | err e ↦ (err e, p.1) ]

bind_ok :
    {S A B : Type 0} (m : M S A) (f : A → M S B) (s t : S) (a : A)
    → m s ≡ (ok a, t)
    → (m >>= f) s ≡ f a t
bind_ok m f s t a e = ap (bind_rest f) e

module _ {Metadata : Type 0} (unmarshal : List ℕ → Metadata × Option Error) where
  read_data-part :
      (bytes rest : List ℕ) (i : StoredItem Metadata) (r : ℕ)
      → length bytes < 2 ^ 63
      → read_data unmarshal (length bytes) (record { item = i; left = bytes ++ rest; read = r }) ≡ (
        ok tt,
        record {
          item = record { metadata = i.metadata; bytes = bytes };
          left = rest;
          read = r + length bytes;
        },
      )
  unfolding read_data
  read_data-part bytes rest i r h =
      let short : leb (2 ^ 63) (length bytes) ≡ false = ground arith in
      rw short (
        bind_ok (read_full "failed to read data bytes: " (length bytes)) set_bytes _ _ bytes
          (read_full-part "failed to read data bytes: " (length bytes) bytes rest _ r refl))

  read_json-part :
      (m : Metadata) (json bytes rest : List ℕ) (i : StoredItem Metadata) (r : ℕ)
      → unmarshal json ≡ (m, none)
      → length bytes < 2 ^ 63
      → read_json unmarshal json
          (record { item = i; left = big_endian 8 (length bytes) ++ (bytes ++ rest); read = r })
        ≡ (
          ok tt,
          record {
            item = record { metadata = some m; bytes = bytes };
            left = rest;
            read = r + 8 + length bytes;
          },
        )
  unfolding read_json
  read_json-part m json bytes rest i r e h = rw e (
      bind_ok (read_word "failed to read data length: ") (read_data unmarshal) _ _ (length bytes) (
        read_word-word "failed to read data length: " (length bytes) (bytes ++ rest)
          (record { metadata = some m; bytes = i.bytes }) r (omega arith))
      ∙ read_data-part bytes rest (record { metadata = some m; bytes = i.bytes }) (r + 8) h)

  read_metadata-part :
      (m : Metadata) (json bytes rest : List ℕ) (i : StoredItem Metadata) (r : ℕ)
      → unmarshal json ≡ (m, none)
      → 0 < length json
      → length json < 2 ^ 63
      → length bytes < 2 ^ 63
      → read_metadata unmarshal (length json) (record {
        item = i;
        left = json ++ (big_endian 8 (length bytes) ++ (bytes ++ rest));
        read = r;
      })
        ≡ (
          ok tt,
          record {
            item = record { metadata = some m; bytes = bytes };
            left = rest;
            read = r + length json + 8 + length bytes;
          },
        )
  unfolding read_metadata
  read_metadata-part m json bytes rest i r e pos fits h =
      let positive : (length json == 0 || leb (2 ^ 63) (length json)) ≡ false = ground arith in
      rw positive (
        bind_ok (read_full "failed to read metadata bytes: " (length json)) (read_json unmarshal) _
          _ json
          (read_full-part "failed to read metadata bytes: " (length json) json
            (big_endian 8 (length bytes) ++ (bytes ++ rest)) i r refl)
        ∙ read_json-part m json bytes rest i (r + length json) e h)

  read_from-encoded :
      (m : Metadata) (json bytes rest : List ℕ) (i : StoredItem Metadata)
      → unmarshal json ≡ (m, none)
      → 0 < length json
      → length json < 2 ^ 63
      → length bytes < 2 ^ 63
      → read_from unmarshal (record { item = i; left = encoded json bytes ++ rest; read = 0 }) ≡ (
        ok tt,
        record {
          item = record { metadata = some m; bytes = bytes };
          left = rest;
          read = 8 + length json + 8 + length bytes;
        },
      )
  unfolding read_from
  read_from-encoded m json bytes rest i e pos fits h =
      let tail = json ++ (big_endian 8 (length bytes) ++ (bytes ++ rest)) in
      let parts : encoded json bytes ++ rest ≡ big_endian 8 (length json) ++ tail =
        simp append_assoc in
      rw parts (
        bind_ok (read_word "failed to read metadata length: ") (read_metadata unmarshal) _ _
          (length json)
          (read_word-word "failed to read metadata length: " (length json) tail i 0 (omega arith))
        ∙ read_metadata-part m json bytes rest i 8 e pos fits h)

  -- An item whose metadata have an encoding that is not empty and decodes to them, and that a
  -- writer takes whole, is read back from what was written, whatever follows it; the count of the
  -- bytes read is the count written, for lengths of 63 bits.
  pub read_from-write_to :
      (marshal : Metadata → Result (List ℕ)) (w : Writer) (m : Metadata) (json bytes rest : List ℕ)
      (i : StoredItem Metadata)
      → TakesAll w
      → marshal m ≡ ok json
      → unmarshal json ≡ (m, none)
      → 0 < length json
      → length json < 2 ^ 63
      → length bytes < 2 ^ 63
      → let item : StoredItem Metadata = record { metadata = some m; bytes = bytes } in
        let out = write_to marshal w item in
        (out.error ≡ none)
        × (read_from unmarshal (record { item = i; left = out.output ++ rest; read = 0 })
            ≡ (ok tt, record { item = item; left = rest; read = out.written }))
  read_from-write_to marshal w m json bytes rest i all e d pos fits h =
      let whole = write_to-encoded marshal w m json bytes all e in
      let count : length (encoded json bytes) ≡ 8 + length json + 8 + length bytes = omega (
        arith,
        length-encoded json bytes,
        length-big_endian 8 (length json),
        length-big_endian 8 (length bytes),
      ) in
      rw (whole, count) (refl, read_from-encoded m json bytes rest i d pos fits h)
