-- ===== src/HttpCompression/Entries.antt =====
-- src/http_compression.cpp: the entries that BuildDecoderEntries makes are found again.
use mathlib.Core.List.{Memᴰ}
use alternator_client_cpp.Base.{
  false, List, [], ◌∷◌, ◌++◌, Option, none, some, is_empty, Bool-cases, Result, ok, err, ◌>>=◌, ◌≡◌,
  inl, inr, refl, sym, subst, arith,
}
use alternator_client_cpp.Base.Bytes.{Bytes, bytes_eq_iff}
use alternator_client_cpp.HttpCompression.{
  HttpContentEncodingDecoder, ContentEncodingDecoderEntry, normalize_response_encoding, has_entry,
  add_encodings, add_decoder, build_from, build_decoder_entries, find_decoder_entry,
}

abbrev Entries : Type 0
Entries = List ContentEncodingDecoderEntry

find-append :
    (es fs : Entries) (x : Bytes) (e : ContentEncodingDecoderEntry)
    → find_decoder_entry es x ≡ some e
    → find_decoder_entry (es ++ fs) x ≡ some e
unfolding find_decoder_entry
find-append [] fs x e h = cc
find-append (g ∷ es) fs x e h = ground (arith, find-append es fs x e)

find-append_new :
    (es : Entries) (f : ContentEncodingDecoderEntry)
    → has_entry f.encoding es ≡ false
    → find_decoder_entry (es ++ f ∷ []) f.encoding ≡ some f
unfolding find_decoder_entry has_entry
find-append_new [] f h = rw ((bytes_eq_iff f.encoding f.encoding).1 refl) refl
find-append_new (g ∷ es) f h = ground (arith, find-append_new es f)

-- What is found stays found.
Keeps : Entries → Entries → Type 0
Keeps entries out =
    (x : Bytes) (e : ContentEncodingDecoderEntry)
    → find_decoder_entry entries x ≡ some e
    → find_decoder_entry out x ≡ some e

-- What a round of the inner loop has passed, and what it goes on with.
passed :
    (d : HttpContentEncodingDecoder) (e : Bytes) (es : List Bytes) (entries out : Entries)
    → add_encodings d (e ∷ es) entries ≡ ok out
    → (is_empty (normalize_response_encoding e) ≡ false)
      × (has_entry (normalize_response_encoding e) entries ≡ false)
      × (add_encodings d es
            (entries ++ record { encoding = normalize_response_encoding e; decoder = d } ∷ [])
          ≡ ok out)
unfolding add_encodings
passed d e es entries out h = elim (Bool-cases (is_empty (normalize_response_encoding e))) [
  | inl empty ↦ let q = rw empty at h in cc
  | inr full ↦ elim (Bool-cases (has_entry (normalize_response_encoding e) entries)) [
    | inl twice ↦ let q = rw (full, twice) at h in cc
    | inr once ↦ (full, once, rw (full, once) at h)
  ]
]

add_encodings-Keeps :
    (d : HttpContentEncodingDecoder) (es : List Bytes) (entries out : Entries)
    → add_encodings d es entries ≡ ok out
    → Keeps entries out
unfolding Keeps add_encodings
add_encodings-Keeps d [] entries out h x e found =
    let same : entries ≡ out = cc in subst (λ t. find_decoder_entry t x ≡ some e) same found
add_encodings-Keeps d (n ∷ ns) entries out h x e found =
    let (full, once, rest) = passed d n ns entries out h in
    add_encodings-Keeps d ns _ out rest x e (find-append entries _ x e found)

-- The entry of an encoding that a decoder accepts.
abbrev pub entry_of : HttpContentEncodingDecoder → Bytes → ContentEncodingDecoderEntry
entry_of d e = record { encoding = normalize_response_encoding e; decoder = d }

-- The encoding is not empty, and its entry is the one that is found for it.
abbrev pub Finds : Entries → HttpContentEncodingDecoder → Bytes → Type 0
Finds out d e =
    (is_empty (normalize_response_encoding e) ≡ false)
    × (find_decoder_entry out (normalize_response_encoding e) ≡ some (entry_of d e))

add_encodings-Finds :
    (d : HttpContentEncodingDecoder) (es : List Bytes) (entries out : Entries) (e : Bytes)
    → Memᴰ e es
    → add_encodings d es entries ≡ ok out
    → Finds out d e
unfolding Keeps
add_encodings-Finds d [] entries out e m h = elim m [ ]
add_encodings-Finds d (n ∷ ns) entries out e (Memᴰ.head same) h =
    let (full, once, rest) = passed d n ns entries out h in
    subst (Finds out d) (sym same) (
      full,
      add_encodings-Keeps d ns _ out rest (normalize_response_encoding n) (entry_of d n)
          (find-append_new entries (entry_of d n) once),
    )
add_encodings-Finds d (n ∷ ns) entries out e (Memᴰ.tail m) h =
    let (full, once, rest) = passed d n ns entries out h in add_encodings-Finds d ns _ out e m rest

-- What a decoder of the list has passed: it is there, and its encodings were added.
added :
    (o : Option HttpContentEncodingDecoder) (os : List (Option HttpContentEncodingDecoder))
    (entries out : Entries)
    → build_from (o ∷ os) entries ≡ ok out
    → (d : HttpContentEncodingDecoder) × (mid : Entries) × (o ≡ some d)
      × (add_encodings d d.accepted_response_encodings entries ≡ ok mid)
      × (build_from os mid ≡ ok out)
unfolding build_from add_decoder
added none os entries out h = cc
added (some d) os entries out h = elim (Bool-cases (is_empty d.accepted_response_encodings)) [
  | inl empty ↦ let q = rw empty at h in cc
  | inr full ↦ by_result (add_encodings d d.accepted_response_encodings entries) refl (rw full at h)
]
  where
    by_result :
        (r : Result Entries)
        → add_encodings d d.accepted_response_encodings entries ≡ r
        → (r >>= build_from os) ≡ ok out
        → (d' : HttpContentEncodingDecoder) × (mid : Entries) × (some d ≡ some d')
          × (add_encodings d' d'.accepted_response_encodings entries ≡ ok mid)
          × (build_from os mid ≡ ok out)
    by_result (err e) p q = cc
    by_result (ok mid) p q = (d, mid, refl, p, q)

build_from-Keeps :
    (os : List (Option HttpContentEncodingDecoder)) (entries out : Entries)
    → build_from os entries ≡ ok out
    → Keeps entries out
unfolding Keeps build_from
build_from-Keeps [] entries out h x e found =
    let same : entries ≡ out = cc in subst (λ t. find_decoder_entry t x ≡ some e) same found
build_from-Keeps (o ∷ os) entries out h x e found =
    let (d, mid, there, first, rest) = added o os entries out h in
    build_from-Keeps os mid out rest x e
      (add_encodings-Keeps d d.accepted_response_encodings entries mid first x e found)

build_from-Finds :
    (os : List (Option HttpContentEncodingDecoder)) (entries out : Entries)
    (d : HttpContentEncodingDecoder) (e : Bytes)
    → Memᴰ (some d) os
    → Memᴰ e d.accepted_response_encodings
    → build_from os entries ≡ ok out
    → Finds out d e
unfolding Keeps
build_from-Finds [] entries out d e m a h = elim m [ ]
build_from-Finds (o ∷ os) entries out d e (Memᴰ.head same) a h =
    let (d', mid, there, first, rest) = added o os entries out h in
    let eq : d' ≡ d = cc in
    let (full, found) =
      add_encodings-Finds d d.accepted_response_encodings entries mid e a
        (subst (λ t. add_encodings t t.accepted_response_encodings entries ≡ ok mid) eq first) in
    (full, build_from-Keeps os mid out rest _ _ found)
build_from-Finds (o ∷ os) entries out d e (Memᴰ.tail m) a h =
    let (d', mid, there, first, rest) = added o os entries out h in
    build_from-Finds os mid out d e m a rest

-- When BuildDecoderEntries gives entries, the entry found for an encoding that a decoder of the list
-- accepts is that decoder's.
pub build_decoder_entries-Finds :
    (decoders : List (Option HttpContentEncodingDecoder)) (out : Entries)
    (d : HttpContentEncodingDecoder) (e : Bytes)
    → Memᴰ (some d) decoders
    → Memᴰ e d.accepted_response_encodings
    → build_decoder_entries decoders ≡ ok out
    → Finds out d e
unfolding build_decoder_entries
build_decoder_entries-Finds decoders out d e m a h = build_from-Finds decoders [] out d e m a h
