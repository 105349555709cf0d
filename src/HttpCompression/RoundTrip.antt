-- ===== src/HttpCompression/RoundTrip.antt =====
-- src/http_compression.cpp: decoding undoes the encodings that a server has applied.
use mathlib.Core.List.{Memᴰ}
use alternator_client_cpp.Base.{
  false, List, [], ◌∷◌, ◌++◌, Option, some, if◌then◌else◌, is_empty, ok, nat_Eq, ◌≡◌, refl, ◌∙◌, ap,
}
use alternator_client_cpp.Base.Counts.{contains}
use alternator_client_cpp.Base.Bytes.{Bytes, bytes, bytes_eq}
use alternator_client_cpp.Base.Ascii.{
  is_space, skip_ws, trim_ascii, split_on, add_to_first, split_on-part, split_on_one,
}
use alternator_client_cpp.HttpCompression.{
  HttpContentEncodingDecoder, ContentEncodingDecoderEntry, normalize_response_encoding, keep_tokens,
  parse_content_encodings, build_decoder_entries, decode_from, decode_http_response_body,
}
use alternator_client_cpp.HttpCompression.Entries.{Finds, build_decoder_entries-Finds}

-- An encoding that a server applies: the client's decoder for it, the name that the server writes, and
-- what it does to a body.
pub record Coding : Type 0 where
  pub decoder : HttpContentEncodingDecoder
  pub name : Bytes
  pub encode : Bytes → Bytes

-- The decoder is the client's, accepts the name, which has no comma and is not `identity`, and undoes
-- the encoding.
pub record IsUsable (decoders : List (Option HttpContentEncodingDecoder)) (c : Coding)
    : Type 0 where
  pub listed : Memᴰ (some c.decoder) decoders
  pub accepted : Memᴰ c.name c.decoder.accepted_response_encodings
  pub one_name : contains b',' c.name ≡ false
  pub not_identity : bytes_eq (normalize_response_encoding c.name) (bytes "identity") ≡ false
  pub undoes :
      (body : Bytes)
      → c.decoder.decode (c.encode body) (normalize_response_encoding c.name) ≡ ok body

unfoldable pub AllUsable : List (Option HttpContentEncodingDecoder) → List Coding → Type 0
AllUsable decoders [] = Unit {0}
AllUsable decoders (c ∷ cs) = IsUsable decoders c × AllUsable decoders cs

-- The encodings applied in their order.
unfoldable pub encode_all : List Coding → Bytes → Bytes
encode_all [] body = body
encode_all (c ∷ cs) body = encode_all cs (c.encode body)

-- The Content-Encoding header: the names in the order of their application.
unfoldable pub header_of : List Coding → Bytes
header_of [] = []
header_of (c ∷ []) = c.name
header_of (c ∷ d ∷ ds) = c.name ++ (b',' ∷ 32 ∷ header_of (d ∷ ds))

normalized : List Coding → List Bytes
normalized [] = []
normalized (c ∷ cs) = normalize_response_encoding c.name ∷ normalized cs

-- A blank in front of the header changes no token.
keep_tokens_blank : (ws : List Bytes) → keep_tokens (add_to_first 32 ws) ≡ keep_tokens ws
unfolding keep_tokens add_to_first normalize_response_encoding trim_ascii skip_ws is_space
keep_tokens_blank [] = refl
keep_tokens_blank (w ∷ ws) = refl

keep_first :
    (t : Bytes) (ts : List Bytes) (out : List Bytes)
    → is_empty (normalize_response_encoding t) ≡ false
    → keep_tokens ts ≡ out
    → keep_tokens (t ∷ ts) ≡ normalize_response_encoding t ∷ out
unfolding keep_tokens
keep_first t ts out full e = rw (full, e) refl

module _ (decoders : List (Option HttpContentEncodingDecoder))
    (entries : List ContentEncodingDecoderEntry)
    (built : build_decoder_entries decoders ≡ ok entries) where
  finds : (c : Coding) → IsUsable decoders c → Finds entries c.decoder c.name
  finds c h =
      build_decoder_entries-Finds decoders entries c.decoder c.name h.listed h.accepted built

  -- The tokens of the header are the names, normalised.
  tokens_of :
      (cs : List Coding)
      → AllUsable decoders cs
      → keep_tokens (split_on b',' (header_of cs)) ≡ normalized cs
  unfolding AllUsable header_of normalized split_on keep_tokens
  tokens_of [] h = refl
  tokens_of (c ∷ []) h =
      ap keep_tokens (split_on_one b',' c.name h.0.one_name)
      ∙ keep_first c.name [] [] (finds c h.0).0 refl
  tokens_of (c ∷ d ∷ ds) h =
      ap keep_tokens (split_on-part b',' c.name (32 ∷ header_of (d ∷ ds)) h.0.one_name)
      ∙ keep_first c.name (split_on b',' (32 ∷ header_of (d ∷ ds))) (normalized (d ∷ ds))
          (finds c h.0).0
          (keep_tokens_blank (split_on b',' (header_of (d ∷ ds))) ∙ tokens_of (d ∷ ds) h.1)

  decode_from_encoded :
      (cs : List Coding) (body : Bytes)
      → AllUsable decoders cs
      → decode_from entries (normalized cs) (encode_all cs body) ≡ ok body
  unfolding AllUsable encode_all normalized decode_from
  decode_from_encoded [] body h = refl
  decode_from_encoded (c ∷ cs) body h =
      rw
        (
          decode_from_encoded cs (c.encode body) h.1,
          h.0.not_identity,
          (finds c h.0).1,
          h.0.undoes body,
        )
        refl

-- For decoders that BuildDecoderEntries takes, and encodings that a server applies in some order, none
-- or several, each with a name that one of the decoders accepts (without a comma, and not `identity`)
-- and is undone by that decoder: DecodeHttpResponseBody gives back the body that was encoded, from the
-- encoded body and the names in a Content-Encoding header.
pub content_encodings_roundtrip :
    (decoders : List (Option HttpContentEncodingDecoder))
    (entries : List ContentEncodingDecoderEntry) (cs : List Coding) (body : Bytes)
    → build_decoder_entries decoders ≡ ok entries
    → AllUsable decoders cs
    → decode_http_response_body (encode_all cs body) (header_of cs) decoders ≡ ok body
unfolding decode_http_response_body parse_content_encodings normalized encode_all
content_encodings_roundtrip decoders entries cs body built h =
    rw (tokens_of decoders entries built cs h, built) (by_count cs h)
  where
    by_count :
        (cs : List Coding)
        → AllUsable decoders cs
        → (if is_empty (normalized cs)
            then ok (encode_all cs body)
            else decode_from entries (normalized cs) (encode_all cs body))
          ≡ ok body
    by_count [] h = refl
    by_count (c ∷ cs) h = decode_from_encoded decoders entries built (c ∷ cs) body h
