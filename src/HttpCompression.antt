-- ===== src/HttpCompression.antt =====
-- src/http_compression.h and src/http_compression.cpp: which encodings are named to the server, and
-- how a response body is decoded. zlib is not modelled: a compressor or decoder is a record of what
-- its virtual functions give.
pub mod Entries
pub mod RoundTrip
pub mod Zlib
pub mod Examples
use alternator_client_cpp.Base.{
  ℕ, Bool, true, false, ◌||◌, ◌&&◌, List, [], ◌∷◌, ◌++◌, Option, none, some, if◌then◌else◌,
  is_empty, Result, ok, err, ◌>>=◌, invalid_argument, runtime_error, ◌==◌, nat_eq, nat_Eq,
}
use alternator_client_cpp.Base.Counts.{contains}
use alternator_client_cpp.Base.Bytes.{Bytes, bytes, bytes_eq}
use alternator_client_cpp.Base.Ascii.{trim_ascii, to_lower_ascii, split_on, starts_with}

-- HttpContentEncodingDecoder: AcceptedResponseEncodings and Decode(body, encoding).
pub record HttpContentEncodingDecoder : Type 0 where
  pub accepted_response_encodings : List Bytes
  pub decode : Bytes → Bytes → Result Bytes

-- HttpRequestCompressor: ContentEncoding and Compress, whose input is as long as its input_size says;
-- `none` is a request left as it is.
pub record HttpRequestCompressor : Type 0 where
  pub content_encoding : Bytes
  pub compress : Bytes → Result (Option Bytes)

pub record ContentEncodingDecoderEntry : Type 0 where
  pub encoding : Bytes
  pub decoder : HttpContentEncodingDecoder

unfoldable pub normalize_response_encoding : Bytes → Bytes
unfolding trim_ascii to_lower_ascii
normalize_response_encoding encoding = to_lower_ascii (trim_ascii encoding)

unfoldable pub keep_tokens : List Bytes → List Bytes
unfolding normalize_response_encoding
keep_tokens [] = []
keep_tokens (t ∷ ts) =
    let rest = keep_tokens ts in
    if is_empty (normalize_response_encoding t) then rest else normalize_response_encoding t ∷ rest

-- The tokens between commas, trimmed and in lower case, without the empty ones.
unfoldable pub parse_content_encodings : Bytes → List Bytes
unfolding keep_tokens split_on
parse_content_encodings content_encoding = keep_tokens (split_on b',' content_encoding)

unfoldable pub build_request_content_encoding_value : Option HttpRequestCompressor → Result Bytes
unfolding normalize_response_encoding contains
build_request_content_encoding_value none = ok []
build_request_content_encoding_value (some c) =
    let encoding = normalize_response_encoding c.content_encoding in
    if is_empty encoding
    then err (invalid_argument "request_compressor must not advertise an empty encoding" [])
    else if contains b',' encoding
    then err (invalid_argument "request_compressor must advertise exactly one encoding" [])
    else ok encoding

unfoldable pub has_entry : Bytes → List ContentEncodingDecoderEntry → Bool
unfolding bytes_eq
has_entry encoding [] = false
has_entry encoding (e ∷ es) = bytes_eq e.encoding encoding || has_entry encoding es

-- The inner loop of BuildDecoderEntries: the encodings of one decoder.
unfoldable pub add_encodings :
    HttpContentEncodingDecoder
    → List Bytes
    → List ContentEncodingDecoderEntry
    → Result (List ContentEncodingDecoderEntry)
unfolding normalize_response_encoding has_entry
add_encodings d [] entries = ok entries
add_encodings d (e ∷ es) entries =
    let normalized = normalize_response_encoding e in
    let rest = add_encodings d es (entries ++ record { encoding = normalized; decoder = d } ∷ []) in
    if is_empty normalized
    then err (invalid_argument "content_encoding_decoders must not advertise empty encodings" [])
    else if has_entry normalized entries
    then err (
        invalid_argument
          "content_encoding_decoders must not advertise duplicate response encoding: " normalized)
    else rest

unfoldable pub add_decoder :
    Option HttpContentEncodingDecoder
    → List ContentEncodingDecoderEntry
    → Result (List ContentEncodingDecoderEntry)
unfolding add_encodings
add_decoder none entries =
    err (invalid_argument "content_encoding_decoders must not contain null values" [])
add_decoder (some d) entries =
    if is_empty d.accepted_response_encodings
    then err (invalid_argument "content_encoding_decoders must advertise at least one encoding" [])
    else add_encodings d d.accepted_response_encodings entries

unfoldable pub build_from :
    List (Option HttpContentEncodingDecoder)
    → List ContentEncodingDecoderEntry
    → Result (List ContentEncodingDecoderEntry)
unfolding add_decoder
build_from [] entries = ok entries
build_from (d ∷ ds) entries = add_decoder d entries >>= build_from ds

unfoldable pub build_decoder_entries :
    List (Option HttpContentEncodingDecoder) → Result (List ContentEncodingDecoderEntry)
unfolding build_from
build_decoder_entries decoders = build_from decoders []

unfoldable pub find_decoder_entry :
    List ContentEncodingDecoderEntry → Bytes → Option ContentEncodingDecoderEntry
unfolding bytes_eq
find_decoder_entry [] encoding = none
find_decoder_entry (e ∷ es) encoding =
    if bytes_eq e.encoding encoding then some e else find_decoder_entry es encoding

join_encodings : Bytes → List ContentEncodingDecoderEntry → Bytes
join_encodings value [] = value
join_encodings value (e ∷ es) =
    join_encodings ((if is_empty value then [] else value ++ bytes ", ") ++ e.encoding) es

unfoldable pub build_accept_encoding_value : List (Option HttpContentEncodingDecoder) → Result Bytes
unfolding build_decoder_entries join_encodings
build_accept_encoding_value decoders =
    build_decoder_entries decoders >>= λ entries. ok (join_encodings [] entries)

-- The loop over the encodings, the last one first.
unfoldable pub decode_from : List ContentEncodingDecoderEntry → List Bytes → Bytes → Result Bytes
unfolding find_decoder_entry
decode_from entries [] body = ok body
decode_from entries (e ∷ es) body = decode_from entries es body >>= λ b.
    if bytes_eq e (bytes "identity") then ok b else elim (find_decoder_entry entries e) [
      | none ↦ err (runtime_error "unexpected HTTP content encoding: " e)
      | some entry ↦ entry.decoder.decode b e
    ]

unfoldable pub decode_http_response_body :
    Bytes → Bytes → List (Option HttpContentEncodingDecoder) → Result Bytes
unfolding parse_content_encodings build_decoder_entries decode_from
decode_http_response_body body content_encoding decoders =
    let encodings = parse_content_encodings content_encoding in
    let decoded =
      build_decoder_entries decoders >>= λ entries. decode_from entries encodings body in
    if is_empty encodings then ok body else decoded

drop_cr : Bytes → Bytes
drop_cr [] = []
drop_cr (c ∷ []) = if nat_eq c 13 then [] else c ∷ []
drop_cr (c ∷ d ∷ ds) = c ∷ drop_cr (d ∷ ds)

-- The name and the value of a header line, split at the first colon.
header_parts : Bytes → Option (Bytes × Bytes)
header_parts [] = none
header_parts (c ∷ cs) =
    let rest = header_parts cs in
    if nat_eq c b':'
    then some ([], cs)
    else elim rest [ none ↦ none | some (name, value) ↦ some (c ∷ name, value) ]

read_header : Bytes → Bytes → Bytes → Bytes
unfolding drop_cr header_parts trim_ascii to_lower_ascii starts_with bytes_eq
read_header wanted value raw =
    let line = drop_cr raw in
    if starts_with (bytes "HTTP/") line then [] else elim (header_parts line) [
      | none ↦ value
      | some (name, text) ↦
          if bytes_eq (to_lower_ascii (trim_ascii name)) wanted then trim_ascii text else value
    ]

read_headers : Bytes → Bytes → List Bytes → Bytes
unfolding read_header
read_headers wanted value [] = value
read_headers wanted value (l ∷ ls) = read_headers wanted (read_header wanted value l) ls

-- std::getline gives the parts between line feeds, but no empty part after a last one, which would
-- change nothing.
unfoldable pub find_http_header_value : Bytes → Bytes → Bytes
unfolding read_headers split_on to_lower_ascii
find_http_header_value headers name = read_headers (to_lower_ascii name) [] (split_on 10 headers)
