-- ===== src/HttpCompression/Examples.antt =====
-- Header blocks and encodings at concrete inputs.
use mathlib.Core.List.{Memᴰ}
use alternator_client_cpp.Base.{◌≡◌, refl, List, [], ◌∷◌, Option, some, ok, nat_Eq}
use alternator_client_cpp.Base.Counts.{contains}
use alternator_client_cpp.Base.Bytes.{Bytes, bytes, bytes_eq}
use alternator_client_cpp.Base.Ascii.{trim_ascii, to_lower_ascii}
use alternator_client_cpp.HttpCompression.{
  HttpContentEncodingDecoder, ContentEncodingDecoderEntry, normalize_response_encoding,
  find_http_header_value, parse_content_encodings, build_decoder_entries, decode_http_response_body,
}
use alternator_client_cpp.HttpCompression.Entries.{entry_of}
use alternator_client_cpp.HttpCompression.RoundTrip.{
  Coding, AllUsable, encode_all, header_of, content_encodings_roundtrip,
}

-- A later status line forgets the headers of the earlier response.
last_response :
    find_http_header_value
      (bytes
        "HTTP/1.1 301\r\nContent-Encoding: br\r\n\r\nHTTP/1.1 200\r\ncontent-ENCODING:  gzip \r\n")
      (bytes "Content-Encoding")
    ≡ bytes "gzip"
unfolding find_http_header_value
last_response = refl

tokens : parse_content_encodings (bytes " GZip ,, deflate") ≡ bytes "gzip" ∷ bytes "deflate" ∷ []
unfolding parse_content_encodings
tokens = refl

-- A toy decoder of two encodings, each of which puts a byte in front.
without_first : Bytes → Bytes
without_first [] = []
without_first (c ∷ cs) = cs

abbrev toy : HttpContentEncodingDecoder
toy = record {
  accepted_response_encodings = bytes "GZip" ∷ bytes "deflate" ∷ [];
  decode = λ body encoding. ok (without_first body);
}

abbrev gzip_coding : Coding
gzip_coding = record { decoder = toy; name = bytes "GZip"; encode = λ body. 31 ∷ body }

abbrev deflate_coding : Coding
deflate_coding = record { decoder = toy; name = bytes "deflate"; encode = λ body. 120 ∷ body }

abbrev codings : List Coding
codings = gzip_coding ∷ deflate_coding ∷ []

abbrev decoders : List (Option HttpContentEncodingDecoder)
decoders = some toy ∷ []

abbrev entries : List ContentEncodingDecoderEntry
entries = entry_of toy (bytes "GZip") ∷ entry_of toy (bytes "deflate") ∷ []

built : build_decoder_entries decoders ≡ ok entries
unfolding build_decoder_entries
built = refl

usable : AllUsable decoders codings
unfolding AllUsable contains normalize_response_encoding bytes_eq without_first trim_ascii
    to_lower_ascii
usable = (
  record {
    listed = Memᴰ.head refl;
    accepted = Memᴰ.head refl;
    one_name = refl;
    not_identity = refl;
    undoes = λ body. refl;
  },
  (
    record {
      listed = Memᴰ.head refl;
      accepted = Memᴰ.tail (Memᴰ.head refl);
      one_name = refl;
      not_identity = refl;
      undoes = λ body. refl;
    },
    tt,
  ),
)

content_encodings_roundtrip_example :
    decode_http_response_body (encode_all codings (bytes "[]")) (header_of codings) decoders
    ≡ ok (bytes "[]")
content_encodings_roundtrip_example =
    content_encodings_roundtrip decoders entries codings (bytes "[]") built usable
