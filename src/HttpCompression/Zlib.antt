-- ===== src/HttpCompression/Zlib.antt =====
-- src/http_compression.cpp, built with zlib: the loops over zlib's streams, GzipRequestCompressor and
-- ZlibContentEncodingDecoder. zlib is a parameter: what an init and a call of deflate or inflate give.
-- A loop runs on fuel, since zlib decides when a stream ends.
use alternator_client_cpp.Base.{
  ℕ, zero, suc, ◌-◌, ◌^◌, Bool, true, false, not, ◌&&◌, ◌||◌, List, [], ◌∷◌, ◌++◌, Option, none,
  some, if◌then◌else◌, nat_eq, ltb, is_empty, length, take, drop, Result, ok, err, ◌>>=◌,
  invalid_argument, runtime_error, http_status_error, invalid_http_response, transport_error,
  out_of_fuel,
}
use alternator_client_cpp.Base.Bytes.{Bytes, bytes, bytes_eq}
use alternator_client_cpp.HttpCompression.{
  HttpContentEncodingDecoder, HttpRequestCompressor, normalize_response_encoding,
}

-- MAX_WBITS, -MAX_WBITS and MAX_WBITS + 16.
pub data WindowBits : Type 0 where
  zlib_bits raw_bits gzip_bits : WindowBits

-- Z_OK, Z_STREAM_END, and the other codes.
pub data ZlibCode : Type 0 where
  z_ok z_stream_end z_error : ZlibCode

-- A call of deflate or inflate: its code, at most 8192 bytes of output, the input that is left, and the
-- stream.
pub record ZlibCall (Stream : Type 0) : Type 0 where
  pub code : ZlibCode
  pub produced : Bytes
  pub left : Bytes
  pub stream : Stream

-- An init gives no stream where it does not return Z_OK. `finish` is Z_FINISH, and else Z_NO_FLUSH.
pub record ZlibApi (Stream : Type 0) : Type 0 where
  pub deflate_init : WindowBits → Option Stream
  pub deflate : (finish : Bool) → Stream → Bytes → ZlibCall Stream
  pub inflate_init : WindowBits → Option Stream
  pub inflate : Stream → Bytes → ZlibCall Stream

-- CheckedZlibSize
unfoldable pub checked_zlib_size : ℕ → Result ℕ
checked_zlib_size size =
    if ltb (2 ^ 32 - 1) size
    then err (runtime_error "HTTP content is too large for zlib" [])
    else ok size

abbrev pub buffer_size : ℕ
buffer_size = 8192

-- NormalizeZlibResponseEncodings
unfoldable pub normalize_zlib_encodings : List Bytes → Result (List Bytes)
unfolding normalize_response_encoding bytes_eq
normalize_zlib_encodings [] = ok []
normalize_zlib_encodings (e ∷ es) =
    let encoding = normalize_response_encoding e in
    let rest = normalize_zlib_encodings es >>= λ normalized. ok (encoding ∷ normalized) in
    if not (bytes_eq encoding (bytes "gzip")) && not (bytes_eq encoding (bytes "deflate"))
    then err (invalid_argument "ZlibContentEncodingDecoder supports only gzip and deflate" [])
    else rest

module _ {Stream : Type 0} (zlib : ZlibApi Stream) where
  -- What follows a call of deflate: whether the stream has ended, the output and the stream.
  after_deflate :
      (Bytes → Bytes → Stream → Result (Bool × Bytes × Stream))
      → Bytes
      → ZlibCall Stream
      → Result (Bool × Bytes × Stream)
  after_deflate again output call =
      let output' = output ++ call.produced in
      elim call.code [
        | z_stream_end ↦ ok (true, output', call.stream)
        | z_error ↦ err (runtime_error "failed to deflate HTTP request" [])
        | z_ok ↦
            if not (is_empty call.left) || nat_eq (length call.produced) buffer_size
            then again call.left output' call.stream
            else ok (false, output', call.stream)
      ]

  -- The inner loop of DeflateBody.
  unfoldable pub deflate_chunk : ℕ → Bool → Bytes → Bytes → Stream → Result (Bool × Bytes × Stream)
  unfolding after_deflate
  deflate_chunk zero finish input output stream = err out_of_fuel
  deflate_chunk (suc fuel) finish input output stream =
      after_deflate (deflate_chunk fuel finish) output (zlib.deflate finish stream input)

  after_chunk :
      (Bytes → Stream → Result Bytes) → Bool → Result (Bool × Bytes × Stream) → Result Bytes
  after_chunk next finish (err e) = err e
  after_chunk next finish (ok (true, output, stream)) = ok output
  after_chunk next true (ok (false, output, stream)) =
      err (runtime_error "failed to finish deflating HTTP request" [])
  after_chunk next false (ok (false, output, stream)) = next output stream

  -- The outer loop of DeflateBody: a read that fills the buffer is not at the end of the input.
  unfoldable pub deflate_chunks : ℕ → ℕ → Bytes → Bytes → Stream → Result Bytes
  unfolding after_chunk deflate_chunk
  deflate_chunks zero calls input output stream = err out_of_fuel
  deflate_chunks (suc fuel) calls input output stream =
      let chunk = take buffer_size input in
      let finish = ltb (length chunk) buffer_size in
      after_chunk (deflate_chunks fuel calls (drop buffer_size input)) finish
        (deflate_chunk calls finish chunk output stream)

  -- DeflateBody, for so many chunks and so many calls for each.
  unfoldable pub deflate_body : ℕ → ℕ → WindowBits → Bytes → Result Bytes
  unfolding deflate_chunks
  deflate_body fuel calls window_bits input = elim (zlib.deflate_init window_bits) [
    | none ↦ err (runtime_error "deflateInit2 failed" [])
    | some stream ↦ deflate_chunks fuel calls input [] stream
  ]

  after_inflate : (Bytes → Bytes → Stream → Result Bytes) → Bytes → ZlibCall Stream → Result Bytes
  after_inflate again output call =
      let output' = output ++ call.produced in
      elim call.code [
        | z_stream_end ↦ ok output'
        | z_error ↦ err (runtime_error "failed to inflate compressed HTTP response" [])
        | z_ok ↦
            if is_empty call.left && is_empty call.produced
            then err (runtime_error "truncated compressed HTTP response" [])
            else again call.left output' call.stream
      ]

  -- The loop of InflateBody.
  unfoldable pub inflate_from : ℕ → Bytes → Bytes → Stream → Result Bytes
  unfolding after_inflate
  inflate_from zero input output stream = err out_of_fuel
  inflate_from (suc fuel) input output stream =
      after_inflate (inflate_from fuel) output (zlib.inflate stream input)

  -- InflateBody, for so many calls.
  unfoldable pub inflate_body : ℕ → Bytes → WindowBits → Result Bytes
  unfolding checked_zlib_size inflate_from
  inflate_body fuel body window_bits = elim (zlib.inflate_init window_bits) [
    | none ↦ err (runtime_error "inflateInit2 failed" [])
    | some stream ↦ checked_zlib_size (length body) >>= λ size. inflate_from fuel body [] stream
  ]

  -- catch (const std::runtime_error&)
  or_raw : Result Bytes → Result Bytes → Result Bytes
  or_raw raw (ok body) = ok body
  or_raw raw (err (runtime_error m xs)) = raw
  or_raw raw (err (invalid_argument m xs)) = err (invalid_argument m xs)
  or_raw raw (err (http_status_error n)) = err (http_status_error n)
  or_raw raw (err (invalid_http_response m xs)) = err (invalid_http_response m xs)
  or_raw raw (err transport_error) = err transport_error
  or_raw raw (err out_of_fuel) = err out_of_fuel

  -- InflateDeflateBody: with the zlib header, and else without.
  unfoldable pub inflate_deflate_body : ℕ → Bytes → Result Bytes
  unfolding or_raw inflate_body
  inflate_deflate_body fuel body =
      or_raw (inflate_body fuel body raw_bits) (inflate_body fuel body zlib_bits)

  unless_small : Bool → Result Bytes → Result (Option Bytes)
  unless_small true compressed = ok none
  unless_small false compressed = compressed >>= λ body. ok (some body)

  -- GzipRequestCompressor
  unfoldable pub gzip_request_compressor : ℕ → ℕ → ℕ → HttpRequestCompressor
  unfolding unless_small deflate_body
  gzip_request_compressor fuel calls min_size_bytes = record {
    content_encoding = bytes "gzip";
    compress = λ input.
        unless_small (ltb (length input) min_size_bytes) (deflate_body fuel calls gzip_bits input);
  }

  -- ZlibContentEncodingDecoder::Decode
  unfoldable pub zlib_decode : ℕ → Bytes → Bytes → Result Bytes
  unfolding normalize_response_encoding bytes_eq inflate_body inflate_deflate_body
  zlib_decode fuel body content_encoding =
      let encoding = normalize_response_encoding content_encoding in
      if bytes_eq encoding (bytes "gzip")
      then inflate_body fuel body gzip_bits
      else if bytes_eq encoding (bytes "deflate")
      then inflate_deflate_body fuel body
      else err (runtime_error "unsupported HTTP content encoding: " encoding)

  -- ZlibContentEncodingDecoder(accepted_response_encodings)
  unfoldable pub new_zlib_decoder : ℕ → List Bytes → Result HttpContentEncodingDecoder
  unfolding zlib_decode normalize_zlib_encodings
  new_zlib_decoder fuel encodings = normalize_zlib_encodings encodings >>= λ normalized.
      ok (record { accepted_response_encodings = normalized; decode = zlib_decode fuel })
