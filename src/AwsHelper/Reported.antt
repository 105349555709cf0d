-- ===== src/AwsHelper/Reported.antt =====
-- src/aws_dynamodb_helper.cpp: the health that MakeRequest reports is that of the node's own answer.
use alternator_client_cpp.Base.{
  ℕ, false, not, ◌||◌, List, [], ◌∷◌, Option, none, some, length, Bool-cases, Result, ok, err,
  ◌>>=◌, ◌≡◌, inl, inr, refl, sym, ◌∙◌, ap, arith,
}
use alternator_client_cpp.Base.Bytes.{Bytes, bytes_eq, decimal}
use alternator_client_cpp.Base.Ascii.{to_lower_ascii}
use alternator_client_cpp.Url.{Url, is_empty_url}
use alternator_client_cpp.HttpCompression.{HttpContentEncodingDecoder, decode_http_response_body}
use alternator_client_cpp.NodeHealth.{NodeHealthObservation}
use alternator_client_cpp.LiveNodes.{LiveNodes, HttpAnswer, report_result}
use alternator_client_cpp.AwsHelper.{c_str, HttpRequestApi, HttpResponseCode, HttpResponseApi}
use alternator_client_cpp.AwsHelper.Endpoint.{select_attempt_node, observation_from_http_result}
use alternator_client_cpp.AwsHelper.MakeRequest.{
  AlternatorHttpClient, copy_headers, decoded_response, decode_compressed_aws_response,
  prepare_request, report_answer, ask_node, make_request,
}

-- What the SDK says of a response: a new one has no client error, SetResponseCode sets the code, and the
-- other changes leave both alone.
pub record ResponseLaws {Request Response : Type 0} (api : HttpResponseApi Request Response)
    : Type 0 where
  pub no_error-new : (request : Request) → api.has_client_error (api.new_response request) ≡ false
  pub error-set_code :
      (code : HttpResponseCode) (r : Response)
      → api.has_client_error (api.set_response_code code r) ≡ api.has_client_error r
  pub error-add_header :
      (name value : Bytes) (r : Response)
      → api.has_client_error (api.add_header name value r) ≡ api.has_client_error r
  pub error-write_body :
      (body : Bytes) (r : Response)
      → api.has_client_error (api.write_response_body body r) ≡ api.has_client_error r
  pub code-set_code :
      (code : HttpResponseCode) (r : Response)
      → api.get_response_code (api.set_response_code code r) ≡ code
  pub code-add_header :
      (name value : Bytes) (r : Response)
      → api.get_response_code (api.add_header name value r) ≡ api.get_response_code r
  pub code-write_body :
      (body : Bytes) (r : Response)
      → api.get_response_code (api.write_response_body body r) ≡ api.get_response_code r

module _ {Request Response : Type 0} (api : HttpRequestApi Request)
    (responses : HttpResponseApi Request Response) (laws : ResponseLaws responses) where
  observe : Option Response → NodeHealthObservation
  observe answer = observation_from_http_result responses answer

  -- The two things that the observation reads.
  Alike : Response → Response → Type 0
  Alike r s =
      (responses.has_client_error r ≡ responses.has_client_error s)
      × (responses.get_response_code r ≡ responses.get_response_code s)

  copy_headers-Alike :
      (headers : List (Bytes × Bytes)) (r : Response)
      → Alike (copy_headers api responses headers r) r
  unfolding Alike copy_headers
  copy_headers-Alike [] r = (refl, refl)
  copy_headers-Alike ((name, value) ∷ headers) r =
      elim (Bool-cases (
        bytes_eq (to_lower_ascii (c_str name)) responses.content_encoding_header
        || bytes_eq (to_lower_ascii (c_str name)) responses.content_length_header)) [
          | inl e ↦ rw e (copy_headers-Alike headers r)
          | inr e ↦
              let (p, q) = copy_headers-Alike headers (responses.add_header name value r) in
              rw e (p ∙ laws.error-add_header name value r, q ∙ laws.code-add_header name value r)
        ]

  -- The decoded response has no client error, and the code of the one it is made from.
  decoded_response-Alike :
      (request : Request) (r : Response) (body : Bytes)
      → (responses.has_client_error (decoded_response api responses request r body) ≡ false)
        × (responses.get_response_code (decoded_response api responses request r body)
            ≡ responses.get_response_code r)
  unfolding Alike decoded_response
  decoded_response-Alike request r body =
      let coded =
        responses.set_response_code (responses.get_response_code r)
          (responses.new_response request) in
      let copied = copy_headers api responses (responses.get_response_headers r) coded in
      let (p, q) = copy_headers-Alike (responses.get_response_headers r) coded in
      (
        laws.error-write_body body _
            ∙ (laws.error-add_header responses.content_length_header (decimal (length body)) copied
                ∙ (p ∙ (laws.error-set_code _ _ ∙ laws.no_error-new request))),
        laws.code-write_body body _
            ∙ (laws.code-add_header responses.content_length_header (decimal (length body)) copied
                ∙ (q ∙ laws.code-set_code _ _)),
      )

  observe-decoded :
      (request : Request) (r : Response) (body : Bytes)
      → responses.has_client_error r ≡ false
      → observe (some (decoded_response api responses request r body)) ≡ observe (some r)
  unfolding observe observation_from_http_result
  observe-decoded request r body fine =
      let (p, q) = decoded_response-Alike request r body in rw (p, q, fine) refl

  -- Decoding leaves the observation as it is.
  observe-decode :
      (request : Option Request) (answer out : Option Response)
      (decoders : List (Option HttpContentEncodingDecoder))
      → decode_compressed_aws_response api responses request answer decoders ≡ ok out
      → observe out ≡ observe answer
  unfolding decode_compressed_aws_response
  observe-decode none answer out decoders e = let same : answer ≡ out = cc in ap observe (sym same)
  observe-decode (some request) none out decoders e =
      let same : none ≡ out = cc in ap observe (sym same)
  observe-decode (some request) (some r) out decoders e =
      elim (Bool-cases (
        responses.has_client_error r
        || not (responses.has_response_header responses.content_encoding_header r))) [
          | inl plain ↦
              let kept : ok (some r) ≡ ok out = rw plain at e in
              let same : some r ≡ out = cc in ap observe (sym same)
          | inr encoded ↦
              let fine : responses.has_client_error r ≡ false = ground arith in
              by_body fine
                (decode_http_response_body (responses.get_response_body r)
                  (c_str (responses.get_header responses.content_encoding_header r)) decoders)
                (rw encoded at e)
        ]
    where
      by_body :
          responses.has_client_error r ≡ false
          → (b : Result Bytes)
          → (b >>= λ body. ok (some (decoded_response api responses request r body))) ≡ ok out
          → observe out ≡ observe (some r)
      by_body fine (err x) q = cc
      by_body fine (ok body) q =
          let same : some (decoded_response api responses request r body) ≡ out = cc in
          ap observe (sym same) ∙ observe-decoded request r body fine

  -- Where the interface keeps the SDK's laws, SelectAttemptNode gives a node that is not empty, and the
  -- request can be prepared: if MakeRequest returns an answer, then the nodes are those after the choice
  -- of the node with one report, of that node, and it is the observation of what the delegate answered,
  -- also if the response that is returned was decoded.
  pub make_request_reports :
      (delegate : Option Request → Option Response) (http : Url → HttpAnswer) (now later : ℕ)
      (client : AlternatorHttpClient) (request sent prepared : Option Request) (node : Url)
      (s chosen after : LiveNodes) (answer : Option Response)
      → select_attempt_node api http now client.endpoint_override_port request s
        ≡ (node, sent, chosen)
      → is_empty_url node ≡ false
      → prepare_request api responses client sent ≡ ok prepared
      → make_request api responses delegate http now later client request s ≡ (ok answer, after)
      → after
        ≡ report_result later chosen node
            (observation_from_http_result responses (delegate prepared))
  unfolding make_request ask_node report_answer observe
  make_request_reports delegate http now later client request sent prepared node s chosen after
        answer selected there ready e =
      by_answer
        (decode_compressed_aws_response api responses prepared (delegate prepared)
          client.content_encoding_decoders)
        refl (rw (selected, there, ready) at e)
    where
      by_answer :
          (r : Result (Option Response))
          → decode_compressed_aws_response api responses prepared
              (delegate prepared)
              client.content_encoding_decoders
            ≡ r
          → report_answer api responses later node chosen r ≡ (ok answer, after)
          → after
            ≡ report_result later chosen node
                (observation_from_http_result responses (delegate prepared))
      by_answer (err x) p q = let clash : err x ≡ ok answer = ap (λ t. t.0) q in cc
      by_answer (ok out) p q =
          sym (ap (λ t. t.1) q)
          ∙ ap (report_result later chosen node)
              (observe-decode prepared (delegate prepared) out client.content_encoding_decoders p)
