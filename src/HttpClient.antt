-- ===== src/HttpClient.antt =====
-- include/scylladb/alternator/http_client.h and src/http_client.cpp: the client that discovery asks
-- nodes with. Curl is the part that is built with libcurl, Socket the one without. libcurl and the
-- sockets of the system are parameters: what each call of them answers.
pub mod Curl
pub mod Socket
pub mod Examples
use alternator_client_cpp.Base.{ℕ, Bool, true, false, List, [], ◌∷◌, ◌||◌, if◌then◌else◌}
use alternator_client_cpp.Base.Bytes.{Bytes}
use alternator_client_cpp.Base.Ascii.{starts_with}

-- HttpResponse; the status is a long, as its bit pattern.
pub record HttpResponse : Type 0 where
  pub status_code : ℕ
  pub body : Bytes

-- text.find(part) != std::string::npos
unfoldable pub contains_text : Bytes → Bytes → Bool
unfolding starts_with
contains_text part [] = starts_with part []
contains_text part (c ∷ cs) = let rest = contains_text part cs in starts_with part (c ∷ cs) || rest
