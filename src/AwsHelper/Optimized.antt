-- ===== src/AwsHelper/Optimized.antt =====
-- src/aws_dynamodb_helper.cpp: the headers that OptimizeRequestHeaders leaves.
use alternator_client_cpp.Base.{
  Bool, true, false, not, ◌&&◌, ◌||◌, List, [], ◌∷◌, keep_if, Bool-cases, ◌≡◌, inl, inr, refl, sym,
  ◌∙◌, ap, arith,
}
use alternator_client_cpp.Base.Bytes.{Bytes, bytes_eq, bytes_eq_iff}
use alternator_client_cpp.Base.Ascii.{to_lower_ascii}
use alternator_client_cpp.AwsHelper.{c_str, HttpRequestApi, set_contains}
use alternator_client_cpp.AwsHelper.Headers.{
  HeaderOptimizationPolicy, is_allowed, delete_disallowed, optimize_request_headers,
}

abbrev Header : Type 0
Header = Bytes × Bytes

abbrev pub AllOf : (Header → Type 0) → List Header → Type 0
AllOf P [] = Unit {0}
AllOf P (h ∷ hs) = P h × AllOf P hs

AllOf-weaker :
    (P Q : Header → Type 0) (hs : List Header)
    → ((h : Header) → P h → Q h)
    → AllOf P hs
    → AllOf Q hs
AllOf-weaker P Q [] f a = tt
AllOf-weaker P Q (h ∷ hs) f a = (f h a.0, AllOf-weaker P Q hs f a.1)

keep_if-ext :
    (p q : Header → Bool) (hs : List Header)
    → AllOf (λ h. p h ≡ q h) hs
    → keep_if p hs ≡ keep_if q hs
keep_if-ext p q [] a = refl
keep_if-ext p q (h ∷ hs) a = ground (arith, a.0, keep_if-ext p q hs a.1)

keep_if-keep_if :
    (p q : Header → Bool) (hs : List Header)
    → keep_if q (keep_if p hs) ≡ keep_if (λ h. p h && q h) hs
keep_if-keep_if p q [] = refl
keep_if-keep_if p q (h ∷ hs) = ground (arith, keep_if-keep_if p q hs)

-- The name of a header has no NUL.
abbrev pub IsText : Header → Type 0
IsText h = c_str h.0 ≡ h.0

-- What the SDK says of DeleteHeader: the header of that name goes, in whatever case it is written, and
-- no other; and that the names of headers are text.
pub record HeaderLaws {Request : Type 0} (api : HttpRequestApi Request) : Type 0 where
  pub headers-delete :
      (name : Bytes) (request : Request)
      → api.get_headers (api.delete_header name request)
        ≡ keep_if
            (λ h. not (bytes_eq (to_lower_ascii h.0) (to_lower_ascii name)))
            (api.get_headers request)
  pub names_are_text : (request : Request) → AllOf IsText (api.get_headers request)

module _ {Request : Type 0} (api : HttpRequestApi Request) (policy : HeaderOptimizationPolicy) where
  allows : Header → Bool
  allows h = is_allowed api policy h.0

  named : Header → Header → Bool
  named g h = bytes_eq (to_lower_ascii h.0) (to_lower_ascii (c_str g.0))

  -- Whether the loop over these headers deletes a header.
  deletes : List Header → Header → Bool
  unfolding allows named
  deletes [] h = false
  deletes (g ∷ gs) h = (not (allows g) && named g h) || deletes gs h

  headers-delete_disallowed :
      (gs : List Header) (request : Request)
      → HeaderLaws api
      → api.get_headers (delete_disallowed api policy gs request)
        ≡ keep_if (λ h. not (deletes gs h)) (api.get_headers request)
  unfolding delete_disallowed deletes allows named
  headers-delete_disallowed [] request laws = sym (all_kept (api.get_headers request))
    where
      all_kept : (hs : List Header) → keep_if (λ h. true) hs ≡ hs
      all_kept [] = refl
      all_kept (h ∷ hs) = ap (◌∷◌ h) (all_kept hs)
  headers-delete_disallowed (g ∷ gs) request laws = elim (Bool-cases (is_allowed api policy g.0)) [
    | inl e ↦ rw e (headers-delete_disallowed gs request laws)
    | inr e ↦ rw e (
        headers-delete_disallowed gs (api.delete_header (c_str g.0) request) laws
        ∙ (ap (keep_if (λ h. not (deletes gs h))) (laws.headers-delete (c_str g.0) request)
            ∙ (keep_if-keep_if (λ h. not (named g h)) (λ h. not (deletes gs h))
                  (api.get_headers request)
                ∙ keep_if-ext (λ h. not (named g h) && not (deletes gs h))
                    (λ h. not (named g h || deletes gs h)) (api.get_headers request)
                    (everywhere (api.get_headers request)))))
  ]
    where
      everywhere :
          (hs : List Header)
          → AllOf
              (λ h. (not (named g h) && not (deletes gs h)) ≡ not (named g h || deletes gs h))
              hs
      everywhere [] = tt
      everywhere (h ∷ hs) = (ground arith, everywhere hs)

  allowed_of_name : (g h : Header) → IsText h → named g h ≡ true → allows g ≡ allows h
  unfolding allows named is_allowed
  allowed_of_name g h text e =
      let lower : to_lower_ascii h.0 ≡ to_lower_ascii (c_str g.0) =
        (bytes_eq_iff (to_lower_ascii h.0) (to_lower_ascii (c_str g.0))).0 e in
      ap (λ t. set_contains t policy.allowed) (sym lower ∙ ap to_lower_ascii (sym text))

  deletes_sound :
      (gs : List Header) (h : Header) → IsText h → deletes gs h ≡ true → allows h ≡ false
  unfolding deletes
  deletes_sound [] h text e = cc
  deletes_sound (g ∷ gs) h text e =
      ground (arith, deletes_sound gs h text, allowed_of_name g h text)

  named_self : (h : Header) → IsText h → named h h ≡ true
  unfolding named
  named_self h text =
      (bytes_eq_iff (to_lower_ascii h.0) (to_lower_ascii (c_str h.0))).1
        (ap to_lower_ascii (sym text))

  -- Of the headers that it goes over, the loop deletes those that are not allowed.
  Settles : List Header → Header → Type 0
  Settles gs h = (allows h ≡ false) → deletes gs h ≡ true

  all_settled : (gs : List Header) → AllOf IsText gs → AllOf (Settles gs) gs
  unfolding Settles deletes
  all_settled [] text = tt
  all_settled (g ∷ gs) text = (
    λ e. ground (arith, named_self g text.0, e),
    AllOf-weaker (Settles gs) (Settles (g ∷ gs)) gs (λ h f e. ground (arith, f e))
        (all_settled gs text.1),
  )

  -- Where the interface keeps the SDK's laws and the policy is enabled, OptimizeRequestHeaders leaves
  -- the headers whose lower-case name is in the allowlist, in their order, and no other.
  pub headers-optimize :
      (request : Request)
      → HeaderLaws api
      → policy.enabled ≡ true
      → api.get_headers (optimize_request_headers api policy request)
        ≡ keep_if (λ h. is_allowed api policy h.0) (api.get_headers request)
  unfolding optimize_request_headers Settles allows
  headers-optimize request laws on =
      let hs = api.get_headers request in
      let text = laws.names_are_text request in
      rw on (
        headers-delete_disallowed hs request laws
        ∙ keep_if-ext (λ h. not (deletes hs h)) allows hs
            (decided hs hs text (all_settled hs text)))
    where
      decided :
          (all hs : List Header)
          → AllOf IsText hs
          → AllOf (Settles all) hs
          → AllOf (λ h. not (deletes all h) ≡ allows h) hs
      decided all [] text s = tt
      decided all (h ∷ hs) text s =
          (ground (arith, deletes_sound all h text.0, s.0), decided all hs text.1 s.1)
