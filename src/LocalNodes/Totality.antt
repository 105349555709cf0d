-- ===== src/LocalNodes/Totality.antt =====
-- src/live_nodes.cpp: the loops of ParseJsonStringArray come to an end within their bounds.
use alternator_client_cpp.Base.{
  ℕ, zero, suc, ◌≤◌, ◌<◌, Bool, true, false, List, [], ◌∷◌, ◌++◌, Option, none, some, nat_eq,
  length, Result, ok, err, ◌>>=◌, Error, invalid_argument, runtime_error, http_status_error,
  invalid_http_response, transport_error, out_of_fuel, holds_if, ◌≡◌, ◌≢◌, refl, subst, arith,
}
use alternator_client_cpp.Base.Bytes.{Bytes}
use alternator_client_cpp.Base.Ascii.{skip_ws, length-skip_ws}
use alternator_client_cpp.LocalNodes.{
  expect, expect_head, unescape, on_escape, read_string, after_string, read_items, at_end,
  read_array, parse_json_string_array,
}

is_out_of_fuel : Error → Bool
is_out_of_fuel out_of_fuel = true
is_out_of_fuel transport_error = false
is_out_of_fuel (invalid_argument m xs) = false
is_out_of_fuel (runtime_error m xs) = false
is_out_of_fuel (http_status_error n) = false
is_out_of_fuel (invalid_http_response m xs) = false

-- The result is a value with P, or an exception of the program.
unfoldable pub Ends {ℓ} : {A : Type ℓ} → (A → Type 0) → Result A → Type 0
unfolding is_out_of_fuel
Ends P (ok a) = P a
Ends P (err e) = is_out_of_fuel e ≡ false

Ends-bind {ℓ κ} :
    {A : Type ℓ} {B : Type κ} (P : A → Type 0) (Q : B → Type 0) (m : Result A) (f : A → Result B)
    → Ends P m
    → ((a : A) → P a → Ends Q (f a))
    → Ends Q (m >>= f)
unfolding Ends
Ends-bind P Q (ok a) f h k = k a h
Ends-bind P Q (err e) f h k = h

expect_head-Ends :
    (ch : ℕ) (body : Bytes) → Ends (λ rest. length rest < length body) (expect_head ch body)
unfolding Ends expect_head
expect_head-Ends ch [] = refl
expect_head-Ends ch (c ∷ rest) =
    holds_if (Ends {A = Bytes} (λ r. length r < length (c ∷ rest))) (nat_eq c ch) (omega arith) refl

expect-Ends : (ch : ℕ) (body : Bytes) → Ends (λ rest. length rest < length body) (expect ch body)
unfolding expect Ends
expect-Ends ch body =
    weaker (expect_head ch (skip_ws body)) (length-skip_ws body)
      (expect_head-Ends ch (skip_ws body))
  where
    weaker :
        (r : Result Bytes)
        → length (skip_ws body) ≤ length body
        → Ends (λ rest. length rest < length (skip_ws body)) r
        → Ends (λ rest. length rest < length body) r
    weaker (ok a) h k = omega arith
    weaker (err e) h k = k

-- A position at most this far from the end.
Within : ℕ → Result (Bytes × Bytes) → Type 0
Within n r = Ends (λ p. length p.1 ≤ n) r

Within-weaker : (m n : ℕ) (r : Result (Bytes × Bytes)) → m ≤ n → Within m r → Within n r
unfolding Within Ends
Within-weaker m n (ok p) h k = omega arith
Within-weaker m n (err e) h k = k

on_escape-Within :
    (n : ℕ) (more : ℕ → Result (Bytes × Bytes)) (o : Option ℕ)
    → ((c : ℕ) → Within n (more c))
    → Within n (on_escape more o)
unfolding Within Ends on_escape
on_escape-Within n more none h = refl
on_escape-Within n more (some c) h = h c

read_string-Within : (value body : Bytes) → Within (length body) (read_string value body)
unfolding Within Ends read_string
read_string-Within value [] = omega arith
read_string-Within value (ch ∷ []) =
    holds_if (Within 1) (nat_eq ch b'"') (omega arith)
      (holds_if (Within 1) (nat_eq ch 92) refl (omega arith))
read_string-Within value (ch ∷ e ∷ rest) =
    let n = length (ch ∷ e ∷ rest) in
    holds_if (Within n) (nat_eq ch b'"') (omega arith) (
      holds_if (Within n) (nat_eq ch 92)
        (on_escape-Within n (λ c. read_string (value ++ c ∷ []) rest) (unescape e)
          (λ c.
            Within-weaker (length rest) n (read_string (value ++ c ∷ []) rest) (omega arith)
              (read_string-Within (value ++ c ∷ []) rest)))
        (Within-weaker (length (e ∷ rest)) n (read_string (value ++ ch ∷ []) (e ∷ rest))
          (omega arith) (read_string-Within (value ++ ch ∷ []) (e ∷ rest))))

-- No claim on the value, only that there is one or an exception.
abbrev Any {ℓ} : {A : Type ℓ} → A → Type 0
Any a = zero ≡ zero

after_string-Ends :
    (n : ℕ) (more : List Bytes → Bytes → Result (List Bytes × Bytes)) (out : List Bytes)
    (body : Bytes)
    → length body ≤ n
    → ((xs : List Bytes) (b : Bytes) → length b < n → Ends Any (more xs b))
    → Ends Any (after_string more out body)
unfolding Ends after_string
after_string-Ends n more out [] h k = refl
after_string-Ends n more out (c ∷ rest) h k =
    holds_if (Ends {A = List Bytes × Bytes} Any) (nat_eq c b']') (refl {a = zero}) (
      Ends-bind (λ r. length r < length (c ∷ rest)) Any (expect_head b',' (c ∷ rest)) (more out)
        (expect_head-Ends b',' (c ∷ rest)) (λ b q. k out b (omega arith)))

read_items-Ends :
    (fuel : ℕ) (out : List Bytes) (body : Bytes)
    → length body < fuel
    → Ends Any (read_items fuel out body)
unfolding Ends Within read_items
read_items-Ends zero out body h = elim h [ ]
read_items-Ends (suc fuel) out body h =
    Ends-bind (λ r. length r < length body) Any (expect b'"' body) _ (expect-Ends b'"' body)
      (λ inside p.
        Ends-bind (λ r. length r.1 ≤ length inside) Any (read_string [] inside) _
          (read_string-Within [] inside)
          (λ item q.
            after_string-Ends fuel (read_items fuel) (out ++ item.0 ∷ []) (skip_ws item.1)
              (omega (arith, length-skip_ws item.1)) (λ xs b r. read_items-Ends fuel xs b r)))

at_end-Ends : (out : List Bytes) (body : Bytes) → Ends Any (at_end out body)
unfolding Ends at_end
at_end-Ends out [] = refl
at_end-Ends out (c ∷ rest) = refl

run :
    (body rest : Bytes)
    → length rest ≤ length body
    → Ends Any (read_items (suc (length body)) [] rest >>= λ r. at_end r.0 (skip_ws r.1))
run body rest h =
    Ends-bind Any Any (read_items (suc (length body)) [] rest) _
      (read_items-Ends (suc (length body)) [] rest (omega arith))
      (λ r p. at_end-Ends r.0 (skip_ws r.1))

read_array-Ends : (body rest : Bytes) → length rest ≤ length body → Ends Any (read_array body rest)
unfolding read_array
read_array-Ends body [] h = run body [] h
read_array-Ends body (c ∷ rest) h =
    holds_if (Ends {A = List Bytes} Any) (nat_eq c b']') (at_end-Ends [] (skip_ws rest))
      (run body (c ∷ rest) h)

parse-Ends : (body : Bytes) → Ends Any (parse_json_string_array body)
unfolding parse_json_string_array
parse-Ends body =
    Ends-bind (λ r. length r < length body) Any (expect b'[' body) _ (expect-Ends b'[' body)
      (λ rest p. read_array-Ends body (skip_ws rest) (omega (arith, length-skip_ws rest)))

-- For every body, ParseJsonStringArray gives a list or throws one of its own exceptions: the bound
-- on the rounds of its loop, one more than the bytes of the body, is never used up.
pub parse_json_string_array_total : (body : Bytes) → parse_json_string_array body ≢ err out_of_fuel
unfolding Ends is_out_of_fuel
parse_json_string_array_total body p =
    let out : true ≡ false = subst (Ends {A = List Bytes} Any) p (parse-Ends body) in cc
