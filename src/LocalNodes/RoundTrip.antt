-- ===== src/LocalNodes/RoundTrip.antt =====
-- src/live_nodes.cpp: ParseJsonStringArray on the arrays that a node prints.
use alternator_client_cpp.Base.{
  ℕ, zero, suc, ◌≤◌, ◌<◌, true, false, ◌||◌, List, [], ◌∷◌, ◌++◌, if◌then◌else◌, nat_eq, length, ok,
  ◌>>=◌, Bool-cases, ◌≡◌, refl, sym, ◌∙◌, ap, inl, inr, arith,
}
use alternator_client_cpp.Base.Bytes.{Bytes}
use alternator_client_cpp.Base.Ascii.{skip_ws}
use alternator_client_cpp.LocalNodes.{
  expect, expect_head, unescape, on_escape, read_string, after_string, read_items, at_end,
  read_array, parse_json_string_array,
}

-- The printer of an array of strings: a backslash before a quotation mark and before a backslash.
unfoldable pub quoted : Bytes → Bytes → Bytes
quoted [] rest = rest
quoted (c ∷ cs) rest =
    let more = quoted cs rest in if nat_eq c b'"' || nat_eq c 92 then 92 ∷ c ∷ more else c ∷ more

unfoldable pub print_string : Bytes → Bytes → Bytes
unfolding quoted
print_string s rest = b'"' ∷ quoted s (b'"' ∷ rest)

unfoldable pub print_more : List Bytes → Bytes
unfolding print_string
print_more [] = b']' ∷ []
print_more (s ∷ ss) = b',' ∷ print_string s (print_more ss)

unfoldable pub print_array : List Bytes → Bytes
unfolding print_string print_more
print_array [] = b'[' ∷ b']' ∷ []
print_array (s ∷ ss) = b'[' ∷ print_string s (print_more ss)

append_one : (v : Bytes) (c : ℕ) (s : Bytes) → (v ++ c ∷ []) ++ s ≡ v ++ c ∷ s
append_one [] c s = refl
append_one (x ∷ v) c s = ap (λ t. x ∷ t) (append_one v c s)

append_nil {ℓ} : {A : Type ℓ} (v : List A) → v ++ [] ≡ v
append_nil [] = refl
append_nil (x ∷ v) = ap (λ t. x ∷ t) (append_nil v)

read_end : (v rest : Bytes) → read_string v (b'"' ∷ rest) ≡ ok (v, rest)
unfolding read_string
read_end v [] = refl
read_end v (e ∷ rest) = refl

read_plain :
    (v : Bytes) (c : ℕ) (rest : Bytes)
    → nat_eq c b'"' ≡ false
    → nat_eq c 92 ≡ false
    → 0 < length rest
    → read_string v (c ∷ rest) ≡ read_string (v ++ c ∷ []) rest
unfolding read_string
read_plain v c [] p q h = elim h [ ]
read_plain v c (e ∷ rest) p q h = rw (p, q)

read_escaped :
    (v : Bytes) (c : ℕ) (rest : Bytes)
    → nat_eq c b'"' || nat_eq c 92 ≡ true
    → read_string v (92 ∷ c ∷ rest) ≡ read_string (v ++ c ∷ []) rest
unfolding read_string unescape on_escape
read_escaped v c rest p = ground arith

quoted_there : (s rest : Bytes) → 0 < length rest → 0 < length (quoted s rest)
unfolding quoted
quoted_there [] rest h = h
quoted_there (c ∷ s) rest h = ground arith

read_quoted : (s v rest : Bytes) → read_string v (quoted s (b'"' ∷ rest)) ≡ ok (v ++ s, rest)
unfolding quoted
read_quoted [] v rest = read_end v rest ∙ ap (λ w. ok (w, rest)) (sym (append_nil v))
read_quoted (c ∷ s) v rest =
    let after : read_string (v ++ c ∷ []) (quoted s (b'"' ∷ rest)) ≡ ok (v ++ c ∷ s, rest) =
      read_quoted s (v ++ c ∷ []) rest ∙ ap (λ w. ok (w, rest)) (append_one v c s) in
    elim (Bool-cases (nat_eq c b'"' || nat_eq c 92)) [
      | inl p ↦ rw p (read_escaped v c (quoted s (b'"' ∷ rest)) p ∙ after)
      | inr p ↦
          let there : 0 < length (quoted s (b'"' ∷ rest)) =
            quoted_there s (b'"' ∷ rest) (omega arith) in
          rw p (read_plain v c (quoted s (b'"' ∷ rest)) (ground arith) (ground arith) there ∙ after)
    ]

read_one :
    (fuel : ℕ) (out : List Bytes) (s rest : Bytes)
    → read_items (suc fuel) out (print_string s rest)
      ≡ after_string (read_items fuel) (out ++ s ∷ []) (skip_ws rest)
unfolding read_items print_string expect expect_head skip_ws
read_one fuel out s rest = rw (read_quoted s [] rest) refl

append_item : (v : List Bytes) (c : Bytes) (s : List Bytes) → (v ++ c ∷ []) ++ s ≡ v ++ c ∷ s
append_item [] c s = refl
append_item (x ∷ v) c s = ap (λ t. x ∷ t) (append_item v c s)

read_printed :
    (ss : List Bytes) (fuel : ℕ) (s : Bytes) (out : List Bytes)
    → length ss < fuel
    → read_items fuel out (print_string s (print_more ss)) ≡ ok (out ++ s ∷ ss, [])
unfolding print_more after_string expect_head skip_ws
read_printed ss zero s out h = elim h [ ]
read_printed [] (suc fuel) s out h = read_one fuel out s (b']' ∷ [])
read_printed (t ∷ ss) (suc fuel) s out h =
    read_one fuel out s (print_more (t ∷ ss))
    ∙ (read_printed ss fuel t (out ++ s ∷ []) (omega arith)
        ∙ ap (λ xs. ok (xs, [])) (append_item out s (t ∷ ss)))

length-quoted : (s rest : Bytes) → length rest ≤ length (quoted s rest)
unfolding quoted
length-quoted [] rest = omega arith
length-quoted (c ∷ s) rest = ground (arith, length-quoted s rest)

length-print_more : (ss : List Bytes) → length ss < length (print_more ss)
unfolding print_more print_string
length-print_more [] = omega arith
length-print_more (s ∷ ss) =
    omega (arith, length-print_more ss, length-quoted s (b'"' ∷ print_more ss))

array_printed :
    (ss : List Bytes) (s body : Bytes)
    → length ss < suc (length body)
    → read_array body (print_string s (print_more ss)) ≡ ok (s ∷ ss)
unfolding read_array print_string at_end skip_ws
array_printed ss s body enough =
    ap (λ r. r >>= (λ p. at_end p.0 (skip_ws p.1)))
      (read_printed ss (suc (length body)) s [] enough)

expect_open :
    (s : Bytes) (ss : List Bytes)
    → expect b'[' (print_array (s ∷ ss)) ≡ ok (print_string s (print_more ss))
unfolding expect expect_head print_array skip_ws
expect_open s ss = refl

skip_printed : (s rest : Bytes) → skip_ws (print_string s rest) ≡ print_string s rest
unfolding print_string skip_ws
skip_printed s rest = refl

none_printed : parse_json_string_array (print_array []) ≡ ok []
unfolding parse_json_string_array print_array expect expect_head skip_ws read_array at_end
none_printed = refl

length-print_array : (s : Bytes) (ss : List Bytes) → length ss < suc (length (print_array (s ∷ ss)))
unfolding print_array print_string
length-print_array s ss =
    omega (arith, length-print_more ss, length-quoted s (b'"' ∷ print_more ss))

-- ParseJsonStringArray reads back every array of strings that is printed with a backslash before
-- each quotation mark and each backslash.
pub parse-print_array : (ss : List Bytes) → parse_json_string_array (print_array ss) ≡ ok ss
unfolding parse_json_string_array
parse-print_array [] = none_printed
parse-print_array (s ∷ ss) =
    let text : Bytes = print_array (s ∷ ss) in
    ap (λ r. r >>= (λ rest. read_array text (skip_ws rest))) (expect_open s ss)
    ∙ (ap (read_array text) (skip_printed s (print_more ss))
        ∙ array_printed ss s text (length-print_array s ss))
