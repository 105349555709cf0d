-- ===== src/Base/Ascii.antt =====
-- Bytes as the C locale reads them: std::isspace, std::tolower, and splitting at a byte.
use Prim.Native.Nat.{ℕ, ◌+◌, ◌≤◌}
use mathlib.Core.Path.{◌≡◌, refl, ap}
use mathlib.Core.Bool.{Bool, true, false, ◌&&◌, ◌||◌}
use mathlib.Core.List.{List, [], ◌∷◌, ◌++◌}
use native.Mathlib.Omega.{arith}
use alternator_client_cpp.Base.Tests.{if◌then◌else◌, leb, nat_eq, nat_eq_iff, nat_Eq}
use alternator_client_cpp.Base.Counts.{contains}
use alternator_client_cpp.Base.Lists.{is_empty, length}
use alternator_client_cpp.Base.Bytes.{Bytes}

unfoldable pub is_space : ℕ → Bool
is_space c = nat_eq c 32 || (leb 9 c && leb c 13)

unfoldable pub to_lower : ℕ → ℕ
to_lower c = if leb b'A' c && leb c b'Z' then c + 32 else c

unfoldable pub to_lower_ascii : Bytes → Bytes
unfolding to_lower
to_lower_ascii [] = []
to_lower_ascii (c ∷ cs) = to_lower c ∷ to_lower_ascii cs

unfoldable pub skip_ws : Bytes → Bytes
unfolding is_space
skip_ws [] = []
skip_ws (c ∷ cs) = let rest = skip_ws cs in if is_space c then rest else c ∷ cs

unfoldable pub trim_right : Bytes → Bytes
unfolding is_space
trim_right [] = []
trim_right (c ∷ cs) =
    let rest = trim_right cs in if is_empty rest && is_space c then [] else c ∷ rest

unfoldable pub trim_ascii : Bytes → Bytes
unfolding skip_ws trim_right
trim_ascii cs = trim_right (skip_ws cs)

unfoldable pub add_to_first : ℕ → List Bytes → List Bytes
add_to_first c [] = (c ∷ []) ∷ []
add_to_first c (w ∷ ws) = (c ∷ w) ∷ ws

-- The parts between the separators: one more than there are separators.
unfoldable pub split_on : ℕ → Bytes → List Bytes
unfolding add_to_first
split_on sep [] = [] ∷ []
split_on sep (c ∷ cs) =
    let rest = split_on sep cs in if nat_eq c sep then [] ∷ rest else add_to_first c rest

unfoldable pub starts_with : Bytes → Bytes → Bool
starts_with [] cs = true
starts_with (p ∷ ps) [] = false
starts_with (p ∷ ps) (c ∷ cs) = nat_eq p c && starts_with ps cs

to_lower_idem : (c : ℕ) → to_lower (to_lower c) ≡ to_lower c
unfolding to_lower
to_lower_idem c = ground arith

pub to_lower_ascii_idem : (cs : Bytes) → to_lower_ascii (to_lower_ascii cs) ≡ to_lower_ascii cs
unfolding to_lower_ascii
to_lower_ascii_idem [] = refl
to_lower_ascii_idem (c ∷ cs) = cc (to_lower_idem c, to_lower_ascii_idem cs)

pub length-skip_ws : (cs : Bytes) → length (skip_ws cs) ≤ length cs
unfolding skip_ws
length-skip_ws [] = omega arith
length-skip_ws (c ∷ cs) = ground (arith, length-skip_ws cs)

-- A part without the separator, and what stands behind the next one.
pub split_on-part :
    (sep : ℕ) (part rest : Bytes)
    → contains sep part ≡ false
    → split_on sep (part ++ sep ∷ rest) ≡ part ∷ split_on sep rest
unfolding split_on contains add_to_first
split_on-part sep [] rest h = rw ((nat_eq_iff sep sep).1 refl) refl
split_on-part sep (c ∷ cs) rest h =
    let other : nat_eq c sep ≡ false = ground arith in
    let later : contains sep cs ≡ false = ground arith in
    rw other (ap (add_to_first c) (split_on-part sep cs rest later))

pub split_on_one :
    (sep : ℕ) (part : Bytes) → contains sep part ≡ false → split_on sep part ≡ part ∷ []
unfolding split_on contains add_to_first
split_on_one sep [] h = refl
split_on_one sep (c ∷ cs) h =
    let other : nat_eq c sep ≡ false = ground arith in
    let later : contains sep cs ≡ false = ground arith in
    rw other (ap (add_to_first c) (split_on_one sep cs later))
