-- ===== src/Base/Bytes.antt =====
-- C strings as lists of bytes: comparison, search and the C-locale character classes that the
-- programs call (strcmp, strchr, isdigit, isalpha, isalnum, isupper, tolower, isspace).
use Prim.Native.Nat.{ℕ, ◌+◌}
use Prim.Native.Char.{code}
use Prim.Native.String.{String}
use mathlib.Core.Path.{◌≡◌}
use mathlib.Core.Logic.{◌↔◌}
use mathlib.Core.Bool.{Bool, true, false, ◌&&◌, ◌||◌}
use mathlib.Core.List.{List, [], ◌∷◌}
use native.Mathlib.Omega.{arith}
use cs214_assignments.Base.Tests.{leb, ◌==◌, if◌then◌else◌}

abbrev pub Bytes : Type 0
Bytes = List ℕ

-- The code points of a literal, its bytes where it is ASCII.
abbrev pub codes : String → Bytes
codes String.[] = []
codes (String.◌∷◌ c s) = code c ∷ codes s

-- `strcmp(a, b) == 0`
unfoldable pub str_eq : Bytes → Bytes → Bool
str_eq [] [] = true
str_eq (x ∷ xs) (y ∷ ys) = x == y && str_eq xs ys
str_eq _ _ = false

pub str_eq_iff : (a b : Bytes) → (str_eq a b ≡ true) ↔ (a ≡ b)
unfolding str_eq
str_eq_iff (x ∷ a) (y ∷ b) = ground (arith, str_eq_iff a b)
str_eq_iff _ _ = ground arith

abbrev pub within : ℕ → ℕ → ℕ → Bool
within lo hi c = leb lo c && leb c hi

abbrev pub is_digit : ℕ → Bool
is_digit c = within b'0' b'9' c

abbrev pub is_upper : ℕ → Bool
is_upper c = within b'A' b'Z' c

abbrev pub is_alpha : ℕ → Bool
is_alpha c = within b'a' b'z' c || is_upper c

abbrev pub is_alnum : ℕ → Bool
is_alnum c = is_alpha c || is_digit c

-- space, \t \n \v \f \r
abbrev pub is_space : ℕ → Bool
is_space c = c == b' ' || within 9 13 c

abbrev pub to_lower_char : ℕ → ℕ
to_lower_char c = if is_upper c then c + 32 else c

-- the string in a buffer: what stands in front of the first NUL
abbrev pub c_str : Bytes → Bytes
c_str [] = []
c_str (c ∷ cs) = let rest = c ∷ c_str cs in if c == 0 then [] else rest
