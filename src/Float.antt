-- ===== src/Float.antt =====
-- float64: sign and magnitude, in units of 2^-1074, of which every finite float64 is a multiple.
use unit_management.Base.{ℕ, ◌*◌, ◌-◌, ◌^◌, Bool, true, false, ◌&&◌, not, leb, ◌==◌}

-- `infinite true` is the negative infinity; `finite true 0` is the negative zero.
pub data Float : Type 0 where
  nan : Float
  infinite : Bool → Float
  finite : Bool → ℕ → Float

-- a == b
unfoldable pub float_eq : Float → Float → Bool
float_eq (infinite true) (infinite true) = true
float_eq (infinite false) (infinite false) = true
float_eq (finite true m) (finite true n) = m == n
float_eq (finite false m) (finite false n) = m == n
float_eq (finite true m) (finite false n) = m == 0 && n == 0
float_eq (finite false m) (finite true n) = m == 0 && n == 0
float_eq _ _ = false

-- a <= b
unfoldable pub float_le : Float → Float → Bool
float_le nan b = false
float_le (infinite s) nan = false
float_le (infinite true) (infinite t) = true
float_le (infinite true) (finite t n) = true
float_le (infinite false) (infinite t) = not t
float_le (infinite false) (finite t n) = false
float_le (finite s m) nan = false
float_le (finite s m) (infinite t) = not t
float_le (finite true m) (finite false n) = true
float_le (finite true m) (finite true n) = leb n m
float_le (finite false m) (finite false n) = leb m n
float_le (finite false m) (finite true n) = m == 0 && n == 0

-- a < b
abbrev pub float_lt : Float → Float → Bool
float_lt a b = float_le a b && not (float_eq a b)

-- math.IsNaN
abbrev pub is_nan : Float → Bool
is_nan nan = true
is_nan _ = false

-- -a
abbrev pub negate : Float → Float
negate nan = nan
negate (infinite s) = infinite (not s)
negate (finite s m) = finite (not s) m

-- A whole number n, as a magnitude.
unfoldable pub whole : ℕ → ℕ
whole n = n * 2 ^ 1074

-- math.MaxFloat64, as a magnitude.
unfoldable pub max_float : ℕ
max_float = (2 ^ 53 - 1) * 2 ^ 971 * 2 ^ 1074
