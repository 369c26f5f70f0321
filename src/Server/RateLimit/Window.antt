-- ===== src/Server/RateLimit/Window.antt =====
-- The sliding window over lists of times: what is dropped from the front, and what is kept at the end.
use unit_management.Base.{
  ℕ, ◌+◌, ◌≤◌, ◌<◌, ◌≡◌, refl, inl, inr, List, [], ◌∷◌, ◌++◌, arith, ltb, length, All, last_n,
  last_n_all, slice-eq-last_n, Bool-cases, count_if,
}
use unit_management.Models.{Time}
use unit_management.Server.RateLimit.{recent_times, latest}

-- Ascending, and not after `now`.
abbrev pub IsAscending : List Time → Type 0
IsAscending [] = Unit
IsAscending (t ∷ ts) = All (λ u. t ≤ u) ts × IsAscending ts

pub latest-eq-last_n : (n : ℕ) (ts : List Time) → latest n ts ≡ last_n n ts
unfolding latest
latest-eq-last_n n ts = slice-eq-last_n n ts

length-recent_times-le : (w now : ℕ) (ts : List Time) → length (recent_times w now ts) ≤ length ts
unfolding recent_times
length-recent_times-le w now [] = omega arith
length-recent_times-le w now (t ∷ ts) = ground (arith, length-recent_times-le w now ts)

-- After a time within the window all later ones are within it.
recent_times-All :
    (w now t : ℕ) (ts : List Time) → now < t + w → All (λ u. t ≤ u) ts → recent_times w now ts ≡ ts
unfolding recent_times
recent_times-All w now t [] h k = refl
recent_times-All w now t (u ∷ ts) h (k, ks) = ground arith

pub recent_times-last_n :
    (w now n : ℕ) (ts : List Time)
    → IsAscending ts
    → recent_times w now (last_n n ts) ≡ last_n n (recent_times w now ts)
unfolding recent_times last_n
recent_times-last_n w now n [] h = refl
recent_times-last_n w now n (t ∷ ts) (first, rest) = ground (
  arith,
  recent_times-last_n w now n ts rest,
  recent_times-All w now t ts,
  last_n_all n (recent_times w now ts),
  length-recent_times-le w now ts,
)

pub recent_times-recent_times :
    (w now later : ℕ) (ts : List Time)
    → now ≤ later
    → recent_times w later (recent_times w now ts) ≡ recent_times w later ts
unfolding recent_times
recent_times-recent_times w now later [] h = refl
recent_times-recent_times w now later (t ∷ ts) h =
    ground (arith, recent_times-recent_times w now later ts)

pub recent_times-append :
    (w now : ℕ) (ts : List Time)
    → 0 < w
    → recent_times w now (ts ++ now ∷ []) ≡ recent_times w now ts ++ now ∷ []
unfolding recent_times
recent_times-append w now [] h = ground arith
recent_times-append w now (t ∷ ts) h = ground (arith, recent_times-append w now ts h)

pub recent_times-IsAscending :
    (w now : ℕ) (ts : List Time) → IsAscending ts → IsAscending (recent_times w now ts)
unfolding recent_times
recent_times-IsAscending w now [] h = tt
recent_times-IsAscending w now (t ∷ ts) (first, rest) = elim (Bool-cases (ltb now (t + w))) [
  | inl e ↦ rw e (first, rest)
  | inr e ↦ rw e (recent_times-IsAscending w now ts rest)
]

-- The recent failures are those within the window.
pub length-recent_times :
    (w now : ℕ) (ts : List Time)
    → IsAscending ts
    → length (recent_times w now ts) ≡ count_if (λ t. ltb now (t + w)) ts
unfolding recent_times
length-recent_times w now [] h = refl
length-recent_times w now (t ∷ ts) (first, rest) =
    ground (arith, length-recent_times w now ts rest, recent_times-All w now t ts)
