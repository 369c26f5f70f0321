-- ===== src/Server/RateLimit/Spec.antt =====
-- The failure limiter against its description: the failures of each key since its last reset, all of
-- them, and a count of those within the window.
use mathlib.Core.Path.{subst}
use unit_management.Base.{
  ℕ, ◌+◌, ◌≤◌, ◌<◌, ◌≡◌, refl, sym, ap, ◌∙◌, ◌↔◌, inl, inr, true, ◌&&◌, List, [], ◌∷◌, ◌++◌, arith,
  ltb, leb, if◌then◌else◌, length, All, ltb→lt, Bool-cases, count_if, any, last_n,
  last_n-last_n-append, length-last_n,
}
use unit_management.Text.{Text, text_eq, text_eq_iff}
use unit_management.Models.{Time}
use unit_management.Server.RateLimit.{
  FailureLimiter, FailureMap, new_failure_limiter, recent_times, recent, retry_after, wait, latest,
  fail, reset, sweep, assign, erase, is_nil, failure_limiter_prune_size,
}
use unit_management.Server.RateLimit.Window.{
  IsAscending, latest-eq-last_n, recent_times-last_n, recent_times-recent_times,
  recent_times-append, recent_times-IsAscending, length-recent_times,
}

-- The calls of a limiter, a failure with the time that its clock reads.
pub data Call : Type 0 where
  fails : Text → Time → Call
  resets : Text → Call

unfoldable pub step : FailureLimiter → Call → FailureLimiter
step l (fails key now) = fail l key now
step l (resets key) = reset l key

unfoldable pub run : FailureLimiter → List Call → FailureLimiter
run l [] = l
run l (c ∷ cs) = run (step l c) cs

-- The failures of a key after one more call.
unfoldable pub note : Text → Call → List Time → List Time
note k (fails key now) ts = if text_eq key k then ts ++ now ∷ [] else ts
note k (resets key) ts = if text_eq key k then [] else ts

-- The failures of each key since its last reset.
unfoldable pub failures_since : (Text → List Time) → List Call → Text → List Time
failures_since h [] k = h k
failures_since h (c ∷ cs) k = failures_since (λ j. note j c (h j)) cs k

-- The clock after a call.
abbrev pub clock_after : Time → Call → Time
clock_after clock (fails key now) = now
clock_after clock (resets key) = clock

-- The clock does not go back.
abbrev pub InOrder : Time → List Call → Type 0
InOrder clock [] = Unit
InOrder clock (c ∷ cs) = (clock ≤ clock_after clock c) × InOrder (clock_after clock c) cs

abbrev pub clock_at_end : Time → List Call → Time
clock_at_end clock [] = clock
clock_at_end clock (c ∷ cs) = clock_at_end (clock_after clock c) cs

-- The failures kept for one key agree with all of them, from the clock's time on.
record KeyAgrees (limit w : ℕ) (clock : Time) (kept all : List Time) : Type 0 where
  pub ascending : IsAscending all
  pub past : All (λ t. t ≤ clock) all
  pub same :
      (now : Time) → clock ≤ now → recent_times w now kept ≡ last_n limit (recent_times w now all)

IsAscending-append :
    (ts : List Time) (t : Time) → IsAscending ts → All (λ u. u ≤ t) ts → IsAscending (ts ++ t ∷ [])
IsAscending-append [] t h p = (tt, tt)
IsAscending-append (u ∷ ts) t (first, rest) (le, les) =
    (all_then ts first, IsAscending-append ts t rest les)
  where
    all_then : (vs : List Time) → All (λ v. u ≤ v) vs → All (λ v. u ≤ v) (vs ++ t ∷ [])
    all_then [] q = (le, tt)
    all_then (v ∷ vs) (q, qs) = (q, all_then vs qs)

All-le : (a b : Time) (ts : List Time) → a ≤ b → All (λ t. t ≤ a) ts → All (λ t. t ≤ b) ts
All-le a b [] h p = tt
All-le a b (t ∷ ts) h (p, ps) = (omega arith, All-le a b ts h ps)

All-le-append : (ts : List Time) (t : Time) → All (λ u. u ≤ t) ts → All (λ u. u ≤ t) (ts ++ t ∷ [])
All-le-append [] t p = (omega arith, tt)
All-le-append (u ∷ ts) t (p, ps) = (p, All-le-append ts t ps)

later_agrees :
    {limit w : ℕ} {a b : Time} {kept all : List Time}
    → a ≤ b
    → KeyAgrees limit w a kept all
    → KeyAgrees limit w b kept all
later_agrees {a} {b} {all} h k = record {
  ascending = k.ascending;
  past = All-le a b all h k.past;
  same = λ now g. k.same now (omega arith);
}

-- One more failure, of a key with the kept times `kept`.
fail_agrees :
    {limit w : ℕ} {clock now : Time} {kept all : List Time}
    → 0 < w
    → clock ≤ now
    → KeyAgrees limit w clock kept all
    → KeyAgrees limit w now (latest limit (recent_times w now kept ++ now ∷ [])) (all ++ now ∷ [])
fail_agrees {limit} {w} {clock} {now} {kept} {all} pos h k =
    let grown = IsAscending-append all now k.ascending (All-le clock now all h k.past) in
    let stored : latest limit (recent_times w now kept ++ now ∷ [])
        ≡ last_n limit (recent_times w now (all ++ now ∷ [])) =
      latest-eq-last_n limit _
      ∙ (ap (λ ts. last_n limit (ts ++ now ∷ [])) (k.same now h)
          ∙ (last_n-last_n-append limit (recent_times w now all) now
              ∙ ap (last_n limit) (sym (recent_times-append w now all pos)))) in
    record {
      ascending = grown;
      past = All-le-append all now (All-le clock now all h k.past);
      same = λ at g.
          ap (recent_times w at) stored
          ∙ (recent_times-last_n w at limit _ (recent_times-IsAscending w now _ grown)
              ∙ ap (last_n limit) (recent_times-recent_times w now at (all ++ now ∷ []) g));
    }

none_agree : (limit w : ℕ) (clock : Time) → KeyAgrees limit w clock [] []
unfolding recent_times last_n
none_agree limit w clock = record { ascending = tt; past = tt; same = λ now g. refl }

nil_later :
    (w now at : Time) (ts : List Time)
    → now ≤ at
    → is_nil (recent_times w now ts) ≡ true
    → recent_times w at ts ≡ recent_times w at []
nil_later w now at ts h e =
    sym (recent_times-recent_times w now at ts h)
    ∙ ap (recent_times w at) (is_nil-eq (recent_times w now ts) e)
  where
    is_nil-eq : (us : List Time) → is_nil us ≡ true → us ≡ []
    is_nil-eq [] q = refl
    is_nil-eq (u ∷ us) q = cc

-- The sweep changes no recent failure.
recent_times-sweep :
    (w now at : Time) (m : FailureMap) (k : Text)
    → now ≤ at
    → recent_times w at ((sweep w now m).times k) ≡ recent_times w at (m.times k)
unfolding sweep
recent_times-sweep w now at m k h =
    elim (Bool-cases (any (text_eq k) m.keys && is_nil (recent_times w now (m.times k)))) [
      | inl gone ↦ rw gone (sym (nil_later w now at (m.times k) h (ground arith)))
      | inr kept ↦ rw kept refl
    ]

-- The map that `fail` writes to.
abbrev swept_map : FailureLimiter → Time → FailureMap
swept_map l now =
    if leb failure_limiter_prune_size (length l.failures.keys)
    then sweep l.window now l.failures
    else l.failures

swept_agrees :
    (l : FailureLimiter) (k : Text) (clock now : Time) (all : List Time)
    → clock ≤ now
    → KeyAgrees l.limit l.window clock (l.failures.times k) all
    → KeyAgrees l.limit l.window now ((swept_map l now).times k) all
swept_agrees l k clock now all h a =
    elim (Bool-cases (leb failure_limiter_prune_size (length l.failures.keys))) [
      | inl many ↦ rw many (record {
        ascending = a.ascending;
        past = All-le clock now all h a.past;
        same = λ at g. recent_times-sweep l.window now at l.failures k g ∙ a.same at (omega arith);
      })
      | inr few ↦ rw few (later_agrees h a)
    ]

abbrev Agrees : FailureLimiter → Time → (Text → List Time) → Type 0
Agrees l clock h = (k : Text) → KeyAgrees l.limit l.window clock (l.failures.times k) (h k)

step-Agrees :
    (l : FailureLimiter) (c : Call) (clock : Time) (h : Text → List Time)
    → 0 < l.window
    → clock ≤ clock_after clock c
    → Agrees l clock h
    → Agrees (step l c) (clock_after clock c) (λ k. note k c (h k))
unfolding step fail reset assign erase note
step-Agrees l (fails key now) clock h pos le a k = elim (Bool-cases (text_eq key k)) [
  | inl hit ↦ rw hit (
      subst
        (λ j.
          KeyAgrees l.limit l.window now
            (latest l.limit (recent_times l.window now ((swept_map l now).times key) ++ now ∷ []))
            (h j ++ now ∷ []))
        ((text_eq_iff key k).0 hit)
        (fail_agrees pos (omega arith) (swept_agrees l key clock now (h key) le (a key))))
  | inr miss ↦ rw miss (swept_agrees l k clock now (h k) le (a k))
]
step-Agrees l (resets key) clock h pos le a k = elim (Bool-cases (text_eq key k)) [
  | inl hit ↦ rw hit (none_agree l.limit l.window clock)
  | inr miss ↦ rw miss (a k)
]

window_kept :
    (l : FailureLimiter) (c : Call) → ((step l c).window ≡ l.window) × ((step l c).limit ≡ l.limit)
unfolding step fail reset
window_kept l (fails key now) = (refl, refl)
window_kept l (resets key) = (refl, refl)

run-Agrees :
    (l : FailureLimiter) (cs : List Call) (clock : Time) (h : Text → List Time)
    → 0 < l.window
    → InOrder clock cs
    → Agrees l clock h
    → (Agrees (run l cs) (clock_at_end clock cs) (failures_since h cs))
      × ((run l cs).limit ≡ l.limit)
      × ((run l cs).window ≡ l.window)
unfolding run failures_since
run-Agrees l [] clock h pos order a = (a, refl, refl)
run-Agrees l (c ∷ cs) clock h pos (le, order) a =
    let (same_window, same_limit) = window_kept l c in
    let (b, e, f) =
      run-Agrees (step l c) cs (clock_after clock c) _ (subst (λ w. 0 < w) (sym same_window) pos)
        order (step-Agrees l c clock h pos le a) in
    (b, e ∙ same_limit, f ∙ same_window)

wait-recent :
    (limit w now : ℕ) (ts : List Time)
    → 0 < limit
    → (wait limit w (recent_times w now ts) now ≡ 0)
      ↔ (ltb (length (recent_times w now ts)) limit ≡ true)
unfolding recent_times
wait-recent limit w now [] pos = ground arith
wait-recent limit w now (t ∷ ts) pos = elim (Bool-cases (ltb now (t + w))) [
  | inl inside ↦ rw inside (ground arith)
  | inr outside ↦ rw outside (wait-recent limit w now ts pos)
]

ltb-lt : (a b : ℕ) → a < b → ltb a b ≡ true
ltb-lt a b h = ground arith

none_wait :
    (l : FailureLimiter) (key : Text) (now : Time)
    → 0 < l.limit
    → (retry_after l key now now ≡ 0) ↔ (ltb (length (recent l key now)) l.limit ≡ true)
unfolding retry_after recent
none_wait l key now pos = wait-recent l.limit l.window now (l.failures.times key) pos

-- Whatever calls a limiter with a positive limit and window has seen on a clock that does not go
-- back, and however it pruned its map, a key has no wait exactly if fewer than `limit` failures
-- since its last reset lie within the window.
pub retry_after-counts :
    (limit w : ℕ) (cs : List Call) (clock now : Time) (key : Text)
    → 0 < limit
    → 0 < w
    → InOrder clock cs
    → clock_at_end clock cs ≤ now
    → (retry_after (run (new_failure_limiter limit w) cs) key now now ≡ 0)
      ↔ (count_if (λ t. ltb now (t + w)) (failures_since (λ _. []) cs key) < limit)
unfolding recent new_failure_limiter
retry_after-counts limit w cs clock now key pos pos_w order at_end =
    let l = run (new_failure_limiter limit w) cs in
    let (agrees, same_limit, same_window) =
      run-Agrees (new_failure_limiter limit w) cs clock (λ _. []) pos_w order
        (λ k. none_agree limit w clock) in
    let a = agrees key in
    let sizes : ltb (length (recent l key now)) l.limit
        ≡ ltb (count_if (λ t. ltb now (t + l.window)) (failures_since (λ _. []) cs key)) l.limit =
      ap (λ ts. ltb (length ts) l.limit) (a.same now at_end)
      ∙ (length-last_n l.limit _
          ∙ ap (λ n. ltb n l.limit) (length-recent_times l.window now _ a.ascending)) in
    subst
      (λ v.
        (retry_after l key now now ≡ 0)
        ↔ (count_if (λ t. ltb now (t + v)) (failures_since (λ _. []) cs key) < limit))
      same_window
      (subst
        (λ v.
          (retry_after l key now now ≡ 0)
          ↔ (count_if (λ t. ltb now (t + l.window)) (failures_since (λ _. []) cs key) < v))
        same_limit
        (let n = none_wait l key now (subst (λ v. 0 < v) (sym same_limit) pos) in
          (λ z. ltb→lt _ _ (sym sizes ∙ n.0 z), λ less. n.1 (sizes ∙ ltb-lt _ _ less))))
