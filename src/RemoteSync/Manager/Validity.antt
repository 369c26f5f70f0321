-- ===== src/RemoteSync/Manager/Validity.antt =====
-- Settings that applyRemote accepts, and their way from the rows to the workers.
use mathlib.Core.Path.{subst}
use unit_management.Base.{
  ℕ, ◌≡◌, refl, sym, ◌∙◌, ap, inl, inr, Bool, true, false, not, ◌&&◌, ◌||◌, Option, none, some,
  List, [], ◌∷◌, arith, ltb, if◌then◌else◌, is_some, Bool-cases, Option-cases, count_if, All, ok,
  >>=-eq-ok,
}
use unit_management.Base.Assoc.{Assoc, lookup, assign, Entries, Entries-lookup, Entries-erase}
use unit_management.Text.{Text, text_eq, text_eq_refl, is_empty, trim_space, rune_count}
use unit_management.Text.Trim.{trim_space-trim_space}
use unit_management.Text.Url.{UrlCodec}
use unit_management.Models.{Uuid, SyncRemote}
use unit_management.RemoteSync.Manager.{
  max_name_length, min_poll_interval_sec, max_poll_interval_sec, RemoteInput, Running, Workers,
  desired_from, goes_on, same_connection, renamed, keep_workers, start, start_missing, apply_remote,
  checked_name, checked_interval, normalize_base_url,
}

-- A remote as applyRemote accepts it: a trimmed name within its bounds, an interval within its.
unfoldable pub valid_name : Text → Bool
valid_name name =
    text_eq (trim_space name) name
    && not (is_empty name)
    && not (ltb max_name_length (rune_count name))

unfoldable pub valid_interval : ℕ → Bool
valid_interval n = not (ltb n min_poll_interval_sec) && not (ltb max_poll_interval_sec n)

unfoldable pub valid : SyncRemote → Bool
valid r = valid_name r.name && valid_interval r.poll_interval_sec

abbrev pub AllValid : List SyncRemote → Type 0
AllValid = All (λ r. valid r ≡ true)

-- A worker under its remote's ID, with settings that applyRemote accepts.
abbrev pub Own : Uuid → Running → Type 0
Own id w = (w.remote.id ≡ id) × (valid w.remote ≡ true)

pub checked_name-ok :
    (urls : UrlCodec) (input : RemoteInput) (name : Text)
    → checked_name urls input ≡ ok name
    → valid_name name ≡ true
unfolding checked_name valid_name
checked_name-ok urls input name h =
    let t = trim_space input.name in
    elim (Bool-cases (is_empty t || ltb max_name_length (rune_count t))) [
      | inl e ↦ absurd (ground arith)
      | inr e ↦
          let same : t ≡ name = ground arith in
          ground (arith, trim_space-trim_space input.name, text_eq_refl t)
    ]

pub apply_remote-valid :
    (urls : UrlCodec) (r : SyncRemote) (input : RemoteInput) (r' : SyncRemote)
    → apply_remote urls r input ≡ ok r'
    → (valid r' ≡ true) × (r'.id ≡ r.id)
unfolding apply_remote checked_interval valid_interval valid
apply_remote-valid urls r input r' h =
    let (name, named, h1) = >>=-eq-ok (checked_name urls input) _ h in
    let (url, _, h2) = >>=-eq-ok (normalize_base_url urls input.base_url) _ h1 in
    let (n, checked, h3) = >>=-eq-ok (checked_interval urls input) _ h2 in
    let name_ok = checked_name-ok urls input name named in
    let same : record r {
      name = name;
      base_url = url;
      poll_interval_sec = n;
      enabled = input.enabled;
    }
        ≡ r' =
      ground arith in
    (ap valid (sym same) ∙ ground arith, ap (λ (x : SyncRemote). x.id) (sym same))

pub none_invalid : (rs : List SyncRemote) → AllValid rs → count_if (λ r. not (valid r)) rs ≡ 0
none_invalid [] h = refl
none_invalid (r ∷ rs) (v, h) = ground (arith, none_invalid rs h)

pub AllValid-of_none : (rs : List SyncRemote) → count_if (λ r. not (valid r)) rs ≡ 0 → AllValid rs
AllValid-of_none [] h = tt
AllValid-of_none (r ∷ rs) h = elim (Bool-cases (valid r)) [
  | inl v ↦ (v, AllValid-of_none rs (ground arith))
  | inr bad ↦ absurd (ground arith)
]

abbrev pub Wanted : Uuid → SyncRemote → Type 0
Wanted id r = (r.id ≡ id) × (valid r ≡ true)

pub Wanted-desired_from :
    (m : Assoc SyncRemote) (rs : List SyncRemote)
    → Entries Wanted m
    → AllValid rs
    → Entries Wanted (desired_from m rs)
unfolding desired_from
Wanted-desired_from m [] h all = h
Wanted-desired_from m (r ∷ rs) h (v, all) =
    Wanted-desired_from (if r.enabled then assign r.id r m else m) rs (with_next r.enabled) all
  where
    with_next : (b : Bool) → Entries Wanted (if b then assign r.id r m else m)
    with_next true = ((refl, v), Entries-erase Wanted r.id m h)
    with_next false = h

goes_on-Own :
    (id : Uuid) (o : Option SyncRemote) (w w' : Running)
    → ((r : SyncRemote) → o ≡ some r → Wanted id r)
    → Own id w
    → goes_on o w ≡ some w'
    → Own id w'
unfolding goes_on renamed valid
goes_on-Own id none w w' wanted own h = cc
goes_on-Own id (some r) w w' wanted (same, v) h =
    let (_, vr) = wanted r refl in
    elim (Bool-cases (same_connection r w)) [
      | inr e ↦ absurd (ground arith)
      | inl e ↦ let e' : renamed r w ≡ w' = ground arith in subst (Own id) e' (same, ground arith)
    ]

pub Own-keep_workers :
    (desired : Assoc SyncRemote) (m : Workers)
    → Entries Wanted desired
    → Entries Own m
    → Entries Own (keep_workers desired m).0
unfolding keep_workers
Own-keep_workers desired [] all h = tt
Own-keep_workers desired ((id, w) ∷ m) all (own, h) =
    elim (Option-cases (goes_on (lookup id desired) w)) [
      | inl e ↦ rw e (Own-keep_workers desired m all h)
      | inr (w', e) ↦ rw e (
        goes_on-Own id (lookup id desired) w w'
            (λ r found. Entries-lookup Wanted id desired all found) own e,
        Own-keep_workers desired m all h,
      )
    ]

pub Own-start_missing :
    (desired : Assoc SyncRemote) (m : Workers)
    → Entries Wanted desired
    → Entries Own m
    → Entries Own (start_missing desired m).0
unfolding start_missing start
Own-start_missing [] m all h = h
Own-start_missing ((id, r) ∷ desired) m ((same, v), all) h =
    elim (Bool-cases (is_some (lookup id m))) [
      | inl e ↦ rw e (Own-start_missing desired m all h)
      | inr e ↦ rw e (
          Own-start_missing desired (assign r.id (start r) m) all
            ((refl, v), Entries-erase Own r.id m h))
    ]
