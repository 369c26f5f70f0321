-- ===== src/Units/Sync/Owners.antt =====
-- The remote that a unit is mirrored from, before and after the operations of a worker.
use mathlib.Core.Path.{subst}
use unit_management.Base.{
  ◌≡◌, ◌≢◌, refl, sym, ap, ◌∙◌, inl, inr, Bool, true, false, Option, none, some, List, [], ◌∷◌, map,
  arith, Bool-cases, Option-cases, find?, keep_if, map_if, any, ◌==◌, if◌then◌else◌, is_some,
  find?-append_none, find?-map_if, find?-map_if_ne, find?-holds,
}
use unit_management.Database.{Table, IsTable}
use unit_management.Models.{Uuid, UnitRow, UnitPosition}
use unit_management.Units.Input.{Input}
use unit_management.Units.Input.Validity.{apply-keeps}
use unit_management.Units.Service.{Tables, by_id, mirrored_from, blank, written_synced}
use unit_management.Units.Service.Lookup.{KeptUnit, KeptPosition, row}
use unit_management.Units.Sync.{Outcome}
use unit_management.Units.Sync.Effects.{Upserted, new_unit, same_unit, changed_unit}

abbrev pub owner_in : Option UnitRow → Option (Option Uuid)
owner_in none = none
owner_in (some u) = some u.sync_remote_id

pub mirrored_from-eq :
    (remote : Uuid) (u : UnitRow) → mirrored_from remote u ≡ true → u.sync_remote_id ≡ some remote
mirrored_from-eq remote u h = elim (Option-cases u.sync_remote_id) [
  | inl e ↦ absurd (ground arith)
  | inr (r, e) ↦ ground arith
]

pub eq-mirrored_from :
    (remote : Uuid) (u : UnitRow) → u.sync_remote_id ≡ some remote → mirrored_from remote u ≡ true
eq-mirrored_from remote u h = ground arith

pub by_id-ne : (u : UnitRow) (id j : Uuid) → j ≢ id → u.id ≡ id → by_id j u ≡ false
by_id-ne u id j ne e = ground arith

pub find?-keep_if-both :
    (p q : UnitRow → Bool) (xs : List UnitRow) {x : UnitRow}
    → find? q (keep_if p xs) ≡ some x
    → (p x ≡ true) × (q x ≡ true)
find?-keep_if-both p q [] h = absurd (cc)
find?-keep_if-both p q (y ∷ ys) {x} h = ground (arith, find?-keep_if-both p q ys {x = x})

pub find?-keep_if-kept :
    (p q : UnitRow → Bool) (xs : List UnitRow)
    → ((x : UnitRow) → find? q xs ≡ some x → p x ≡ true)
    → find? q (keep_if p xs) ≡ find? q xs
find?-keep_if-kept p q [] h = refl
find?-keep_if-kept p q (y ∷ ys) h = elim (Bool-cases (q y)) [
  | inl hit ↦ let kept = h y (ground arith) in ground arith
  | inr miss ↦ ground (arith, find?-keep_if-kept p q ys λ x e. h x (ground arith))
]

-- A unit found among the rows is among the IDs of the rows that pass a test that it passes.
pub any-kept :
    (m : UnitRow → Bool) (j : Uuid) (xs : List UnitRow) {u : UnitRow}
    → find? (by_id j) xs ≡ some u
    → m u ≡ true
    → any (λ i. i == j) (map (λ u. u.id) (keep_if m xs)) ≡ true
any-kept m j [] h t = absurd (cc)
any-kept m j (x ∷ xs) {u} h t = ground (arith, any-kept m j xs {u = u})

module _ {U P : Type 0} (units : Table U UnitRow) (positions : Table P UnitPosition)
    (unit_laws : IsTable KeptUnit units) (position_laws : IsTable KeptPosition positions) where
  abbrev pub owner : Tables U P → Uuid → Option (Option Uuid)
  owner t j = owner_in (row units positions t j)

  pub Upserted-others :
      (t : Tables U P) (remote id : Uuid) (input : Input) (o : Outcome) (t' : Tables U P) (j : Uuid)
      → j ≢ id
      → Upserted units positions t remote id input o t'
      → row units positions t' j ≡ row units positions t j
  unfolding blank
  Upserted-others t remote id input o t' j ne (new_unit u v _ absent applied ins) =
      let (same_id, _, _, _) = apply-keeps _ input applied in
      let other : by_id j u ≡ false = by_id-ne u id j ne same_id in
      ap (find? (by_id j)) ins.rows
      ∙ (find?-append_none (by_id j) (units.rows t.units) u ∙ appended u _ other)
    where
      appended :
          (u : UnitRow) (o : Option UnitRow)
          → by_id j u ≡ false
          → (if is_some o then o else if by_id j u then some u else none) ≡ o
      appended u none e = ground arith
      appended u (some w) e = refl
  Upserted-others t remote id input o t' j ne (same_unit before after _ _ _ _ _ same) =
      ap (λ x. row units positions x j) same
  Upserted-others t remote id input o t' j ne
        (changed_unit before after f fs _ found ours applied _ w) =
      let (same_id, _, _, _) = apply-keeps before input applied in
      let at = find?-holds (by_id id) (units.rows t.units) found in
      let same : after.id ≡ id = ground arith in
      ap (find? (by_id j)) w.rows
      ∙ find?-map_if_ne (by_id after.id) (by_id j) (written_synced after) (units.rows t.units)
          λ y hit. (ground arith, unfold written_synced in ground arith)

  pub Upserted-mine :
      (t : Tables U P) (remote id : Uuid) (input : Input) (o : Outcome) (t' : Tables U P)
      → Upserted units positions t remote id input o t'
      → owner t' id ≡ some (some remote)
  unfolding blank
  Upserted-mine t remote id input o t' (new_unit u v _ absent applied ins) =
      let (same_id, _, _, same_remote) = apply-keeps _ input applied in
      let here : by_id id u ≡ true = ground arith in
      ap (λ rs. owner_in (find? (by_id id) rs)) ins.rows
      ∙ (ap owner_in (find?-append_none (by_id id) (units.rows t.units) u)
          ∙ rw (absent, here) (ap some same_remote))
  Upserted-mine t remote id input o t' (same_unit before after _ found ours _ _ same) =
      ap (λ x. owner x id) same
      ∙ (ap owner_in found ∙ ap some (mirrored_from-eq remote before ours))
  Upserted-mine t remote id input o t' (changed_unit before after f fs _ found ours applied _ w) =
      let (same_id, _, _, _) = apply-keeps before input applied in
      let at = find?-holds (by_id id) (units.rows t.units) found in
      let same : after.id ≡ id = ground arith in
      let found' : find? (by_id id)
            (map_if (by_id after.id) (written_synced after) (units.rows t.units))
          ≡ some (written_synced after before) =
        subst
          (λ k.
            find? (by_id id) (map_if (by_id k) (written_synced after) (units.rows t.units))
            ≡ some (written_synced after before))
          (sym same)
          (find?-map_if (by_id id) (written_synced after) (units.rows t.units)
            (λ y hit. unfold written_synced in hit) found) in
      ap (λ rs. owner_in (find? (by_id id) rs)) w.rows
      ∙ (ap owner_in found'
          ∙ unfold written_synced in ap some (mirrored_from-eq remote before ours))
