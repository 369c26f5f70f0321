-- ===== src/Server/Proxy/Trust.antt =====
-- Which entry the client's address is.
use unit_management.Base.{
  ◌≡◌, ◌⊎◌, refl, ap, inl, inr, Bool, true, false, Option, none, some, List, [], ◌∷◌, ◌++◌, All,
  Bool-cases, Option-cases,
}
use unit_management.Text.{Text}
use unit_management.Server.Proxy.{walk}

module _ {A : Type 0} (parse_ip : Text → Option A) (is_trusted : A → Bool) where
  abbrev pub IsProxy : Text → Type 0
  IsProxy h = (a : A) × (parse_ip h ≡ some a) × (is_trusted a ≡ true)

  -- Where the walk over the hops, nearest first, has come to an end: all of the hops nearer than the
  -- answer are trusted proxies.
  pub data Walked (client : Option A) (hops : List Text) (answer : Option A) : Type 0 where
    -- At a hop that is not a trusted proxy.
    at_client :
        (near : List Text) (h : Text) (far : List Text) (a : A)
        → hops ≡ near ++ h ∷ far
        → All IsProxy near
        → parse_ip h ≡ some a
        → is_trusted a ≡ false
        → answer ≡ some a
        → Walked client hops answer
    -- Before a malformed entry or at the end of the hops, at the last proxy, if there is one.
    at_proxy :
        (near : List Text) (h : Text) (far : List Text) (a : A)
        → hops ≡ near ++ h ∷ far
        → All IsProxy near
        → parse_ip h ≡ some a
        → is_trusted a ≡ true
        → (far ≡ [])
          ⊎ ((bad : Text) × (rest : List Text) × (far ≡ bad ∷ rest) × (parse_ip bad ≡ none))
        → answer ≡ some a
        → Walked client hops answer
    -- With no hop, or a malformed nearest one.
    at_start :
        (hops ≡ [])
          ⊎ ((bad : Text) × (rest : List Text) × (hops ≡ bad ∷ rest) × (parse_ip bad ≡ none))
        → answer ≡ client
        → Walked client hops answer

  one_more :
      (client : Option A) (h : Text) (a : A) (hops : List Text) (answer : Option A)
      → parse_ip h ≡ some a
      → is_trusted a ≡ true
      → Walked (some a) hops answer
      → Walked client (h ∷ hops) answer
  one_more client h a hops answer e t (at_client near g far b cut ps eb tb same) =
      at_client (h ∷ near) g far b (ap (λ x. h ∷ x) cut) ((a, e, t), ps) eb tb same
  one_more client h a hops answer e t (at_proxy near g far b cut ps eb tb stop same) =
      at_proxy (h ∷ near) g far b (ap (λ x. h ∷ x) cut) ((a, e, t), ps) eb tb stop same
  one_more client h a hops answer e t (at_start stop same) =
      at_proxy [] h hops a refl tt e t stop same

  -- The walk over the forwarded hops ends at the first hop that is no trusted proxy, or at the last
  -- proxy before a malformed entry or the end, or, with no hop or a malformed nearest one, where it
  -- started.
  pub walk-Walked :
      (client : Option A) (hops : List Text)
      → Walked client hops (walk parse_ip is_trusted client hops)
  unfolding walk
  walk-Walked client [] = at_start (inl refl) refl
  walk-Walked client (h ∷ hops) = elim (Option-cases (parse_ip h)) [
    | inl bad ↦ at_start (inr (h, hops, refl, bad)) (rw (bad, walk) refl)
    | inr (a, e) ↦ elim (Bool-cases (is_trusted a)) [
      | inl t ↦ one_more client h a hops _ e t (rw (e, t, walk) (walk-Walked (some a) hops))
      | inr t ↦ at_client [] h hops a refl tt e t (rw (e, t, walk) refl)
    ]
  ]
