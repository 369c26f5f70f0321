-- ===== src/Settings/Origin.antt =====
-- The origin of accepted settings, which stands in the Content-Security-Policy of every response.
use unit_management.Base.{
  ℕ, ◌≡◌, refl, sym, ◌∙◌, ap, inl, inr, Bool, true, false, not, ◌&&◌, ◌||◌, Option, none, some,
  List, [], ◌∷◌, ◌++◌, arith, ◌⊎◌, ◌==◌, ltb, if◌then◌else◌, is_some, all, any, leb, Bool-cases, ok,
  guard, guard-true, ◌>>=◌, ◌>>◌, >>=-eq-ok,
}
use unit_management.Text.{Text, text_eq, text_eq_iff, is_empty, byte_len}
use unit_management.Text.Url.{Url, UrlCodec, http, https}
use unit_management.Models.{Setting}
use unit_management.Database.{Table}
use unit_management.Settings.{
  Settings, SettingsService, invalid, max_url_length, is_host_char, cut_left, cut_right, cut_end,
  trim_host, absolute_url, validate, origin_of, map_origin, store, upserted, update,
}

cut_left-all : (s : Text) → is_empty (cut_left s) ≡ all is_host_char s
unfolding cut_left
cut_left-all [] = refl
cut_left-all (c ∷ s) = ground (arith, cut_left-all s)

cut_end-nonempty : (c : ℕ) (s : Text) → is_empty s ≡ false → is_empty (cut_end c s) ≡ false
cut_end-nonempty c [] h = absurd (cc)
cut_end-nonempty c (d ∷ s) h = refl

cut_right-all : (s : Text) → is_empty (cut_right s) ≡ all is_host_char s
unfolding cut_right
cut_right-all [] = refl
cut_right-all (c ∷ s) = by_rest (cut_right s) (cut_right-all s)
  where
    by_rest :
        (rest : Text)
        → is_empty rest ≡ all is_host_char s
        → is_empty (cut_end c rest) ≡ (is_host_char c && all is_host_char s)
    by_rest [] e = ground arith
    by_rest (d ∷ rest) e = ground arith

cut_left_solid : (s : Text) → is_empty (cut_left s) ≡ false → all is_host_char (cut_left s) ≡ false
unfolding cut_left
cut_left_solid [] h = absurd (cc)
cut_left_solid (c ∷ s) h = elim (Bool-cases (is_host_char c)) [
  | inl in_set ↦ ground (arith, cut_left_solid s)
  | inr other ↦ ground arith
]

-- A host is trimmed to nothing exactly if it has only the characters of the set.
pub trim_host-all : (host : Text) → is_empty (trim_host host) ≡ all is_host_char host
unfolding trim_host
trim_host-all host = elim (Bool-cases (is_empty (cut_left host))) [
  | inl gone ↦
      let nothing : cut_left host ≡ [] = empty (cut_left host) gone in
      ap (λ s. is_empty (cut_right s)) nothing ∙ cut_right-nil ∙ sym gone ∙ cut_left-all host
  | inr stays ↦
      cut_right-all (cut_left host) ∙ cut_left_solid host stays ∙ sym stays ∙ cut_left-all host
]
  where
    empty : (s : Text) → is_empty s ≡ true → s ≡ []
    empty [] h = refl
    empty (c ∷ s) h = absurd (cc)

    cut_right-nil : is_empty (cut_right []) ≡ true
    cut_right-nil = cut_right-all []

-- What may stand in an origin, by its code point: "-", ".", "/", the digits, ":", the letters and the
-- brackets.
unfoldable pub is_origin_char : ℕ → Bool
is_origin_char c =
    leb 45 c && leb c 58 || leb 65 c && leb c 90 || leb 97 c && leb c 122 || c == 91 || c == 93

-- What separates the sources or the directives of a policy: a space or a control character, a comma,
-- a semicolon.
unfoldable pub is_separator : ℕ → Bool
is_separator c = leb c 32 || c == 44 || c == 59

no_separator : (s : Text) → all is_origin_char s ≡ true → any is_separator s ≡ false
unfolding is_origin_char is_separator
no_separator [] h = refl
no_separator (c ∷ s) h = ground (arith, no_separator s)

host_origin_char : (c : ℕ) → is_host_char c ≡ true → is_origin_char c ≡ true
unfolding is_host_char is_origin_char
host_origin_char c h = ground arith

all-append : (p : ℕ → Bool) (s t : Text) → all p (s ++ t) ≡ (all p s && all p t)
all-append p [] t = refl
all-append p (c ∷ s) t = ground (arith, all-append p s t)

all-weaker :
    (p q : ℕ → Bool) (s : Text)
    → ((c : ℕ) → p c ≡ true → q c ≡ true)
    → all p s ≡ true
    → all q s ≡ true
all-weaker p q [] f h = refl
all-weaker p q (c ∷ s) f h = ground (arith, f c, all-weaker p q s f)

module _ (urls : UrlCodec) where
  absolute_url-ok :
      (o : Option Url) (u : Url)
      → absolute_url urls o ≡ ok u
      → (o ≡ some u) × ((text_eq u.scheme https || text_eq u.scheme http) ≡ true)
  unfolding absolute_url
  absolute_url-ok none u h = absurd (cc)
  absolute_url-ok (some x) u h =
      elim (Bool-cases (
        (text_eq x.scheme https || text_eq x.scheme http)
        && not (is_empty x.host)
        && not (is_some x.user))) [
          | inr e ↦ absurd (ground arith)
          | inl e ↦
              let same : x ≡ u = ground arith in
              (
                ap some same,
                ap (λ (y : Url). text_eq y.scheme https || text_eq y.scheme http) (sym same)
                    ∙ ground arith,
              )
        ]

  scheme_chars :
      (scheme : Text)
      → (text_eq scheme https || text_eq scheme http) ≡ true
      → all is_origin_char scheme ≡ true
  unfolding is_origin_char
  scheme_chars scheme h = elim (Bool-cases (text_eq scheme https)) [
    | inl e ↦ ap (all is_origin_char) ((text_eq_iff scheme https).0 e) ∙ refl
    | inr e ↦ ap (all is_origin_char) ((text_eq_iff scheme http).0 (ground arith)) ∙ refl
  ]

  origin_chars :
      (u : Url)
      → (text_eq u.scheme https || text_eq u.scheme http) ≡ true
      → all is_host_char u.host ≡ true
      → all is_origin_char (origin_of urls (some u)) ≡ true
  unfolding origin_of is_origin_char
  origin_chars u scheme host =
      all-append is_origin_char u.scheme (b':' ∷ b'/' ∷ b'/' ∷ u.host)
      ∙ both (scheme_chars u.scheme scheme)
          (all-weaker is_host_char is_origin_char u.host host_origin_char host)
    where
      both :
          all is_origin_char u.scheme ≡ true
          → all is_origin_char u.host ≡ true
          → (all is_origin_char u.scheme && all is_origin_char (b':' ∷ b'/' ∷ b'/' ∷ u.host)) ≡ true
      both first second = rw first second

  -- The origin of settings that Validate accepts has letters, digits and ".-:[]/" only, so that it
  -- cannot end a directive of the Content-Security-Policy or start another source.
  pub validate-map_origin :
      (s : Settings) → validate urls s ≡ ok tt → all is_origin_char (map_origin urls s) ≡ true
  unfolding validate map_origin
  validate-map_origin s h = elim (Bool-cases (is_empty s.map_style_url)) [
    | inl e ↦ rw e refl
    | inr e ↦
        let h' : (do
          guard (not (ltb max_url_length (byte_len s.map_style_url))) invalid
          u ← absolute_url urls (urls.parse s.map_style_url)
          guard (is_empty (trim_host u.host)) invalid)
            ≡ ok tt =
          ground arith in
        let (_, _, h1) =
          >>=-eq-ok (guard (not (ltb max_url_length (byte_len s.map_style_url))) invalid) _ h' in
        let (u, e2, h2) = >>=-eq-ok (absolute_url urls (urls.parse s.map_style_url)) _ h1 in
        let (parsed, scheme) = absolute_url-ok (urls.parse s.map_style_url) u e2 in
        let host =
          sym (trim_host-all u.host) ∙ guard-true (is_empty (trim_host u.host)) invalid h2 in
        rw e (ap (λ o. all is_origin_char (origin_of urls o)) parsed ∙ origin_chars u scheme host)
  ]

module _ {T : Type 0} (table : Table T Setting) (urls : UrlCodec) where
  store-current :
      (s : SettingsService T) (input : Settings) (changed : List Text) (s' : SettingsService T)
      → store table urls s input ≡ ok (changed, s')
      → s'.current ≡ input
  unfolding store
  store-current s input changed s' h =
      let (t, _, h1) = >>=-eq-ok (upserted table urls s.rows _ (table.insert s.rows _)) _ h in
      ground arith

  -- Whenever Update succeeds, the current settings are the given ones, and their origin has
  -- letters, digits and ".-:[]/" only, given by their code points, and so no space, control
  -- character, comma or semicolon, which could end a source or a directive of the
  -- Content-Security-Policy.
  pub update-origin :
      (s : SettingsService T) (input : Settings) (changed : List Text) (s' : SettingsService T)
      → update table urls s input ≡ ok (changed, s')
      → (s'.current ≡ input)
        × (all is_origin_char (map_origin urls s'.current) ≡ true)
        × (any is_separator (map_origin urls s'.current) ≡ false)
  unfolding update
  update-origin s input changed s' h =
      let (_, valid, h1) = >>=-eq-ok (validate urls input) _ h in
      let current =
        by_change (Bool-cases (text_eq input.map_style_url s.current.map_style_url)) h1 in
      let good =
        ap (λ x. all is_origin_char (map_origin urls x)) current
        ∙ validate-map_origin urls input valid in
      (current, good, no_separator (map_origin urls s'.current) good)
    where
      by_change :
          (text_eq input.map_style_url s.current.map_style_url ≡ true)
            ⊎ (text_eq input.map_style_url s.current.map_style_url ≡ false)
          → (if text_eq input.map_style_url s.current.map_style_url
              then ok ([], s)
              else store table urls s input)
            ≡ ok (changed, s')
          → s'.current ≡ input
      by_change (inl e) h =
          let same : s ≡ s' = ground arith in
          ap (λ (x : SettingsService T). x.current) (sym same)
          ∙ ap (λ url. record { map_style_url = url })
              (sym ((text_eq_iff input.map_style_url s.current.map_style_url).0 e))
      by_change (inr e) h = store-current s input changed s' (ground arith)
