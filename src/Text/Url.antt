-- ===== src/Text/Url.antt =====
-- What the server reads of a url.URL. The parser and the printer of net/url are parameters.
use unit_management.Base.{Option, [], ◌∷◌}
use unit_management.Text.{Text}

pub record Url : Type 0 where
  pub scheme : Text
  pub host : Text
  pub path : Text
  pub raw_path : Text
  pub raw_query : Text
  pub fragment : Text
  pub user : Option Text

pub record UrlCodec : Type 0 where
  pub parse : Text → Option Url
  pub print : Url → Text

abbrev pub http : Text
http = b'h' ∷ b't' ∷ b't' ∷ b'p' ∷ []

abbrev pub https : Text
https = b'h' ∷ b't' ∷ b't' ∷ b'p' ∷ b's' ∷ []
