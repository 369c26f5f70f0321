-- ===== src/Server/Proxy.antt =====
-- internal/server/proxy.go: the client's address behind trusted proxies. Addresses and their parser
-- (net/netip) are parameters.
pub mod Trust
use unit_management.Base.{Bool, true, false, Option, none, some, List, [], ◌∷◌, ◌++◌, if◌then◌else◌}
use unit_management.Text.{Text, split}

module _ {A : Type 0} (parse_ip : Text → Option A) (is_trusted : A → Bool) where
  -- The loop over the hops from the last one on; `client` is the address so far.
  unfoldable pub walk : Option A → List Text → Option A
  walk client [] = client
  walk client (hop ∷ hops) = elim (parse_ip hop) [
    | none ↦ client
    | some addr ↦ let rest = walk (some addr) hops in if is_trusted addr then rest else some addr
  ]

  unfoldable pub reversed : List Text → List Text
  reversed [] = []
  reversed (h ∷ hs) = reversed hs ++ h ∷ []

  -- The entries of all X-Forwarded-For headers
  unfoldable pub hops_of : List Text → List Text
  hops_of [] = []
  hops_of (v ∷ vs) = split b',' v ++ hops_of vs

  unfoldable pub from_hops : Text → List Text → Option A
  from_hops real_ip [] = parse_ip real_ip
  from_hops real_ip (h ∷ hs) = walk none (reversed (h ∷ hs))

  -- forwardedClient, on the values of X-Forwarded-For and on X-Real-IP, "" where it is absent
  unfoldable pub forwarded_client : List Text → Text → Option A
  forwarded_client forwarded real_ip = from_hops real_ip (hops_of forwarded)

  -- realIP: the address that the request is taken to come from, given its peer; none keeps the peer.
  unfoldable pub real_ip_of : Text → List Text → Text → Option A
  real_ip_of remote_addr forwarded real_ip = elim (parse_ip remote_addr) [
    | none ↦ none
    | some peer ↦ if is_trusted peer then forwarded_client forwarded real_ip else none
  ]
