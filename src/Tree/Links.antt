-- ===== src/Tree/Links.antt =====
-- The references of links, as the store writes them and as they are read.
use snmpproxy.Base.{◌≡◌, Bool, true, [], ◌∷◌, ◌++◌, Str, str_eq}
use snmpproxy.Base.Results.{Result, ok}
use snmpproxy.Base.Text.{lit}
use snmpproxy.Tree.{LinkRef}

module _ {ℓ} {E : Type ℓ} (targets : Str → Result E Bool)
    (pollers : Str → Str → Result E Bool) where
  -- What a link of a type, with a reference as the client gives it, leads to: its type of node, and
  -- a target or a poller that exists.
  pub data IsLinkTo : Str → Str → Str → LinkRef → Type ℓ where
    to_target :
        (t : Str)
        → targets t ≡ ok true
        → IsLinkTo
            (lit "target")
            t
            (lit "link_target")
            (record { link_type = lit "target"; target = t; poller = [] })
    to_poller :
        (t p : Str)
        → pollers t p ≡ ok true
        → IsLinkTo
            (lit "poller")
            (t ++ b'/' ∷ p)
            (lit "link_poller")
            (record { link_type = lit "poller"; target = t; poller = p })
