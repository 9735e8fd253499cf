-- ===== src/Tree/Formats.antt =====
-- The reference that CreateTreeLink of internal/store/tree.go stores. What TargetExists and
-- PollerExists of the store answer is an argument.
use snmpproxy.Base.{Bool, true, false, Option, none, some, ◌∷◌, ◌++◌, Str, str_beq, if◌then◌else◌}
use snmpproxy.Base.Results.{Result, ok, err}
use snmpproxy.Base.Text.{lit}
use snmpproxy.Tree.{split_once}

pub data LinkRefusal {ℓ} (E : Type ℓ) : Type ℓ where
  invalid_link_type invalid_poller_link : Str → LinkRefusal E
  not_found : Str → Str → LinkRefusal E
  not_answered : E → LinkRefusal E

module _ {ℓ} {E : Type ℓ} (targets : Str → Result E Bool)
    (pollers : Str → Str → Result E Bool) where
  abbrev pub answered : Result E Bool → Result (LinkRefusal E) Bool
  answered (ok found) = ok found
  answered (err e) = err (not_answered e)

  abbrev pub poller_answered : Str → Option (Str × Str) → Result (LinkRefusal E) Bool
  poller_answered ref none = err (invalid_poller_link ref)
  poller_answered ref (some (t, p)) = answered (pollers t p)

  -- `validateLinkRef`
  unfoldable pub validate_link_ref : Str → Str → Result (LinkRefusal E) Bool
  validate_link_ref link_type ref =
      if str_beq link_type (lit "target")
      then answered (targets ref)
      else (if str_beq link_type (lit "poller")
          then poller_answered ref (split_once ref)
          else err (invalid_link_type link_type))

  -- The type of the node for a type of link.
  abbrev pub node_type_of : Str → Option Str
  node_type_of link_type =
      if str_beq link_type (lit "target")
      then some (lit "link_target")
      else (if str_beq link_type (lit "poller") then some (lit "link_poller") else none)

  abbrev pub formatted :
      Str → Str → Str → Result (LinkRefusal E) Bool → Result (LinkRefusal E) (Str × Str)
  formatted node_type link_type ref (err e) = err e
  formatted node_type link_type ref (ok false) = err (not_found link_type ref)
  formatted node_type link_type ref (ok true) = ok (node_type, link_type ++ b':' ∷ ref)

  abbrev pub format_as : Option Str → Str → Str → Result (LinkRefusal E) (Str × Str)
  format_as none link_type ref = err (invalid_link_type link_type)
  format_as (some node_type) link_type ref =
      formatted node_type link_type ref (validate_link_ref link_type ref)

  -- `CreateTreeLink` up to the insertion: the node's type and its reference.
  unfoldable pub format_link : Str → Str → Result (LinkRefusal E) (Str × Str)
  format_link link_type ref = format_as (node_type_of link_type) link_type ref
