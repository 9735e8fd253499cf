-- ===== src/Tests/Searches.antt =====
-- The tag index and the combined indices at concrete values.
use snmpproxy.Base.{
  ◌≡◌, ◌≢◌, refl, Bool, true, not, ◌&&◌, ◌||◌, none, some, List, [], ◌∷◌, Str, str_eq, str_beq, all,
}
use snmpproxy.Base.Map
use snmpproxy.Base.Map.{member, insert}
use snmpproxy.Base.Sort.{is_sorted}
use snmpproxy.Base.Text.{lit}
use snmpproxy.TagIndex
use snmpproxy.TagIndex.{
  TagIndex, new_tag_index, get_tags, has_tag, update_tags, is_nonempty, query_and, query_or,
  prefixes, at,
}
use snmpproxy.TagIndex.Prefixes.{any_under}
use snmpproxy.TagIndex.Invariant.{
  Op, add_op, remove_op, run, IsConsistent, new_tag_index-IsConsistent, run-IsConsistent,
}
use snmpproxy.TagIndex.Queries.{prefix_query_exact, update_tags_exact}
use snmpproxy.Indices
use snmpproxy.Indices.{
  Indices, Filter, new_indices, is_set, query_by_state, query_by_protocol, query_by_tags,
  query_by_host,
}
use snmpproxy.Indices.Search.{
  criteria, skip_empty, selects, is_nil, filter_query_exact, query_ignores_unmatched_state,
}
use snmpproxy.Indices.Targets.{Catalog, Agrees, made, added, assign, Managed-Agrees}

abbrev host : Str
host = lit "h1"

abbrev fast : Str
fast = lit "net/fast"

abbrev ops : List Op
ops = add_op host (fast ∷ []) ∷ add_op (lit "h2") (lit "net" ∷ []) ∷ remove_op (lit "h2") ∷ []

abbrev tagged : TagIndex
tagged = run ops new_tag_index

abbrev one_up : Indices
one_up = record {
  tags = new_tag_index;
  by_state = (lit "up", host ∷ []) ∷ [];
  by_protocol = (lit "snmp", host ∷ []) ∷ [];
  by_host = (lit "10.0.0.1", host ∷ []) ∷ [];
}

abbrev up_only : Filter
up_only = record { tags = []; state = lit "up"; protocol = []; host = [] }

abbrev down_snmp : Filter
down_snmp = record { tags = []; state = lit "down"; protocol = lit "snmp"; host = [] }

abbrev one_target : Catalog
one_target = record {
  states = assign (λ id. none) host (some (lit "up"));
  protocols = assign (λ id. none) host (some (lit "snmp"));
  hosts = assign (λ id. none) host (some (lit "10.0.0.1"));
}

abbrev same_text : Str → Str → Bool
same_text pattern name = str_beq pattern name

run-IsConsistent_example : IsConsistent (run ops new_tag_index)
run-IsConsistent_example = run-IsConsistent ops new_tag_index-IsConsistent

prefix_query_exact_example :
    let idx = run ops new_tag_index in
    (member host (TagIndex.query idx (lit "net")) ≡ any_under (get_tags idx host) (lit "net"))
    × (is_sorted (TagIndex.query idx (lit "net")) ≡ true)
prefix_query_exact_example = prefix_query_exact ops (lit "net") host

update_tags_exact_example :
    let (idx', returned) = update_tags host (lit "core" ∷ []) (fast ∷ []) [] tagged in
    ((a : Str)
      → member a (get_tags idx' host) ≡ (
          is_nonempty a && member a (lit "core" ∷ [])
          || not (member a (fast ∷ [])) && member a (get_tags tagged host)))
    × (returned ≡ get_tags idx' host)
    × (is_sorted returned ≡ true)
    × ((j : Str) → host ≢ j → get_tags idx' j ≡ get_tags tagged j)
update_tags_exact_example = update_tags_exact host (lit "core" ∷ []) (fast ∷ []) tagged

Managed-Agrees_example :
    Agrees
      (Indices.add host (lit "up") (lit "snmp") (lit "10.0.0.1") (fast ∷ []) new_indices)
      one_target
Managed-Agrees_example =
    Managed-Agrees
      (added host (lit "up") (lit "snmp") (lit "10.0.0.1") (fast ∷ []) refl refl refl made)

filter_query_exact_example :
    ((j : Str)
      → let sets = skip_empty (criteria same_text one_up up_only) in
        selects j (Indices.query same_text one_up up_only) ≡ (is_set sets && all (member j) sets))
    × (is_nil (Indices.query same_text one_up up_only)
        ≡ not (is_set (skip_empty (criteria same_text one_up up_only))))
filter_query_exact_example = filter_query_exact same_text one_up up_only

query_ignores_unmatched_state_example :
    Indices.query same_text one_up down_snmp
    ≡ Indices.query same_text one_up (record down_snmp { state = [] })
unfolding query_by_state Map.get str_beq
query_ignores_unmatched_state_example =
    query_ignores_unmatched_state same_text one_up down_snmp refl
