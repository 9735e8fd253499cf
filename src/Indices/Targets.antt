-- ===== src/Indices/Targets.antt =====
-- The attribute indices against a catalog of the targets, for callers that add a target once and
-- name its current attributes when they change or remove it.
use snmpproxy.Base.{
  ◌≡◌, refl, Bool, false, Option, none, some, List, [], ◌∷◌, Str, str_beq, str_eq, str_beq_iff,
  arith, Bool-cases, inl, inr, if◌then◌else◌, Option-cases,
}
use snmpproxy.Base.Map
use snmpproxy.Base.Map.{Map, member, insert, erase, member-insert, member-erase}
use snmpproxy.TagIndex.{at}
use snmpproxy.TagIndex.Invariant.{at-put, at-delete}
use snmpproxy.Indices.{
  Indices, new_indices, add, remove, update_state, update_tags, file_under, withdraw, put_nonempty,
}

-- One attribute of each target; `none` for an id that is no target.
abbrev pub Attribute : Type 0
Attribute = Str → Option Str

abbrev pub has_value : Option Str → Str → Bool
has_value none v = false
has_value (some w) v = str_beq w v

abbrev pub assign : Attribute → Str → Option Str → Attribute
assign f id v j = if str_beq id j then v else f j

-- An index files each target under its value, and under nothing else.
pub record Files (m : Map Str (List Str)) (f : Attribute) : Type 0 where
  pub filed : (id key : Str) → member id (at m key) ≡ has_value (f id) key

file_under-Files :
    (id key : Str) {m : Map Str (List Str)} {f : Attribute}
    → f id ≡ none
    → Files m f
    → Files (file_under id key m) (assign f id (some key))
unfolding file_under
file_under-Files id key {m} {f} e h = record {
  filed = λ j k. rw (at-put m key k (insert id (at m key))) (
      ground (
        arith,
        member-insert id j (at m key),
        h.filed j k,
        h.filed j key,
        str_beq_iff id j,
        str_beq_iff key k,
      ));
}

at-put_nonempty :
    (key k : Str) (v : List Str) (m : Map Str (List Str))
    → at (put_nonempty key v m) k ≡ (if str_beq key k then v else at m k)
at-put_nonempty key k [] m = at-delete m key k
at-put_nonempty key k (x ∷ xs) m = at-put m key k (x ∷ xs)

at-withdraw :
    (id key k : Str) (m : Map Str (List Str))
    → at (withdraw id key m) k ≡ (if str_beq key k then erase id (at m key) else at m k)
unfolding withdraw erase
at-withdraw id key k m = elim (Option-cases (Map.get m key)) [
  | inl missing ↦ rw missing (ground (arith, str_beq_iff key k, missing))
  | inr (s, found) ↦ rw found (at-put_nonempty key k (erase id s) m)
]

withdraw-Files :
    (id key : Str) {m : Map Str (List Str)} {f : Attribute}
    → f id ≡ some key
    → Files m f
    → Files (withdraw id key m) (assign f id none)
withdraw-Files id key {m} {f} e h = record {
  filed = λ j k. rw (at-withdraw id key k m) (
      ground (
        arith,
        member-erase id j (at m key),
        h.filed j k,
        h.filed j key,
        str_beq_iff id j,
        str_beq_iff key k,
      ));
}

-- The attributes of all targets.
pub record Catalog : Type 0 where
  pub states : Attribute
  pub protocols : Attribute
  pub hosts : Attribute

abbrev pub no_targets : Catalog
no_targets = record { states = λ id. none; protocols = λ id. none; hosts = λ id. none }

-- The states that the index and the catalog reach together.
pub data Managed : Indices → Catalog → Type 0 where
  made : Managed new_indices no_targets
  added :
      (id state protocol host : Str) (tags : List Str) {idx : Indices} {c : Catalog}
      → c.states id ≡ none
      → c.protocols id ≡ none
      → c.hosts id ≡ none
      → Managed idx c
      → Managed (add id state protocol host tags idx) (record {
        states = assign c.states id (some state);
        protocols = assign c.protocols id (some protocol);
        hosts = assign c.hosts id (some host);
      })
  removed :
      (id state protocol host : Str) {idx : Indices} {c : Catalog}
      → c.states id ≡ some state
      → c.protocols id ≡ some protocol
      → c.hosts id ≡ some host
      → Managed idx c
      → Managed (remove id state protocol host idx) (record {
        states = assign c.states id none;
        protocols = assign c.protocols id none;
        hosts = assign c.hosts id none;
      })
  state_changed :
      (id old_state new_state : Str) {idx : Indices} {c : Catalog}
      → c.states id ≡ some old_state
      → Managed idx c
      → Managed (update_state id old_state new_state idx) (record {
        states = assign c.states id (some new_state);
        protocols = c.protocols;
        hosts = c.hosts;
      })
  tags_changed :
      (id : Str) (add_list remove_list set_list : List Str) {idx : Indices} {c : Catalog}
      → Managed idx c
      → Managed (update_tags id add_list remove_list set_list idx).0 c

-- Each attribute index files exactly the targets of the catalog, each under its value.
pub record Agrees (idx : Indices) (c : Catalog) : Type 0 where
  pub by_state : Files idx.by_state c.states
  pub by_protocol : Files idx.by_protocol c.protocols
  pub by_host : Files idx.by_host c.hosts

Files-nil : Files [] (λ id. none)
unfolding Map.get member
Files-nil = record { filed = λ id key. refl }

assign_again :
    (f : Attribute) (id j : Str) (v w : Option Str)
    → assign (assign f id v) id w j ≡ assign f id w j
assign_again f id j v w = ground arith

Files-assign :
    {m : Map Str (List Str)} (f g : Attribute) → ((j : Str) → f j ≡ g j) → Files m f → Files m g
Files-assign f g e h = record { filed = λ j k. rw (← e j) (h.filed j k) }

assign_self : (f : Attribute) (id : Str) (v : Option Str) → assign f id v id ≡ v
assign_self f id v = ground (arith, str_beq_iff id id)

update_state-Files :
    (id old_state new_state : Str) (idx : Indices) {f : Attribute}
    → f id ≡ some old_state
    → Files idx.by_state f
    → Files (update_state id old_state new_state idx).by_state (assign f id (some new_state))
unfolding update_state
update_state-Files id old_state new_state idx {f} e h =
    elim (Bool-cases (str_beq old_state new_state)) [
      | inl same ↦ rw same (
          Files-assign f (assign f id (some new_state))
            (λ j. ground (arith, str_beq_iff id j, str_beq_iff old_state new_state)) h)
      | inr changed ↦ rw changed (
          Files-assign (assign (assign f id none) id (some new_state))
            (assign f id (some new_state)) (λ j. assign_again f id j none (some new_state))
            (file_under-Files id new_state (assign_self f id none)
              (withdraw-Files id old_state e h)))
    ]

update_state_others :
    (id old_state new_state : Str) (idx : Indices)
    → ((update_state id old_state new_state idx).by_protocol ≡ idx.by_protocol)
      × ((update_state id old_state new_state idx).by_host ≡ idx.by_host)
unfolding update_state
update_state_others id old_state new_state idx = ground arith

-- As long as a target is added once, and removed or changed under its current attributes, the
-- state, protocol and host indices file exactly the present targets, each under its value.
pub Managed-Agrees : {idx : Indices} {c : Catalog} → Managed idx c → Agrees idx c
unfolding new_indices add remove update_tags
Managed-Agrees made = record { by_state = Files-nil; by_protocol = Files-nil; by_host = Files-nil }
Managed-Agrees (added id state protocol host tags s p o m) =
    let h = Managed-Agrees m in
    record {
      by_state = file_under-Files id state s h.by_state;
      by_protocol = file_under-Files id protocol p h.by_protocol;
      by_host = file_under-Files id host o h.by_host;
    }
Managed-Agrees (removed id state protocol host s p o m) =
    let h = Managed-Agrees m in
    record {
      by_state = withdraw-Files id state s h.by_state;
      by_protocol = withdraw-Files id protocol p h.by_protocol;
      by_host = withdraw-Files id host o h.by_host;
    }
Managed-Agrees (state_changed id old_state new_state {idx = idx} s m) =
    let h = Managed-Agrees m in
    let (same_protocol, same_host) = update_state_others id old_state new_state idx in
    record {
      by_state = update_state-Files id old_state new_state idx s h.by_state;
      by_protocol = rw same_protocol h.by_protocol;
      by_host = rw same_host h.by_host;
    }
Managed-Agrees (tags_changed id a r t m) =
    let h = Managed-Agrees m in
    record { by_state = h.by_state; by_protocol = h.by_protocol; by_host = h.by_host }
