-- ===== src/Indices/Sets.antt =====
-- Membership in the results of the set operations.
use snmpproxy.Base.{
  ◌≡◌, ◌&&◌, ◌||◌, List, [], Str, str_eq, arith, ltb, length, filter, Bool-cases, inl, inr,
}
use snmpproxy.Base.Map.{member}
use snmpproxy.TagIndex.Queries.{member-insert_all, member-filter, member_nil}
use snmpproxy.Indices.{intersect, union}

-- Membership in an intersection, whichever set is walked.
pub member-intersect :
    (j : Str) (s other : List Str) → member j (intersect s other) ≡ (member j s && member j other)
unfolding intersect
member-intersect j s other = elim (Bool-cases (ltb (length other) (length s))) [
  | inl less ↦
      rw
        (
          less,
          member-insert_all j (filter (λ v. member v s) other) [],
          member-filter j (λ v. member v s) other,
          member_nil j,
        )
        (ground arith)
  | inr more ↦
      rw
        (
          more,
          member-insert_all j (filter (λ v. member v other) s) [],
          member-filter j (λ v. member v other) s,
          member_nil j,
        )
        (ground arith)
]

pub member-union :
    (j : Str) (s other : List Str) → member j (union s other) ≡ (member j s || member j other)
unfolding union
member-union j s other = rw (member-insert_all j other s) (ground arith)
