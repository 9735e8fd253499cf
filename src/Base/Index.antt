-- ===== src/Base/Index.antt =====
-- An index `map[string]map[string]struct{}`: from a key to a set, which is dropped when it is empty.
use mathlib.Core.Path.{◌≡◌, refl, sym, ◌∙◌}
use mathlib.Core.Logic.{inl, inr}
use mathlib.Core.Bool.{Bool, true, false, not, ◌&&◌, ◌||◌}
use mathlib.Core.Option.{Option, none, some}
use mathlib.Core.List.{List, [], ◌∷◌}
use native.Mathlib.Omega.{arith}
use snmpproxy.Base.Tests.{if◌then◌else◌, nat_beq, Bool-cases, Option-cases}
use snmpproxy.Base.Lists.{length}
use snmpproxy.Base.Equality.{Str, str_eq, str_beq, str_beq_iff}
use snmpproxy.Base.Map.{
  Map, get, put, delete, get-put, get-delete, member, insert, erase, member-insert, member-erase,
  distinct, keys, distinct-keys-put, distinct-keys-delete,
}

abbrev pub or_empty {ℓ} : {A : Type ℓ} → Option (List A) → List A
or_empty none = []
or_empty (some xs) = xs

abbrev pub Index : Type 0
Index = Map Str (List Str)

abbrev pub add_to : Str → Str → Index → Index
add_to id k index = put index k (insert id (or_empty (get index k)))

abbrev pub store_or_drop : Str → List Str → Index → Index
store_or_drop k subs index = if nat_beq (length subs) 0 then delete index k else put index k subs

abbrev pub drop_found : Str → Str → Option (List Str) → Index → Index
drop_found id k none index = index
drop_found id k (some subs) index = store_or_drop k (erase id subs) index

abbrev pub drop_from : Str → Str → Index → Index
drop_from id k index = drop_found id k (get index k) index

-- Whether the index lists `id` under the key.
abbrev pub indexed : Index → Str → Str → Bool
indexed index id k = member id (or_empty (get index k))

pub indexed-add_to :
    (id k : Str) (index : Index) (j l : Str)
    → indexed (add_to id k index) j l ≡ (str_beq k l && str_beq id j || indexed index j l)
indexed-add_to id k index j l =
    rw (get-put index k (insert id (or_empty (get index k))) l) (elim (Bool-cases (str_beq k l)) [
      | inl e ↦ rw e (rw ((str_beq_iff k l).0 e) (member-insert id j (or_empty (get index l))))
      | inr e ↦ rw e refl
    ])

pub empty_member : (j : Str) (xs : List Str) → nat_beq (length xs) 0 ≡ true → member j xs ≡ false
unfolding member
empty_member j [] h = refl
empty_member j (x ∷ xs) h = ground arith

pub member_if :
    (b : Bool) (x y : Option (List Str)) (j : Str)
    → member j (or_empty (if b then x else y))
      ≡ (if b then member j (or_empty x) else member j (or_empty y))
member_if true x y j = refl
member_if false x y j = refl

indexed-store_or_drop :
    (k : Str) (subs : List Str) (index : Index) (j l : Str)
    → indexed (store_or_drop k subs index) j l
      ≡ (if str_beq k l then member j subs else indexed index j l)
unfolding member
indexed-store_or_drop k subs index j l = elim (Bool-cases (nat_beq (length subs) 0)) [
  | inl e ↦ rw e (
      rw (get-delete index k l)
        (member_if (str_beq k l) none (get index l) j ∙ rw (empty_member j subs e) refl))
  | inr e ↦ rw e (rw (get-put index k subs l) (member_if (str_beq k l) (some subs) (get index l) j))
]

pub indexed-drop_from :
    (id k : Str) (index : Index) (j l : Str)
    → indexed (drop_from id k index) j l ≡ (not (str_beq k l && str_beq id j) && indexed index j l)
unfolding member
indexed-drop_from id k index j l = elim (Option-cases (get index k)) [
  | inl e ↦ rw e (elim (Bool-cases (str_beq k l)) [
    | inl f ↦ rw f (rw (sym ((str_beq_iff k l).0 f)) (rw e (ground arith)))
    | inr f ↦ rw f refl
  ])
  | inr (subs, e) ↦ rw e (
      indexed-store_or_drop k (erase id subs) index j l
      ∙ rw (member-erase id j subs) (elim (Bool-cases (str_beq k l)) [
        | inl f ↦ rw f (rw (sym ((str_beq_iff k l).0 f)) (rw e refl))
        | inr f ↦ rw f refl
      ]))
]

pub distinct-add_to :
    (id k : Str) (index : Index)
    → distinct (keys index) ≡ true
    → distinct (keys (add_to id k index)) ≡ true
distinct-add_to id k index h = distinct-keys-put index k (insert id (or_empty (get index k))) h

pub distinct-drop_from :
    (id k : Str) (index : Index)
    → distinct (keys index) ≡ true
    → distinct (keys (drop_from id k index)) ≡ true
distinct-drop_from id k index h = elim (Option-cases (get index k)) [
  | inl e ↦ rw e h
  | inr (subs, e) ↦ rw e (elim (Bool-cases (nat_beq (length (erase id subs)) 0)) [
    | inl f ↦ rw f (distinct-keys-delete index k h)
    | inr f ↦ rw f (distinct-keys-put index k (erase id subs) h)
  ])
]
