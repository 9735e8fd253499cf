-- ===== src/Sessions/Subscriptions.antt =====
-- The reverse index of subscriptions of internal/handler/session.go: from "namespace/key" to the
-- identifiers of the sessions that want its updates.
use snmpproxy.Base.{
  ℕ, ◌≡◌, refl, ap, sym, Bool, true, false, not, ◌&&◌, Option, none, some, List, [], ◌∷◌, ◌++◌, Str,
  str_eq, str_beq, str_beq_iff, if◌then◌else◌, ltb, nat_beq, length, arith, inl, inr, Bool-cases,
  Option-cases,
}
use snmpproxy.Base.Map.{
  get, member, erase, member-erase, distinct, keys, get-unbound, distinct-keys-put,
  distinct-keys-delete,
}
use snmpproxy.Base.Index.{Index, add_to, drop_from, indexed, empty_member, member_if, or_empty}
use snmpproxy.Base.Text.{has_prefix}
use snmpproxy.Sessions.{is_lost}
use snmpproxy.Sessions.Manager.{SessionManager}

-- `namespace + "/" + key`
abbrev pub full_key : Str → Str → Str
full_key namespace key = namespace ++ b'/' ∷ key

-- The condition of the loop of `UnsubscribeAllForSession`.
abbrev pub is_below : Str → Str → Bool
is_below prefix k = ltb (length prefix) (length k) && has_prefix prefix k

-- The loop of `UnsubscribeAllForSession`.
unfoldable pub drop_below : Str → Str → Index → Index
drop_below id prefix [] = []
drop_below id prefix ((k, subs) ∷ index) =
    let rest = drop_below id prefix index in
    let left = erase id subs in
    if is_below prefix k
    then (if nat_beq (length left) 0 then rest else (k, left) ∷ rest)
    else (k, subs) ∷ rest

-- `SubscribeSession`
unfoldable pub subscribe_session : Str → Str → Str → SessionManager → SessionManager
subscribe_session id namespace key sm = record sm {
  subscription_index = add_to id (full_key namespace key) sm.subscription_index;
}

-- `UnsubscribeSession`
unfoldable pub unsubscribe_session : Str → Str → Str → SessionManager → SessionManager
unsubscribe_session id namespace key sm = record sm {
  subscription_index = drop_from id (full_key namespace key) sm.subscription_index;
}

-- `UnsubscribeAllForSession`
unfoldable pub unsubscribe_all_for_session : Str → Str → SessionManager → SessionManager
unsubscribe_all_for_session id namespace sm = record sm {
  subscription_index = drop_below id (full_key namespace []) sm.subscription_index;
}

abbrev pub live : SessionManager → Option ℕ → Bool
live sm none = false
live sm (some p) = not (is_lost (sm.heap p))

abbrev pub pointer_of : Option ℕ → List ℕ → List ℕ
pointer_of none ps = ps
pointer_of (some p) ps = p ∷ ps

-- The loop of `GetSubscribersFor`.
unfoldable pub live_sessions : SessionManager → List Str → List ℕ
live_sessions sm [] = []
live_sessions sm (id ∷ ids) =
    let rest = live_sessions sm ids in
    if live sm (get sm.sessions id) then pointer_of (get sm.sessions id) rest else rest

-- `GetSubscribersFor`
unfoldable pub get_subscribers_for : Str → Str → SessionManager → List ℕ
get_subscribers_for namespace key sm =
    live_sessions sm (or_empty (get sm.subscription_index (full_key namespace key)))

keys-drop_below :
    (id prefix : Str) (index : Index) (l : Str)
    → member l (keys index) ≡ false
    → member l (keys (drop_below id prefix index)) ≡ false
unfolding drop_below member
keys-drop_below id prefix [] l h = refl
keys-drop_below id prefix ((k, subs) ∷ index) l h =
    ground (arith, keys-drop_below id prefix index l)

pub distinct-drop_below :
    (id prefix : Str) (index : Index)
    → distinct (keys index) ≡ true
    → distinct (keys (drop_below id prefix index)) ≡ true
unfolding drop_below member
distinct-drop_below id prefix [] h = refl
distinct-drop_below id prefix ((k, subs) ∷ index) h =
    ground (arith, distinct-drop_below id prefix index, keys-drop_below id prefix index k)

indexed-cons :
    (k : Str) (subs : List Str) (index : Index) (j l : Str)
    → indexed ((k, subs) ∷ index) j l ≡ (if str_beq k l then member j subs else indexed index j l)
unfolding get
indexed-cons k subs index j l = member_if (str_beq k l) (some subs) (get index l) j

pub indexed-drop_below :
    (id prefix : Str) (index : Index) (j l : Str)
    → distinct (keys index) ≡ true
    → indexed (drop_below id prefix index) j l
      ≡ (not (is_below prefix l && str_beq id j) && indexed index j l)
unfolding drop_below member
indexed-drop_below id prefix [] j l d = unfold get in ground arith
indexed-drop_below id prefix ((k, subs) ∷ index) j l d =
    let left = erase id subs in
    let less = drop_below id prefix index in
    let rest : indexed less j l ≡ (not (is_below prefix l && str_beq id j) && indexed index j l) =
      indexed-drop_below id prefix index j l (ground arith) in
    let same : str_beq k l ≡ true → is_below prefix k ≡ is_below prefix l =
      λ e. ap (is_below prefix) ((str_beq_iff k l).0 e) in
    let out : str_beq k l ≡ true → indexed index j l ≡ false =
      λ e. rw (sym ((str_beq_iff k l).0 e)) (rw (get-unbound index k (ground arith)) refl) in
    let none_left = empty_member j left in
    let erased = member-erase id j subs in
    rw (indexed-cons k subs index j l) (elim (Bool-cases (is_below prefix k)) [
      | inl e ↦ rw e (elim (Bool-cases (nat_beq (length left) 0)) [
        | inl f ↦ rw f (ground (arith, same, out, none_left f))
        | inr f ↦ rw f (rw (indexed-cons k left less j l) (ground (arith, same, out)))
      ])
      | inr e ↦ rw e (rw (indexed-cons k subs less j l) (ground (arith, same, out)))
    ])

pub distinct-drop_from :
    (id k : Str) (index : Index)
    → distinct (keys index) ≡ true
    → distinct (keys (drop_from id k index)) ≡ true
distinct-drop_from id k index h = elim (Option-cases (get index k)) [
  | inl e ↦ rw e h
  | inr (subs, e) ↦ rw e (elim (Bool-cases (nat_beq (length (erase id subs)) 0)) [
    | inl f ↦ rw f (distinct-keys-delete index k h)
    | inr f ↦ rw f (distinct-keys-put index k (erase id subs) h)
  ])
]
