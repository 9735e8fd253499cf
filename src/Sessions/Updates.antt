-- ===== src/Sessions/Updates.antt =====
-- Who gets the updates of a key: the reverse index as a relation between sessions and keys.
use snmpproxy.Base.{
  ℕ, ◌≡◌, ◌↔◌, ◌⊎◌, refl, ap, sym, ◌∙◌, Bool, true, false, not, ◌&&◌, ◌||◌, Option, none, some,
  List, [], ◌∷◌, Str, str_eq, nat_eq, str_beq, str_beq_iff, if◌then◌else◌, nat_beq, nat_beq_iff,
  arith, inl, inr, Bool-cases,
}
use snmpproxy.Base.Map.{get, member, distinct, keys}
use snmpproxy.Base.Index.{
  distinct-add_to, distinct-drop_from, indexed, indexed-add_to, indexed-drop_from, or_empty,
}
use snmpproxy.Sessions.{is_lost}
use snmpproxy.Sessions.Manager.{SessionManager}
use snmpproxy.Sessions.Subscriptions.{
  full_key, is_below, subscribe_session, unsubscribe_session, unsubscribe_all_for_session,
  get_subscribers_for, live_sessions, live, pointer_of, indexed-drop_below, distinct-drop_below,
}

pub data IndexEvent : Type 0 where
  wants : Str → Str → Str → IndexEvent
  drops : Str → Str → Str → IndexEvent
  drops_all : Str → Str → IndexEvent

unfoldable pub update_index : List IndexEvent → SessionManager → SessionManager
update_index [] sm = sm
update_index (wants id namespace key ∷ es) sm =
    update_index es (subscribe_session id namespace key sm)
update_index (drops id namespace key ∷ es) sm =
    update_index es (unsubscribe_session id namespace key sm)
update_index (drops_all id namespace ∷ es) sm =
    update_index es (unsubscribe_all_for_session id namespace sm)

-- A relation between sessions and full keys, and what the events make of it.
abbrev pub wanted : List IndexEvent → (Str → Str → Bool) → Str → Str → Bool
wanted [] r = r
wanted (wants id namespace key ∷ es) r =
    wanted es (λ j l. str_beq (full_key namespace key) l && str_beq id j || r j l)
wanted (drops id namespace key ∷ es) r =
    wanted es (λ j l. not (str_beq (full_key namespace key) l && str_beq id j) && r j l)
wanted (drops_all id namespace ∷ es) r =
    wanted es (λ j l. not (is_below (full_key namespace []) l && str_beq id j) && r j l)

-- The relation is only read at single points.
wanted-ext :
    (es : List IndexEvent) (r s : Str → Str → Bool)
    → ((j l : Str) → r j l ≡ s j l)
    → (j l : Str) → wanted es r j l ≡ wanted es s j l
wanted-ext [] r s h j l = h j l
wanted-ext (wants id namespace key ∷ es) r s h j l = wanted-ext es _ _ (λ j l. rw (h j l) refl) j l
wanted-ext (drops id namespace key ∷ es) r s h j l = wanted-ext es _ _ (λ j l. rw (h j l) refl) j l
wanted-ext (drops_all id namespace ∷ es) r s h j l = wanted-ext es _ _ (λ j l. rw (h j l) refl) j l

-- Any sequence of SubscribeSession, UnsubscribeSession and UnsubscribeAllForSession does to the
-- reverse index, whose keys are distinct, what it does to the plain relation between session
-- identifiers and full keys: one pair is added, one pair is taken away, or all pairs of the session
-- whose key is longer than the namespace and a slash, and begins with them, are taken away.
pub update_index_refines :
    (es : List IndexEvent) (sm : SessionManager)
    → distinct (keys sm.subscription_index) ≡ true
    → (j l : Str)
    → indexed (update_index es sm).subscription_index j l
      ≡ wanted es (indexed sm.subscription_index) j l
unfolding update_index subscribe_session unsubscribe_session unsubscribe_all_for_session
update_index_refines [] sm d j l = refl
update_index_refines (wants id namespace key ∷ es) sm d j l =
    update_index_refines es (subscribe_session id namespace key sm)
      (distinct-add_to id (full_key namespace key) sm.subscription_index d) j l
    ∙ wanted-ext es _ _ (indexed-add_to id (full_key namespace key) sm.subscription_index) j l
update_index_refines (drops id namespace key ∷ es) sm d j l =
    update_index_refines es (unsubscribe_session id namespace key sm)
      (distinct-drop_from id (full_key namespace key) sm.subscription_index d) j l
    ∙ wanted-ext es _ _ (indexed-drop_from id (full_key namespace key) sm.subscription_index) j l
update_index_refines (drops_all id namespace ∷ es) sm d j l =
    update_index_refines es (unsubscribe_all_for_session id namespace sm)
      (distinct-drop_below id (full_key namespace []) sm.subscription_index d) j l
    ∙ wanted-ext es _ _
        (λ j l. indexed-drop_below id (full_key namespace []) sm.subscription_index j l d) j l

-- One round of the loop of `GetSubscribersFor`, read backwards and forwards.
newest_or_older :
    (sm : SessionManager) (o : Option ℕ) (ps : List ℕ) (p : ℕ)
    → member p (if live sm o then pointer_of o ps else ps) ≡ true
    → ((o ≡ some p) × (is_lost (sm.heap p) ≡ false)) ⊎ (member p ps ≡ true)
unfolding member
newest_or_older sm none ps p h = inr h
newest_or_older sm (some q) ps p h = elim (Bool-cases (is_lost (sm.heap q))) [
  | inl e ↦ inr (ground arith)
  | inr e ↦ elim (Bool-cases (nat_beq q p)) [
    | inl f ↦
        let same : q ≡ p = (nat_beq_iff q p).0 f in
        inl (ap some same, (ap (λ r. is_lost (sm.heap r)) (sym same) ∙ e))
    | inr f ↦ inr (ground arith)
  ]
]

older_stay :
    (sm : SessionManager) (o : Option ℕ) (ps : List ℕ) (p : ℕ)
    → member p ps ≡ true
    → member p (if live sm o then pointer_of o ps else ps) ≡ true
unfolding member
older_stay sm none ps p h = h
older_stay sm (some q) ps p h = ground arith

live_sessions_sound :
    (sm : SessionManager) (ids : List Str) (p : ℕ)
    → member p (live_sessions sm ids) ≡ true
    → (id : Str) × (member id ids ≡ true)
      × (get sm.sessions id ≡ some p)
      × (is_lost (sm.heap p) ≡ false)
unfolding live_sessions member
live_sessions_sound sm [] p h = ground arith
live_sessions_sound sm (id ∷ ids) p h =
    let older = live_sessions_sound sm ids p in
    elim (newest_or_older sm (get sm.sessions id) (live_sessions sm ids) p h) [
      | inl (e, l) ↦ (id, ground (arith, str_beq_iff id id), e, l)
      | inr m ↦ let (id', m', e, l) = older m in (id', ground arith, e, l)
    ]

live_sessions_complete :
    (sm : SessionManager) (ids : List Str) (id : Str) (p : ℕ)
    → member id ids ≡ true
    → get sm.sessions id ≡ some p
    → is_lost (sm.heap p) ≡ false
    → member p (live_sessions sm ids) ≡ true
unfolding live_sessions member
live_sessions_complete sm [] id p m e l = ground arith
live_sessions_complete sm (i ∷ ids) id p m e l =
    let older = live_sessions_complete sm ids id p in
    elim (Bool-cases (str_beq i id)) [
      | inl f ↦ rw ((str_beq_iff i id).0 f) (rw e (rw l (ground (arith, nat_beq_iff p p))))
      | inr f ↦
          older_stay sm (get sm.sessions i) (live_sessions sm ids) p (older (ground arith) e l)
    ]

-- `GetSubscribersFor` gives exactly the sessions that some identifier is bound to which the index
-- lists for the key, and that are not lost.
pub get_subscribers_for_exact :
    (namespace key : Str) (sm : SessionManager) (p : ℕ)
    → (member p (get_subscribers_for namespace key sm) ≡ true) ↔ (
        (id : Str) × (indexed sm.subscription_index id (full_key namespace key) ≡ true)
        × (get sm.sessions id ≡ some p)
        × (is_lost (sm.heap p) ≡ false))
unfolding get_subscribers_for
get_subscribers_for_exact namespace key sm p =
    let ids = or_empty (get sm.subscription_index (full_key namespace key)) in
    (live_sessions_sound sm ids p, (λ (id, m, e, l). live_sessions_complete sm ids id p m e l))
