-- ===== src/Sessions/Answers.antt =====
-- What the answers to a client's requests say, against the session that they leave.
use snmpproxy.Base.{
  ◌≡◌, ◌⊎◌, refl, ap, sym, ◌∙◌, Bool, true, false, not, ◌&&◌, ◌||◌, List, [], ◌∷◌, ◌++◌, Str,
  str_eq, str_beq, str_beq_iff, if◌then◌else◌, nat_beq, length, arith, inl, inr, Bool-cases,
}
use snmpproxy.Base.Map.{member, member-insert, member-erase}
use snmpproxy.Base.Results.{Result, ok, err}
use snmpproxy.Base.Text.{lit}
use snmpproxy.Sessions.{Session, is_bound, subscribe, unsubscribe, unsubscribe_all, is_subscribed}
use snmpproxy.Sessions.Requests.{
  session_not_bound, Directory, SubscriptionSpec, ResolvedPath, HandlerError, Progress,
  subscription_key, accept_key, refuse_key, accept_pollers, accept_all, accept_one, subscribe_spec,
  subscribe_specs, subscribe_resolved, subscribe_paths, no_response, handle_subscribe,
  handle_subscribe_by_path, unsubscribe_keys, handle_unsubscribe,
}

member-append_key :
    (k a : Str) (ks : List Str) → member a (ks ++ k ∷ []) ≡ (str_beq k a || member a ks)
unfolding member
member-append_key k a [] = ground arith
member-append_key k a (j ∷ ks) = ground (arith, member-append_key k a ks)

-- The key is that of a poller that the directory knows.
abbrev pub Serves : Directory → Str → Str → Type 0
Serves dir namespace key =
    (target : Str) × (poller : Str) × (key ≡ subscription_key target poller)
    × ((dir.poller_exists namespace target poller ≡ true)
        ⊎ (member poller (dir.list_pollers namespace target) ≡ true))

-- So far the session differs from `s` in its subscriptions only, and by the keys of the answer.
pub record Granted (dir : Directory) (s : Session) (w : Progress) : Type 0 where
  pub same : w.1 ≡ record s { subscriptions = w.1.subscriptions }
  pub added : (k : Str) → is_subscribed w.1 k ≡ (member k w.0.subscribed || is_subscribed s k)
  pub served : (k : Str) → member k w.0.subscribed ≡ true → Serves dir s.namespace k

accept_key-Granted :
    (dir : Directory) (s : Session) (w : Progress) (key : Str)
    → Serves dir s.namespace key
    → Granted dir s w
    → Granted dir s (accept_key key w)
unfolding subscribe is_subscribed
accept_key-Granted dir s w key h g = record {
  same = rw g.same refl;
  added = λ k.
      member-insert key k w.1.subscriptions
      ∙ rw (member-append_key key k w.0.subscribed) (rw (g.added k) (ground arith));
  served = λ k m. elim (Bool-cases (str_beq key k)) [
    | inl e ↦ rw (sym ((str_beq_iff key k).0 e)) h
    | inr e ↦ g.served k (ground (arith, member-append_key key k w.0.subscribed))
  ];
}

refuse_key-Granted :
    (dir : Directory) (s : Session) (w : Progress) (key : Str)
    → Granted dir s w
    → Granted dir s (refuse_key key w)
refuse_key-Granted dir s w key g = record { same = g.same; added = g.added; served = g.served }

accept_one-Granted :
    (dir : Directory) (s : Session) (w : Progress) (refused target poller : Str)
    → Granted dir s w
    → Granted dir s (
        accept_one refused
          (dir.poller_exists s.namespace target poller)
          (subscription_key target poller)
          w)
accept_one-Granted dir s w refused target poller g =
    elim (Bool-cases (dir.poller_exists s.namespace target poller)) [
      | inl e ↦ rw e (
          accept_key-Granted dir s w (subscription_key target poller) (target, poller, refl, inl e)
            g)
      | inr e ↦ rw e (refuse_key-Granted dir s w refused g)
    ]

accept_pollers-Granted :
    (dir : Directory) (s : Session) (target : Str) (ps : List Str) (w : Progress)
    → ((p : Str) → member p ps ≡ true → member p (dir.list_pollers s.namespace target) ≡ true)
    → Granted dir s w
    → Granted dir s (accept_pollers target ps w)
unfolding member
accept_pollers-Granted dir s target [] w h g = g
accept_pollers-Granted dir s target (p ∷ ps) w h g =
    accept_pollers-Granted dir s target ps (accept_key (subscription_key target p) w)
      (λ q m. h q (ground arith))
      (accept_key-Granted dir s w (subscription_key target p)
        (target, p, refl, inr (h p (ground (arith, str_beq_iff p p)))) g)

accept_all-Granted :
    (dir : Directory) (s : Session) (w : Progress) (refused target : Str)
    → Granted dir s w
    → Granted dir s (accept_all refused target (dir.list_pollers s.namespace target) w)
accept_all-Granted dir s w refused target g =
    let ps = dir.list_pollers s.namespace target in
    let g' = accept_pollers-Granted dir s target ps w (λ p m. m) g in
    elim (Bool-cases (nat_beq (length ps) 0)) [
      | inl e ↦ rw e (refuse_key-Granted dir s (accept_pollers target ps w) refused g')
      | inr e ↦ rw e g'
    ]

subscribe_specs-Granted :
    (dir : Directory) (s : Session) (specs : List SubscriptionSpec) (w : Progress)
    → Granted dir s w
    → Granted dir s (subscribe_specs dir s.namespace specs w)
subscribe_specs-Granted dir s [] w g = g
subscribe_specs-Granted dir s (spec ∷ specs) w g =
    subscribe_specs-Granted dir s specs (subscribe_spec dir s.namespace spec w)
      (elim (Bool-cases (str_beq spec.poller [])) [
        | inl e ↦ rw e (accept_all-Granted dir s w (spec.target ++ lit "/*") spec.target g)
        | inr e ↦ rw e (
            accept_one-Granted dir s w (subscription_key spec.target spec.poller) spec.target
              spec.poller g)
      ])

subscribe_resolved-Granted :
    (dir : Directory) (s : Session) (path : Str) (r : Result HandlerError ResolvedPath)
    (w : Progress)
    → Granted dir s w
    → Granted dir s (subscribe_resolved dir s.namespace path r w)
subscribe_resolved-Granted dir s path (err e) w g = refuse_key-Granted dir s w path g
subscribe_resolved-Granted dir s path (ok r) w g =
    elim (Bool-cases (str_beq r.type (lit "poller"))) [
      | inl e ↦ rw e (accept_one-Granted dir s w path r.target r.poller g)
      | inr e ↦ rw e (elim (Bool-cases (str_beq r.type (lit "target"))) [
        | inl f ↦ rw f (accept_all-Granted dir s w path r.target g)
        | inr f ↦ rw f (refuse_key-Granted dir s w (path ++ lit " (not a poller/target)") g)
      ])
    ]

subscribe_paths-Granted :
    (dir : Directory) (s : Session) (paths : List Str) (w : Progress)
    → Granted dir s w
    → Granted dir s (subscribe_paths dir s.namespace paths w)
subscribe_paths-Granted dir s [] w g = g
subscribe_paths-Granted dir s (path ∷ paths) w g =
    subscribe_paths-Granted dir s paths
      (subscribe_resolved dir s.namespace path (dir.resolve_path path) w)
      (subscribe_resolved-Granted dir s path (dir.resolve_path path) w g)

-- Nothing is subscribed yet.
start-Granted : (dir : Directory) (s : Session) → Granted dir s (no_response, s)
unfolding member
start-Granted dir s = record { same = refl; added = λ k. refl; served = λ k m. ground arith }

-- A request to subscribe changes nothing and fails if the session is not bound. Otherwise it
-- succeeds and changes only the subscriptions: they grow by exactly the keys that the answer names
-- as subscribed, and each of these is the key of a poller of the session's namespace.
pub handle_subscribe_exact :
    (dir : Directory) (specs : List SubscriptionSpec) (s : Session)
    → ((is_bound s ≡ false) × (handle_subscribe dir specs s ≡ (err session_not_bound, s)))
      ⊎ ((is_bound s ≡ true)
          × (w : Progress) × (handle_subscribe dir specs s ≡ (ok w.0, w.1))
          × Granted dir s w)
unfolding handle_subscribe
handle_subscribe_exact dir specs s = elim (Bool-cases (is_bound s)) [
  | inl e ↦ inr (
    e,
    subscribe_specs dir s.namespace specs (no_response, s),
    rw e refl,
    subscribe_specs-Granted dir s specs (no_response, s) (start-Granted dir s),
  )
  | inr e ↦ inl (e, rw e refl)
]

-- The same of a request to subscribe by path.
pub handle_subscribe_by_path_exact :
    (dir : Directory) (paths : List Str) (s : Session)
    → ((is_bound s ≡ false) × (handle_subscribe_by_path dir paths s ≡ (err session_not_bound, s)))
      ⊎ ((is_bound s ≡ true)
          × (w : Progress) × (handle_subscribe_by_path dir paths s ≡ (ok w.0, w.1))
          × Granted dir s w)
unfolding handle_subscribe_by_path
handle_subscribe_by_path_exact dir paths s = elim (Bool-cases (is_bound s)) [
  | inl e ↦ inr (
    e,
    subscribe_paths dir s.namespace paths (no_response, s),
    rw e refl,
    subscribe_paths-Granted dir s paths (no_response, s) (start-Granted dir s),
  )
  | inr e ↦ inl (e, rw e refl)
]

left_subscribed :
    (key : Str) (s : Session) (k : Str)
    → is_subscribed (if is_subscribed s key then unsubscribe key s else s) k
      ≡ (not (str_beq key k) && is_subscribed s k)
unfolding is_subscribed unsubscribe
left_subscribed key s k = elim (Bool-cases (member key s.subscriptions)) [
  | inl e ↦ rw e (member-erase key k s.subscriptions)
  | inr e ↦ rw e (elim (Bool-cases (str_beq key k)) [
    | inl f ↦ rw f (rw (sym ((str_beq_iff key k).0 f)) e)
    | inr f ↦ rw f refl
  ])
]

now_done :
    (b : Bool) (key k : Str) (done : List Str)
    → member k (if b then done ++ key ∷ [] else done) ≡ (member k done || str_beq key k && b)
now_done true key k done = member-append_key key k done ∙ ground arith
now_done false key k done = ground arith

unsubscribe_keys_lem :
    (keys done : List Str) (s : Session) (k : Str)
    → (is_subscribed (unsubscribe_keys keys done s).1 k
        ≡ (not (member k keys) && is_subscribed s k))
      × (member k (unsubscribe_keys keys done s).0
          ≡ (member k done || member k keys && is_subscribed s k))
unfolding member
unsubscribe_keys_lem [] done s k = (refl, ground arith)
unsubscribe_keys_lem (key ∷ keys) done s k =
    let b = is_subscribed s key in
    let (left, gone) =
      unsubscribe_keys_lem keys (if b then done ++ key ∷ [] else done)
        (if b then unsubscribe key s else s) k in
    let same : str_beq key k ≡ true → b ≡ is_subscribed s k =
      λ e. ap (is_subscribed s) ((str_beq_iff key k).0 e) in
    (
      left ∙ rw (left_subscribed key s k) (ground arith),
      gone ∙ rw (left_subscribed key s k) (rw (now_done b key k done) (ground (arith, same))),
    )

-- A request to unsubscribe takes away exactly the keys it names, all keys if it names none, and
-- answers with those of them that were subscribed.
pub handle_unsubscribe_exact :
    (keys : List Str) (s : Session) (k : Str)
    → (is_subscribed (handle_unsubscribe keys s).1 k
        ≡ (not (nat_beq (length keys) 0 || member k keys) && is_subscribed s k))
      × (member k (handle_unsubscribe keys s).0
          ≡ ((nat_beq (length keys) 0 || member k keys) && is_subscribed s k))
unfolding handle_unsubscribe unsubscribe_all is_subscribed member
handle_unsubscribe_exact keys s k =
    let (left, gone) = unsubscribe_keys_lem keys [] s k in
    elim (Bool-cases (nat_beq (length keys) 0)) [
      | inl e ↦ rw e (refl, refl)
      | inr e ↦ rw e (left, gone)
    ]
