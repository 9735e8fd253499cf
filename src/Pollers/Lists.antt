-- ===== src/Pollers/Lists.antt =====
-- The map of the pollers and its two indexes: what `List` gives.
use mathlib.Core.Path.{subst}
use snmpproxy.Base.{
  ℕ, ◌≡◌, refl, ap, sym, ◌∙◌, Bool, false, none, some, Str, str_eq, str_beq, str_beq_iff, nat_eq,
  if◌then◌else◌, nat_beq, nat_beq_iff, arith, Bool-cases, Option-cases, inl, inr,
}
use snmpproxy.Base.Map
use snmpproxy.Base.Map.{member, get-put, get-delete}
use snmpproxy.Base.Index.{indexed, indexed-add_to, indexed-drop_from}
use snmpproxy.Base.Results.{Result, ok, err}
use snmpproxy.State.{poller_key}
use snmpproxy.Pollers.{
  new_poller_manager, StoredPoller, StoreError, PollerManager, target_key, key_of, set_poller,
  write_at, is_valid_name, add_to_indexes, remove_from_indexes, with_default_state, initialise,
  admin_empty,
}
use snmpproxy.Pollers.Operations.{create, finish_create, cache_poller, finish_delete}

-- The map and the indexes hold the same keys: each poller is filed under its own target and
-- namespace, and nothing else is.
pub record Filed (m : PollerManager) : Type 0 where
  pub keyed : (key : Str) (a : ℕ) → Map.get m.pollers key ≡ some a → key_of (m.heap a) ≡ key
  pub in_target :
      (key : Str) (a : ℕ)
      → Map.get m.pollers key ≡ some a
      → (tk : Str)
      → indexed m.by_target key tk ≡ str_beq (target_key (m.heap a).namespace (m.heap a).target) tk
  pub in_namespace :
      (key : Str) (a : ℕ)
      → Map.get m.pollers key ≡ some a
      → (ns : Str) → indexed m.by_namespace key ns ≡ str_beq (m.heap a).namespace ns
  pub no_stale_target :
      (key tk : Str) → Map.get m.pollers key ≡ none → indexed m.by_target key tk ≡ false
  pub no_stale_namespace :
      (key ns : Str) → Map.get m.pollers key ≡ none → indexed m.by_namespace key ns ≡ false

-- A new manager holds nothing.
pub new_poller_manager-Filed :
    (heap : ℕ → StoredPoller) (next : ℕ) → Filed (new_poller_manager heap next)
unfolding new_poller_manager Map.get member
new_poller_manager-Filed heap next = record {
  keyed = λ key a h. ground arith;
  in_target = λ key a h tk. ground arith;
  in_namespace = λ key a h ns. ground arith;
  no_stale_target = λ key tk h. refl;
  no_stale_namespace = λ key ns h. refl;
}

with_default_state_fields :
    (p : StoredPoller)
    → ((with_default_state p).namespace ≡ p.namespace)
      × ((with_default_state p).target ≡ p.target)
      × ((with_default_state p).name ≡ p.name)
with_default_state_fields p = elim (Bool-cases (admin_empty p.admin_state)) [
  | inl e ↦ rw e (refl, refl, refl)
  | inr e ↦ rw e (refl, refl, refl)
]

-- A store through the pointer of a poller that keeps its names.
set_poller-Filed :
    (a : ℕ) (p : StoredPoller) (m : PollerManager)
    → p.namespace ≡ (m.heap a).namespace
    → p.target ≡ (m.heap a).target
    → p.name ≡ (m.heap a).name
    → Filed m
    → Filed (set_poller a p m)
set_poller-Filed a p m ens et en f =
    let same : (b : ℕ)
        → ((write_at a p m.heap b).namespace ≡ (m.heap b).namespace)
          × ((write_at a p m.heap b).target ≡ (m.heap b).target)
          × ((write_at a p m.heap b).name ≡ (m.heap b).name) =
      λ b. elim (Bool-cases (nat_beq a b)) [
        | inl e ↦
            let ab : a ≡ b = (nat_beq_iff a b).0 e in
            rw e (
              ens ∙ ap (λ c. (m.heap c).namespace) ab,
              et ∙ ap (λ c. (m.heap c).target) ab,
              en ∙ ap (λ c. (m.heap c).name) ab,
            )
        | inr e ↦ rw e (refl, refl, refl)
      ] in
    record {
      keyed = λ key b h. let (x, y, z) = same b in rw x (rw y (rw z (f.keyed key b h)));
      in_target = λ key b h tk. let (x, y, z) = same b in rw x (rw y (f.in_target key b h tk));
      in_namespace = λ key b h ns. let (x, y, z) = same b in rw x (f.in_namespace key b h ns);
      no_stale_target = f.no_stale_target;
      no_stale_namespace = f.no_stale_namespace;
    }

-- A poller at `a` is cached and filed under its key, which was free.
add_to_indexes-Filed :
    (a : ℕ) (m : PollerManager)
    → Map.get m.pollers (key_of (m.heap a)) ≡ none
    → Filed m
    → Filed (
        add_to_indexes
          (m.heap a).namespace
          (m.heap a).target
          (key_of (m.heap a))
          (cache_poller a (m.heap a) m))
add_to_indexes-Filed a m free f =
    let p = m.heap a in
    let k = key_of p in
    let found : (key : Str)
        → Map.get (Map.put m.pollers k a) key
          ≡ (if str_beq k key then some a else Map.get m.pollers key) =
      λ key. get-put m.pollers k a key in
    record {
      keyed = λ key b h. elim (Bool-cases (str_beq k key)) [
        | inl e ↦
            let ab : a ≡ b = ground (arith, found key) in rw (sym ab) ((str_beq_iff k key).0 e)
        | inr e ↦ f.keyed key b (ground (arith, found key))
      ];
      in_target = λ key b h tk.
          indexed-add_to k (target_key p.namespace p.target) m.by_target key tk
          ∙ elim (Bool-cases (str_beq k key)) [
            | inl e ↦
                let ab : a ≡ b = ground (arith, found key) in
                let out : indexed m.by_target key tk ≡ false =
                  rw (sym ((str_beq_iff k key).0 e)) (f.no_stale_target k tk free) in
                rw e (rw out (rw (sym ab) (ground arith)))
            | inr e ↦ rw e (ground (arith, f.in_target key b (ground (arith, found key)) tk))
          ];
      in_namespace = λ key b h ns.
          indexed-add_to k p.namespace m.by_namespace key ns ∙ elim (Bool-cases (str_beq k key)) [
            | inl e ↦
                let ab : a ≡ b = ground (arith, found key) in
                let out : indexed m.by_namespace key ns ≡ false =
                  rw (sym ((str_beq_iff k key).0 e)) (f.no_stale_namespace k ns free) in
                rw e (rw out (rw (sym ab) (ground arith)))
            | inr e ↦ rw e (ground (arith, f.in_namespace key b (ground (arith, found key)) ns))
          ];
      no_stale_target = λ key tk h.
          indexed-add_to k (target_key p.namespace p.target) m.by_target key tk
          ∙ ground (arith, found key, f.no_stale_target key tk);
      no_stale_namespace = λ key ns h.
          indexed-add_to k p.namespace m.by_namespace key ns
          ∙ ground (arith, found key, f.no_stale_namespace key ns);
    }

-- The poller of a key is unbound and taken out of the indexes.
unfiled-Filed :
    (ns t n : Str) (a : ℕ) (m : PollerManager)
    → Map.get m.pollers (poller_key ns t n) ≡ some a
    → (m.heap a).namespace ≡ ns
    → (m.heap a).target ≡ t
    → Filed m
    → Filed (
        remove_from_indexes ns t
          (poller_key ns t n)
          (record m { pollers = Map.delete m.pollers (poller_key ns t n) }))
unfiled-Filed ns t n a m h ens et f =
    let k = poller_key ns t n in
    let found : (key : Str)
        → Map.get (Map.delete m.pollers k) key
          ≡ (if str_beq k key then none else Map.get m.pollers key) =
      λ key. get-delete m.pollers k key in
    record {
      keyed = λ key b g. f.keyed key b (ground (arith, found key));
      in_target = λ key b g tk.
          indexed-drop_from k (target_key ns t) m.by_target key tk
          ∙ ground (arith, found key, f.in_target key b (ground (arith, found key)) tk);
      in_namespace = λ key b g x.
          indexed-drop_from k ns m.by_namespace key x
          ∙ ground (arith, found key, f.in_namespace key b (ground (arith, found key)) x);
      no_stale_target = λ key tk g.
          indexed-drop_from k (target_key ns t) m.by_target key tk
          ∙ elim (Bool-cases (str_beq k key)) [
            | inl e ↦
                let mine : indexed m.by_target key tk ≡ str_beq (target_key ns t) tk =
                  rw (sym ((str_beq_iff k key).0 e)) (f.in_target k a h tk ∙ rw ens (rw et refl)) in
                rw mine (ground arith)
            | inr e ↦ rw (f.no_stale_target key tk (ground (arith, found key))) (ground arith)
          ];
      no_stale_namespace = λ key x g.
          indexed-drop_from k ns m.by_namespace key x ∙ elim (Bool-cases (str_beq k key)) [
            | inl e ↦
                let mine : indexed m.by_namespace key x ≡ str_beq ns x =
                  rw (sym ((str_beq_iff k key).0 e)) (f.in_namespace k a h x ∙ rw ens refl) in
                rw mine (ground arith)
            | inr e ↦ rw (f.no_stale_namespace key x (ground (arith, found key))) (ground arith)
          ];
    }

initialise-Filed : (p : StoredPoller) (m : PollerManager) → Filed m → Filed (initialise p m)
initialise-Filed p m f = record {
  keyed = f.keyed;
  in_target = f.in_target;
  in_namespace = f.in_namespace;
  no_stale_target = f.no_stale_target;
  no_stale_namespace = f.no_stale_namespace;
}

finish_create-Filed :
    (a : ℕ) (p : StoredPoller) (stored : Result StoreError Bool) (m : PollerManager)
    → p.namespace ≡ (m.heap a).namespace
    → p.target ≡ (m.heap a).target
    → p.name ≡ (m.heap a).name
    → Map.get m.pollers (key_of p) ≡ none
    → Filed m
    → Filed (finish_create a p stored m).1
finish_create-Filed a p (err e) m ens et en free f = set_poller-Filed a p m ens et en f
finish_create-Filed a p (ok done) m ens et en free f =
    let p' = record p { version = 1 } in
    let m1 = set_poller a p' m in
    let self : m1.heap a ≡ p' = rw ((nat_beq_iff a a).1 refl) refl in
    initialise-Filed p' (add_to_indexes p.namespace p.target (key_of p) (cache_poller a p' m1)) (
      subst (λ q. Filed (add_to_indexes q.namespace q.target (key_of q) (cache_poller a q m1))) self
        (add_to_indexes-Filed a m1 (rw self free) (set_poller-Filed a p' m ens et en f)))

-- If the map of the pollers and the indexes hold the same keys, with each poller under its own
-- target and namespace, they still do so after Create of any poller, whatever the store answers.
pub create-Filed :
    (a : ℕ) (stored : Result StoreError Bool) (m : PollerManager)
    → Filed m
    → Filed (create a stored m).1
unfolding create
create-Filed a stored m f =
    let p = m.heap a in
    let (ens, et, en) = with_default_state_fields p in
    elim (Option-cases (Map.get m.pollers (key_of p))) [
      | inr (b, e) ↦ rw e f
      | inl e ↦ rw e (elim (Bool-cases (is_valid_name p.name)) [
        | inl v ↦ rw v (
            finish_create-Filed a (with_default_state p) stored m ens et en
              (rw ens (rw et (rw en e))) f)
        | inr v ↦ rw v f
      ])
    ]

pub finish_delete-Filed :
    (ns t n : Str) (a : ℕ) (stored : Result StoreError ℕ) (m : PollerManager)
    → Map.get m.pollers (poller_key ns t n) ≡ some a
    → (m.heap a).namespace ≡ ns
    → (m.heap a).target ≡ t
    → Filed m
    → Filed (finish_delete ns t n stored m).1
finish_delete-Filed ns t n a (err e) m h ens et f = f
finish_delete-Filed ns t n a (ok links) m h ens et f =
    let g = unfiled-Filed ns t n a m h ens et f in
    record {
      keyed = g.keyed;
      in_target = g.in_target;
      in_namespace = g.in_namespace;
      no_stale_target = g.no_stale_target;
      no_stale_namespace = g.no_stale_namespace;
    }
