-- ===== src/Pollers/Listing.antt =====
-- What `List` and `ListInNamespace` give, after a deletion and after a `Get` that asks the store.
use snmpproxy.Base.{
  ℕ, ◌≡◌, ◌↔◌, ◌⊎◌, refl, ap, sym, ◌∙◌, true, false, Option, none, some, List, [], ◌∷◌, Str, str_eq,
  str_beq, str_beq_iff, nat_eq, nat_beq, nat_beq_iff, arith, Bool-cases, inl, inr,
}
use snmpproxy.Base.Map
use snmpproxy.Base.Map.{member, get-put}
use snmpproxy.Base.Index.{or_empty}
use snmpproxy.Base.Results.{Result, ok}
use snmpproxy.State.{poller_key}
use snmpproxy.Pollers.{StoredPoller, StoreError, PollerManager, target_key, is_valid_name}
use snmpproxy.Pollers.Operations.{
  get_poller, list_pollers, list_in_namespace, addresses, found_address, delete_poller,
  poller_exists,
}
use snmpproxy.Pollers.Names.{poller_key_unique}
use snmpproxy.Pollers.Lists.{Filed, finish_delete-Filed}

found_or_rest :
    (o : Option ℕ) (rest : List ℕ) (b : ℕ)
    → member b (found_address o rest) ≡ true
    → (o ≡ some b) ⊎ (member b rest ≡ true)
unfolding member
found_or_rest none rest b h = inr h
found_or_rest (some a) rest b h = elim (Bool-cases (nat_beq a b)) [
  | inl e ↦ inl (ap some ((nat_beq_iff a b).0 e))
  | inr e ↦ inr (ground arith)
]

rest_found :
    (o : Option ℕ) (rest : List ℕ) (b : ℕ)
    → member b rest ≡ true
    → member b (found_address o rest) ≡ true
unfolding member
rest_found none rest b h = h
rest_found (some a) rest b h = ground arith

addresses_sound :
    (pollers : Map.Map Str ℕ) (keys : List Str) (b : ℕ)
    → member b (addresses pollers keys) ≡ true
    → (key : Str) × (member key keys ≡ true) × (Map.get pollers key ≡ some b)
unfolding member
addresses_sound pollers [] b h = ground arith
addresses_sound pollers (key ∷ keys) b h =
    let later = addresses_sound pollers keys b in
    elim (found_or_rest (Map.get pollers key) (addresses pollers keys) b h) [
      | inl e ↦ (key, ground (arith, str_beq_iff key key), e)
      | inr m ↦ let (k, m', e) = later m in (k, ground arith, e)
    ]

addresses_complete :
    (pollers : Map.Map Str ℕ) (keys : List Str) (key : Str) (b : ℕ)
    → member key keys ≡ true
    → Map.get pollers key ≡ some b
    → member b (addresses pollers keys) ≡ true
unfolding member
addresses_complete pollers [] key b m e = ground arith
addresses_complete pollers (k ∷ keys) key b m e =
    let later = addresses_complete pollers keys key b in
    elim (Bool-cases (str_beq k key)) [
      | inl f ↦ rw ((str_beq_iff k key).0 f) (rw e (ground (arith, nat_beq_iff b b)))
      | inr f ↦ rest_found (Map.get pollers k) (addresses pollers keys) b (later (ground arith) e)
    ]

-- If the map and the indexes hold the same keys, List gives exactly the cached pollers of the target,
-- and ListInNamespace those of the namespace.
pub list_pollers_exact :
    (ns t : Str) (m : PollerManager) (b : ℕ)
    → Filed m
    → ((member b (list_pollers ns t m) ≡ true) ↔ (
        (key : Str) × (Map.get m.pollers key ≡ some b)
        × (target_key (m.heap b).namespace (m.heap b).target ≡ target_key ns t)))
      × ((member b (list_in_namespace ns m) ≡ true)
          ↔ ((key : Str) × (Map.get m.pollers key ≡ some b) × ((m.heap b).namespace ≡ ns)))
unfolding list_pollers list_in_namespace
list_pollers_exact ns t m b f =
    let keys = or_empty (Map.get m.by_target (target_key ns t)) in
    let keys' = or_empty (Map.get m.by_namespace ns) in
    let tk = λ (c : ℕ). target_key (m.heap c).namespace (m.heap c).target in
    (
      (
        (λ h.
            let (key, i, e) = addresses_sound m.pollers keys b h in
            (
              key,
              e,
              (str_beq_iff (tk b) (target_key ns t)).0
                  (sym (f.in_target key b e (target_key ns t)) ∙ i),
            )),
        (λ (key, e, s).
            addresses_complete m.pollers keys key b
              (f.in_target key b e (target_key ns t) ∙ (str_beq_iff (tk b) (target_key ns t)).1 s)
              e),
      ),
      (
        (λ h.
            let (key, i, e) = addresses_sound m.pollers keys' b h in
            (
              key,
              e,
              (str_beq_iff (m.heap b).namespace ns).0 (sym (f.in_namespace key b e ns) ∙ i),
            )),
        (λ (key, e, s).
            addresses_complete m.pollers keys' key b
              (f.in_namespace key b e ns ∙ (str_beq_iff (m.heap b).namespace ns).1 s) e),
      ),
    )

-- If the map and the indexes hold the same keys, they still do so after Delete of a cached poller,
-- whatever the store answers, where the names of its namespace and its target are valid.
pub delete_poller-Filed :
    (ns t n : Str) (a : ℕ) (stored : Result StoreError ℕ) (m : PollerManager)
    → Map.get m.pollers (poller_key ns t n) ≡ some a
    → is_valid_name ns ≡ true
    → is_valid_name t ≡ true
    → is_valid_name (m.heap a).namespace ≡ true
    → is_valid_name (m.heap a).target ≡ true
    → Filed m
    → Filed (delete_poller ns t n stored m).1
unfolding delete_poller
delete_poller-Filed ns t n a stored m h vn vt vn' vt' f =
    let (x, y, z) =
      poller_key_unique (m.heap a).namespace (m.heap a).target (m.heap a).name ns t n vn' vt' vn vt
        (f.keyed (poller_key ns t n) a h) in
    rw h (
      finish_delete-Filed ns t n a stored _ h x y (record {
        keyed = f.keyed;
        in_target = f.in_target;
        in_namespace = f.in_namespace;
        no_stale_target = f.no_stale_target;
        no_stale_namespace = f.no_stale_namespace;
      }))

addresses-put :
    (pollers : Map.Map Str ℕ) (key : Str) (a : ℕ) (keys : List Str)
    → member key keys ≡ false
    → addresses (Map.put pollers key a) keys ≡ addresses pollers keys
unfolding member
addresses-put pollers key a [] h = refl
addresses-put pollers key a (k ∷ keys) h =
    let rest : addresses (Map.put pollers key a) keys ≡ addresses pollers keys =
      addresses-put pollers key a keys (ground arith) in
    let same : Map.get (Map.put pollers key a) k ≡ Map.get pollers k =
      get-put pollers key a k ∙ ground (arith, str_beq_iff key k, str_beq_iff k key) in
    rw same (rw rest refl)

-- If the map and the indexes hold the same keys, a poller that Get fetches from the store exists
-- afterwards for Exists, but the lists of all targets and namespaces stay as they were.
pub get_poller_unlisted :
    (ns t n : Str) (p : StoredPoller) (m : PollerManager)
    → Filed m
    → Map.get m.pollers (poller_key ns t n) ≡ none
    → let m' = (get_poller ns t n (ok (some p)) m).1 in
      (poller_exists ns t n m' ≡ true)
      × ((ns' t' : Str) → list_pollers ns' t' m' ≡ list_pollers ns' t' m)
      × ((ns' : Str) → list_in_namespace ns' m' ≡ list_in_namespace ns' m)
unfolding get_poller poller_exists list_pollers list_in_namespace
get_poller_unlisted ns t n p m f free =
    let k = poller_key ns t n in
    rw free (
      (rw (get-put m.pollers k m.next k) (rw ((str_beq_iff k k).1 refl) refl)),
      (λ ns' t'.
          addresses-put m.pollers k m.next (or_empty (Map.get m.by_target (target_key ns' t')))
            (f.no_stale_target k (target_key ns' t') free)),
      (λ ns'.
          addresses-put m.pollers k m.next (or_empty (Map.get m.by_namespace ns'))
            (f.no_stale_namespace k ns' free)),
    )
