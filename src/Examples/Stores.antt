-- ===== src/Examples/Stores.antt =====
-- A store that is a list of keys and values, and a database that is one.
use mathlib.Core.List.{Memᴰ}
use vsphere_facade.Prelude.{
  Bool, Bool-cases, List, Option, [], ap₂, arith, false, if◌then◌else◌, inl, inr, map, nat_beq,
  nat_beq_iff, none, refl, some, sym, true, ◌&&◌, ◌↔◌, ◌∷◌, ◌≡◌, ◌≢◌, fun_ext, list_eq, nat_eq,
  ◌==◌,
}
use vsphere_facade.Cache.{Text, Store}
use vsphere_facade.Utils.{slice_contain}
use vsphere_facade.Requests.{Badger, keys_of}
use vsphere_facade.Requests.Tracking.{BadgerLaws}

unfoldable pub same_text : Text → Text → Bool
same_text [] [] = true
same_text [] (y ∷ b) = false
same_text (x ∷ a) [] = false
same_text (x ∷ a) (y ∷ b) = nat_beq x y && same_text a b

same_text_iff : (a b : Text) → (same_text a b ≡ true) ↔ (a ≡ b)
unfolding same_text
same_text_iff [] [] = (λ h. refl, λ e. refl)
same_text_iff [] (y ∷ b) = (λ h. cc, λ e. cc)
same_text_iff (x ∷ a) [] = (λ h. cc, λ e. cc)
same_text_iff (x ∷ a) (y ∷ b) = (
  λ h.
      ap₂ (λ z zs. z ∷ zs) ((nat_beq_iff x y).0 (ground arith))
        ((same_text_iff a b).0 (ground arith)),
  λ e.
      let p : x ≡ y = cc in
      let q : a ≡ b = cc in rw ((nat_beq_iff x y).1 p, (same_text_iff a b).1 q),
)

module _ {V : Type 0} where
  unfoldable pub list_get : List (Text × V) → Text → Option V
  list_get [] k = none
  list_get ((k', v) ∷ s) k = if same_text k' k then some v else list_get s k

  pub list_delete : List (Text × V) → Text → List (Text × V)
  list_delete [] k = []
  list_delete ((k', v) ∷ s) k =
      let rest = list_delete s k in if same_text k' k then rest else (k', v) ∷ rest

  pub list_items : List (Text × V) → List Text
  list_items s = map (λ (e : Text × V). e.0) s

  pub get-delete_self : (s : List (Text × V)) (k : Text) → list_get (list_delete s k) k ≡ none
  unfolding list_get list_delete
  get-delete_self [] k = refl
  get-delete_self ((k', v) ∷ s) k = ground (arith, get-delete_self s k)

  pub get-delete_other :
      (s : List (Text × V)) (k k' : Text) → k ≢ k' → list_get (list_delete s k) k' ≡ list_get s k'
  unfolding list_get list_delete
  get-delete_other [] k k' ne = refl
  get-delete_other ((j, v) ∷ s) k k' ne =
      ground (arith, get-delete_other s k k' ne, same_text_iff j k, same_text_iff j k')

  pub items-hold :
      (s : List (Text × V)) (k : Text) (v : V) → list_get s k ≡ some v → Memᴰ k (list_items s)
  unfolding list_get list_items
  items-hold [] k v found = cc
  items-hold ((j, u) ∷ s) k v found = elim (Bool-cases (same_text j k)) [
    | inl same ↦ Memᴰ.head (sym ((same_text_iff j k).0 same))
    | inr other ↦ Memᴰ.tail (items-hold s k v (rw (other, list_get) at found))
  ]

  pub get-add_self : (s : List (Text × V)) (k : Text) (v : V) → list_get ((k, v) ∷ s) k ≡ some v
  unfolding list_get
  get-add_self s k v = rw ((same_text_iff k k).1 refl)

  pub get-add_other :
      (s : List (Text × V)) (k k' : Text) (v : V)
      → k ≢ k'
      → list_get ((k, v) ∷ s) k' ≡ list_get s k'
  unfolding list_get
  get-add_other s k k' v ne = ground (arith, same_text_iff k k')

  abbrev pub store : Store (List (Text × V)) V
  store = record {
    get = list_get;
    set = λ s k v. (k, v) ∷ s;
    delete = list_delete;
    items = list_items;
    get-set_self = get-add_self;
    get-set_other = get-add_other;
    get-delete_self = get-delete_self;
    get-delete_other = get-delete_other;
    items_hold = items-hold;
  }

pub remove_key : List (Text × Text) → Text → List (Text × Text)
remove_key [] k = []
remove_key ((k', v) ∷ s) k = let rest = remove_key s k in if k' == k then rest else (k', v) ∷ rest

abbrev pub database : Badger (List (Text × Text))
database = record {
  is_open = true;
  write = λ s k v. (k, v) ∷ s;
  remove = remove_key;
  entries = λ s. s;
}

same_key : (a b : Text) → ((a == b) ≡ true) ↔ (a ≡ b)
same_key a b = list_eq.beq_iff a b

contain-remove :
    (s : List (Text × Text)) (k k' : Text)
    → slice_contain (keys_of (remove_key s k)) k'
      ≡ (if k == k' then false else slice_contain (keys_of s) k')
unfolding slice_contain remove_key
contain-remove [] k k' = ground arith
contain-remove ((j, v) ∷ s) k k' =
    ground (arith, contain-remove s k k', same_key j k, same_key j k', same_key k k')

pub database_laws : BadgerLaws database
unfolding slice_contain
database_laws = record {
  open_db = refl;
  stored-write = λ s k v. refl;
  stored-remove = λ s k. fun_ext (contain-remove s k);
}
