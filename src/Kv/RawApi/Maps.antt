-- ===== src/Kv/RawApi/Maps.antt =====
-- The raw interface (kv/server/raw_api.go) reads and writes a map from column families and keys to values.
use tiny_kv_practice.Prelude.{
  ◌≡◌, inl, inr, refl, sym, ap, ◌∙◌, subst, Bool, true, false, ◌&&◌, Option, none, some, List, [],
  if◌then◌else◌, Bool-cases,
}
use tiny_kv_practice.Keys.Trees.{Key, IsSorted, find_key, put, cut, OrderedTree}
use tiny_kv_practice.Keys.Sorted.{same, put-IsSorted, cut-IsSorted, find_key-put, find_key-cut}
use tiny_kv_practice.Kv.MemStorage.{
  Bytes, Cf, default_cf, lock_cf, write_cf, bad_cf, MemItem, or_empty, key_of, MemStorage, tree_of,
  change, write, write_one, value_of, get_cf, close,
}
use tiny_kv_practice.Kv.RawApi.{GetResponse, is_nil, raw_get, raw_put, raw_delete}

abbrev pub same_cf : Cf → Cf → Bool
same_cf default_cf default_cf = true
same_cf lock_cf lock_cf = true
same_cf write_cf write_cf = true
same_cf _ _ = false

module _ (b : OrderedTree key_of) where
  pub record Sorted (s : MemStorage b) : Type 0 where
    pub default_sorted : IsSorted key_of (b.items s.cf_default)
    pub lock_sorted : IsSorted key_of (b.items s.cf_lock)
    pub write_sorted : IsSorted key_of (b.items s.cf_write)

  -- The items of a column family.
  abbrev pub items_of : Option b.Tree → List MemItem
  items_of none = []
  items_of (some t) = b.items t

  abbrev pub response : Option Bytes → GetResponse
  response value = record { value = value; not_found = is_nil value }

  pub items-IsSorted :
      (s : MemStorage b) (cf : Cf) → Sorted s → IsSorted key_of (items_of (tree_of b cf s))
  items-IsSorted s default_cf h = h.default_sorted
  items-IsSorted s lock_cf h = h.lock_sorted
  items-IsSorted s write_cf h = h.write_sorted
  items-IsSorted s (bad_cf name) h = tt

  abbrev found : MemStorage b → Cf → Option Bytes → Option Bytes
  found s cf key = value_of (find_key key_of (or_empty key) (items_of (tree_of b cf s)))

  find_nil : (k : Key) → find_key key_of k [] ≡ none
  unfolding find_key
  find_nil k = refl

  raw_get_lem :
      (s : MemStorage b) (cf : Cf) (key : Option Bytes)
      → Sorted s
      → raw_get b s cf key ≡ some (response (found s cf key))
  unfolding raw_get get_cf close
  raw_get_lem s default_cf key h =
      ap (λ o. some (response (value_of o)))
        (b.get_lem (or_empty key) s.cf_default h.default_sorted)
  raw_get_lem s lock_cf key h =
      ap (λ o. some (response (value_of o))) (b.get_lem (or_empty key) s.cf_lock h.lock_sorted)
  raw_get_lem s write_cf key h =
      ap (λ o. some (response (value_of o))) (b.get_lem (or_empty key) s.cf_write h.write_sorted)
  raw_get_lem s (bad_cf name) key h =
      ap (λ o. some (response (value_of o))) (sym (find_nil (or_empty key)))

  module _ (f : b.Tree → b.Tree) (g : List MemItem → List MemItem)
      (acts : (t : b.Tree) → IsSorted key_of (b.items t) → b.items (f t) ≡ g (b.items t)) where
    -- A change of one column family, in terms of the items.
    items-change :
        (s : MemStorage b) (cf cf' : Cf)
        → Sorted s
        → items_of (tree_of b cf' (change b cf f s))
          ≡ (if same_cf cf cf' then g (items_of (tree_of b cf' s)) else items_of (tree_of b cf' s))
    items-change s default_cf default_cf h = acts s.cf_default h.default_sorted
    items-change s default_cf lock_cf h = refl
    items-change s default_cf write_cf h = refl
    items-change s default_cf (bad_cf name) h = refl
    items-change s lock_cf default_cf h = refl
    items-change s lock_cf lock_cf h = acts s.cf_lock h.lock_sorted
    items-change s lock_cf write_cf h = refl
    items-change s lock_cf (bad_cf name) h = refl
    items-change s write_cf default_cf h = refl
    items-change s write_cf lock_cf h = refl
    items-change s write_cf write_cf h = acts s.cf_write h.write_sorted
    items-change s write_cf (bad_cf name) h = refl
    items-change s (bad_cf name) default_cf h = refl
    items-change s (bad_cf name) lock_cf h = refl
    items-change s (bad_cf name) write_cf h = refl
    items-change s (bad_cf name) (bad_cf other) h = refl

    change-Sorted :
        ((l : List MemItem) → IsSorted key_of l → IsSorted key_of (g l))
        → (s : MemStorage b) (cf : Cf) → Sorted s
        → Sorted (change b cf f s)
    change-Sorted keeps s default_cf h = record {
      default_sorted =
          subst (IsSorted key_of) (sym (acts s.cf_default h.default_sorted))
            (keeps _ h.default_sorted);
      lock_sorted = h.lock_sorted;
      write_sorted = h.write_sorted;
    }
    change-Sorted keeps s lock_cf h = record {
      default_sorted = h.default_sorted;
      lock_sorted =
          subst (IsSorted key_of) (sym (acts s.cf_lock h.lock_sorted)) (keeps _ h.lock_sorted);
      write_sorted = h.write_sorted;
    }
    change-Sorted keeps s write_cf h = record {
      default_sorted = h.default_sorted;
      lock_sorted = h.lock_sorted;
      write_sorted =
          subst (IsSorted key_of) (sym (acts s.cf_write h.write_sorted)) (keeps _ h.write_sorted);
    }
    change-Sorted keeps s (bad_cf name) h = h

    -- A read after the change, if the change puts `new` at a key and leaves the other keys alone.
    raw_get-change :
        (s : MemStorage b) (cf cf' : Cf) (key key' new : Option Bytes)
        → Sorted s
        → Sorted (change b cf f s)
        → ((l : List MemItem)
            → IsSorted key_of l
            → value_of (find_key key_of (or_empty key') (g l)) ≡ (
                if same (or_empty key) (or_empty key')
                then new
                else value_of (find_key key_of (or_empty key') l)))
        → raw_get b (change b cf f s) cf' key' ≡ (
            if same_cf cf cf' && same (or_empty key) (or_empty key')
            then some (response new)
            else raw_get b s cf' key')
    raw_get-change s cf cf' key key' new h h' finds =
        raw_get_lem (change b cf f s) cf' key' h'
        ∙ elim (Bool-cases (same_cf cf cf'))
            as (λ _. some (response (found (change b cf f s) cf' key')) ≡ (
              if same_cf cf cf' && same (or_empty key) (or_empty key')
              then some (response new)
              else raw_get b s cf' key')) [
                | inl here ↦
                    ap (λ l. some (response (value_of (find_key key_of (or_empty key') l))))
                      (items-change s cf cf' h ∙ chosen here _ _)
                    ∙ ap (λ v. some (response v)) (finds _ (items-IsSorted s cf' h))
                    ∙ distribute new (found s cf' key') here (same (or_empty key) (or_empty key'))
                        (sym (raw_get_lem s cf' key' h))
                | inr there ↦
                    ap (λ l. some (response (value_of (find_key key_of (or_empty key') l))))
                      (items-change s cf cf' h ∙ left there _ _)
                    ∙ sym (raw_get_lem s cf' key' h)
                    ∙ other (some (response new)) (raw_get b s cf' key') there
                        (same (or_empty key) (or_empty key'))
              ]
      where
        chosen : {c : Bool} → c ≡ true → (x y : List MemItem) → (if c then x else y) ≡ x
        chosen h x y = rw h refl

        left : {c : Bool} → c ≡ false → (x y : List MemItem) → (if c then x else y) ≡ y
        left h x y = rw h refl

        distribute :
            {c : Bool} (v w : Option Bytes) {r : Option GetResponse}
            → c ≡ true
            → (d : Bool) → some (response w) ≡ r
            → some (response (if d then v else w)) ≡ (if c && d then some (response v) else r)
        distribute v w h true e = rw h refl
        distribute v w h false e = rw h e

        other :
            {c : Bool} (x r : Option GetResponse)
            → c ≡ false
            → (d : Bool) → r ≡ (if c && d then x else r)
        other x r h d = rw h refl

  pub raw_put-Sorted :
      (s : MemStorage b) (cf : Cf) (key value : Option Bytes)
      → Sorted s
      → Sorted (raw_put b s cf key value)
  unfolding raw_put write write_one
  raw_put-Sorted s cf key value h =
      let item : MemItem = record { key = key; value = value; fresh = false } in
      change-Sorted (b.replace_or_insert item) (put key_of item) (b.items-replace_or_insert item)
        (put-IsSorted key_of item) s cf h

  pub raw_delete-Sorted :
      (s : MemStorage b) (cf : Cf) (key : Option Bytes) → Sorted s → Sorted (raw_delete b s cf key)
  unfolding raw_delete write write_one
  raw_delete-Sorted s cf key h =
      change-Sorted (b.delete (or_empty key)) (cut key_of (or_empty key))
        (b.items-delete (or_empty key)) (cut-IsSorted key_of (or_empty key)) s cf h

  -- After RawPut, RawGet returns the value at that key of that column family, and what it returned before
  -- anywhere else.
  pub raw_get-raw_put :
      (s : MemStorage b) (cf cf' : Cf) (key key' value : Option Bytes)
      → Sorted s
      → raw_get b (raw_put b s cf key value) cf' key' ≡ (
          if same_cf cf cf' && same (or_empty key) (or_empty key')
          then some (response value)
          else raw_get b s cf' key')
  unfolding raw_put write write_one
  raw_get-raw_put s cf cf' key key' value h =
      let item : MemItem = record { key = key; value = value; fresh = false } in
      raw_get-change (b.replace_or_insert item) (put key_of item) (b.items-replace_or_insert item) s
        cf cf' key key' value h (raw_put-Sorted s cf key value h)
        (λ l sorted.
          ap value_of (find_key-put key_of item (or_empty key') l)
          ∙ value_if (same (or_empty key) (or_empty key')) (find_key key_of (or_empty key') l) item)
    where
      value_if :
          (c : Bool) (o : Option MemItem) (item : MemItem)
          → value_of (if c then some item else o) ≡ (if c then item.value else value_of o)
      value_if true o item = refl
      value_if false o item = refl

  -- After RawDelete, RawGet finds nothing at that key of that column family, and what it found before
  -- anywhere else.
  pub raw_get-raw_delete :
      (s : MemStorage b) (cf cf' : Cf) (key key' : Option Bytes)
      → Sorted s
      → raw_get b (raw_delete b s cf key) cf' key' ≡ (
          if same_cf cf cf' && same (or_empty key) (or_empty key')
          then some (response none)
          else raw_get b s cf' key')
  unfolding raw_delete write write_one
  raw_get-raw_delete s cf cf' key key' h =
      raw_get-change (b.delete (or_empty key)) (cut key_of (or_empty key))
        (b.items-delete (or_empty key)) s cf cf' key key' none h (raw_delete-Sorted s cf key h)
        (λ l sorted.
          ap value_of (find_key-cut key_of (or_empty key) (or_empty key') l sorted)
          ∙ value_if (same (or_empty key) (or_empty key')) (find_key key_of (or_empty key') l))
    where
      value_if :
          (c : Bool) (o : Option MemItem)
          → value_of (if c then none else o) ≡ (if c then none else value_of o)
      value_if true o = refl
      value_if false o = refl

-- A storage that is in order stays so. RawGet then returns what was last put at a key of a column family,
-- nothing after a deletion there, and what it returned before anywhere else.
pub raw_get-lookup :
    (b : OrderedTree key_of) (s : MemStorage b) (cf cf' : Cf) (key key' value : Option Bytes)
    → Sorted b s
    → Sorted b (raw_put b s cf key value)
      × Sorted b (raw_delete b s cf key)
      × (raw_get b (raw_put b s cf key value) cf' key' ≡ (
          if same_cf cf cf' && same (or_empty key) (or_empty key')
          then some (response b value)
          else raw_get b s cf' key'))
      × (raw_get b (raw_delete b s cf key) cf' key' ≡ (
          if same_cf cf cf' && same (or_empty key) (or_empty key')
          then some (response b none)
          else raw_get b s cf' key'))
raw_get-lookup b s cf cf' key key' value h = (
  raw_put-Sorted b s cf key value h,
  raw_delete-Sorted b s cf key h,
  raw_get-raw_put b s cf cf' key key' value h,
  raw_get-raw_delete b s cf cf' key key' h,
)
