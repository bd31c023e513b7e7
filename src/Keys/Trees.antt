-- ===== src/Keys/Trees.antt =====
-- The ordered trees that the code calls (tinykv/scheduler/pkg/btree, a copy of google/btree with
-- positions, and github.com/petar/GoLLRB), which the library takes as a parameter: their operations,
-- and what these promise of the items in ascending order. Both are trees of items with a key.
use mathlib.Core.List.{reverse}
use tiny_kv_practice.Prelude.{
  ℕ, ◌≡◌, refl, true, Option, none, some, List, [], ◌∷◌, All, length, get_elem?, if◌then◌else◌,
}
use tiny_kv_practice.Keys.{is_below}

abbrev pub Key : Type 0
Key = List ℕ

abbrev pub head? {ℓ} : {A : Type ℓ} → List A → Option A
head? [] = none
head? (x ∷ l) = some x

module _ {I : Type 0} (key : I → Key) where
  -- The keys ascend.
  abbrev pub IsSorted : List I → Type 0
  IsSorted [] = Unit
  IsSorted (x ∷ l) = All (λ y. is_below (key x) (key y) ≡ true) l × IsSorted l

  -- The items from a key on, up to a key, and before a key.
  unfoldable pub from : Key → List I → List I
  from k [] = []
  from k (x ∷ l) = if is_below (key x) k then from k l else x ∷ l

  unfoldable pub upto : Key → List I → List I
  upto k [] = []
  upto k (x ∷ l) = let rest = upto k l in if is_below k (key x) then [] else x ∷ rest

  unfoldable pub before : Key → List I → List I
  before k [] = []
  before k (x ∷ l) = let rest = before k l in if is_below (key x) k then x ∷ rest else []

  unfoldable pub find_key : Key → List I → Option I
  find_key k [] = none
  find_key k (x ∷ l) =
      if is_below (key x) k then find_key k l else if is_below k (key x) then none else some x

  -- An item in the place of the one with its key, or between its neighbours.
  unfoldable pub put : I → List I → List I
  put x [] = x ∷ []
  put x (y ∷ l) =
      let rest = put x l in
      if is_below (key y) (key x)
      then y ∷ rest
      else if is_below (key x) (key y)
      then x ∷ y ∷ l
      else x ∷ l

  unfoldable pub cut : Key → List I → List I
  cut k [] = []
  cut k (x ∷ l) =
      let rest = cut k l in
      if is_below (key x) k then x ∷ rest else if is_below k (key x) then x ∷ l else l

  -- A new value in the place of the item with a key, which need not have that key.
  unfoldable pub swap : Key → I → List I → List I
  swap k new [] = []
  swap k new (x ∷ l) =
      let rest = swap k new l in
      if is_below (key x) k then x ∷ rest else if is_below k (key x) then x ∷ l else new ∷ l

  -- `ascend` and `descend` list the items that AscendGreaterOrEqual and DescendLessOrEqual visit, as
  -- long as the function that they call goes on. `assign` is no call: it is a write through the
  -- pointer that the tree has as an item, after which its items need not be sorted.
  pub record OrderedTree : Type 1 where
    pub Tree : Type 0
    pub items : Tree → List I
    pub new : Tree
    pub len : Tree → ℕ
    pub get : Key → Tree → Option I
    pub get_at : ℕ → Tree → Option I
    pub index_of : Key → Tree → ℕ
    pub ascend : Key → Tree → List I
    pub descend : Key → Tree → List I
    pub replace_or_insert : I → Tree → Tree
    pub delete : Key → Tree → Tree
    pub assign : Key → I → Tree → Tree
    pub items-new : items new ≡ []
    pub len_lem : (t : Tree) → len t ≡ length (items t)
    pub get_at_lem : (i : ℕ) (t : Tree) → get_at i t ≡ get_elem? (items t) i
    pub get_lem : (k : Key) (t : Tree) → IsSorted (items t) → get k t ≡ find_key k (items t)
    pub index_of_lem :
        (k : Key) (t : Tree) → IsSorted (items t) → index_of k t ≡ length (before k (items t))
    pub ascend_lem : (k : Key) (t : Tree) → IsSorted (items t) → ascend k t ≡ from k (items t)
    pub descend_lem :
        (k : Key) (t : Tree) → IsSorted (items t) → descend k t ≡ reverse (upto k (items t))
    pub items-replace_or_insert :
        (x : I) (t : Tree) → IsSorted (items t) → items (replace_or_insert x t) ≡ put x (items t)
    pub items-delete :
        (k : Key) (t : Tree) → IsSorted (items t) → items (delete k t) ≡ cut k (items t)
    pub items-assign :
        (k : Key) (x : I) (t : Tree)
        → IsSorted (items t)
        → items (assign k x t) ≡ swap k x (items t)

  -- Sorted lists keep these promises.
  abbrev pub sorted_lists : OrderedTree
  sorted_lists = record {
    Tree = List I;
    items = λ l. l;
    new = [];
    len = length;
    get = find_key;
    get_at = λ i l. get_elem? l i;
    index_of = λ k l. length (before k l);
    ascend = from;
    descend = λ k l. reverse (upto k l);
    replace_or_insert = put;
    delete = cut;
    assign = swap;
    items-new = refl;
    len_lem = λ t. refl;
    get_at_lem = λ i t. refl;
    get_lem = λ k t s. refl;
    index_of_lem = λ k t s. refl;
    ascend_lem = λ k t s. refl;
    descend_lem = λ k t s. refl;
    items-replace_or_insert = λ x t s. refl;
    items-delete = λ k t s. refl;
    items-assign = λ k x t s. refl;
  }
