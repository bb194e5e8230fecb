-- ===== src/Contiki/Example.antt =====
-- A small neighbor table that meets what the model asks of Contiki (net/nbr-table.h): an array of
-- two entries, walked from the first one.
use tsch_minimum.Prelude.{
  ℕ, ◌≡◌, ◌≢◌, refl, ap, ◌%◌, Bool, true, false, ◌&&◌, not, Option, none, some, List, [], ◌∷◌, ◌++◌,
  arith, ◌==◌, if◌then◌else◌,
}
use tsch_minimum.Contiki.{Addr, Contiki, IsContiki, first}

pub record Pair : Type 0 where
  pub entry_0 : Option Addr
  pub entry_1 : Option Addr

abbrev pub bytes_eq : Addr → Addr → Bool
bytes_eq [] [] = true
bytes_eq [] (y ∷ ys) = false
bytes_eq (x ∷ xs) [] = false
bytes_eq (x ∷ xs) (y ∷ ys) = (x == y) && bytes_eq xs ys

bytes_eq→eq : (a b : Addr) → bytes_eq a b ≡ true → a ≡ b
bytes_eq→eq [] [] h = refl
bytes_eq→eq [] (y ∷ ys) h = ground arith
bytes_eq→eq (x ∷ xs) [] h = ground arith
bytes_eq→eq (x ∷ xs) (y ∷ ys) h = ground (arith, bytes_eq→eq xs ys)

bytes_eq_refl : (a : Addr) → bytes_eq a a ≡ true
bytes_eq_refl [] = refl
bytes_eq_refl (x ∷ xs) = ground (arith, bytes_eq_refl xs)

abbrev pub holds : Option Addr → Addr → Bool
holds none a = false
holds (some b) a = bytes_eq b a

abbrev pub find : Pair → Addr → Option ℕ
find t a = if holds t.entry_0 a then some 0 else if holds t.entry_1 a then some 1 else none

abbrev pub insert : Pair → Addr → Pair × Option ℕ
insert t a = elim (find t a) [
  | some i ↦ (t, some i)
  | none ↦ elim t.entry_0 [
    | none ↦ (record t { entry_0 = some a }, some 0)
    | some b ↦ elim t.entry_1 [
      | none ↦ (record t { entry_1 = some a }, some 1)
      | some c ↦ (t, none)
    ]
  ]
]

-- An address that stands in both entries goes from both.
abbrev pub delete_0 : Option Addr → Pair → Pair
delete_0 none t = t
delete_0 (some a) t = record {
  entry_0 = none;
  entry_1 = if holds t.entry_1 a then none else t.entry_1;
}

abbrev pub delete : Pair → ℕ → Pair
delete t i =
    if i == 0 then delete_0 t.entry_0 t else if i == 1 then record t { entry_1 = none } else t

abbrev pub is_some {ℓ} : {A : Type ℓ} → Option A → Bool
is_some none = false
is_some (some a) = true

-- The second entry, where it has an address of its own.
abbrev pub own : Option Addr → Option Addr → Bool
own none o = false
own (some c) o = not (holds o c)

abbrev pub items : Pair → List ℕ
items t =
    if is_some t.entry_0
    then (if own t.entry_1 t.entry_0 then 0 ∷ 1 ∷ [] else 0 ∷ [])
    else if is_some t.entry_1
    then 1 ∷ []
    else []

abbrev pub after : Pair → ℕ → Option ℕ
after t i = if i == 0 then (if own t.entry_1 t.entry_0 then some 1 else none) else none

-- The address of the queuebuf `p` is the one byte `p % 4`.
abbrev pub os : Contiki
os = record {
  Table = Pair;
  rimeaddr_cmp = bytes_eq;
  rimeaddr_null = 0 ∷ [];
  nbr_table_get_from_lladdr = find;
  nbr_table_add_lladdr = insert;
  nbr_table_remove = delete;
  nbr_table_head = λ t. first (items t);
  nbr_table_next = after;
  queuebuf_addr = λ p. p % 4 ∷ [];
}

holds→eq : (o : Option Addr) (a : Addr) → holds o a ≡ true → o ≡ some a
holds→eq none a h = ground arith
holds→eq (some b) a h = ap some (bytes_eq→eq b a h)

find_injective : (t : Pair) (a b : Addr) (i : ℕ) → find t a ≡ some i → find t b ≡ some i → a ≡ b
find_injective t a b i p q =
    ground (
      arith,
      holds→eq t.entry_0 a,
      holds→eq t.entry_0 b,
      holds→eq t.entry_1 a,
      holds→eq t.entry_1 b,
    )

find-insert :
    (t : Pair) (a : Addr) (i : ℕ) → (insert t a).1 ≡ some i → find (insert t a).0 a ≡ some i
find-insert t a i h = ground (arith, bytes_eq_refl a)

find-insert_other :
    (t : Pair) (a b : Addr) (i : ℕ) → a ≢ b → find (insert t a).0 b ≡ some i → find t b ≡ some i
find-insert_other t a b i ne h = ground (arith, bytes_eq→eq a b)

insert-none :
    (t : Pair) (a b : Addr) (i : ℕ)
    → (insert t a).1 ≡ none
    → find (insert t a).0 b ≡ some i
    → find t b ≡ some i
insert-none t a b i e h = ground arith

find-delete :
    (t : Pair) (i : ℕ) (b : Addr) (j : ℕ) → find (delete t i) b ≡ some j → find t b ≡ some j
find-delete t i b j h = ground (arith, holds→eq t.entry_0 b, holds→eq t.entry_1 b)

after-items : (t : Pair) (xs ys : List ℕ) (i : ℕ) → items t ≡ xs ++ (i ∷ ys) → after t i ≡ first ys
after-items t [] ys i h = ground arith
after-items t (x ∷ []) ys i h = ground arith
after-items t (x ∷ y ∷ []) ys i h = ground arith
after-items t (x ∷ y ∷ z ∷ xs) ys i h = ground arith

entry_found :
    (o o' : Option Addr) (xs ys : List ℕ) (i : ℕ)
    → items (record { entry_0 = o; entry_1 = o' }) ≡ xs ++ (i ∷ ys)
    → (a : Addr) × (find (record { entry_0 = o; entry_1 = o' }) a ≡ some i)
entry_found none none [] ys i h = absurd (ground (arith, h))
entry_found none none (x ∷ xs) ys i h = absurd (ground (arith, h))
entry_found none (some c) [] ys i h = (c, ground (arith, bytes_eq_refl c))
entry_found none (some c) (x ∷ []) ys i h = absurd (ground (arith, h))
entry_found none (some c) (x ∷ y ∷ xs) ys i h = absurd (ground (arith, h))
entry_found (some b) none [] ys i h = (b, ground (arith, bytes_eq_refl b))
entry_found (some b) none (x ∷ []) ys i h = absurd (ground (arith, h))
entry_found (some b) none (x ∷ y ∷ xs) ys i h = absurd (ground (arith, h))
entry_found (some b) (some c) [] ys i h = (b, ground (arith, bytes_eq_refl b))
entry_found (some b) (some c) (x ∷ []) ys i h = (c, ground (arith, bytes_eq_refl c))
entry_found (some b) (some c) (x ∷ y ∷ []) ys i h = absurd (ground (arith, h))
entry_found (some b) (some c) (x ∷ y ∷ z ∷ xs) ys i h = absurd (ground (arith, h))

pub os-IsContiki : IsContiki os
os-IsContiki = record {
  cmp_iff = λ a b. (bytes_eq→eq a b, λ e. rw e (bytes_eq_refl b));
  get_injective = find_injective;
  get_add = find-insert;
  get_add_other = find-insert_other;
  get_add_none = insert-none;
  get_remove = find-delete;
  items = items;
  few = λ t. ground arith;
  head_items = λ t. refl;
  next_items = after-items;
  item_found = λ t. entry_found t.entry_0 t.entry_1;
}

-- The items of a table whose first entry alone is used.
pub items_one :
    (b : Addr) → os-IsContiki.items (record { entry_0 = some b; entry_1 = none }) ≡ 0 ∷ []
unfolding os-IsContiki
items_one b = refl
