-- ===== src/Contiki.antt =====
-- What tsch.c uses of Contiki and does not implement: RIME addresses (net/rime/rimeaddr.h), the
-- neighbor table (net/nbr-table.h) and the addresses kept with a queuebuf (net/queuebuf.h).
-- Contiki is not in the repository, so these are parameters of the model, and `IsContiki` states
-- what is relied on of them.
pub mod Example
use tsch_minimum.Prelude.{
  ℕ, ◌≡◌, ◌≢◌, ◌↔◌, Bool, true, Option, none, some, List, [], ◌∷◌, ◌++◌, ◌≤◌, length,
}

-- `rimeaddr_t`, as its bytes.
abbrev pub Addr : Type 0
Addr = List ℕ

-- A pointer into the neighbor table is a number, and NULL is `none`.
pub record Contiki : Type 1 where
  pub Table : Type 0
  pub rimeaddr_cmp : Addr → Addr → Bool
  pub rimeaddr_null : Addr
  pub nbr_table_get_from_lladdr : Table → Addr → Option ℕ
  pub nbr_table_add_lladdr : Table → Addr → Table × Option ℕ
  pub nbr_table_remove : Table → ℕ → Table
  pub nbr_table_head : Table → Option ℕ
  pub nbr_table_next : Table → ℕ → Option ℕ
  -- `queuebuf_addr(pkt, PACKETBUF_ADDR_RECEIVER)`
  pub queuebuf_addr : ℕ → Addr

-- NBR_TABLE_CONF_MAX_NEIGHBORS of project-conf.h
abbrev pub max_neighbors : ℕ
max_neighbors = 20

abbrev pub first {ℓ} : {A : Type ℓ} → List A → Option A
first [] = none
first (x ∷ xs) = some x

pub record IsContiki (os : Contiki) : Type 0 where
  -- Addresses are compared byte by byte.
  pub cmp_iff : (a b : Addr) → (os.rimeaddr_cmp a b ≡ true) ↔ (a ≡ b)
  -- An entry belongs to one address.
  pub get_injective :
      (t : os.Table) (a b : Addr) (i : ℕ)
      → os.nbr_table_get_from_lladdr t a ≡ some i
      → os.nbr_table_get_from_lladdr t b ≡ some i
      → a ≡ b
  -- The entry that was added is found.
  pub get_add :
      (t : os.Table) (a : Addr) (i : ℕ)
      → (os.nbr_table_add_lladdr t a).1 ≡ some i
      → os.nbr_table_get_from_lladdr (os.nbr_table_add_lladdr t a).0 a ≡ some i
  -- Adding keeps or evicts the entries of the other addresses.
  pub get_add_other :
      (t : os.Table) (a b : Addr) (i : ℕ)
      → a ≢ b
      → os.nbr_table_get_from_lladdr (os.nbr_table_add_lladdr t a).0 b ≡ some i
      → os.nbr_table_get_from_lladdr t b ≡ some i
  -- Where no entry is left for the address, none is added.
  pub get_add_none :
      (t : os.Table) (a b : Addr) (i : ℕ)
      → (os.nbr_table_add_lladdr t a).1 ≡ none
      → os.nbr_table_get_from_lladdr (os.nbr_table_add_lladdr t a).0 b ≡ some i
      → os.nbr_table_get_from_lladdr t b ≡ some i
  -- Removing adds no entry.
  pub get_remove :
      (t : os.Table) (i : ℕ) (b : Addr) (j : ℕ)
      → os.nbr_table_get_from_lladdr (os.nbr_table_remove t i) b ≡ some j
      → os.nbr_table_get_from_lladdr t b ≡ some j
  -- `nbr_table_head` and `nbr_table_next` walk along one list of entries.
  -- The list is no longer than the table, of NBR_TABLE_CONF_MAX_NEIGHBORS entries.
  pub items : os.Table → List ℕ
  pub few : (t : os.Table) → length (items t) ≤ max_neighbors
  pub head_items : (t : os.Table) → os.nbr_table_head t ≡ first (items t)
  pub next_items :
      (t : os.Table) (xs ys : List ℕ) (i : ℕ)
      → items t ≡ xs ++ (i ∷ ys)
      → os.nbr_table_next t i ≡ first ys
  -- Each entry of the list is that of an address.
  pub item_found :
      (t : os.Table) (xs ys : List ℕ) (i : ℕ)
      → items t ≡ xs ++ (i ∷ ys)
      → (a : Addr) × (os.nbr_table_get_from_lladdr t a ≡ some i)
