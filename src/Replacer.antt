-- ===== src/Replacer.antt =====
-- rmdb/src/replacer/lru_replacer.{h,cpp}: the frames that may be evicted, most recent first. A
-- method runs under one mutex, so it is one step. Frame ids are the indices of a pool's frames.
pub mod Order
pub mod Refinement
pub mod Membership
mod Tests
use aidv.Prelude.{ℕ, suc, ◌+◌, Option, none, some, List, [], ◌∷◌, map, length, ◌==◌, if◌then◌else◌}
use aidv.Prelude.Assoc.{lookup, insert, erase}

-- A node of the std::list. An iterator names a node, and stays good while others come and go.
pub record Node : Type 0 where
  pub id : ℕ
  pub frame_id : ℕ

-- `next_node` is the allocator's: it names the next node that `push_front` makes.
pub record LruReplacer : Type 0 where
  pub lru_list : List Node
  pub lru_hash : List (ℕ × ℕ)
  pub max_size : ℕ
  pub next_node : ℕ

unfoldable pub init : ℕ → LruReplacer
init num_pages = record { lru_list = []; lru_hash = []; max_size = num_pages; next_node = 0 }

-- `LRUlist_.back()` and `LRUlist_.pop_back()`
abbrev pub back : List Node → Option Node
back [] = none
back (x ∷ []) = some x
back (x ∷ y ∷ xs) = back (y ∷ xs)

abbrev pub pop_back : List Node → List Node
pop_back [] = []
pop_back (x ∷ []) = []
pop_back (x ∷ y ∷ xs) = x ∷ pop_back (y ∷ xs)

-- `LRUlist_.erase(it)`
abbrev pub erase_node : ℕ → List Node → List Node
erase_node it [] = []
erase_node it (x ∷ xs) = if x.id == it then xs else x ∷ erase_node it xs

-- The victim, if there is one: the least recently used frame.
unfoldable pub victim : LruReplacer → LruReplacer × Option ℕ
victim r = elim (back r.lru_list) [
  | none ↦ (r, none)
  | some node ↦ (
    record r { lru_list = pop_back r.lru_list; lru_hash = erase node.frame_id r.lru_hash },
    some node.frame_id,
  )
]

unfoldable pub pin : LruReplacer → ℕ → LruReplacer
pin r frame_id = elim (lookup frame_id r.lru_hash) [
  | none ↦ r
  | some it ↦ record r { lru_list = erase_node it r.lru_list; lru_hash = erase frame_id r.lru_hash }
]

unfoldable pub unpin : LruReplacer → ℕ → LruReplacer
unpin r frame_id = elim (lookup frame_id r.lru_hash) [
  | none ↦ record r {
    lru_list = record { id = r.next_node; frame_id = frame_id } ∷ r.lru_list;
    lru_hash = insert frame_id r.next_node r.lru_hash;
    next_node = suc r.next_node;
  }
  | some _ ↦ r
]

pub size : LruReplacer → ℕ
size r = length r.lru_list

-- The frames in the list, most recent first: what a client can observe.
pub frames : LruReplacer → List ℕ
frames r = map (λ (x : Node). x.frame_id) r.lru_list
