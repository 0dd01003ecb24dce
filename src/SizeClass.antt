-- ===== src/SizeClass.antt =====
-- The slab classes of src/kvcache.cpp: which class holds an object, the largest object, and the
-- default sizes.
pub mod Fits
pub mod Defaults
use kvcache.Base.{
  ℕ, zero, suc, ◌+◌, ◌-◌, ◌*◌, min, Bytes, Bool, true, false, ◌&&◌, List, [], ◌∷◌, Option, none,
  some, ltb, leb, if◌then◌else◌, length,
}
use kvcache.Slot.{slot_header_size}
use kvcache.Slab.{slab_header_size}
use kvcache.State.{SlabClass}

unfoldable pub slot_size : Bytes → Bytes → ℕ
slot_size key value = slot_header_size + length key + length value

-- `std::lower_bound` by slot size: on a sorted table, the first class that is not too small.
unfoldable pub lower_bound : ℕ → List SlabClass → Option SlabClass
lower_bound size [] = none
lower_bound size (sc ∷ scs) = if ltb sc.slot_size size then lower_bound size scs else some sc

-- `none` is the status `ObjectTooLarge`.
unfoldable pub get_slab_class : List SlabClass → ℕ → Option SlabClass
unfolding lower_bound
get_slab_class table size = elim (lower_bound size table) [
  | none ↦ none
  | some sc ↦ if leb size sc.slot_size then some sc else none
]

-- `slab_class_table_[nr_slab_class_ - 1]`
unfoldable pub last_slot_size : List SlabClass → ℕ
last_slot_size [] = 0
last_slot_size (sc ∷ []) = sc.slot_size
last_slot_size (sc ∷ sd ∷ scs) = last_slot_size (sd ∷ scs)

unfoldable pub max_kv_size : List SlabClass → ℕ
unfolding last_slot_size
max_kv_size table = last_slot_size table - slot_header_size

-- The loop of `default_slab_class_size`, from position `i` with `n` rounds left: `previous` is what
-- the round before wrote. The doubling is exact in `double`.
unfoldable pub class_sizes : ℕ → ℕ → ℕ → ℕ → ℕ → List ℕ
class_sizes zero i previous current max_slot_size = []
class_sizes (suc n) i previous current max_slot_size =
    let rest = class_sizes n (i + 1) current (min (current * 2) max_slot_size) max_slot_size in
    if ltb 1 i && leb max_slot_size previous then [] else current ∷ rest

-- The sizes below `*nr_slab_class_out`; the one that the last round writes behind them is not read.
unfoldable pub default_slab_class_size : ℕ → ℕ → ℕ → List ℕ
unfolding class_sizes
default_slab_class_size slab_size min_kv_size max_nr_slab_class =
    class_sizes max_nr_slab_class 0 0 (min_kv_size + slot_header_size)
      (slab_size - slab_header_size)
