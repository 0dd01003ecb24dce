-- ===== src/Slab.antt =====
-- `struct Slab` of include/kvcache.h: the header of a slab, and the slots in its memory. A `cid` or
-- `block_id` of -1 is `none`. Slot `i` lies at `data + slot_size * i`, and the slots of one slab are
-- apart (Layout), so the memory is a function from slot numbers to slots. Only the slots that end
-- inside the slab are there: whoever hands out another one faults (`within` of State).
use kvcache.Base.{ℕ, zero, suc, ◌+◌, Bool, true, false, Option, none, some, ◌==◌}
use kvcache.Slot.{Slot}

pub record Slab : Type 0 where
  pub sid : ℕ
  pub cid : Option ℕ
  pub nr_alloc : ℕ
  pub slot_size : ℕ
  pub nr_slots : ℕ
  pub nr_used : ℕ
  pub block_id : Option ℕ
  pub memory : ℕ → Slot

-- `offsetof(Slab, data)` and `sizeof(Slab)` on a 64-bit target: six 4-byte fields, two pointers, one
-- 4-byte field, and 4 bytes of padding behind it.
abbrev pub slab_header_size : ℕ
slab_header_size = 44

abbrev pub slab_sizeof : ℕ
slab_sizeof = 48

unfoldable pub is_full : Slab → Bool
is_full s = s.nr_alloc == s.nr_slots

unfoldable pub im_memory : Slab → Bool
im_memory s = elim s.block_id [ none ↦ true | some b ↦ false ]

-- `operator=` copies the header and leaves the memory behind it.
unfoldable pub assign : Slab → Slab → Slab
assign s other = record other { memory = s.memory }

unfoldable pub reset : Slab → Slab
reset s = record s { cid = none; nr_alloc = 0; slot_size = 0; nr_slots = 0; nr_used = 0 }

-- The number of the slot that is handed out, and the slab after it. The callers of this ask whether
-- the slot is one of the slab, and fault where it is not.
unfoldable pub slot_alloc : Slab → ℕ × Slab
slot_alloc s = (s.nr_alloc, record s { nr_alloc = s.nr_alloc + 1; nr_used = s.nr_used + 1 })

-- The loop of `for_each_slot` from slot `i`, with the rounds that are left; `func` returns the new
-- state and whether to go on.
unfoldable pub for_slots {ℓ} : {S : Type ℓ} → ℕ → (ℕ → Slot) → (S → Slot → ℕ → S × Bool) → ℕ → S → S
for_slots zero memory func i st = st
for_slots (suc n) memory func i st =
    let (st', go_on) = func st (memory i) i in
    elim go_on [ false ↦ st' | true ↦ for_slots n memory func (i + 1) st' ]

unfoldable pub for_each_slot {ℓ} : {S : Type ℓ} → Slab → (S → Slot → ℕ → S × Bool) → S → S
for_each_slot s func st = for_slots s.nr_alloc s.memory func 0 st
