-- ===== src/State.antt =====
-- The fields of `class KVCache` of include/kvcache.h, what it is built on, and the outcomes of its
-- operations. A linked list of slabs is the list of their `sid`s, first slab first, and `Ring` adds
-- the counter of `class List` of include/list.h.
use kvcache.Base.Int.{ℤ}
use kvcache.Base.{
  ℕ, ◌+◌, ◌-◌, ◌/◌, ◌%◌, ◌≡◌, refl, Bool, List, [], ◌∷◌, Option, none, some, ◌==◌, if◌then◌else◌,
  update, ltb, leb, ◌*◌, ◌&&◌, ◌||◌,
}
use kvcache.Index.{Hashing, Index}
use kvcache.Slab.{Slab, slab_header_size}

-- What the cache is built on: the hash functions, and the disk behind `SSD::read_block` and
-- `SSD::write_block`, where a block is read back as the slab image that was last written to it.
-- `none` is a status that is not OK.
pub record Platform : Type 1 where
  pub hashing : Hashing
  pub Disk : Type 0
  pub read_block : Disk → ℕ → Option Slab
  pub write_block : Disk → ℕ → Slab → Option Disk
  pub read-write_block :
      (d d' : Disk) (b q : ℕ) (image : Slab)
      → write_block d b image ≡ some d'
      → read_block d' q ≡ (if b == q then some image else read_block d q)

-- `done`: the call returns. `blocks`: the thread waits for a signal that no other step of this call
-- gives. `throws`: an exception leaves the call. `faults`: an assertion fails, or what happens is
-- undefined, as where a null pointer is read, an `int` overflows or a slot lies outside its slab. `no_fuel`: the rounds granted to a loop of the model are used up.
pub data Outcome {ℓ} (A : Type ℓ) : Type ℓ where
  done : A → Outcome A
  blocks throws faults no_fuel : Outcome A

infixl 5 ◌>>=◌
abbrev pub ◌>>=◌ {ℓ κ} : {A : Type ℓ} {B : Type κ} → Outcome A → (A → Outcome B) → Outcome B
done a >>= f = f a
blocks >>= f = blocks
throws >>= f = throws
faults >>= f = faults
no_fuel >>= f = no_fuel

pub >>=-eq-done {ℓ κ} :
    {A : Type ℓ} {B : Type κ} (m : Outcome A) (f : A → Outcome B) {b : B}
    → (m >>= f) ≡ done b
    → (a : A) × (m ≡ done a) × (f a ≡ done b)
>>=-eq-done (done a) f h = (a, refl, h)
>>=-eq-done blocks f h = absurd (cc)
>>=-eq-done throws f h = absurd (cc)
>>=-eq-done faults f h = absurd (cc)
>>=-eq-done no_fuel f h = absurd (cc)

pub done_injective {ℓ} : {A : Type ℓ} {a b : A} → done a ≡ done b → a ≡ b
done_injective p = cc

abbrev pub or_throw {ℓ} : {A : Type ℓ} → Option A → Outcome A
or_throw none = throws
or_throw (some a) = done a

pub or_throw_done {ℓ} : {A : Type ℓ} (o : Option A) (a : A) → or_throw o ≡ done a → o ≡ some a
or_throw_done none a p = absurd (cc)
or_throw_done (some x) a p = cc

pub record Ring : Type 0 where
  pub items : List ℕ
  pub size : ℕ

abbrev pub empty_ring : Ring
empty_ring = record { items = []; size = 0 }

-- `list_add(&slab->list, &ring.list_); ring.size_++`
unfoldable pub push : ℕ → Ring → Ring
push sid r = record { items = sid ∷ r.items; size = r.size + 1 }

-- `list_del(&slab->list)`, from whatever list the slab is on.
unfoldable pub list_del : ℕ → List ℕ → List ℕ
list_del sid [] = []
list_del sid (x ∷ xs) = if x == sid then xs else x ∷ list_del sid xs

-- `list_del(&slab->list); ring.size_--`
unfoldable pub detach : ℕ → Ring → Ring
detach sid r = record { items = list_del sid r.items; size = r.size - 1 }

-- `list_first_entry`, where `list_empty` fails.
unfoldable pub first_entry : List ℕ → Option ℕ
first_entry [] = none
first_entry (x ∷ xs) = some x

pub record SlabClass : Type 0 where
  pub cid : ℕ
  pub slot_size : ℕ
  pub slots_per_slab : ℕ

-- What the constructor fixes: the geometry, the options that the operations read, and `NDEBUG`, under
-- which `assert` does not evaluate its argument.
pub record Config : Type 0 where
  pub slab_size : ℕ
  pub nr_mslab : ℕ
  pub nr_dslab : ℕ
  pub nr_channels : ℕ
  pub blocks_per_channel : ℕ
  pub slab_class_table : List SlabClass
  pub enable_background_flush : Bool
  pub enable_background_gc : Bool
  pub ndebug : Bool
  pub free_block_water_mark_low_min : ℕ
  pub free_block_water_mark_high_max : ℕ

pub record Cache (Disk : Type 0) : Type 0 where
  pub slabs : ℕ → Slab
  pub slab_partial : ℕ → List ℕ
  pub mslab_free : Ring
  pub mslab_full : Ring
  pub dslab_free : ℕ → Ring
  pub dslab_full : ℕ → Ring
  pub ops_pool : ℕ → Ring
  pub max_ops_pool_size : ℕ
  pub ops_pool_size : ℕ
  pub nr_free_dslab : ℕ
  pub nr_full_dslab : ℤ
  pub index : Index
  pub next_mslab_flush_channel : ℕ
  pub next_ops_pool_remove_channel : ℕ
  pub free_block_water_mark_low : ℕ
  pub free_block_water_mark_high : ℕ
  pub shutdown : Bool
  pub disk : Disk

-- `gc_buffer_` is the last mslab.
abbrev pub gc_buffer : Config → ℕ
gc_buffer cfg = cfg.nr_mslab - 1

-- The slots that a slab has handed out are slots of it: `assert(!is_full())` of `Slab::slot_alloc`
-- held, where it is evaluated, and the last of them ends inside the slab. A slot behind the end lies in
-- the next slab, and what a write to it does is undefined.
unfoldable pub within : Config → Slab → Bool
within cfg s =
    (cfg.ndebug || leb s.nr_alloc s.nr_slots)
    && ltb 0 s.slot_size
    && leb (slab_header_size + s.slot_size * s.nr_alloc) cfg.slab_size

-- `SSD::channel_id`, and `Block::channel_id`.
unfoldable pub channel_id : Config → ℕ → ℕ
channel_id cfg block_id = block_id / cfg.blocks_per_channel

unfoldable pub next_channel : Config → ℕ → ℕ
next_channel cfg current_channel = (current_channel + 1) % cfg.nr_channels

-- A write through a `Slab *`.
abbrev pub set_slab : {D : Type 0} → Cache D → ℕ → Slab → Cache D
set_slab c sid s = record c { slabs = update c.slabs sid s }
