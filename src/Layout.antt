-- ===== src/Layout.antt =====
-- Addresses (src/kvcache.cpp and include/kvcache.h): alignment, and where slabs and slots lie. An
-- address is a number; nothing here passes the end of the address space.
use kvcache.Base.{
  ℕ, suc, ◌+◌, ◌-◌, ◌*◌, ◌/◌, ◌%◌, ◌<◌, ◌≤◌, ◌≡◌, ◌∙◌, ap, arith, ltb, lt→ltb, ◌==◌, if◌then◌else◌,
  Bool-cases, inl, inr,
}
use native.Mathlib.Nat.{
  mod-add-div, mul-add-mod_self_left, mod-eq_of_lt, mod-lt, zero-mod, mul-suc, mul-div_right,
}
use kvcache.Slab.{slab_header_size, slab_sizeof}

unfoldable pub align_ptr_up : ℕ → ℕ → ℕ
align_ptr_up ptr alignment =
    let remainder = ptr % alignment in if remainder == 0 then ptr else ptr + (alignment - remainder)

unfoldable pub align_ptr_down : ℕ → ℕ → ℕ
align_ptr_down ptr alignment = ptr - ptr % alignment

-- `mslab_base_`, `slab_size_` and `nr_mslab_`. The headers of the disk slabs follow the memory slabs.
pub record Area : Type 0 where
  pub mslab_base : ℕ
  pub slab_size : ℕ
  pub nr_mslab : ℕ

unfoldable pub mslab_end : Area → ℕ
mslab_end a = a.mslab_base + a.nr_mslab * a.slab_size

unfoldable pub slab_by_sid : Area → ℕ → ℕ
unfolding mslab_end
slab_by_sid a sid =
    if ltb sid a.nr_mslab
    then a.mslab_base + sid * a.slab_size
    else mslab_end a + (sid - a.nr_mslab) * slab_sizeof

-- `Slab::slot`, for the slab at an address.
unfoldable pub slot_at : ℕ → ℕ → ℕ → ℕ
slot_at slab slot_size i = slab + slab_header_size + slot_size * i

unfoldable pub slot_to_slab : Area → ℕ → ℕ
unfolding align_ptr_down
slot_to_slab a slot = align_ptr_down (a.mslab_base + (slot - a.mslab_base)) a.slab_size

-- `slot_id`, with the `slot_size` that is read from the slab's header.
unfoldable pub slot_id : Area → ℕ → ℕ → ℕ
slot_id a slot_size slot = (slot - (slot_to_slab a slot + slab_header_size)) / slot_size

-- The aligned address is a multiple of the alignment and less than one alignment above the address, so
-- that one alignment more of mapped memory is enough.
pub align_ptr_up-bounds :
    (ptr alignment : ℕ)
    → 0 < alignment
    → (align_ptr_up ptr alignment % alignment ≡ 0)
      × (ptr ≤ align_ptr_up ptr alignment)
      × (align_ptr_up ptr alignment < ptr + alignment)
unfolding align_ptr_up
align_ptr_up-bounds ptr alignment h = elim (Bool-cases (ptr % alignment == 0)) [
  | inl y ↦ rw y (ground arith, omega arith, omega arith)
  | inr n ↦
      let low = mod-lt ptr h in
      let parts = mod-add-div ptr alignment in
      rw n (
        ap (λ (x : ℕ). x % alignment) (omega (arith, parts, low))
            ∙ mul-add-mod_self_left alignment (ptr / alignment + 1) 0
            ∙ zero-mod alignment,
        omega arith,
        ground (arith, n, low),
      )
]

aligned_part :
    (base m size off : ℕ) → base % size ≡ 0 → off < size → (base + m * size + off) % size ≡ off
aligned_part base m size off p q =
    ap (λ (x : ℕ). x % size) (omega (arith, p, mod-add-div base size))
    ∙ mul-add-mod_self_left size (base / size + m) off
    ∙ mod-eq_of_lt q

module _ (a : Area) (sid slot_size i : ℕ) (aligned : a.mslab_base % a.slab_size ≡ 0) where
  -- The start of the slab.
  start : ℕ
  start = a.mslab_base + sid * a.slab_size

  slot_to_slab-start :
      slab_header_size + slot_size * i < a.slab_size
      → slot_to_slab a (slot_at start slot_size i) ≡ start
  unfolding slot_to_slab slot_at start
  slot_to_slab-start room =
      let off = slab_header_size + slot_size * i in
      let back : a.mslab_base + (start + slab_header_size + slot_size * i - a.mslab_base)
          ≡ a.mslab_base + sid * a.slab_size + off =
        omega arith in
      rw back (omega (arith, aligned_part a.mslab_base sid a.slab_size off aligned room))

  slot_id-start :
      0 < slot_size
      → slab_header_size + slot_size * i < a.slab_size
      → slot_id a slot_size (slot_at start slot_size i) ≡ i
  unfolding slot_id slot_at
  slot_id-start pos room =
      let slab : slot_to_slab a (start + slab_header_size + slot_size * i) ≡ start =
        slot_to_slab-start room in
      let back : start
            + slab_header_size
            + slot_size * i
            - (slot_to_slab a (start + slab_header_size + slot_size * i) + slab_header_size)
          ≡ slot_size * i =
        omega (arith, slab) in
      rw back (mul-div_right i pos)

-- From a slot's address the code finds its slab and its number again, for every slot that lies whole in
-- a slab of the aligned area.
pub slot_to_slab-slot_at :
    (a : Area) (sid slot_size i : ℕ)
    → a.mslab_base % a.slab_size ≡ 0
    → sid < a.nr_mslab
    → 0 < slot_size
    → slab_header_size + slot_size * suc i ≤ a.slab_size
    → (slot_to_slab a (slot_at (slab_by_sid a sid) slot_size i) ≡ slab_by_sid a sid)
      × (slot_id a slot_size (slot_at (slab_by_sid a sid) slot_size i) ≡ i)
unfolding slab_by_sid start
slot_to_slab-slot_at a sid slot_size i aligned inside pos fits =
    let room : slab_header_size + slot_size * i < a.slab_size =
      omega (arith, mul-suc slot_size i) in
    rw (lt→ltb sid a.nr_mslab inside) (
      slot_to_slab-start a sid slot_size i aligned room,
      slot_id-start a sid slot_size i aligned pos room,
    )
