-- ===== src/Api/Room.antt =====
-- Which slots `slot_alloc` (src/kvcache.cpp) may hand out: the slabs of a class hold as many slots as
-- fit behind the header, and no more are handed out.
use kvcache.Base.{
  ℕ, ◌+◌, ◌*◌, ◌-◌, ◌/◌, ◌<◌, ◌≤◌, ◌≡◌, sym, ◌∙◌, ap, subst, true, some, arith, Bool-cases, inl,
  inr, ◌==◌,
}
use native.Mathlib.Nat.{mul-div-le, le-div_iff_mul-le, mul-le-mul_left}
use kvcache.Slab.{Slab, slab_header_size, is_full}
use kvcache.Slab
use kvcache.State.{Platform, Config, Cache, SlabClass, detach, within}
use kvcache.Lists.{count, count-list_del, HasSlots, Roomy, Apart}
use kvcache.Api.{adopt, take_slot}

-- An object of class `sc` fits a slab.
abbrev pub Holds : Config → SlabClass → Type 0
Holds cfg sc = (0 < sc.slot_size) × (slab_header_size + sc.slot_size ≤ cfg.slab_size)

slots_of : (room size : ℕ) → 0 < size → size ≤ room → 0 < room / size
slots_of room size h le = (le-div_iff_mul-le h).1 (omega (arith, le))

within_parts :
    (cfg : Config) (s : Slab)
    → within cfg s ≡ true
    → (0 < s.slot_size) × (slab_header_size + s.slot_size * s.nr_alloc ≤ cfg.slab_size)
unfolding within
within_parts cfg s p = (ground (arith, p), ground (arith, p))

within_of :
    (cfg : Config) (s : Slab)
    → s.nr_alloc ≤ s.nr_slots
    → 0 < s.slot_size
    → slab_header_size + s.slot_size * s.nr_alloc ≤ cfg.slab_size
    → within cfg s ≡ true
unfolding within
within_of cfg s p q r = ground (arith, p, q, r)

module _ (pf : Platform) (cfg : Config) (c : Cache pf.Disk) where
  taken_slab :
      (cid m : ℕ)
      → (take_slot pf cfg c cid m).1.slabs m ≡ (record (c.slabs m) {
        nr_alloc = (c.slabs m).nr_alloc + 1;
        nr_used = (c.slabs m).nr_used + 1;
      })
  unfolding take_slot Slab.slot_alloc
  taken_slab cid m = ground arith

  adopted_slab :
      (sc : SlabClass) (m : ℕ)
      → (adopt pf cfg c sc m).slabs m ≡ (record (c.slabs m) {
        cid = some sc.cid;
        slot_size = sc.slot_size;
        nr_slots = (cfg.slab_size - slab_header_size) / sc.slot_size;
      })
  unfolding adopt
  adopted_slab sc m = ground arith

  -- A partial slab has a slot to hand out.
  pub take_slot-within :
      (cid m : ℕ)
      → HasSlots cfg (c.slabs m)
      → within cfg ((take_slot pf cfg c cid m).1.slabs m) ≡ true
  take_slot-within cid m h =
      let s = c.slabs m in
      let more : s.slot_size * (s.nr_alloc + 1) ≤ s.slot_size * s.nr_slots =
        mul-le-mul_left s.slot_size (omega (arith, h.left)) in
      ap (within cfg) (taken_slab cid m)
      ∙ within_of cfg (record s { nr_alloc = s.nr_alloc + 1; nr_used = s.nr_used + 1 })
          (omega (arith, h.left)) h.some_size (omega (arith, more, h.inside))

  pub adopt-HasSlots :
      (sc : SlabClass) (m : ℕ)
      → Holds cfg sc
      → (c.slabs m).nr_alloc ≡ 0
      → HasSlots cfg ((adopt pf cfg c sc m).slabs m)
  adopt-HasSlots sc m (h, le) z =
      let room = cfg.slab_size - slab_header_size in
      let some_slots = slots_of room sc.slot_size h (omega (arith, le)) in
      let inside = mul-div-le room sc.slot_size in
      subst (HasSlots cfg) (sym (adopted_slab sc m)) (record {
        left = omega (arith, z, some_slots);
        some_size = h;
        inside = omega (arith, inside, le);
      })

-- The first slot of a slab that was just adopted is one of it only for a class that fits.
pub within-Holds :
    (pf : Platform) (cfg : Config) (c : Cache pf.Disk) (sc : SlabClass) (m : ℕ)
    → (c.slabs m).nr_alloc ≡ 0
    → within cfg ((take_slot pf cfg (adopt pf cfg c sc m) sc.cid m).1.slabs m) ≡ true
    → Holds cfg sc
within-Holds pf cfg c sc m z p =
    let a = adopt pf cfg c sc m in
    let (size, inside) =
      within_parts cfg _ (ap (within cfg) (sym (taken_slab pf cfg a sc.cid m)) ∙ p) in
    let s = adopted_slab pf cfg c sc m in
    let same = ap (λ (x : Slab). x.slot_size) s in
    let one = ap (λ (x : Slab). x.nr_alloc) s ∙ z in
    (omega (arith, same, size), ground (arith, same, one, inside))

module _ (pf : Platform) (cfg : Config) (c : Cache pf.Disk) (r : Roomy cfg c)
    (apart : Apart c) where
  pub take_slot-Roomy :
      (cid m : ℕ) → 0 < count m (c.slab_partial cid) → Roomy cfg (take_slot pf cfg c cid m).1
  take_slot-Roomy cid m on =
      let h = r.partial_slots cid m on in
      record {
        free_unused = λ x free.
            unfold take_slot Slab.slot_alloc in
            ground (arith, r.free_unused x, free, on, apart.once cid m);
        partial_slots = λ j x listed. elim (Bool-cases (m == x)) [
          | inr n ↦
              let old : 0 < count x (c.slab_partial j) =
                unfold take_slot Slab.slot_alloc in
                ground (arith, listed, n, count-list_del m x (c.slab_partial cid)) in
              let same : c.slabs x ≡ (take_slot pf cfg c cid m).1.slabs x =
                unfold take_slot Slab.slot_alloc in ground (arith, n) in
              subst (HasSlots cfg) same (r.partial_slots j x old)
          | inl y ↦
              let e : m ≡ x = ground (arith, y) in
              subst (λ z. HasSlots cfg ((take_slot pf cfg c cid m).1.slabs z)) e
                (subst (HasSlots cfg) (sym (taken_slab pf cfg c cid m)) (record {
                  left =
                      unfold take_slot Slab.slot_alloc is_full in
                      ground (
                        arith,
                        listed,
                        y,
                        on,
                        h.left,
                        apart.once cid m,
                        apart.classed cid m,
                        apart.classed j m,
                        count-list_del m m (c.slab_partial cid),
                      );
                  some_size = h.some_size;
                  inside = h.inside;
                }))
        ];
      }

  pub adopt-Roomy :
      (sc : SlabClass) (m : ℕ)
      → Holds cfg sc
      → 0 < count m c.mslab_free.items
      → Roomy cfg (adopt pf cfg c sc m)
  adopt-Roomy sc m holds on =
      let z = r.free_unused m on in
      record {
        free_unused = λ x free.
            unfold adopt detach in
            ground (arith, r.free_unused x, free, count-list_del m x c.mslab_free.items);
        partial_slots = λ j x listed. elim (Bool-cases (m == x)) [
          | inl y ↦
              let e : m ≡ x = ground (arith, y) in
              subst (λ w. HasSlots cfg ((adopt pf cfg c sc m).slabs w)) e
                (adopt-HasSlots pf cfg c sc m holds z)
          | inr n ↦
              let old : 0 < count x (c.slab_partial j) =
                unfold adopt count in ground (arith, listed, n) in
              let same : c.slabs x ≡ (adopt pf cfg c sc m).slabs x =
                unfold adopt in ground (arith, n) in
              subst (HasSlots cfg) same (r.partial_slots j x old)
        ];
      }
