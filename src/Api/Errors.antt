-- ===== src/Api/Errors.antt =====
-- The operations where they do not succeed, and the two forms of `Get`.
use kvcache.Base.{
  ℕ, suc, ◌+◌, ◌<◌, ◌≤◌, ◌≡◌, refl, Bytes, List, ◌∷◌, none, some, arith, ltb, if◌then◌else◌, length,
}
use kvcache.Status.{ok_status, is_ok, object_too_large_status, buffer_too_small_status}
use kvcache.Slot.{slot_header_size}
use kvcache.SizeClass.{slot_size, get_slab_class, last_slot_size, max_kv_size}
use kvcache.SizeClass.Fits.{IsSortedFrom, max_kv_size-exact}
use kvcache.State.{Platform, Config, Cache, SlabClass, done, ◌>>=◌}
use kvcache.Api.{get_slice, get, get_into, slot_alloc, put}

module _ (pf : Platform) (cfg : Config) where
  open pf use {Disk}

  slot_alloc_refuses :
      (gc_fuel flush_fuel fuel : ℕ) (c : Cache Disk) (size : ℕ)
      → get_slab_class cfg.slab_class_table size ≡ none
      → slot_alloc pf cfg gc_fuel flush_fuel (suc fuel) c size
        ≡ done ((object_too_large_status "Object is too large", none), c)
  unfolding slot_alloc
  slot_alloc_refuses gc_fuel flush_fuel fuel c size p = rw (p, slot_alloc) refl

  -- On a sorted table whose largest slot has room for a slot header, `Put` of a key and value that are
  -- together longer than `MaxKVSize` returns `ObjectTooLarge` and changes nothing.
  pub put-too_large :
      (gc_fuel flush_fuel fuel : ℕ) (c : Cache Disk) (k v : Bytes) (x : SlabClass)
      (xs : List SlabClass)
      → cfg.slab_class_table ≡ x ∷ xs
      → IsSortedFrom 0 (x ∷ xs)
      → slot_header_size ≤ last_slot_size (x ∷ xs)
      → max_kv_size (x ∷ xs) < length k + length v
      → put pf cfg gc_fuel flush_fuel (suc fuel) c k v
        ≡ done (object_too_large_status "Object is too large", c)
  unfolding put
  put-too_large gc_fuel flush_fuel fuel c k v x xs table sorted roomy long =
      rw
        (slot_alloc_refuses gc_fuel flush_fuel fuel c (slot_size k v)
          (rw table ((max_kv_size-exact x xs k v sorted roomy).1 long)))
        refl

  -- The form of `Get` with a buffer agrees with the form with a string on every key: it fails as that
  -- fails, gives the same value where the buffer is long enough, and says so where it is not.
  pub get_into-get :
      (c : Cache Disk) (k old : Bytes) (buffer_len : ℕ)
      → get_into pf cfg c k buffer_len ≡ (
          get pf cfg c k old >>= λ r.
          if is_ok r.0
          then done (
              if ltb buffer_len (length r.1)
              then (buffer_too_small_status "Buffer is too small", none)
              else (ok_status, some r.1))
          else done (r.0, none))
  unfolding get get_into get_slice is_ok
  get_into-get c k old buffer_len = ground arith
