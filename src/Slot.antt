-- ===== src/Slot.antt =====
-- `struct Slot` of include/kvcache.h: two lengths and the bytes behind them. The lengths are `int`s;
-- a slot is written only where key and value fit a slot size, which is an `int` too.
use kvcache.Base.{ℕ, ◌+◌, ◌≡◌, refl, ap, Bytes, [], ◌∷◌, ◌++◌, length, take, drop}

pub record Slot : Type 0 where
  pub key_len : ℕ
  pub value_len : ℕ
  pub bytes : Bytes

-- `offsetof(Slot, data)`: two `int`s.
abbrev pub slot_header_size : ℕ
slot_header_size = 8

-- `memcpy` to the start of a block leaves what lies behind as it was.
unfoldable pub write : Slot → Bytes → Bytes → Slot
write s k v = record {
  key_len = length k;
  value_len = length v;
  bytes = k ++ (v ++ drop (length k + length v) s.bytes);
}

unfoldable pub key : Slot → Bytes
key s = take s.key_len s.bytes

unfoldable pub value : Slot → Bytes
value s = take s.value_len (drop s.key_len s.bytes)

take-length-append : (xs ys : Bytes) → take (length xs) (xs ++ ys) ≡ xs
take-length-append [] ys = refl
take-length-append (x ∷ xs) ys = ap (λ l. x ∷ l) (take-length-append xs ys)

drop-length-append : (xs ys : Bytes) → drop (length xs) (xs ++ ys) ≡ ys
drop-length-append [] ys = refl
drop-length-append (x ∷ xs) ys = drop-length-append xs ys

-- What `Write` wrote, `key` and `value` read, whatever the slot held before.
pub read-write : (s : Slot) (k v : Bytes) → (key (write s k v) ≡ k) × (value (write s k v) ≡ v)
unfolding key value write
read-write s k v = (
  take-length-append k _,
  rw (drop-length-append k (v ++ drop (length k + length v) s.bytes)) (take-length-append v _),
)
