-- ===== src/Gc/Quick/Full.antt =====
-- How many full disk slabs the lists of src/kvcache.cpp hold.
use kvcache.Base.{
  ℕ, zero, suc, ◌+◌, ◌<◌, ◌≤◌, ◌≡◌, ◌≢◌, refl, ap, subst, List, [], ◌∷◌, none, arith, length, ◌==◌,
  update, Bool-cases, inl, inr,
}
use kvcache.State.{Ring, detach, list_del, first_entry}
use kvcache.Base.{some}

-- How many disk slabs the first `n` channels list.
unfoldable pub full_slabs : (ℕ → Ring) → ℕ → ℕ
full_slabs lists zero = 0
full_slabs lists (suc n) = length (lists n).items + full_slabs lists n

first_entry_cons :
    (d : ℕ) (xs : List ℕ) → first_entry xs ≡ some d → length (list_del d xs) + 1 ≡ length xs
unfolding first_entry list_del
first_entry_cons d [] h = absurd (cc)
first_entry_cons d (x ∷ xs) h = ground (arith, h)

full_slabs_apart :
    (lists : ℕ → Ring) (channel n : ℕ) (r : Ring)
    → n ≤ channel
    → full_slabs (update lists channel r) n ≡ full_slabs lists n
unfolding full_slabs
full_slabs_apart lists channel zero r h = refl
full_slabs_apart lists channel (suc n) r h =
    ground (arith, full_slabs_apart lists channel n r (omega (arith, h)), h)

-- A slab that leaves a list leaves one less.
pub full_slabs-detach :
    (lists : ℕ → Ring) (channel n d : ℕ)
    → channel < n
    → first_entry (lists channel).items ≡ some d
    → full_slabs (update lists channel (detach d (lists channel))) n + 1 ≡ full_slabs lists n
unfolding full_slabs detach
full_slabs-detach lists channel zero d h e = absurd (omega (arith, h))
full_slabs-detach lists channel (suc n) d h e = elim (Bool-cases (channel == n)) [
  | inl y ↦
      let at : channel ≡ n = ground (arith, y) in
      let less = first_entry_cons d (lists channel).items e in
      let rest = full_slabs_apart lists channel n (detach d (lists channel)) (omega (arith, at)) in
      let less' : length (list_del d (lists n).items) + 1 ≡ length (lists n).items =
        subst (λ x. length (list_del d (lists x).items) + 1 ≡ length (lists x).items) at less in
      let gone : (update lists channel (detach d (lists channel)) n).items
          ≡ list_del d (lists n).items =
        rw y (ap (λ x. list_del d (lists x).items) at) in
      rw (gone, rest) (omega (arith, less'))
  | inr m ↦
      let rest = full_slabs-detach lists channel n d (ground (arith, h, m)) e in
      rw m (omega (arith, rest))
]

some_entry : (xs : List ℕ) → length xs ≢ 0 → first_entry xs ≢ none
unfolding first_entry
some_entry [] h = λ e. h refl
some_entry (x ∷ xs) h = λ e. absurd (cc e)

-- Where a slab is listed, a channel has a first one.
pub full_slabs_first :
    (lists : ℕ → Ring) (n : ℕ)
    → 0 < full_slabs lists n
    → (channel : ℕ) × (channel < n) × (first_entry (lists channel).items ≢ none)
unfolding full_slabs first_entry
full_slabs_first lists zero h = absurd (omega (arith, h))
full_slabs_first lists (suc n) h = elim (Bool-cases (length (lists n).items == 0)) [
  | inl y ↦
      let (channel, below, some_entry) = full_slabs_first lists n (ground (arith, h, y)) in
      (channel, omega (arith, below), some_entry)
  | inr m ↦ (n, omega arith, some_entry (lists n).items (ground (arith, m)))
]
