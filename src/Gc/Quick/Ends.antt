-- ===== src/Gc/Quick/Ends.antt =====
-- `do_quick_gc` (src/kvcache.cpp) ends where enough disk slabs are full.
use kvcache.Base.{◌≡◌, ◌⊎◌}
use kvcache.State.{Platform, Config, Outcome, done}
use kvcache.Slab.{Slab}
use kvcache.State.{throws}

module _ (pf : Platform) (cfg : Config) where
  open pf use {Disk}

  -- A call that returns or throws.
  abbrev pub Ends {ℓ} : {A : Type ℓ} → Outcome A → Type ℓ
  Ends {A = A} m = ((a : A) × (m ≡ done a)) ⊎ (m ≡ throws)
