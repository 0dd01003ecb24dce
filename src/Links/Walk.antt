-- ===== src/Links/Walk.antt =====
-- What a ring of nodes spells (include/list.h).
use kvcache.Base.{ℕ, zero, suc, ◌<◌, ◌≤◌, ◌≡◌, ◌∙◌, List, [], ◌∷◌, some, arith, length}
use kvcache.Lists.{count}
use kvcache.Links.{Nodes, list_for_each}

-- From `a` the links lead through `xs` to `b`, and back.
abbrev pub Walk : Nodes → ℕ → List ℕ → ℕ → Type 0
Walk s a [] b = (s.next a ≡ b) × (s.prev b ≡ a)
Walk s a (x ∷ xs) b = (s.next a ≡ x) × (s.prev x ≡ a) × Walk s x xs b

-- The ring of the head `h` spells `xs`, with no node twice.
pub record IsRing (s : Nodes) (h : ℕ) (xs : List ℕ) : Type 0 where
  pub walk : Walk s h xs h
  pub once : (d : ℕ) → count d (h ∷ xs) ≤ 1

-- A walk depends on the `next` of its nodes but the last, and on the `prev` of its nodes but the first.
pub Walk-frame :
    (s s' : Nodes) (a : ℕ) (xs : List ℕ) (b : ℕ)
    → ((d : ℕ) → 0 < count d (a ∷ xs) → s'.next d ≡ s.next d)
    → ((d : ℕ) → 0 < count d (b ∷ xs) → s'.prev d ≡ s.prev d)
    → Walk s a xs b
    → Walk s' a xs b
unfolding count
Walk-frame s s' a [] b fn fp (n, p) = (fn a (ground arith) ∙ n, fp b (ground arith) ∙ p)
Walk-frame s s' a (x ∷ xs) b fn fp (n, p, w) = (
  fn a (ground arith) ∙ n,
  fp x (ground arith) ∙ p,
  Walk-frame s s' x xs b (λ d h. fn d (omega (arith, h))) (λ d h. fp d (omega (arith, h))) w,
)

-- The nodes that `list_for_each` visits, within one round more than there are nodes.
pub Walk-list_for_each :
    (s : Nodes) (a : ℕ) (xs : List ℕ) (h rounds : ℕ)
    → Walk s a xs h
    → count h xs ≡ 0
    → length xs < rounds
    → list_for_each rounds h (s.next a) s ≡ some xs
unfolding list_for_each count
Walk-list_for_each s a [] h zero (n, p) away enough = absurd (omega (arith, enough))
Walk-list_for_each s a (x ∷ xs) h zero w away enough = absurd (omega (arith, enough))
Walk-list_for_each s a [] h (suc rounds) (n, p) away enough = rw n (ground arith)
Walk-list_for_each s a (x ∷ xs) h (suc rounds) (n, p, w) away enough =
    let rest = Walk-list_for_each s x xs h rounds w (omega (arith, away)) (omega (arith, enough)) in
    rw n (rw rest (ground (arith, away)))
