-- ===== src/Links/Remove.antt =====
-- `list_del` and `list_add` of include/list.h on a ring.
use kvcache.Base.{
  ℕ, ◌<◌, ◌≤◌, ◌≡◌, ◌≢◌, ◌∙◌, refl, subst, Bool-cases, List, [], ◌∷◌, arith, ◌==◌, if◌then◌else◌,
  inl, inr,
}
use kvcache.Lists.{count, count-list_del}
use kvcache.State
use kvcache.Links.{Nodes, list_add, list_del}
use kvcache.Links.Walk.{Walk, IsRing, Walk-frame}

-- What the four assignments leave.
list_add-next :
    (x h d : ℕ) (s : Nodes)
    → (list_add x h s).next d ≡ (if h == d then x else if x == d then s.next h else s.next d)
unfolding list_add
list_add-next x h d s = refl

list_add-prev :
    (x h d : ℕ) (s : Nodes)
    → x ≢ h
    → (list_add x h s).prev d ≡ (if s.next h == d then x else if x == d then h else s.prev d)
unfolding list_add
list_add-prev x h d s apart = ground arith

list_del-next :
    (x d : ℕ) (s : Nodes)
    → (list_del x s).next d ≡ (if x == d then x else if s.prev x == d then s.next x else s.next d)
unfolding list_del
list_del-next x d s = refl

list_del-prev :
    (x d : ℕ) (s : Nodes)
    → s.prev x ≢ x
    → (list_del x s).prev d ≡ (if x == d then x else if s.next x == d then s.prev x else s.prev d)
unfolding list_del
list_del-prev x d s apart = ground arith

-- On a walk the neighbours of a node are nodes of it.
prev-count :
    (s : Nodes) (a : ℕ) (xs : List ℕ) (b x : ℕ)
    → Walk s a xs b
    → 0 < count x xs
    → 0 < count (s.prev x) (a ∷ xs)
unfolding count
prev-count s a [] b x w i = absurd (omega (arith, i))
prev-count s a (y ∷ xs) b x (n, p, w) i = elim (Bool-cases (y == x)) [
  | inl z ↦ ground (arith, z, p)
  | inr z ↦ let rest = prev-count s y xs b x w (ground (arith, i, z)) in omega (arith, rest)
]

next-count :
    (s : Nodes) (a : ℕ) (xs : List ℕ) (b x : ℕ)
    → Walk s a xs b
    → 0 < count x xs
    → 0 < count (s.next x) (b ∷ xs)
unfolding count
next-count s a [] b x w i = absurd (omega (arith, i))
next-count s a (y ∷ []) b x (n, p, w) i = ground (arith, w.0, i)
next-count s a (y ∷ z ∷ xs) b x (n, p, w) i = elim (Bool-cases (y == x)) [
  | inl q ↦ ground (arith, q, w.0)
  | inr q ↦ let rest = next-count s y (z ∷ xs) b x w (ground (arith, i, q)) in omega (arith, rest)
]

head-count :
    (s : Nodes) (a : ℕ) (xs : List ℕ) (b : ℕ) → Walk s a xs b → 0 < count (s.next a) (b ∷ xs)
unfolding count
head-count s a [] b (n, p) = ground (arith, n)
head-count s a (y ∷ ys) b (n, p, w) = ground (arith, n)

prev_apart :
    (s : Nodes) (a : ℕ) (xs : List ℕ) (b x : ℕ)
    → Walk s a xs b
    → ((d : ℕ) → count d (a ∷ xs) ≤ 1)
    → 0 < count x xs
    → s.prev x ≢ x
unfolding count
prev_apart s a [] b x w once i e = absurd (omega (arith, i))
prev_apart s a (y ∷ ys) b x (n, p, w) once i e = elim (Bool-cases (y == x)) [
  | inl z ↦ absurd (ground (arith, z, p, e, once a, once x))
  | inr z ↦ prev_apart s y ys b x w (λ d. omega (arith, once d)) (ground (arith, i, z)) e
]

-- Adding a node that is not on the ring puts it first.
pub list_add-IsRing :
    (s : Nodes) (h x : ℕ) (xs : List ℕ)
    → IsRing s h xs
    → count x (h ∷ xs) ≡ 0
    → IsRing (list_add x h s) h (x ∷ xs)
unfolding count
list_add-IsRing s h x [] r away =
    let apart : x ≢ h = λ e. absurd (ground (arith, e, away)) in
    let w = r.walk in
    record {
      walk = (
        list_add-next x h h s ∙ ground arith,
        list_add-prev x h x s apart ∙ ground (arith, w.0, apart),
        (
          list_add-next x h x s ∙ ground (arith, w.0, apart),
          list_add-prev x h h s apart ∙ ground (arith, w.0, apart),
        ),
      );
      once = λ d. ground (arith, r.once d, away, apart);
    }
list_add-IsRing s h x (y ∷ ys) r away =
    let apart : x ≢ h = λ e. absurd (ground (arith, e, away)) in
    let (n, p, w) = r.walk in
    record {
      walk = (
        list_add-next x h h s ∙ ground arith,
        list_add-prev x h x s apart ∙ ground (arith, n, away),
        (
          list_add-next x h x s ∙ ground (arith, n, apart),
          list_add-prev x h y s apart ∙ ground (arith, n),
          Walk-frame s (list_add x h s) y ys h
              (λ d i. list_add-next x h d s ∙ ground (arith, i, r.once d, r.once h, away))
              (λ d i. list_add-prev x h d s apart ∙ ground (arith, i, n, r.once d, r.once y, away))
              w,
        ),
      );
      once = λ d. ground (arith, r.once d, away);
    }

-- Deleting the first node of a walk.
list_del_first :
    (s : Nodes) (a : ℕ) (ys : List ℕ) (b x : ℕ)
    → Walk s a (x ∷ ys) b
    → ((d : ℕ) → count d (a ∷ x ∷ ys) ≤ 1)
    → ((d : ℕ) → count d (b ∷ x ∷ ys) ≤ 1)
    → Walk (list_del x s) a ys b
unfolding count
list_del_first s a [] b x (n, p, w) once_a once_b =
    let apart : s.prev x ≢ x = λ e. absurd (ground (arith, e, p, once_a x)) in
    (
      list_del-next x a s ∙ ground (arith, n, p, w.0, once_a x),
      list_del-prev x b s apart ∙ ground (arith, n, p, w.0, once_b x),
    )
list_del_first s a (z ∷ zs) b x (n, p, (m, q, w)) once_a once_b =
    let apart : s.prev x ≢ x = λ e. absurd (ground (arith, e, p, once_a x)) in
    (
      list_del-next x a s ∙ ground (arith, p, m, once_a x),
      list_del-prev x z s apart ∙ ground (arith, p, m, once_b x),
      Walk-frame s (list_del x s) z zs b
          (λ d i. list_del-next x d s ∙ ground (arith, i, p, once_a d, once_a x))
          (λ d i. list_del-prev x d s apart ∙ ground (arith, i, m, once_b d, once_b z)) w,
    )

-- Deleting a node of a walk with no node twice, the first one included, nor the last one.
list_del-Walk :
    (s : Nodes) (a : ℕ) (xs : List ℕ) (b x : ℕ)
    → Walk s a xs b
    → ((d : ℕ) → count d (a ∷ xs) ≤ 1)
    → ((d : ℕ) → count d (b ∷ xs) ≤ 1)
    → 0 < count x xs
    → Walk (list_del x s) a (State.list_del x xs) b
unfolding count State.list_del
list_del-Walk s a [] b x w once_a once_b i = absurd (omega (arith, i))
list_del-Walk s a (y ∷ ys) b x (n, p, w) once_a once_b i = elim (Bool-cases (y == x)) [
  | inl z ↦
      let at : y ≡ x = ground (arith, z) in
      rw z (
        list_del_first s a ys b x (subst (λ v. Walk s a (v ∷ ys) b) at (n, p, w))
          (λ d. ground (arith, once_a d, at)) (λ d. ground (arith, once_b d, at)))
  | inr z ↦
      let i' : 0 < count x ys = ground (arith, i, z) in
      let before = prev-count s y ys b x w i' in
      let after = next-count s y ys b x w i' in
      rw z (
        list_del-next x a s ∙ ground (arith, n, once_a a, once_a (s.prev x), before, i'),
        list_del-prev x y s (prev_apart s y ys b x w (λ d. omega (arith, once_a d)) i')
            ∙ ground (arith, p, once_b y, once_b (s.next x), after, i'),
        list_del-Walk s y ys b x w (λ d. omega (arith, once_a d)) (λ d. ground (arith, once_b d))
            i',
      )
]

-- Deleting a node of a ring leaves the ring without it.
pub list_del-IsRing :
    (s : Nodes) (h x : ℕ) (xs : List ℕ)
    → IsRing s h xs
    → 0 < count x xs
    → IsRing (list_del x s) h (State.list_del x xs)
unfolding count
list_del-IsRing s h x xs r i = record {
  walk = list_del-Walk s h xs h x r.walk r.once r.once i;
  once = λ d. ground (arith, r.once d, count-list_del x d xs);
}

-- What the two operations leave as it was.
pub list_add-other :
    (s : Nodes) (h x : ℕ) (xs : List ℕ) (d : ℕ)
    → IsRing s h xs
    → count x (h ∷ xs) ≡ 0
    → count d (h ∷ xs) ≡ 0
    → x ≢ d
    → ((list_add x h s).next d ≡ s.next d) × ((list_add x h s).prev d ≡ s.prev d)
unfolding count
list_add-other s h x xs d r away out differ =
    let apart : x ≢ h = λ e. absurd (ground (arith, e, away)) in
    (
      list_add-next x h d s ∙ ground (arith, out, differ),
      list_add-prev x h d s apart ∙ ground (arith, head-count s h xs h r.walk, out, differ),
    )

pub list_del-other :
    (s : Nodes) (h x : ℕ) (xs : List ℕ) (d : ℕ)
    → IsRing s h xs
    → 0 < count x xs
    → count d (h ∷ xs) ≡ 0
    → ((list_del x s).next d ≡ s.next d) × ((list_del x s).prev d ≡ s.prev d)
unfolding count
list_del-other s h x xs d r i out =
    let before = prev-count s h xs h x r.walk i in
    let after = next-count s h xs h x r.walk i in
    (
      list_del-next x d s ∙ ground (arith, before, out, i),
      list_del-prev x d s (prev_apart s h xs h x r.walk r.once i) ∙ ground (arith, after, out, i),
    )
