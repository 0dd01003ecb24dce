-- ===== src/Links/Heads.antt =====
-- Several lists over one memory: each head with the list that its ring spells (include/list.h).
use kvcache.Base.{
  ℕ, ◌+◌, ◌<◌, ◌≤◌, ◌≡◌, ◌≢◌, refl, subst, Bool-cases, false, List, [], ◌∷◌, none, some, arith,
  length, ◌==◌, if◌then◌else◌, inl, inr, update,
}
use kvcache.Lists.{count, count-list_del}
use kvcache.State
use kvcache.Links.{Nodes, list_add, list_del, list_for_each, list_first, list_empty, init_list_head}
use kvcache.Links.Walk.{Walk, IsRing, Walk-frame, Walk-list_for_each}
use kvcache.Links.Remove.{list_add-IsRing, list_del-IsRing, list_add-other, list_del-other}

-- Each of `heads` is the head of a ring that spells its list, and no node is on two of them.
pub record Spells (s : Nodes) (heads : List ℕ) (lists : ℕ → List ℕ) : Type 0 where
  pub ring : (h : ℕ) → 0 < count h heads → IsRing s h (lists h)
  pub apart :
      (g h d : ℕ)
      → 0 < count g heads
      → 0 < count h heads
      → g ≢ h
      → count d (g ∷ lists g) + count d (h ∷ lists h) ≤ 1

IsRing-frame :
    (s s' : Nodes) (g : ℕ) (ys : List ℕ)
    → ((d : ℕ) → 0 < count d (g ∷ ys) → (s'.next d ≡ s.next d) × (s'.prev d ≡ s.prev d))
    → IsRing s g ys
    → IsRing s' g ys
IsRing-frame s s' g ys same r = record {
  walk = Walk-frame s s' g ys g (λ d i. (same d i).0) (λ d i. (same d i).1) r.walk;
  once = r.once;
}

-- One ring changes, with what it has of the nodes, and the other rings do not.
change-Spells :
    (s s' : Nodes) (heads : List ℕ) (lists : ℕ → List ℕ) (h : ℕ) (xs : List ℕ)
    → Spells s heads lists
    → IsRing s' h xs
    → ((g : ℕ)
        → 0 < count g heads
        → g ≢ h
        → (d : ℕ) → 0 < count d (g ∷ lists g)
        → (s'.next d ≡ s.next d) × (s'.prev d ≡ s.prev d))
    → ((g d : ℕ) → 0 < count g heads → g ≢ h → count d (g ∷ lists g) + count d (h ∷ xs) ≤ 1)
    → Spells s' heads (update lists h xs)
change-Spells s s' heads lists h xs sp new same free = record {
  ring = λ g i. elim (Bool-cases (h == g)) [
    | inl y ↦ rw y (subst (λ q. IsRing s' q xs) (ground (arith, y)) new)
    | inr n ↦ rw n (IsRing-frame s s' g (lists g) (same g i (ground (arith, n))) (sp.ring g i))
  ];
  apart = λ g k d i j differ. elim (Bool-cases (h == g)) [
    | inl y ↦
        let at : h ≡ g = ground (arith, y) in
        let other : (h == k) ≡ false = ground (arith, at, differ) in
        let fact = free k d j (λ e. differ (cc (at, e))) in
        rw (y, other)
          (subst (λ q. count d (q ∷ xs) + count d (k ∷ lists k) ≤ 1) at (omega (arith, fact)))
    | inr n ↦ elim (Bool-cases (h == k)) [
      | inl y ↦
          let at : h ≡ k = ground (arith, y) in
          rw (n, y)
            (subst (λ q. count d (g ∷ lists g) + count d (q ∷ xs) ≤ 1) at
              (free g d i (ground (arith, n))))
      | inr m ↦ rw (n, m) (sp.apart g k d i j differ)
    ]
  ];
}

-- `list_add` of a node that is on no ring puts it in front of the list of the head, and leaves every
-- other list.
pub list_add-Spells :
    (s : Nodes) (heads : List ℕ) (lists : ℕ → List ℕ) (h x : ℕ)
    → Spells s heads lists
    → 0 < count h heads
    → ((g : ℕ) → 0 < count g heads → count x (g ∷ lists g) ≡ 0)
    → Spells (list_add x h s) heads (update lists h (x ∷ lists h))
unfolding count
list_add-Spells s heads lists h x sp known away =
    let new = list_add-IsRing s h x (lists h) (sp.ring h known) (away h known) in
    change-Spells s (list_add x h s) heads lists h (x ∷ lists h) sp new
      (λ g i differ d j.
        list_add-other s h x (lists h) d (sp.ring h known) (away h known)
          (omega (arith, j, sp.apart g h d i known differ))
          (λ e. absurd (ground (arith, away g i, e, j))))
      (λ g d i differ. ground (arith, away g i, away h known, sp.apart g h d i known differ))

-- `list_del` of a node takes it out of its list, and leaves every other list; the node is linked to itself.
pub list_del-Spells :
    (s : Nodes) (heads : List ℕ) (lists : ℕ → List ℕ) (h x : ℕ)
    → Spells s heads lists
    → 0 < count h heads
    → 0 < count x (lists h)
    → Spells (list_del x s) heads (update lists h (State.list_del x (lists h)))
unfolding count
list_del-Spells s heads lists h x sp known i =
    change-Spells s (list_del x s) heads lists h (State.list_del x (lists h)) sp
      (list_del-IsRing s h x (lists h) (sp.ring h known) i)
      (λ g k differ d j.
        list_del-other s h x (lists h) d (sp.ring h known) i
          (omega (arith, j, sp.apart g h d k known differ)))
      (λ g d k differ. ground (arith, count-list_del x d (lists h), sp.apart g h d k known differ))

init-IsRing : (s : Nodes) (h : ℕ) → IsRing (init_list_head h s) h []
unfolding init_list_head count
init-IsRing s h = record { walk = (ground arith, ground arith); once = λ d. ground arith }

-- Initialising a node that is on no ring makes it the head of an empty list beside the others.
pub init_list_head-Spells :
    (s : Nodes) (heads : List ℕ) (lists : ℕ → List ℕ) (h : ℕ)
    → Spells s heads lists
    → ((g : ℕ) → 0 < count g heads → count h (g ∷ lists g) ≡ 0)
    → Spells (init_list_head h s) (h ∷ heads) (update lists h [])
unfolding init_list_head count
init_list_head-Spells s heads lists h sp away = record {
  ring = λ g i. elim (Bool-cases (h == g)) [
    | inl y ↦
        rw y (subst (λ q. IsRing (init_list_head h s) q []) (ground (arith, y)) (init-IsRing s h))
    | inr n ↦
        let i' : 0 < count g heads = ground (arith, i, n) in
        rw n (
          IsRing-frame s (init_list_head h s) g (lists g)
            (λ d j.
              let differ : (h == d) ≡ false = ground (arith, away g i', j) in
              (rw differ refl, rw differ refl))
            (sp.ring g i'))
  ];
  apart = λ g k d i j differ. elim (Bool-cases (h == g)) [
    | inl y ↦
        let at : h ≡ g = ground (arith, y) in
        let other : (h == k) ≡ false = ground (arith, at, differ) in
        let fact = beside k d (ground (arith, j, other)) in
        rw (y, other) (subst (λ q. count d (q ∷ []) + count d (k ∷ lists k) ≤ 1) at fact)
    | inr n ↦ elim (Bool-cases (h == k)) [
      | inl y ↦
          let at : h ≡ k = ground (arith, y) in
          let fact = beside g d (ground (arith, i, n)) in
          rw (n, y)
            (subst (λ q. count d (g ∷ lists g) + count d (q ∷ []) ≤ 1) at (omega (arith, fact)))
      | inr m ↦ rw (n, m) (sp.apart g k d (ground (arith, i, n)) (ground (arith, j, m)) differ)
    ]
  ];
}
  where
    beside : (k d : ℕ) → 0 < count k heads → count d (h ∷ []) + count d (k ∷ lists k) ≤ 1
    beside k d i = elim (Bool-cases (h == d)) [
      | inl y ↦
          let at : h ≡ d = ground (arith, y) in
          ground (arith, subst (λ q. count q (k ∷ lists k) ≡ 0) at (away k i), y)
      | inr n ↦ ground (arith, (sp.ring k i).once d, n)
    ]

-- With a round more than the list has elements, `list_for_each` ends, after the elements of the list in
-- their order; `list_empty` holds on the empty list only, and on any other the first entry is its first
-- element.
pub list_for_each-Spells :
    (s : Nodes) (heads : List ℕ) (lists : ℕ → List ℕ) (h rounds : ℕ)
    → Spells s heads lists
    → 0 < count h heads
    → length (lists h) < rounds
    → (list_for_each rounds h (list_first h s) s ≡ some (lists h))
      × ((if list_empty h s then none else some (list_first h s)) ≡ State.first_entry (lists h))
unfolding list_first list_empty State.first_entry count
list_for_each-Spells s heads lists h rounds sp known enough =
    let r = sp.ring h known in
    let away : count h (lists h) ≡ 0 = ground (arith, r.once h) in
    (Walk-list_for_each s h (lists h) h rounds r.walk away enough, first (lists h) r.walk away)
  where
    first :
        (xs : List ℕ)
        → Walk s h xs h
        → count h xs ≡ 0
        → (if s.next h == h then none else some (s.next h)) ≡ State.first_entry xs
    first [] w out = rw (w.0) (ground arith)
    first (x ∷ xs) w out = rw (w.0) (ground (arith, out))

-- Taking a node off its list and putting it in front of another list moves it there, and leaves the rest.
pub list_add-list_del :
    (s : Nodes) (heads : List ℕ) (lists : ℕ → List ℕ) (g h x : ℕ)
    → Spells s heads lists
    → 0 < count g heads
    → 0 < count h heads
    → 0 < count x (lists g)
    → g ≢ h
    → Spells
        (list_add x h (list_del x s))
        heads
        (update (update lists g (State.list_del x (lists g))) h (x ∷ lists h))
unfolding count
list_add-list_del s heads lists g h x sp known_g known_h i differ =
    let other : (g == h) ≡ false = ground (arith, differ) in
    let removed = list_del-Spells s heads lists g x sp known_g i in
    let added =
      list_add-Spells (list_del x s) heads (update lists g (State.list_del x (lists g))) h x removed
        known_h gone in
    subst
      (λ (ys : List ℕ).
        Spells (list_add x h (list_del x s)) heads
          (update (update lists g (State.list_del x (lists g))) h (x ∷ ys)))
      (rw other refl) added
  where
    gone :
        (k : ℕ)
        → 0 < count k heads
        → count x (k ∷ update lists g (State.list_del x (lists g)) k) ≡ 0
    gone k known = elim (Bool-cases (g == k)) [
      | inl y ↦
          let at : g ≡ k = ground (arith, y) in
          rw y (ground (arith, count-list_del x x (lists g), (sp.ring g known_g).once x, i, at))
      | inr n ↦ rw n (ground (arith, sp.apart g k x known_g known (ground (arith, n)), i))
    ]
