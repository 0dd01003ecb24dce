-- ===== src/Links.antt =====
-- The intrusive doubly linked lists of include/list.h, as nodes in memory: a node is the address of a `list_head`.
pub mod Walk
pub mod Remove
pub mod Heads
use kvcache.Base.{
  ℕ, zero, suc, ◌≡◌, List, [], ◌∷◌, Option, none, some, ◌==◌, if◌then◌else◌, update, Bool,
}
use mathlib.Core.Option.{map}

-- The fields of every `list_head`.
pub record Nodes : Type 0 where
  pub next : ℕ → ℕ
  pub prev : ℕ → ℕ

abbrev pub set_next : ℕ → ℕ → Nodes → Nodes
set_next a b s = record s { next = update s.next a b }

abbrev pub set_prev : ℕ → ℕ → Nodes → Nodes
set_prev a b s = record s { prev = update s.prev a b }

unfoldable pub init_list_head : ℕ → Nodes → Nodes
init_list_head list s = set_prev list list (set_next list list s)

unfoldable pub list_empty : ℕ → Nodes → Bool
list_empty head s = s.next head == head

-- The node of the first entry; the head itself where the list is empty.
unfoldable pub list_first : ℕ → Nodes → ℕ
list_first head s = s.next head

unfoldable pub list_add : ℕ → ℕ → Nodes → Nodes
list_add newh head s =
    let s₁ = set_next newh (s.next head) s in
    let s₂ = set_prev newh head s₁ in
    let s₃ = set_prev (s₂.next head) newh s₂ in set_next head newh s₃

unfoldable pub list_del : ℕ → Nodes → Nodes
list_del entry s =
    let s₁ = set_next (s.prev entry) (s.next entry) s in
    let s₂ = set_prev (s₁.next entry) (s₁.prev entry) s₁ in
    set_next entry entry (set_prev entry entry s₂)

-- `list_for_each` from `pos` on: the nodes that the body sees, in order; `none` where the rounds do not
-- suffice.
unfoldable pub list_for_each : ℕ → ℕ → ℕ → Nodes → Option (List ℕ)
list_for_each zero head pos s = none
list_for_each (suc rounds) head pos s =
    let rest = list_for_each rounds head (s.next pos) s in
    if pos == head then some [] else map (λ (xs : List ℕ). pos ∷ xs) rest
