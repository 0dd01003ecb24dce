-- ===== src/Tests/Calls.antt =====
-- The C interface, the options and the lists of nodes, at inputs that meet the hypotheses of their theorems.
use Prim.Native.String.{String}
use kvcache.Base.{
  ℕ, ◌+◌, ◌≤◌, ◌<◌, ◌≡◌, ◌≢◌, ◌⊎◌, ◌↔◌, refl, true, Bytes, List, [], ◌∷◌, none, some, arith, length,
  ◌==◌, if◌then◌else◌, update, inl, inr, Bool-cases,
}
use kvcache.Base.Int.{pos, pos_part}
use kvcache.Index.{get_index_entry, find_entry, empty_index}
use kvcache.Status.{ok_status, is_ok}
use kvcache.State.{Cache, done}
use kvcache.State
use kvcache.Lists.{count}
use kvcache.Api.{get_slice, get_into}
use kvcache.Api.Running.{Running}
use kvcache.CApi.{refusal, kvcache_get, kvcache_put, answer, catching}
use kvcache.CApi.{
  kvcache_options_set_slab_mem_budget, kvcache_options_set_index_mem_budget,
  kvcache_options_set_index_table_size,
}
use kvcache.Base.{if◌then◌else◌}
use kvcache.Base.Int.{negsuc}
use kvcache.CApi.Calls.{setters_exact, kvcache_get-kvcache_put, kvcache_get-replies, Fails}
use kvcache.Options.{Floats, Options, default_options, water_marks}
use kvcache.Options.Marks.{water_marks-ordered}
use kvcache.Links.{Nodes, init_list_head, list_add, list_del, list_for_each, list_first, list_empty}
use kvcache.Links.Heads.{
  Spells, list_add-Spells, list_del-Spells, init_list_head-Spells, list_for_each-Spells,
  list_add-list_del,
}
use kvcache.Tests.Example.{memory_disk, small, fresh, held_key, fresh-Running}
use kvcache.Tests.Traces.{after_put, put_returns, big_value}

-- Every product is the number of blocks.
abbrev whole : Floats
whole = record { Float = Unit; literal = λ _. tt; int_product = λ _ n. pos n }

-- A budget of 2 GiB.
abbrev two_gib : ℕ
two_gib = 2147483648

abbrev plain : Options whole
plain = default_options whole 4096

setters_exact_example :
    ((kvcache_options_set_slab_mem_budget whole plain two_gib
        ≡ record plain { slab_mem_budget = pos two_gib })
      ↔ (two_gib < 2147483648))
    × ((kvcache_options_set_index_mem_budget whole plain two_gib
          ≡ record plain { index_mem_budget = pos two_gib })
        ↔ (two_gib < 2147483648))
    × ((kvcache_options_set_index_table_size whole plain two_gib
          ≡ record plain { index_table_size = pos two_gib })
        ↔ (two_gib < 2147483648))
setters_exact_example = setters_exact whole plain two_gib

kvcache_get-kvcache_put_example :
    (c' : Cache memory_disk.Disk) × (some after_put ≡ some c')
    × Running memory_disk small c'
    × (kvcache_get memory_disk small c' held_key 64 true "what"
        ≡ done (record { code = pos 0; error = none; value = some big_value }))
unfolding kvcache_put answer is_ok catching
kvcache_get-kvcache_put_example =
    kvcache_get-kvcache_put memory_disk small 0 0 2 64 fresh (some after_put) held_key big_value
      true "what" (record { code = pos 0; error = none; value = none }) fresh-Running
      (rw put_returns refl) refl (omega arith)

kvcache_get-replies_example :
    ((v : Bytes) × (get_slice memory_disk small fresh held_key ≡ done (ok_status, some v))
      × (length v ≤ 64)
      × (refusal true "Key not found" ≡ record { code = pos 0; error = none; value = some v }))
    ⊎ ((msg : String) × Fails memory_disk small fresh held_key 64 "what" msg
        × (refusal true "Key not found"
            ≡ record { code = negsuc 0; error = if true then some msg else none; value = none }))
unfolding kvcache_get answer is_ok catching get_into get_slice refusal get_index_entry find_entry
    empty_index
kvcache_get-replies_example =
    kvcache_get-replies memory_disk small fresh held_key 64 true "what"
      (refusal true "Key not found") refl

water_marks-ordered_example :
    (1 ≤ (water_marks whole (default_options whole 4096) 100).low_min)
    × ((water_marks whole (default_options whole 4096) 100).low_min + 10
        ≤ (water_marks whole (default_options whole 4096) 100).high_max)
    × ((water_marks whole (default_options whole 4096) 100).low_min
        ≤ (water_marks whole (default_options whole 4096) 100).low)
    × (pos_part (water_marks whole (default_options whole 4096) 100).high
        ≤ (water_marks whole (default_options whole 4096) 100).high_max)
water_marks-ordered_example = water_marks-ordered whole (default_options whole 4096) 100

-- Two heads, 1 with the nodes 5 and 3 and 2 with none.
abbrev wild : Nodes
wild = record { next = λ _. 0; prev = λ _. 0 }

abbrev nothing : ℕ → List ℕ
nothing _ = []

wild-Spells : Spells wild [] nothing
unfolding count
wild-Spells = record {
  ring = λ h i. absurd (omega (arith, i));
  apart = λ g h d i j n. absurd (omega (arith, i));
}

abbrev lists_0 : ℕ → List ℕ
lists_0 = update (update nothing 2 []) 1 []

away : (g : ℕ) → 0 < count g (2 ∷ []) → count 1 (g ∷ update nothing 2 [] g) ≡ 0
unfolding count
away g i = elim (Bool-cases (2 == g)) [
  | inl y ↦ ground (arith, y)
  | inr n ↦ absurd (ground (arith, i, n))
]

nodes_0-Spells : Spells (init_list_head 1 (init_list_head 2 wild)) (1 ∷ 2 ∷ []) lists_0
nodes_0-Spells =
    init_list_head-Spells (init_list_head 2 wild) (2 ∷ []) (update nothing 2 []) 1
      (init_list_head-Spells wild [] nothing 2 wild-Spells
        (unfold count in λ g i. absurd (omega (arith, i))))
      away

abbrev nodes_0 : Nodes
nodes_0 = init_list_head 1 (init_list_head 2 wild)

free_node : (x g : ℕ) → x ≢ 1 → x ≢ 2 → 0 < count g (1 ∷ 2 ∷ []) → count x (g ∷ lists_0 g) ≡ 0
unfolding count
free_node x g n₁ n₂ i = ground (arith, n₁, n₂, i)

list_add-Spells_example : Spells (list_add 3 1 nodes_0) (1 ∷ 2 ∷ []) (update lists_0 1 (3 ∷ []))
unfolding count
list_add-Spells_example =
    list_add-Spells nodes_0 (1 ∷ 2 ∷ []) lists_0 1 3 nodes_0-Spells (omega arith)
      (λ g i. free_node 3 g (λ e. absurd (omega (arith, e))) (λ e. absurd (omega (arith, e))) i)

abbrev lists_1 : ℕ → List ℕ
lists_1 = update lists_0 1 (3 ∷ [])

nodes_1-Spells : Spells (list_add 3 1 nodes_0) (1 ∷ 2 ∷ []) lists_1
unfolding count
nodes_1-Spells =
    list_add-Spells nodes_0 (1 ∷ 2 ∷ []) lists_0 1 3 nodes_0-Spells (omega arith)
      (λ g i. free_node 3 g (λ e. absurd (omega (arith, e))) (λ e. absurd (omega (arith, e))) i)

list_del-Spells_example :
    Spells
      (list_del 3 (list_add 3 1 nodes_0))
      (1 ∷ 2 ∷ [])
      (update lists_1 1 (State.list_del 3 (3 ∷ [])))
unfolding count
list_del-Spells_example =
    list_del-Spells (list_add 3 1 nodes_0) (1 ∷ 2 ∷ []) lists_1 1 3 nodes_1-Spells (omega arith)
      (omega arith)

list_add-list_del_example :
    Spells
      (list_add 3 2 (list_del 3 (list_add 3 1 nodes_0)))
      (1 ∷ 2 ∷ [])
      (update (update lists_1 1 (State.list_del 3 (3 ∷ []))) 2 (3 ∷ []))
unfolding count
list_add-list_del_example =
    list_add-list_del (list_add 3 1 nodes_0) (1 ∷ 2 ∷ []) lists_1 1 2 3 nodes_1-Spells (omega arith)
      (omega arith) (omega arith) (λ e. absurd (omega (arith, e)))

list_for_each-Spells_example :
    (list_for_each 2 1 (list_first 1 (list_add 3 1 nodes_0)) (list_add 3 1 nodes_0) ≡ some (3 ∷ []))
    × ((if list_empty 1 (list_add 3 1 nodes_0)
          then none
          else some (list_first 1 (list_add 3 1 nodes_0)))
        ≡ State.first_entry (3 ∷ []))
unfolding count
list_for_each-Spells_example =
    list_for_each-Spells (list_add 3 1 nodes_0) (1 ∷ 2 ∷ []) lists_1 1 2 nodes_1-Spells
      (omega arith) (omega arith)
