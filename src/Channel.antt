-- ===== src/Channel.antt =====
-- The search for a channel whose list is not empty, from where the last search stopped: the
-- `do … while` of `do_slab_flush` (free disk slabs) and of `gc_dslabs` (over-provisioned slabs).
pub mod Search
use kvcache.Base.{ℕ, zero, suc, ◌+◌, ◌%◌, Bool, true, false, Option, none, some, ◌==◌}
use kvcache.State.{Config, next_channel}

-- With the rounds granted, the channel the search starts from, and the next one. The second result
-- is where the next search starts.
unfoldable pub scan_channels : Config → ℕ → (ℕ → Bool) → ℕ → ℕ → Option ℕ × ℕ
scan_channels cfg zero nonempty beginning channel = (none, channel)
scan_channels cfg (suc rounds) nonempty beginning channel =
    let following = next_channel cfg channel in
    elim (nonempty channel) [
      | true ↦ (some channel, following)
      | false ↦ elim (following == beginning) [
        | true ↦ (none, following)
        | false ↦ scan_channels cfg rounds nonempty beginning following
      ]
    ]

-- One round for each channel is enough.
unfoldable pub find_channel : Config → (ℕ → Bool) → ℕ → Option ℕ × ℕ
unfolding scan_channels
find_channel cfg nonempty beginning = scan_channels cfg cfg.nr_channels nonempty beginning beginning
