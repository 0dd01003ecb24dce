-- ===== src/Tests/Disks.antt =====
-- Theorems on stores at inputs that meet their hypotheses.
use kvcache.Base.{ℕ, ◌<◌, ◌≡◌, refl, Bytes, List, [], ◌∷◌, some, arith, ltb, ◌==◌, if◌then◌else◌}
use kvcache.Status.{ok_status}
use kvcache.State.{done}
use kvcache.Lists.{count}
use kvcache.Ssd.{
  Ssd, SsdConfig, Attempt, formatted, failed, on_device, read_block, write_block, write, get_block,
  int_product, format_db, create_database, iterate_all_blocks, put_channel, put_channels,
}
use kvcache.Ssd.Opened.{formatted_ssd}
use kvcache.Ssd.Contract.{read_block-write_block}
use kvcache.Ssd.Visit.{iterate_all_blocks-count}
use kvcache.Ssd.Created.{create_database-read_block}
use kvcache.Tests.Media.{media, write_bytes}

abbrev raw : Ssd media
raw = record {
  nr_channels = 2;
  nr_blocks = 4;
  block_size = 4;
  blocks_per_channel = 2;
  backing = on_device (λ _. 0);
}

abbrev four_bytes : Bytes
four_bytes = 5 ∷ 6 ∷ 7 ∷ 8 ∷ []

abbrev written : Ssd media
written = record raw { backing = on_device (write_bytes (λ _. 0) 8 four_bytes) }

read_block-write_block_example :
    read_block media written 3
    ≡ (if 2 == 3 then done (ok_status, some four_bytes) else read_block media raw 3)
unfolding write_block write get_block int_product
read_block-write_block_example = read_block-write_block media raw written 2 3 four_bytes refl refl

abbrev two_blocks : SsdConfig
two_blocks = record { nr_channels = 2; block_size = 4; blocks_per_channel = 1 }

abbrev db_of : Attempt (media.Db) → media.Db
db_of (formatted d) = d
db_of (failed st) = []

abbrev filled : media.Db
filled = db_of (format_db media [] two_blocks)

create_database-read_block_example :
    (create_database media (some []) some two_blocks
      ≡ done (ok_status, some (formatted_ssd media two_blocks filled)))
    × ((b : ℕ)
        → b < 2
        → read_block media (formatted_ssd media two_blocks filled) b ≡ done (ok_status, some []))
unfolding format_db put_channels put_channel
create_database-read_block_example =
    create_database-read_block media two_blocks [] filled some (omega arith) (omega arith)
      (omega arith) (omega arith) (omega arith) refl refl

iterate_all_blocks-count_example :
    (bs : List ℕ) × (iterate_all_blocks media (formatted_ssd media two_blocks filled) ≡ done bs)
    × ((b : ℕ) → count b bs ≡ (if ltb b 2 then 1 else 0))
unfolding format_db put_channels put_channel
iterate_all_blocks-count_example =
    iterate_all_blocks-count media two_blocks [] filled (omega arith) (omega arith) (λ k. refl) refl
