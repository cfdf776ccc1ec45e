-- ===== src/Storage/SsTable/Tests.antt =====
-- Lookups in small tables of nova-storage/src/lsm.rs, where compression puts a byte in front.
use nova_runtime.Base.{
  ℕ, ◌+◌, ◌*◌, ◌≡◌, refl, List, [], ◌∷◌, none, some, Result, ok, err, All, arith,
}
use nova_runtime.Storage.Bytes.{Bytes, of_le}
use nova_runtime.Storage.Bloom.{BloomFilter}
use nova_runtime.Storage.SsTable.{
  Entry, DataBlockHeader, create_with_tombstones, get_with_tombstone, cut_blocks, lex_leb,
}
use nova_runtime.Storage.SsTable.Blocks.{IsSmall}
use nova_runtime.Storage.SsTable.Lookup.{IsOrdered, get_with_tombstone-create_with_tombstones}

data Damage : Type 0 where
  damaged : Damage

abbrev compress : Bytes → Bytes
compress bytes = 0 ∷ bytes

abbrev decompress : Bytes → Result Damage Bytes
decompress [] = err damaged
decompress (b ∷ bytes) = ok bytes

abbrev hash : Bytes → ℕ
hash key = of_le key * 7 + 3

abbrev three : ℕ → ℕ → ℕ
three num_bits num_keys = 3

abbrev no_trailer : List DataBlockHeader → BloomFilter → Bytes
no_trailer index filter = []

abbrev entries : List Entry
entries = (1 ∷ [], some (7 ∷ [])) ∷ (1 ∷ 2 ∷ [], none) ∷ (3 ∷ [], some []) ∷ []

entries-IsSmall : All IsSmall entries
entries-IsSmall = (
  record { key-lt = omega arith; value-lt = omega arith },
  (
    record { key-lt = omega arith; value-lt = omega arith },
    (record { key-lt = omega arith; value-lt = omega arith }, tt),
  ),
)

entries-IsOrdered : IsOrdered entries
unfolding lex_leb
entries-IsOrdered = ((refl, (refl, tt)), ((refl, tt), (tt, tt)))

-- Small entries share a block.
one_block : cut_blocks entries [] 0 ≡ entries ∷ []
unfolding cut_blocks
one_block = refl

get_with_tombstone-create_with_tombstones_example :
    get_with_tombstone decompress hash
      (1 ∷ 2 ∷ [])
      (create_with_tombstones compress three hash no_trailer entries)
    ≡ ok (some none)
get_with_tombstone-create_with_tombstones_example =
    get_with_tombstone-create_with_tombstones compress decompress (λ b. refl) three hash no_trailer
      (1 ∷ 2 ∷ []) entries entries-IsSmall entries-IsOrdered
