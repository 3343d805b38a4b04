-- ===== src/Bus/Transfer.antt =====
-- `DMATransfer` and `DMAVarTransfer` of uriscv/systembus.cc: blocks of 1024 words to and from memory.
pub mod Round
use uriscv.Prelude.{
  ℕ, zero, suc, ◌+◌, ◌*◌, ◌/◌, ◌%◌, ◌^◌, Bool, true, false, not, ◌||◌, List, [], ◌∷◌, ◌++◌, Option,
  none, some, ltb, ◌==◌, if◌then◌else◌, update, max_word,
}
use uriscv.Outcome.{Outcome, runs, ◌>>=◌}
use uriscv.Processor.Access.{Irq, Datum, Written}
use uriscv.Bus.{SystemBus, Config, DeviceOps, Allocator, bus_read, bus_write}

abbrev pub block_size : ℕ
block_size = 1024

-- The words of a `Block`, read and written below its size.
abbrev pub Block : Type 0
Block = ℕ → ℕ

unfoldable pub get_word : Block → ℕ → ℕ
get_word blk ofs = if ltb ofs block_size then blk ofs else max_word

unfoldable pub set_word : Block → ℕ → ℕ → Block
set_word blk ofs value = if ltb ofs block_size then update blk ofs value else blk

-- The bus and the block, the lines that moved, the addresses that `HandleBusAccess` is told of, and
-- whether the transfer has failed.
pub record Transferred (D : Type 0) : Type 0 where
  pub bus : SystemBus D
  pub block : Block
  pub irqs : List Irq
  pub accesses : List ℕ
  pub error : Bool

-- `startAddr + (ofs * WORDLEN)`.
abbrev pub word_at : ℕ → ℕ → ℕ
word_at start ofs = (start + ofs * 4) % 2 ^ 32

module _ {D : Type 0} (config : Config) (ops : DeviceOps D) (alloc : Allocator) where
  unfoldable pub untouched : SystemBus D → Block → Bool → Transferred D
  untouched b blk error = record { bus = b; block = blk; irqs = []; accesses = []; error = error }

  -- One round of the loop to memory, and of the loop from it.
  unfoldable pub store_word : Transferred D → ℕ → ℕ → Outcome (Transferred D)
  unfolding get_word bus_write
  store_word t start ofs = do
    w ← bus_write config ops alloc t.bus (word_at start ofs) (get_word t.block ofs) none
    runs (record {
      bus = w.bus;
      block = t.block;
      irqs = t.irqs ++ w.irqs;
      accesses = t.accesses ++ (word_at start ofs ∷ []);
      error = w.failed;
    })

  unfoldable pub load_word : Transferred D → ℕ → ℕ → Outcome (Transferred D)
  unfolding set_word bus_read
  load_word t start ofs = do
    d ← bus_read config ops t.bus (word_at start ofs) none
    runs (record {
      bus = t.bus;
      block = set_word t.block ofs d.value;
      irqs = t.irqs;
      accesses = t.accesses ++ (word_at start ofs ∷ []);
      error = d.failed;
    })

  -- The loops after `k` rounds: an error ends them.
  unfoldable pub store_words : SystemBus D → Block → ℕ → ℕ → Outcome (Transferred D)
  unfolding untouched store_word
  store_words b blk start zero = runs (untouched b blk false)
  store_words b blk start (suc k) = do
    t ← store_words b blk start k
    if t.error then runs t else store_word t start k

  unfoldable pub load_words : SystemBus D → Block → ℕ → ℕ → Outcome (Transferred D)
  unfolding untouched load_word
  load_words b blk start zero = runs (untouched b blk false)
  load_words b blk start (suc k) = do
    t ← load_words b blk start k
    if t.error then runs t else load_word t start k

  -- `DMATransfer`.
  unfoldable pub dma_transfer : SystemBus D → Block → ℕ → Bool → Outcome (Transferred D)
  unfolding untouched store_words load_words
  dma_transfer b blk start to_memory =
      if not (start % 4 == 0)
      then runs (untouched b blk true)
      else if to_memory
      then store_words b blk start block_size
      else load_words b blk start block_size

  -- `DMAVarTransfer`: bytes are rounded up to words.
  unfoldable pub words_of : ℕ → ℕ
  words_of bytes = if not (bytes % 4 == 0) then bytes / 4 + 1 else bytes / 4

  unfoldable pub dma_var_transfer : SystemBus D → Block → ℕ → ℕ → Bool → Outcome (Transferred D)
  unfolding untouched store_words load_words words_of
  dma_var_transfer b blk start byte_length to_memory =
      if not (start % 4 == 0) || ltb block_size (words_of byte_length)
      then runs (untouched b blk true)
      else if to_memory
      then store_words b blk start (words_of byte_length)
      else load_words b blk start (words_of byte_length)
