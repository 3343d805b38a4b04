-- ===== src/Bus/Transfer/Round.antt =====
-- Blocks through memory and back.
use uriscv.Prelude.{
  ℕ, zero, suc, ◌+◌, ◌-◌, ◌*◌, ◌/◌, ◌%◌, ◌^◌, ◌≤◌, ◌<◌, ◌≡◌, refl, ◌∙◌, ap, true, false, ◌&&◌, [],
  ◌∷◌, ◌++◌, Option, none, ltb, leb, ◌==◌, if◌then◌else◌, Bool-cases, inl, inr, arith,
}
use native.Mathlib.Nat.{mod-eq_of_lt}
use uriscv.Outcome.{runs}
use uriscv.Bus.{SystemBus, Config, DeviceOps, Allocator, bus_read}
use uriscv.Bus.Storage.{writable, bus_read-bus_write}
use uriscv.Bus.Transfer.{
  Block, block_size, get_word, set_word, Transferred, word_at, store_word, store_words, load_word,
  load_words, untouched, dma_transfer,
}

nothing_between : (start other : ℕ) → (leb start other && ltb other (start + 0 * 4)) ≡ false
nothing_between start other = ground arith

-- Whether an address is in the last word of a range.
last_word :
    (start k other : ℕ)
    → start % 4 ≡ 0
    → (other / 4 == (start + k * 4) / 4) ≡ true
    → ((leb start other && ltb other (start + suc k * 4)) ≡ true) × ((other - start) / 4 ≡ k)
last_word start k other aligned h = (ground (arith, aligned, h), ground (arith, aligned, h))

earlier_word :
    (start k other : ℕ)
    → start % 4 ≡ 0
    → (other / 4 == (start + k * 4) / 4) ≡ false
    → (leb start other && ltb other (start + suc k * 4))
      ≡ (leb start other && ltb other (start + k * 4))
earlier_word start k other aligned h = ground (arith, aligned, h)

word_at-eq : (start n k : ℕ) → start + n * 4 ≤ 2 ^ 32 → k < n → word_at start k ≡ start + k * 4
word_at-eq start n k fits h = mod-eq_of_lt (omega (arith, fits, h))

module _ {D : Type 0} (config : Config) (ops : DeviceOps D) (alloc : Allocator) where
  -- The words of a range of addresses are in memory that can be written.
  abbrev pub WritableRange : SystemBus D → ℕ → ℕ → Type 0
  WritableRange b start n =
      (start % 4 ≡ 0)
      × (start + n * 4 ≤ 2 ^ 32)
      × ((ofs : ℕ) → ofs < n → writable config ops alloc b (start + ofs * 4) ≡ true)

  -- The bus after the first k words of a block are stored: reads in the range give the block's
  -- words, and all others what they gave.
  pub record Stored (b : SystemBus D) (blk : Block) (start k : ℕ) (t : Transferred D) : Type 0 where
    pub no_error : t.error ≡ false
    pub no_lines : t.irqs ≡ []
    pub same_block : t.block ≡ blk
    pub reads :
        (other : ℕ) (reader : Option ℕ)
        → bus_read config ops t.bus other reader ≡ (
            if leb start other && ltb other (start + k * 4)
            then runs (record { value = get_word blk ((other - start) / 4); failed = false })
            else bus_read config ops b other reader)
    pub same_bounds :
        (other : ℕ) → writable config ops alloc t.bus other ≡ writable config ops alloc b other

  Stored-none :
      (b : SystemBus D) (blk : Block) (start : ℕ)
      → Stored b blk start 0 (untouched config ops alloc b blk false)
  unfolding untouched
  Stored-none b blk start = record {
    no_error = refl;
    no_lines = refl;
    same_block = refl;
    reads = λ other reader. rw (nothing_between start other) refl;
    same_bounds = λ other. refl;
  }

  Stored-next :
      (b : SystemBus D) (blk : Block) (start n k : ℕ) (t : Transferred D)
      → WritableRange b start n
      → k < n
      → Stored b blk start k t
      → (u : Transferred D) × (store_word config ops alloc t start k ≡ runs u)
        × Stored b blk start (suc k) u
  unfolding store_word
  Stored-next b blk start n k t (aligned, fits, inside) lt s =
      let there = word_at-eq start n k fits lt in
      let (after, wrote, seen, bounds) =
        bus_read-bus_write config ops alloc t.bus (start + k * 4) (get_word t.block k) none
          (s.same_bounds (start + k * 4) ∙ inside k lt) in
      (
        record {
          bus = after;
          block = t.block;
          irqs = t.irqs ++ [];
          accesses = t.accesses ++ (word_at start k ∷ []);
          error = false;
        },
        rw (store_word, there, wrote) refl,
        record {
          no_error = refl;
          no_lines = rw (s.no_lines) refl;
          same_block = s.same_block;
          reads = λ other reader.
              seen other reader ∙ elim (Bool-cases (other / 4 == (start + k * 4) / 4)) [
                | inl last ↦
                    rw
                      (
                        last,
                        (last_word start k other aligned last).0,
                        (last_word start k other aligned last).1,
                        s.same_block,
                      )
                      refl
                | inr earlier ↦
                    rw (earlier, earlier_word start k other aligned earlier) (s.reads other reader)
              ];
          same_bounds = λ other. bounds other ∙ s.same_bounds other;
        },
      )

  store_words-Stored :
      (b : SystemBus D) (blk : Block) (start n k : ℕ)
      → WritableRange b start n
      → k ≤ n
      → (t : Transferred D) × (store_words config ops alloc b blk start k ≡ runs t)
        × Stored b blk start k t
  unfolding store_words
  store_words-Stored b blk start n zero range le = (_, refl, Stored-none b blk start)
  store_words-Stored b blk start n (suc k) range le =
      let (t, ran, s) = store_words-Stored b blk start n k range (omega (arith, le)) in
      let (u, ran', s') = Stored-next b blk start n k t range (omega (arith, le)) s in
      (u, rw (ran, s.no_error, ran') refl, s')

  -- The block after its first k words are loaded from memory that holds another block's.
  pub record Loaded (b : SystemBus D) (blk : Block) (k : ℕ) (u : Transferred D) : Type 0 where
    pub no_error : u.error ≡ false
    pub no_lines : u.irqs ≡ []
    pub same_bus : u.bus ≡ b
    pub words : (ofs : ℕ) → ofs < k → get_word u.block ofs ≡ get_word blk ofs

  abbrev pub Holds : SystemBus D → Block → ℕ → ℕ → Type 0
  Holds b blk start n =
      (ofs : ℕ)
      → ofs < n
      → bus_read config ops b (start + ofs * 4) none
        ≡ runs (record { value = get_word blk ofs; failed = false })

  get_word-set_word :
      (blk : Block) (k ofs value : ℕ)
      → k < block_size
      → get_word (set_word blk k value) ofs ≡ (if ofs == k then value else get_word blk ofs)
  unfolding get_word set_word
  get_word-set_word blk k ofs value h = ground (arith, h)

  Loaded-next :
      (b : SystemBus D) (blk : Block) (start n k : ℕ) (t : Transferred D)
      → start + n * 4 ≤ 2 ^ 32
      → n ≤ block_size
      → k < n
      → Holds b blk start n
      → Loaded b blk k t
      → (u : Transferred D) × (load_word config ops alloc t start k ≡ runs u)
        × Loaded b blk (suc k) u
  unfolding load_word
  Loaded-next b blk start n k t fits small lt holds l =
      let there = word_at-eq start n k fits lt in
      let found : bus_read config ops t.bus (start + k * 4) none
          ≡ runs (record { value = get_word blk k; failed = false }) =
        rw (l.same_bus) (holds k lt) in
      (
        record {
          bus = t.bus;
          block = set_word t.block k (get_word blk k);
          irqs = t.irqs;
          accesses = t.accesses ++ (word_at start k ∷ []);
          error = false;
        },
        rw (load_word, there, found) refl,
        record {
          no_error = refl;
          no_lines = l.no_lines;
          same_bus = l.same_bus;
          words = λ ofs h.
              get_word-set_word t.block k ofs (get_word blk k) (omega (arith, lt, small))
              ∙ elim (Bool-cases (ofs == k)) [
                | inl last ↦ rw last (ap (get_word blk) {x = k} {y = ofs} (ground (arith, last)))
                | inr earlier ↦ rw earlier (l.words ofs (ground (arith, h, earlier)))
              ];
        },
      )

  load_words-Loaded :
      (b : SystemBus D) (blk blank : Block) (start n k : ℕ)
      → start + n * 4 ≤ 2 ^ 32
      → n ≤ block_size
      → Holds b blk start n
      → k ≤ n
      → (u : Transferred D) × (load_words config ops alloc b blank start k ≡ runs u)
        × Loaded b blk k u
  unfolding load_words untouched
  load_words-Loaded b blk blank start n zero fits small holds le = (
    _,
    refl,
    record {
      no_error = refl;
      no_lines = refl;
      same_bus = refl;
      words = λ ofs h. absurd (omega (arith, h));
    },
  )
  load_words-Loaded b blk blank start n (suc k) fits small holds le =
      let (t, ran, l) =
        load_words-Loaded b blk blank start n k fits small holds (omega (arith, le)) in
      let (u, ran', l') = Loaded-next b blk start n k t fits small (omega (arith, le)) holds l in
      (u, rw (ran, l.no_error, ran') refl, l')

  pub Stored-Holds :
      (b : SystemBus D) (blk : Block) (start n : ℕ) (t : Transferred D)
      → Stored b blk start n t
      → Holds t.bus blk start n
  Stored-Holds b blk start n t s ofs h =
      let inside : (leb start (start + ofs * 4) && ltb (start + ofs * 4) (start + n * 4)) ≡ true =
        ground (arith, h) in
      let back : (start + ofs * 4 - start) / 4 ≡ ofs = omega arith in
      s.reads (start + ofs * 4) none ∙ rw (inside, back) refl

  -- A block sent to memory that can be written, at the address of a word, arrives whole: neither
  -- transfer fails, the block fetched back has the same words, reads outside of the block's range
  -- give what they gave, and no line is moved.
  pub dma_transfer-round :
      (b : SystemBus D) (blk blank : Block) (start : ℕ)
      → WritableRange b start block_size
      → (t u : Transferred D) × (dma_transfer config ops alloc b blk start true ≡ runs t)
        × (dma_transfer config ops alloc t.bus blank start false ≡ runs u)
        × Stored b blk start block_size t
        × Loaded t.bus blk block_size u
  unfolding dma_transfer
  dma_transfer-round b blk blank start range =
      let (t, ran, s) = store_words-Stored b blk start block_size block_size range (omega arith) in
      let (u, ran', l) =
        load_words-Loaded t.bus blk blank start block_size block_size range.1 (omega arith)
          (Stored-Holds b blk start block_size t s) (omega arith) in
      let aligned : (start % 4 == 0) ≡ true = ground (arith, range.0) in
      (t, u, rw (aligned, ran) refl, rw (aligned, ran') refl, s, l)
