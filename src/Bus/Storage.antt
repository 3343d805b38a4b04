-- ===== src/Bus/Storage.antt =====
-- What a write to memory does to reads.
use uriscv.Prelude.{
  ℕ, ◌+◌, ◌-◌, ◌*◌, ◌/◌, ◌%◌, ◌^◌, ◌≡◌, refl, Bool, true, false, ◌||◌, [], Option, ◌==◌,
  if◌then◌else◌, Bool-cases, inl, inr, arith,
}
use uriscv.Outcome.{Outcome, runs}
use uriscv.Processor.Access.{Datum}
use uriscv.Bus.{
  SystemBus, Config, DeviceOps, Allocator, bus_read, bus_write, bus_reg_read, low_register,
  ram_base, bios_data_base,
}
use uriscv.Bus.Space.{byte_size, ram_read, ram_write}
use uriscv.Bus.Area.{in_bounds}

module _ {D : Type 0} (config : Config) (ops : DeviceOps D) (alloc : Allocator) where
  -- Whether an address is in one of the two spaces that can be written.
  abbrev pub writable : SystemBus D → ℕ → Bool
  writable b addr =
      in_bounds addr ram_base (ram_base + byte_size b.ram)
      || in_bounds addr bios_data_base (bios_data_base + byte_size b.biosdata)

  -- Registers do not depend on what the spaces hold.
  registers_apart :
      (b : SystemBus D) (i j v w : ℕ) (addr : ℕ) (cpu : Option ℕ)
      → (bus_reg_read config ops (record b { ram = ram_write b.ram i v }) addr cpu
          ≡ bus_reg_read config ops b addr cpu)
        × (bus_reg_read config ops (record b { biosdata = ram_write b.biosdata j w }) addr cpu
            ≡ bus_reg_read config ops b addr cpu)
  unfolding bus_reg_read low_register byte_size ram_write
  registers_apart b i j v w addr cpu = (refl, refl)

  -- Two addresses of one space, whose base and end are words'.
  same_word :
      (base size a c : ℕ)
      → base % 4 ≡ 0
      → in_bounds a base (base + size * 4 % 2 ^ 32) ≡ true
      → in_bounds c base (base + size * 4 % 2 ^ 32) ≡ true
      → ((a - base) / 4 == (c - base) / 4) ≡ (a / 4 == c / 4)
  same_word base size a c aligned h k = ground (arith, aligned, h, k)

  other_word :
      (base size a c : ℕ)
      → base % 4 ≡ 0
      → in_bounds a base (base + size * 4 % 2 ^ 32) ≡ true
      → in_bounds c base (base + size * 4 % 2 ^ 32) ≡ false
      → (c / 4 == a / 4) ≡ false
  other_word base size a c aligned h k = ground (arith, aligned, h, k)

  in_ram_only :
      (size a c : ℕ)
      → in_bounds a ram_base (ram_base + size * 4 % 2 ^ 32) ≡ false
      → in_bounds c ram_base (ram_base + size * 4 % 2 ^ 32) ≡ true
      → (c / 4 == a / 4) ≡ false
  in_ram_only size a c h k = ground (arith, h, k)

  if-same :
      {A : Type 0} (t : Bool) (x y : A) (f : A → Outcome Datum)
      → f (if t then x else y) ≡ (if t then f x else f y)
  if-same true x y f = refl
  if-same false x y f = refl

  read_after_ram :
      (b : SystemBus D) (addr word : ℕ)
      → in_bounds addr ram_base (ram_base + byte_size b.ram) ≡ true
      → (other : ℕ) (cpu : Option ℕ)
      → bus_read config ops
          (record b { ram = ram_write b.ram ((addr - ram_base) / 4) word })
          other
          cpu
        ≡ (if other / 4 == addr / 4
            then runs (record { value = word; failed = false })
            else bus_read config ops b other cpu)
  unfolding bus_read byte_size ram_read ram_write
  read_after_ram b addr word h other cpu =
      elim (Bool-cases (in_bounds other ram_base (ram_base + byte_size b.ram))) [
        | inl inside ↦
            rw (inside, same_word ram_base b.ram.size other addr refl inside h)
              (if-same (other / 4 == addr / 4) word _
                (λ v. runs (record { value = v; failed = false })))
        | inr outside ↦
            rw
              (
                outside,
                other_word ram_base b.ram.size addr other refl h outside,
                (registers_apart b ((addr - ram_base) / 4) 0 word 0 other cpu).0,
              )
              refl
      ]

  read_after_biosdata :
      (b : SystemBus D) (addr word : ℕ)
      → in_bounds addr ram_base (ram_base + byte_size b.ram) ≡ false
      → in_bounds addr bios_data_base (bios_data_base + byte_size b.biosdata) ≡ true
      → (other : ℕ) (cpu : Option ℕ)
      → bus_read config ops
          (record b { biosdata = ram_write b.biosdata ((addr - bios_data_base) / 4) word })
          other
          cpu
        ≡ (if other / 4 == addr / 4
            then runs (record { value = word; failed = false })
            else bus_read config ops b other cpu)
  unfolding bus_read byte_size ram_read ram_write
  read_after_biosdata b addr word apart h other cpu =
      elim (Bool-cases (in_bounds other ram_base (ram_base + byte_size b.ram))) [
        | inl ram ↦ rw (ram, in_ram_only b.ram.size addr other apart ram) refl
        | inr outside ↦
            elim (Bool-cases
              (in_bounds other bios_data_base (bios_data_base + byte_size b.biosdata))) [
                | inl inside ↦
                    rw
                      (
                        outside,
                        inside,
                        same_word bios_data_base b.biosdata.size other addr refl inside h,
                      )
                      (if-same (other / 4 == addr / 4) word _
                        (λ v. runs (record { value = v; failed = false })))
                | inr far ↦
                    rw
                      (
                        outside,
                        far,
                        other_word bios_data_base b.biosdata.size addr other refl h far,
                        (registers_apart b 0 ((addr - bios_data_base) / 4) 0 word other cpu).1,
                      )
                      refl
              ]
      ]

  -- A write of an address in memory that can be written succeeds and moves no line; a read then
  -- gives the written word at the addresses of that word, and what it gave before at all others, the
  -- registers, the read-only memory and the addresses of nothing included.
  pub bus_read-bus_write :
      (b : SystemBus D) (addr word : ℕ) (cpu : Option ℕ)
      → writable b addr ≡ true
      → (after : SystemBus D) × (bus_write config ops alloc b addr word cpu
          ≡ runs (record { bus = after; irqs = []; failed = false }))
        × ((other : ℕ) (reader : Option ℕ)
            → bus_read config ops after other reader ≡ (
                if other / 4 == addr / 4
                then runs (record { value = word; failed = false })
                else bus_read config ops b other reader))
        × ((other : ℕ) → writable after other ≡ writable b other)
  unfolding bus_write byte_size ram_write
  bus_read-bus_write b addr word cpu h =
      elim (Bool-cases (in_bounds addr ram_base (ram_base + byte_size b.ram))) [
        | inl ram ↦ (
          record b { ram = ram_write b.ram ((addr - ram_base) / 4) word },
          rw ram refl,
          read_after_ram b addr word ram,
          λ other. refl,
        )
        | inr apart ↦
            let inside : in_bounds addr bios_data_base (bios_data_base + byte_size b.biosdata)
                ≡ true =
              ground (arith, h, apart) in
            (
              record b { biosdata = ram_write b.biosdata ((addr - bios_data_base) / 4) word },
              rw (apart, inside) refl,
              read_after_biosdata b addr word apart inside,
              λ other. refl,
            )
      ]
