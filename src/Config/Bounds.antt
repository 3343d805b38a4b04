-- ===== src/Config/Bounds.antt =====
-- What is loaded is in the ranges of the settings, whatever the file says.
use uriscv.Prelude.{ℕ, ◌%◌, ◌^◌, ◌≤◌, ◌≡◌, refl, List, Option, none, some, arith}
use mathlib.Core.Path.{subst}
use uriscv.Json.{Bytes, Members}
use uriscv.Json.Types.{as_object, as_string, as_number}
use uriscv.Json.Parser.{parsed, syntax_error, out_of_fuel, parse}
use uriscv.Config.{
  MachineConfig, RomFiles, drop2, loaded, invalid, uncaught, ◌>>=◌, checked, bump_property, to_word,
  min_ram, max_ram, min_cpus, max_cpus, min_clock_rate, max_clock_rate, min_tlb, max_tlb, max_asid,
  set_ram_size, set_num_processors, set_clock_rate, set_tlb_size, set_tlb_floor_address,
  set_symbol_table_asid,
}
use uriscv.Config.Files.{
  set_floor, set_boot, set_symbol_table, set_devices, load_tree, new_config, load_from_file,
}
use uriscv.Config.Loading.{Loads, Loads-bind, Loads-checked, Loads-optional, Loads-any}

pub record Bounded (m : MachineConfig) : Type 0 where
  pub ram : (min_ram ≤ m.ram_size) × (m.ram_size ≤ max_ram)
  pub processors : (min_cpus ≤ m.cpus) × (m.cpus ≤ max_cpus)
  pub clock : (min_clock_rate ≤ m.clock_rate) × (m.clock_rate ≤ max_clock_rate)
  pub tlb : (min_tlb ≤ m.tlb_size) × (m.tlb_size ≤ max_tlb)
  pub asid : m.symbol_table_asid ≤ max_asid

bump_property-within : (a v b : ℕ) → a ≤ b → (a ≤ bump_property a v b) × (bump_property a v b ≤ b)
unfolding bump_property
bump_property-within a v b h = (ground (arith, h), ground (arith, h))

module _ (n : ℕ) (m : MachineConfig) (h : Bounded m) where
  set_num_processors-Bounded : Bounded (set_num_processors n m)
  unfolding set_num_processors
  set_num_processors-Bounded = record {
    ram = h.ram;
    processors = bump_property-within min_cpus n max_cpus (omega arith);
    clock = h.clock;
    tlb = h.tlb;
    asid = h.asid;
  }

  set_clock_rate-Bounded : Bounded (set_clock_rate n m)
  unfolding set_clock_rate
  set_clock_rate-Bounded = record {
    ram = h.ram;
    processors = h.processors;
    clock = bump_property-within min_clock_rate n max_clock_rate (omega arith);
    tlb = h.tlb;
    asid = h.asid;
  }

  set_tlb_size-Bounded : Bounded (set_tlb_size n m)
  unfolding set_tlb_size
  set_tlb_size-Bounded = record {
    ram = h.ram;
    processors = h.processors;
    clock = h.clock;
    tlb = bump_property-within min_tlb n max_tlb (omega arith);
    asid = h.asid;
  }

  set_ram_size-Bounded : Bounded (set_ram_size n m)
  unfolding set_ram_size
  set_ram_size-Bounded = record {
    ram = bump_property-within min_ram n max_ram (omega arith);
    processors = h.processors;
    clock = h.clock;
    tlb = h.tlb;
    asid = h.asid;
  }

  set_symbol_table_asid-Bounded : Bounded (set_symbol_table_asid n m)
  unfolding set_symbol_table_asid
  set_symbol_table_asid-Bounded = record {
    ram = h.ram;
    processors = h.processors;
    clock = h.clock;
    tlb = h.tlb;
    asid = (bump_property-within 0 n max_asid (omega arith)).1;
  }

  set_tlb_floor_address-Bounded : Bounded (set_tlb_floor_address n m)
  unfolding set_tlb_floor_address
  set_tlb_floor_address-Bounded = record {
    ram = h.ram;
    processors = h.processors;
    clock = h.clock;
    tlb = h.tlb;
    asid = h.asid;
  }

-- The other settings leave the numbers.
Numbers : MachineConfig → MachineConfig → Type 0
Numbers m n =
    (n.ram_size ≡ m.ram_size)
    × (n.cpus ≡ m.cpus)
    × (n.clock_rate ≡ m.clock_rate)
    × (n.tlb_size ≡ m.tlb_size)
    × (n.symbol_table_asid ≡ m.symbol_table_asid)

Bounded-Numbers : (m n : MachineConfig) → Numbers m n → Bounded m → Bounded n
unfolding Numbers
Bounded-Numbers m n (r, c, k, t, a) h = record {
  ram = (omega (arith, r, h.ram.0), omega (arith, r, h.ram.1));
  processors = (omega (arith, c, h.processors.0), omega (arith, c, h.processors.1));
  clock = (omega (arith, k, h.clock.0), omega (arith, k, h.clock.1));
  tlb = (omega (arith, t, h.tlb.0), omega (arith, t, h.tlb.1));
  asid = omega (arith, a, h.asid);
}

renamed : (f : RomFiles) (m : MachineConfig) → Bounded m → Bounded (record m { rom_files = f })
unfolding Numbers
renamed f m h = Bounded-Numbers m _ (refl, refl, refl, refl, refl) h

set_boot-Bounded :
    (boot : Members) (m : MachineConfig) → Bounded m → Loads Bounded (set_boot boot m)
unfolding Loads set_boot Numbers
set_boot-Bounded boot m h =
    Loads-bind (λ x. Unit {0}) Bounded _ _ (Loads-any _)
      (λ on x.
        Loads-bind (λ x. Unit {0}) Bounded _ _ (Loads-any _)
          (λ name y. Bounded-Numbers m _ (refl, refl, refl, refl, refl) h))

set_symbol_table-Bounded :
    (stab : Members) (m : MachineConfig) → Bounded m → Loads Bounded (set_symbol_table stab m)
unfolding Loads set_symbol_table Numbers
set_symbol_table-Bounded stab m h =
    Loads-bind (λ x. Unit {0}) Bounded _ _ (Loads-any _)
      (λ name x.
        Loads-bind (λ x. Unit {0}) Bounded _ _ (Loads-any _)
          (λ n y.
            set_symbol_table_asid-Bounded (to_word n)
              (record m { rom_files = record m.rom_files { stab = name } }) (renamed _ m h)))

new_config-Bounded : (data_dir : Bytes) → Bounded (new_config data_dir)
unfolding new_config bump_property
new_config-Bounded data_dir = record {
  ram = (omega arith, omega arith);
  processors = (omega arith, omega arith);
  clock = (omega arith, omega arith);
  tlb = (omega arith, omega arith);
  asid = omega arith;
}

module _ (stoul : Bytes → Option ℕ) (scan_groups : Bytes → Option (List ℕ)) where
  set_devices-Bounded :
      (devs : Members) (m : MachineConfig)
      → Bounded m
      → Loads Bounded (set_devices stoul scan_groups devs m)
  unfolding Loads set_devices Numbers
  set_devices-Bounded devs m h =
      Loads-bind (λ x. Unit {0}) Bounded _ _ (Loads-any _)
        (λ ds x. Bounded-Numbers m _ (refl, refl, refl, refl, refl) h)

  set_floor-Bounded :
      (cs : Bytes) (m : MachineConfig)
      → Bounded m
      → Loads Bounded (set_floor stoul scan_groups cs m)
  unfolding Loads set_floor
  set_floor-Bounded cs m h =
      elim (stoul (drop2 cs))
        as (λ o.
          Loads Bounded
            (elim o [ none ↦ uncaught | some n ↦ loaded (set_tlb_floor_address (n % 2 ^ 32) m) ])) [
              | none ↦ tt
              | some n ↦ set_tlb_floor_address-Bounded (n % 2 ^ 32) m h
            ]

  load_tree-Bounded :
      (root : Members) (m : MachineConfig)
      → Bounded m
      → Loads Bounded (load_tree stoul scan_groups root m)
  unfolding Loads load_tree
  load_tree-Bounded root m h =
      Loads-bind Bounded Bounded _ _
        (Loads-optional Bounded _ as_number _ root m h
          (λ n. set_num_processors-Bounded (to_word n) m h))
        (λ m1 h1.
          Loads-bind Bounded Bounded _ _
            (Loads-optional Bounded _ as_number _ root m1 h1
              (λ n. set_clock_rate-Bounded (to_word n) m1 h1))
            (λ m2 h2.
              Loads-bind Bounded Bounded _ _
                (Loads-optional Bounded _ as_number _ root m2 h2
                  (λ n. set_tlb_size-Bounded (to_word n) m2 h2))
                (λ m3 h3.
                  Loads-bind Bounded Bounded _ _
                    (Loads-optional Bounded _ as_string _ root m3 h3
                      (λ cs. set_floor-Bounded cs m3 h3))
                    (λ m4 h4.
                      Loads-bind Bounded Bounded _ _
                        (Loads-optional Bounded _ as_number _ root m4 h4
                          (λ n. set_ram_size-Bounded (to_word n) m4 h4))
                        (λ m5 h5.
                          Loads-bind Bounded Bounded _ _
                            (Loads-optional Bounded _ as_object _ root m5 h5
                              (λ ms. set_boot-Bounded ms m5 h5))
                            (λ m6 h6.
                              Loads-bind Bounded Bounded _ _
                                (Loads-optional Bounded _ as_string _ root m6 h6
                                  (λ s. renamed _ m6 h6))
                                (λ m7 h7.
                                  Loads-bind Bounded Bounded _ _
                                    (Loads-optional Bounded _ as_string _ root m7 h7
                                      (λ s. renamed _ m7 h7))
                                    (λ m8 h8.
                                      Loads-bind Bounded Bounded _ _
                                        (Loads-optional Bounded _ as_object _ root m8 h8
                                          (λ ms. set_symbol_table-Bounded ms m8 h8))
                                        (λ m9 h9.
                                          Loads-optional Bounded _ as_object _ root m9 h9
                                            (λ ms. set_devices-Bounded ms m9 h9))))))))))

  module _ (data_dir : Bytes) where
    load_from_file-Loads :
        (file : Option Bytes) → Loads Bounded (load_from_file stoul scan_groups data_dir file)
    unfolding Loads load_from_file
    load_from_file-Loads none = tt
    load_from_file-Loads (some cs) =
        elim (parse cs)
          as (λ o. Loads Bounded (elim o [
            | parsed v p ↦
                checked (as_object v)
                >>= (λ root. load_tree stoul scan_groups root (new_config data_dir))
            | syntax_error ↦ invalid
            | out_of_fuel ↦ invalid
          ])) [
            | parsed v p ↦
                Loads-checked Bounded (as_object v) _ (λ root.
                  load_tree-Bounded root (new_config data_dir) (new_config-Bounded data_dir))
            | syntax_error ↦ tt
            | out_of_fuel ↦ tt
          ]

    -- A configuration that is loaded has every number in the range of its setting, whatever the
    -- text of the file and whatever the library makes of the texts in it.
    pub load_from_file-Bounded :
        (file : Option Bytes) (m : MachineConfig)
        → load_from_file stoul scan_groups data_dir file ≡ loaded m
        → Bounded m
    unfolding Loads
    load_from_file-Bounded file m e = subst (Loads Bounded) e (load_from_file-Loads file)
