-- ===== src/Config/RoundTrip.antt =====
-- A configuration that is saved and loaded again.
use uriscv.Prelude.{
  ℕ, ◌+◌, ◌*◌, ◌%◌, ◌^◌, ◌<◌, ◌≤◌, ◌≡◌, refl, ◌∙◌, ap, true, false, List, [], ◌∷◌, map, replicate,
  Option, none, some, ltb, ◌==◌, if◌then◌else◌, arith,
}
use uriscv.Json.{Bytes, object, string, number, no_members, get_member}
use uriscv.Json.Types.{as_object, as_string, as_number}
use uriscv.Config.{
  MachineConfig, DeviceSlot, DeviceKey, device_keys, loaded, uncaught, ◌>>=◌, bump_property,
  to_word, from_word, hex_digits, int_to_hex_string, mac_id_to_string, min_ram, max_ram, min_cpus,
  max_cpus, min_clock_rate, max_clock_rate, min_tlb, max_tlb, max_asid, set_ram_size,
  set_num_processors, set_clock_rate, set_tlb_size, set_tlb_floor_address,
}
use uriscv.Config.Files.{
  optional, set_floor, set_boot, set_symbol_table, set_devices, load_devices, load_tree, new_config,
  save_devices, save_tree, no_device,
}
use uriscv.Config.Bounds.{Bounded}
use uriscv.Config.Devices.{IsMacId, Fit, kept, load_devices-save_devices}
use uriscv.Config.Loading.{loaded_lem, optional-some}
use uriscv.Config.Keys.{
  num_processors_key, clock_rate_key, tlb_size_key, tlb_floor_address_key, num_ram_frames_key,
  boot_key, bootstrap_rom_key, execution_rom_key, symbol_table_key, devices_key,
}

-- A number in its range is printed and read as it is.
in_range : (a n b : ℕ) → a ≤ n → n ≤ b → b < 2 ^ 31 → bump_property a (to_word (from_word n)) b ≡ n
unfolding bump_property to_word from_word
in_range a n b low high small =
    let e : ltb n (2 ^ 31) ≡ true = ground (arith, high, small) in
    rw (from_word, e, to_word) (ground (arith, low, high, small))

blank_devices :
    (ks : List DeviceKey) (ds : List DeviceSlot)
    → Fit ks ds
    → map (λ k. no_device) ks ≡ map (λ d. no_device) ds
blank_devices [] [] h = refl
blank_devices [] (d ∷ ds) h = absurd h
blank_devices (k ∷ ks) [] h = absurd h
blank_devices (k ∷ ks) (d ∷ ds) (f, h) = ap (λ x. no_device ∷ x) (blank_devices ks ds h)

module _ (stoul : Bytes → Option ℕ) (scan_groups : Bytes → Option (List ℕ))
    (hexadecimal : (w : ℕ) → w < 2 ^ 32 → stoul (hex_digits 8 w) ≡ some w)
    (scanned : (id : Bytes) → IsMacId id → scan_groups (mac_id_to_string id) ≡ some id)
    (m : MachineConfig) (b : Bounded m) where
  -- Each setting, on the tree that was saved.
  processors_loaded :
      (x : MachineConfig)
      → optional num_processors_key as_number
          (λ n y. loaded (set_num_processors (to_word n) y))
          (save_tree m)
          x
        ≡ loaded (record x { cpus = m.cpus })
  unfolding save_tree get_member set_num_processors as_number
  processors_loaded x =
      optional-some num_processors_key as_number _ (save_tree m) x (number (from_word m.cpus))
        (from_word m.cpus) refl refl
      ∙ ap (λ n. loaded (record x { cpus = n }))
          (in_range min_cpus m.cpus max_cpus b.processors.0 b.processors.1 (omega arith))

  clock_loaded :
      (x : MachineConfig)
      → optional clock_rate_key as_number
          (λ n y. loaded (set_clock_rate (to_word n) y))
          (save_tree m)
          x
        ≡ loaded (record x { clock_rate = m.clock_rate })
  unfolding save_tree get_member set_clock_rate as_number
  clock_loaded x =
      optional-some clock_rate_key as_number _ (save_tree m) x (number (from_word m.clock_rate))
        (from_word m.clock_rate) refl refl
      ∙ ap (λ n. loaded (record x { clock_rate = n }))
          (in_range min_clock_rate m.clock_rate max_clock_rate b.clock.0 b.clock.1 (omega arith))

  tlb_loaded :
      (x : MachineConfig)
      → optional tlb_size_key as_number (λ n y. loaded (set_tlb_size (to_word n) y)) (save_tree m) x
        ≡ loaded (record x { tlb_size = m.tlb_size })
  unfolding save_tree get_member set_tlb_size as_number
  tlb_loaded x =
      optional-some tlb_size_key as_number _ (save_tree m) x (number (from_word m.tlb_size))
        (from_word m.tlb_size) refl refl
      ∙ ap (λ n. loaded (record x { tlb_size = n }))
          (in_range min_tlb m.tlb_size max_tlb b.tlb.0 b.tlb.1 (omega arith))

  ram_loaded :
      (x : MachineConfig)
      → optional num_ram_frames_key as_number
          (λ n y. loaded (set_ram_size (to_word n) y))
          (save_tree m)
          x
        ≡ loaded (record x { ram_size = m.ram_size })
  unfolding save_tree get_member set_ram_size as_number
  ram_loaded x =
      optional-some num_ram_frames_key as_number _ (save_tree m) x (number (from_word m.ram_size))
        (from_word m.ram_size) refl refl
      ∙ ap (λ n. loaded (record x { ram_size = n }))
          (in_range min_ram m.ram_size max_ram b.ram.0 b.ram.1 (omega arith))

  boot_loaded :
      (x : MachineConfig)
      → optional boot_key as_object set_boot (save_tree m) x
        ≡ loaded (record x {
          load_core_file = m.load_core_file;
          rom_files = record x.rom_files { core = m.rom_files.core };
        })
  unfolding save_tree get_member set_boot as_object ◌>>=◌
  boot_loaded x = optional-some boot_key as_object set_boot (save_tree m) x (object _) _ refl refl

  symbols_loaded :
      (x : MachineConfig)
      → optional symbol_table_key as_object set_symbol_table (save_tree m) x
        ≡ loaded (record x {
          rom_files = record x.rom_files { stab = m.rom_files.stab };
          symbol_table_asid = m.symbol_table_asid;
        })
  unfolding save_tree get_member set_symbol_table as_object ◌>>=◌
  symbols_loaded x =
      optional-some symbol_table_key as_object set_symbol_table (save_tree m) x (object _) _ refl
        refl
      ∙ ap
          (λ n. loaded (record x {
            rom_files = record x.rom_files { stab = m.rom_files.stab };
            symbol_table_asid = n;
          }))
          (in_range 0 m.symbol_table_asid max_asid (omega arith) b.asid (omega arith))

  rom_loaded :
      (x : MachineConfig)
      → (optional bootstrap_rom_key as_string
            (λ s y. loaded (record y { rom_files = record y.rom_files { boot = s } }))
            (save_tree m)
            x
          ≡ loaded (record x { rom_files = record x.rom_files { boot = m.rom_files.boot } }))
  unfolding save_tree get_member as_string
  rom_loaded x =
      optional-some bootstrap_rom_key as_string _ (save_tree m) x (string m.rom_files.boot)
        m.rom_files.boot refl refl

  execution_loaded :
      (x : MachineConfig)
      → (optional execution_rom_key as_string
            (λ s y. loaded (record y { rom_files = record y.rom_files { bios = s } }))
            (save_tree m)
            x
          ≡ loaded (record x { rom_files = record x.rom_files { bios = m.rom_files.bios } }))
  unfolding save_tree get_member as_string
  execution_loaded x =
      optional-some execution_rom_key as_string _ (save_tree m) x (string m.rom_files.bios)
        m.rom_files.bios refl refl

  floor_loaded :
      m.tlb_floor_address < 2 ^ 32
      → (m.tlb_floor_address == 0) ≡ false
      → (x : MachineConfig)
      → optional tlb_floor_address_key as_string (set_floor stoul scan_groups) (save_tree m) x
        ≡ loaded (record x { tlb_floor_address = m.tlb_floor_address })
  unfolding save_tree get_member set_floor set_tlb_floor_address as_string
  floor_loaded small nonzero x =
      let w = m.tlb_floor_address in
      let whole : w % 2 ^ 32 ≡ w = omega (arith, small) in
      let put : ℕ → MachineConfig = λ a. set_tlb_floor_address a x in
      optional-some tlb_floor_address_key as_string (set_floor stoul scan_groups) (save_tree m) x
        (string (int_to_hex_string w)) (int_to_hex_string w) refl refl
      ∙ ap (λ o. elim o [ none ↦ uncaught | some n ↦ loaded (put (n % 2 ^ 32)) ])
          (hexadecimal w small)
      ∙ ap (λ a. loaded (put a)) whole
      ∙ ap
          (λ z. loaded (record x {
            tlb_floor_address = if z then (0x20000000 + x.ram_size * 1024 * 4) % 2 ^ 32 else w;
          }))
          nonzero

  devices_loaded :
      Fit device_keys m.devices
      → (x : MachineConfig) → x.devices ≡ replicate 40 no_device
      → optional devices_key as_object (set_devices stoul scan_groups) (save_tree m) x
        ≡ loaded (record x { devices = map kept m.devices })
  unfolding save_tree get_member set_devices as_object
  devices_loaded fit x blank =
      let devs = save_devices device_keys m.devices no_members in
      optional-some devices_key as_object (set_devices stoul scan_groups) (save_tree m) x
        (object devs) devs refl refl
      ∙ loaded_lem _ (λ ds. loaded (record x { devices = ds })) (map kept m.devices)
          (ap (load_devices stoul scan_groups device_keys devs)
              (blank ∙ blank_devices device_keys m.devices fit)
            ∙ load_devices-save_devices stoul scan_groups scanned m.devices fit)

  new_devices : (data_dir : Bytes) → (new_config data_dir).devices ≡ replicate 40 no_device
  unfolding new_config
  new_devices data_dir = refl

  -- What `Save` writes as a tree, `LoadFromFile` reads back into a new configuration: every setting,
  -- and every device that has a file, is as it was. The numbers are in their ranges, the floor of the
  -- buffer is a word other than 0, there is a device for each key, only network interfaces have
  -- addresses, and the library reads the hexadecimal digits and the addresses that are printed.
  pub load_tree-save_tree :
      (data_dir : Bytes)
      → m.tlb_floor_address < 2 ^ 32
      → (m.tlb_floor_address == 0) ≡ false
      → Fit device_keys m.devices
      → load_tree stoul scan_groups (save_tree m) (new_config data_dir)
        ≡ loaded (record m { devices = map kept m.devices })
  unfolding load_tree
  load_tree-save_tree data_dir small nonzero fit =
      loaded_lem _ _ _ (processors_loaded (new_config data_dir))
      ∙ loaded_lem _ _ _ (clock_loaded _)
      ∙ loaded_lem _ _ _ (tlb_loaded _)
      ∙ loaded_lem _ _ _ (floor_loaded small nonzero _)
      ∙ loaded_lem _ _ _ (ram_loaded _)
      ∙ loaded_lem _ _ _ (boot_loaded _)
      ∙ loaded_lem _ _ _ (rom_loaded _)
      ∙ loaded_lem _ _ _ (execution_loaded _)
      ∙ loaded_lem _ _ _ (symbols_loaded _)
      ∙ devices_loaded fit _ (new_devices data_dir)
