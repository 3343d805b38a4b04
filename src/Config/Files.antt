-- ===== src/Config/Files.antt =====
-- `LoadFromFile` and `Save`.
use uriscv.Prelude.{
  ℕ, ◌%◌, ◌^◌, Bool, true, false, List, [], ◌∷◌, ◌++◌, map, replicate, Option, none, some,
  if◌then◌else◌, max_word,
}
use uriscv.Json.{
  Bytes, JsonNode, Members, object, string, number, bool, no_members, set_member, get_member,
  serialize,
}
use uriscv.Json.Types.{as_object, as_string, as_number, as_bool}
use uriscv.Json.Parser.{parsed, syntax_error, out_of_fuel, parse}
use uriscv.Config.{
  MachineConfig, DeviceSlot, DeviceKey, device_keys, Load, loaded, invalid, uncaught, ◌>>=◌,
  checked, to_word, from_word, drop2, int_to_hex_string, mac_id_to_string, parse_groups,
  set_ram_size, set_num_processors, set_clock_rate, set_tlb_size, set_tlb_floor_address,
  set_symbol_table_asid, max_asid,
}
use uriscv.Config.Keys.{
  num_processors_key, clock_rate_key, tlb_size_key, tlb_floor_address_key, num_ram_frames_key,
  boot_key, load_core_file_key, core_file_key, bootstrap_rom_key, execution_rom_key,
  symbol_table_key, file_key, asid_key, devices_key, enabled_key, address_key,
}

abbrev disabled : DeviceSlot → DeviceSlot
disabled d = record d { enabled = false }

-- `resetToFactorySettings`, with the directory of the package's data; and the constructor, which
-- begins with empty names and no addresses.
unfoldable pub reset_to_factory_settings : Bytes → MachineConfig → MachineConfig
unfolding set_ram_size set_num_processors set_clock_rate set_tlb_size set_tlb_floor_address
    set_symbol_table_asid
reset_to_factory_settings data_dir m0 =
    let m1 = set_num_processors 1 m0 in
    let m2 = set_clock_rate 1 m1 in
    let m3 = set_tlb_size 16 m2 in
    let m4 = set_tlb_floor_address max_word m3 in
    let m5 = set_ram_size 64 m4 in
    set_symbol_table_asid max_asid (record m5 {
      rom_files = record {
        boot =
            data_dir
            ++ (b'/' ∷ b'c' ∷ b'o' ∷ b'r' ∷ b'e' ∷ b'b' ∷ b'o' ∷ b'o' ∷ b't' ∷ b'.' ∷ b'r' ∷ b'o'
                ∷ b'm' ∷ b'.' ∷ b'u' ∷ b'r' ∷ b'i' ∷ b's' ∷ b'c' ∷ b'v' ∷ []);
        bios =
            data_dir
            ++ (b'/' ∷ b'e' ∷ b'x' ∷ b'e' ∷ b'c' ∷ b'.' ∷ b'r' ∷ b'o' ∷ b'm' ∷ b'.' ∷ b'u' ∷ b'r'
                ∷ b'i' ∷ b's' ∷ b'c' ∷ b'v' ∷ []);
        core =
            (b'k' ∷ b'e' ∷ b'r' ∷ b'n' ∷ b'e' ∷ b'l' ∷ b'.' ∷ b'c' ∷ b'o' ∷ b'r' ∷ b'e' ∷ b'.'
              ∷ b'u' ∷ b'r' ∷ b'i' ∷ b's' ∷ b'c' ∷ b'v' ∷ []);
        stab =
            (b'k' ∷ b'e' ∷ b'r' ∷ b'n' ∷ b'e' ∷ b'l' ∷ b'.' ∷ b's' ∷ b't' ∷ b'a' ∷ b'b' ∷ b'.'
              ∷ b'u' ∷ b'r' ∷ b'i' ∷ b's' ∷ b'c' ∷ b'v' ∷ []);
      };
      load_core_file = true;
      devices = map disabled m5.devices;
    })

abbrev pub no_device : DeviceSlot
no_device = record { file = []; enabled = false; mac_id = none }

unfoldable pub new_config : Bytes → MachineConfig
unfolding reset_to_factory_settings
new_config data_dir = reset_to_factory_settings data_dir (record {
  load_core_file = false;
  ram_size = 0;
  cpus = 0;
  clock_rate = 0;
  tlb_size = 0;
  tlb_floor_address = 0;
  rom_files = record { boot = []; bios = []; core = []; stab = [] };
  symbol_table_asid = 0;
  devices = replicate 40 no_device;
})

abbrev required : {A : Type 0} → Bytes → (JsonNode → Option A) → Members → Load A
required key read ms = checked (get_member key ms) >>= (λ v. checked (read v))

-- A member that may be missing.
unfoldable pub optional :
    {A S : Type 0} → Bytes → (JsonNode → Option A) → (A → S → Load S) → Members → S → Load S
unfolding get_member
optional key read set ms m = elim (get_member key ms) [
  | none ↦ loaded m
  | some v ↦ checked (read v) >>= (λ a. set a m)
]

unfoldable pub set_boot : Members → MachineConfig → Load MachineConfig
unfolding get_member as_bool as_string
set_boot boot m = required load_core_file_key as_bool boot >>= (λ on.
    required core_file_key as_string boot >>= (λ name.
      loaded (record m { load_core_file = on; rom_files = record m.rom_files { core = name } })))

unfoldable pub set_symbol_table : Members → MachineConfig → Load MachineConfig
unfolding get_member as_string as_number to_word set_symbol_table_asid
set_symbol_table stab m = required file_key as_string stab >>= (λ name.
    required asid_key as_number stab >>= (λ n. loaded (
      set_symbol_table_asid (to_word n)
        (record m { rom_files = record m.rom_files { stab = name } }))))

-- `stoul` on digits to the base 16, where none is an exception, and `sscanf` on an address, which
-- gives six groups or none.
module _ (stoul : Bytes → Option ℕ) (scan_groups : Bytes → Option (List ℕ)) where
  unfoldable pub set_floor : Bytes → MachineConfig → Load MachineConfig
  unfolding set_tlb_floor_address
  set_floor cs m = elim (stoul (drop2 cs)) [
    | none ↦ uncaught
    | some n ↦ loaded (set_tlb_floor_address (n % 2 ^ 32) m)
  ]

  unfoldable pub set_address : Bytes → DeviceSlot → DeviceSlot
  unfolding parse_groups
  set_address cs d = elim (parse_groups (scan_groups cs)) [
    | none ↦ d
    | some id ↦ record d { mac_id = some id }
  ]

  -- A device that is named in the file.
  unfoldable pub load_device : DeviceKey → Members → DeviceSlot → Load DeviceSlot
  unfolding get_member as_object as_bool as_string set_address
  load_device k dev d = required enabled_key as_bool dev >>= (λ on.
      required file_key as_string dev >>= (λ name.
        let e : DeviceSlot = record d { enabled = on; file = name } in
        if k.ethernet
        then optional address_key as_string (λ cs f. loaded (set_address cs f)) dev e
        else loaded e))

  unfoldable pub load_devices : List DeviceKey → Members → List DeviceSlot → Load (List DeviceSlot)
  unfolding load_device
  load_devices [] devs ds = loaded ds
  load_devices (k ∷ ks) devs [] = loaded []
  load_devices (k ∷ ks) devs (d ∷ ds) =
      optional k.key as_object (load_device k) devs d
      >>= (λ e. load_devices ks devs ds >>= (λ es. loaded (e ∷ es)))

  unfoldable pub set_devices : Members → MachineConfig → Load MachineConfig
  unfolding load_devices
  set_devices devs m =
      load_devices device_keys devs m.devices >>= (λ ds. loaded (record m { devices = ds }))

  -- The settings of a tree, in the order of the file's reader.
  unfoldable pub load_tree : Members → MachineConfig → Load MachineConfig
  unfolding get_member as_number as_string as_object to_word set_ram_size set_num_processors
      set_clock_rate set_tlb_size set_floor set_boot set_symbol_table set_devices
  load_tree root m0 =
      optional num_processors_key as_number (λ n m. loaded (set_num_processors (to_word n) m)) root
        m0
      >>= (λ m1.
          optional clock_rate_key as_number (λ n m. loaded (set_clock_rate (to_word n) m)) root m1
          >>= (λ m2.
              optional tlb_size_key as_number (λ n m. loaded (set_tlb_size (to_word n) m)) root m2
              >>= (λ m3. optional tlb_floor_address_key as_string set_floor root m3 >>= (λ m4.
                  optional num_ram_frames_key as_number (λ n m. loaded (set_ram_size (to_word n) m))
                    root m4
                  >>= (λ m5. optional boot_key as_object set_boot root m5 >>= (λ m6.
                      optional bootstrap_rom_key as_string
                        (λ s m. loaded (record m { rom_files = record m.rom_files { boot = s } }))
                        root m6
                      >>= (λ m7.
                          optional execution_rom_key as_string
                            (λ s m.
                              loaded (record m { rom_files = record m.rom_files { bios = s } }))
                            root m7
                          >>= (λ m8.
                              optional symbol_table_key as_object set_symbol_table root m8
                              >>= (λ m9. optional devices_key as_object set_devices root m9)))))))))

  -- The file's text, or none where it cannot be opened.
  unfoldable pub load_from_file : Bytes → Option Bytes → Load MachineConfig
  unfolding parse load_tree new_config
  load_from_file data_dir none = invalid
  load_from_file data_dir (some cs) = elim (parse cs) [
    | parsed v p ↦ checked (as_object v) >>= (λ root. load_tree root (new_config data_dir))
    | syntax_error ↦ invalid
    | out_of_fuel ↦ invalid
  ]

abbrev pub is_unset : Bytes → Bool
is_unset [] = true
is_unset (c ∷ cs) = false

-- The devices that have files.
unfoldable pub device_object : DeviceKey → DeviceSlot → Members
unfolding set_member
device_object k d =
    let shown =
      set_member file_key (string d.file) (set_member enabled_key (bool d.enabled) no_members) in
    if k.ethernet
    then elim d.mac_id [
      | none ↦ shown
      | some id ↦ set_member address_key (string (mac_id_to_string id)) shown
    ]
    else shown

unfoldable pub save_devices : List DeviceKey → List DeviceSlot → Members → Members
unfolding set_member device_object
save_devices [] ds acc = acc
save_devices (k ∷ ks) [] acc = acc
save_devices (k ∷ ks) (d ∷ ds) acc =
    save_devices ks ds
      (if is_unset d.file then acc else set_member k.key (object (device_object k d)) acc)

unfoldable pub save_tree : MachineConfig → Members
unfolding set_member from_word save_devices
save_tree m =
    let r1 = set_member num_processors_key (number (from_word m.cpus)) no_members in
    let r2 = set_member clock_rate_key (number (from_word m.clock_rate)) r1 in
    let r3 = set_member tlb_size_key (number (from_word m.tlb_size)) r2 in
    let r4 = set_member tlb_floor_address_key (string (int_to_hex_string m.tlb_floor_address)) r3 in
    let r5 = set_member num_ram_frames_key (number (from_word m.ram_size)) r4 in
    let boot =
      set_member core_file_key (string m.rom_files.core)
        (set_member load_core_file_key (bool m.load_core_file) no_members) in
    let r6 = set_member boot_key (object boot) r5 in
    let r7 = set_member bootstrap_rom_key (string m.rom_files.boot) r6 in
    let r8 = set_member execution_rom_key (string m.rom_files.bios) r7 in
    let stab =
      set_member asid_key (number (from_word m.symbol_table_asid))
        (set_member file_key (string m.rom_files.stab) no_members) in
    let r9 = set_member symbol_table_key (object stab) r8 in
    set_member devices_key (object (save_devices device_keys m.devices no_members)) r9

-- The text that `Save` writes.
unfoldable pub save : MachineConfig → Bytes
unfolding save_tree serialize
save m = serialize true 4 0 (object (save_tree m))
