-- ===== src/Config/Tests.antt =====
-- A machine with all its devices, saved and loaded; and texts that are loaded.
use uriscv.Prelude.{
  ℕ, ◌≡◌, refl, Bool, true, false, List, [], ◌∷◌, map, Option, none, some, if◌then◌else◌, arith,
}
use uriscv.Json.{Bytes, string, number, pos, member, no_members}
use uriscv.Config.{
  MachineConfig, DeviceSlot, DeviceKey, device_keys, loaded, invalid, uncaught, ◌>>=◌, validate,
}
use uriscv.Config.Files.{optional, load_tree, load_from_file, new_config, save_tree}
use uriscv.Config.Bounds.{Bounded, load_from_file-Bounded}
use uriscv.Config.Devices.{Addressed, Fit, kept}
use uriscv.Config.RoundTrip.{load_tree-save_tree}
use uriscv.Config.Readers.{stoul, scan_groups, stoul-hex_digits, scan_groups-mac_id_to_string}
use uriscv.Config.Keys.{tlb_floor_address_key, num_ram_frames_key}

abbrev mac : Bytes
mac = 2 ∷ 0 ∷ 94 ∷ 16 ∷ 255 ∷ 1 ∷ []

-- Every device has a file of its own name, and the network interfaces an address.
abbrev slot : DeviceKey → DeviceSlot
slot k = record {
  file = k.key;
  enabled = k.ethernet;
  mac_id = if k.ethernet then some mac else none;
}

abbrev machine : MachineConfig
machine = record {
  load_core_file = true;
  ram_size = 128;
  cpus = 4;
  clock_rate = 10;
  tlb_size = 32;
  tlb_floor_address = 0x40000000;
  rom_files = record { boot = b'b' ∷ []; bios = b'e' ∷ []; core = b'k' ∷ []; stab = b's' ∷ [] };
  symbol_table_asid = 64;
  devices = map slot device_keys;
}

slot-Addressed : (e : Bool) → Addressed e (if e then some mac else none)
slot-Addressed true = (
  refl,
  refl,
  (omega arith, (omega arith, (omega arith, (omega arith, (omega arith, (omega arith, tt)))))),
)
slot-Addressed false = tt

slots-Fit : (ks : List DeviceKey) → Fit ks (map slot ks)
slots-Fit [] = tt
slots-Fit (k ∷ ks) = (slot-Addressed k.ethernet, slots-Fit ks)

machine-Bounded : Bounded machine
machine-Bounded = record {
  ram = (omega arith, omega arith);
  processors = (omega arith, omega arith);
  clock = (omega arith, omega arith);
  tlb = (omega arith, omega arith);
  asid = omega arith;
}

-- The floor of 0 stands for the end of memory, but is set before the size of memory is.
floor_before_ram :
    load_tree stoul scan_groups
      (member num_ram_frames_key
        (number (pos 8))
        (member tlb_floor_address_key (string (b'0' ∷ b'x' ∷ b'0' ∷ [])) no_members))
      (new_config [])
    ≡ loaded (record (new_config []) { ram_size = 8; tlb_floor_address = 0x20040000 })
unfolding load_tree new_config optional stoul ◌>>=◌
floor_before_ram = refl

-- A floor that is no number ends loading with an exception that nothing catches.
abbrev no_number : Bytes → Option ℕ
no_number cs = none

no_floor :
    load_tree no_number scan_groups
      (member tlb_floor_address_key (string []) no_members)
      (new_config [])
    ≡ uncaught
unfolding load_tree optional ◌>>=◌
no_floor = refl

valid : (validate machine ≡ true) × (load_from_file stoul scan_groups [] none ≡ invalid)
unfolding validate load_from_file
valid = (refl, refl)

-- The results, at the machine and at a file that asks for too many processors.
load_tree-save_tree_example :
    load_tree stoul scan_groups (save_tree machine) (new_config [])
    ≡ loaded (record machine { devices = map kept (map slot device_keys) })
load_tree-save_tree_example =
    load_tree-save_tree stoul scan_groups stoul-hex_digits scan_groups-mac_id_to_string machine
      machine-Bounded [] (omega arith) refl (slots-Fit device_keys)

abbrev many_processors : Bytes
many_processors =
    b'{' ∷ b'"' ∷ b'n' ∷ b'u' ∷ b'm' ∷ b'-' ∷ b'p' ∷ b'r' ∷ b'o' ∷ b'c' ∷ b'e' ∷ b's' ∷ b's' ∷ b'o'
    ∷ b'r' ∷ b's' ∷ b'"' ∷ b':' ∷ b'9' ∷ b'9' ∷ b'}' ∷ []

many_loaded :
    load_from_file stoul scan_groups [] (some many_processors)
    ≡ loaded (record (new_config []) { cpus = 16 })
unfolding load_from_file new_config optional ◌>>=◌
many_loaded = refl

load_from_file-Bounded_example : Bounded (record (new_config []) { cpus = 16 })
load_from_file-Bounded_example =
    load_from_file-Bounded stoul scan_groups [] (some many_processors)
      (record (new_config []) { cpus = 16 }) many_loaded
