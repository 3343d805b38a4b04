-- ===== src/Config.antt =====
-- uriscv/machine_config.h and uriscv/machine_config.cc: the settings of a machine, and their setters.
pub mod Keys
pub mod Files
pub mod Loading
pub mod Bounds
pub mod Devices
pub mod RoundTrip
pub mod Readers
mod Tests
use uriscv.Prelude.{
  ℕ, zero, suc, ◌+◌, ◌-◌, ◌*◌, ◌/◌, ◌%◌, ◌^◌, Bool, true, false, not, ◌&&◌, List, [], ◌∷◌, ◌++◌,
  Option, none, some, ltb, leb, ◌==◌, if◌then◌else◌, max_word, length, map,
}
use uriscv.Json.{Bytes, ℤ, pos, negsuc}

unfoldable pub bump_property : ℕ → ℕ → ℕ → ℕ
bump_property min_value value max_value =
    if ltb value min_value then min_value else if ltb max_value value then max_value else value

abbrev pub min_ram : ℕ
min_ram = 8

abbrev pub max_ram : ℕ
max_ram = 512

abbrev pub min_cpus : ℕ
min_cpus = 1

abbrev pub max_cpus : ℕ
max_cpus = 16

abbrev pub min_clock_rate : ℕ
min_clock_rate = 1

abbrev pub max_clock_rate : ℕ
max_clock_rate = 99

abbrev pub min_tlb : ℕ
min_tlb = 4

abbrev pub max_tlb : ℕ
max_tlb = 64

abbrev pub min_asid : ℕ
min_asid = 0

abbrev pub max_asid : ℕ
max_asid = 64

-- `devFiles`, `devEnabled` and, for network interfaces, `macId` of one device.
pub record DeviceSlot : Type 0 where
  pub file : Bytes
  pub enabled : Bool
  pub mac_id : Option Bytes

-- `romFiles`.
pub record RomFiles : Type 0 where
  pub boot : Bytes
  pub bios : Bytes
  pub core : Bytes
  pub stab : Bytes

-- The devices stand in the order of the loops, eight for each interrupt line.
pub record MachineConfig : Type 0 where
  pub load_core_file : Bool
  pub ram_size : ℕ
  pub cpus : ℕ
  pub clock_rate : ℕ
  pub tlb_size : ℕ
  pub tlb_floor_address : ℕ
  pub rom_files : RomFiles
  pub symbol_table_asid : ℕ
  pub devices : List DeviceSlot

unfoldable pub set_ram_size : ℕ → MachineConfig → MachineConfig
unfolding bump_property
set_ram_size size m = record m { ram_size = bump_property min_ram size max_ram }

unfoldable pub set_num_processors : ℕ → MachineConfig → MachineConfig
unfolding bump_property
set_num_processors value m = record m { cpus = bump_property min_cpus value max_cpus }

unfoldable pub set_clock_rate : ℕ → MachineConfig → MachineConfig
unfolding bump_property
set_clock_rate value m = record m { clock_rate = bump_property min_clock_rate value max_clock_rate }

unfoldable pub set_tlb_size : ℕ → MachineConfig → MachineConfig
unfolding bump_property
set_tlb_size size m = record m { tlb_size = bump_property min_tlb size max_tlb }

-- With `RAMBASE`, `FRAMESIZE` and `FRAMEKB`.
unfoldable pub set_tlb_floor_address : ℕ → MachineConfig → MachineConfig
set_tlb_floor_address addr m = record m {
  tlb_floor_address = if addr == 0 then (0x20000000 + m.ram_size * 1024 * 4) % 2 ^ 32 else addr;
}

unfoldable pub set_symbol_table_asid : ℕ → MachineConfig → MachineConfig
unfolding bump_property
set_symbol_table_asid asid m = record m { symbol_table_asid = bump_property min_asid asid max_asid }

-- `Validate`.
unfoldable pub validate : MachineConfig → Bool
validate m =
    not (length m.rom_files.boot == 0)
    && (not (length m.rom_files.bios == 0) && not (length m.rom_files.stab == 0))

-- An `int` as an unsigned word, and an unsigned word as an `int`.
unfoldable pub to_word : ℤ → ℕ
to_word (pos n) = n % 2 ^ 32
to_word (negsuc n) = 2 ^ 32 - 1 - n % 2 ^ 32

unfoldable pub from_word : ℕ → ℤ
from_word w = if ltb w (2 ^ 31) then pos w else negsuc (2 ^ 32 - 1 - w)

-- The end of loading: a configuration, the null pointer with an error, or an exception of
-- `std::stoul`, which is not caught.
pub data Load (A : Type 0) : Type 0 where
  loaded : A → Load A
  invalid uncaught : Load A

infixl 5 ◌>>=◌
unfoldable pub ◌>>=◌ : {A B : Type 0} → Load A → (A → Load B) → Load B
loaded a >>= f = f a
invalid >>= f = invalid
uncaught >>= f = uncaught

abbrev pub checked : {A : Type 0} → Option A → Load A
checked none = invalid
checked (some a) = loaded a

abbrev pub hex_digit : ℕ → ℕ
hex_digit d = if ltb d 10 then 48 + d else 87 + d

-- `IntToHexString`.
unfoldable pub hex_digits : ℕ → ℕ → Bytes
hex_digits zero w = []
hex_digits (suc n) w = hex_digits n (w / 16) ++ (hex_digit (w % 16) ∷ [])

abbrev pub int_to_hex_string : ℕ → Bytes
int_to_hex_string w = b'0' ∷ b'x' ∷ hex_digits 8 w

-- `erase(0, 2)`.
abbrev pub drop2 : Bytes → Bytes
drop2 [] = []
drop2 (a ∷ []) = []
drop2 (a ∷ b ∷ cs) = cs

-- `ParseMACId` on the groups of `sscanf`, and `MACIdToString`.
unfoldable pub parse_groups : Option (List ℕ) → Option Bytes
parse_groups none = none
parse_groups (some []) = none
parse_groups (some (g ∷ gs)) = if g % 2 == 0 then some (map (λ n. n % 256) (g ∷ gs)) else none

unfoldable pub mac_id_to_string : Bytes → Bytes
unfolding hex_digits
mac_id_to_string [] = []
mac_id_to_string (b ∷ []) = hex_digits 2 b
mac_id_to_string (b ∷ c ∷ bs) = hex_digits 2 b ++ (b':' ∷ mac_id_to_string (c ∷ bs))

-- A device's key, and whether it has an address.
pub record DeviceKey : Type 0 where
  pub key : Bytes
  pub ethernet : Bool

abbrev keys_from : Bytes → Bool → ℕ → ℕ → List DeviceKey
keys_from prefix ethernet zero d = []
keys_from prefix ethernet (suc n) d =
    record { key = prefix ++ ((48 + d) ∷ []); ethernet = ethernet }
    ∷ keys_from prefix ethernet n (suc d)

abbrev pub device_keys : List DeviceKey
device_keys =
    keys_from (b'd' ∷ b'i' ∷ b's' ∷ b'k' ∷ []) false 8 0
    ++ (keys_from (b'f' ∷ b'l' ∷ b'a' ∷ b's' ∷ b'h' ∷ []) false 8 0
        ++ (keys_from (b'e' ∷ b't' ∷ b'h' ∷ []) true 8 0
            ++ (keys_from (b'p' ∷ b'r' ∷ b'i' ∷ b'n' ∷ b't' ∷ b'e' ∷ b'r' ∷ []) false 8 0
                ++ keys_from (b't' ∷ b'e' ∷ b'r' ∷ b'm' ∷ b'i' ∷ b'n' ∷ b'a' ∷ b'l' ∷ []) false 8
                    0)))
