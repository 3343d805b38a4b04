-- ===== src/Config/Keys.antt =====
-- The keys of a configuration file.
use uriscv.Prelude.{[], ◌∷◌}
use uriscv.Json.{Bytes}

abbrev pub num_processors_key : Bytes
num_processors_key =
    b'n' ∷ b'u' ∷ b'm' ∷ b'-' ∷ b'p' ∷ b'r' ∷ b'o' ∷ b'c' ∷ b'e' ∷ b's' ∷ b's' ∷ b'o' ∷ b'r' ∷ b's'
    ∷ []

abbrev pub clock_rate_key : Bytes
clock_rate_key = b'c' ∷ b'l' ∷ b'o' ∷ b'c' ∷ b'k' ∷ b'-' ∷ b'r' ∷ b'a' ∷ b't' ∷ b'e' ∷ []

abbrev pub tlb_size_key : Bytes
tlb_size_key = b't' ∷ b'l' ∷ b'b' ∷ b'-' ∷ b's' ∷ b'i' ∷ b'z' ∷ b'e' ∷ []

abbrev pub tlb_floor_address_key : Bytes
tlb_floor_address_key =
    b't' ∷ b'l' ∷ b'b' ∷ b'-' ∷ b'f' ∷ b'l' ∷ b'o' ∷ b'o' ∷ b'r' ∷ b'-' ∷ b'a' ∷ b'd' ∷ b'd' ∷ b'r'
    ∷ b'e' ∷ b's' ∷ b's' ∷ []

abbrev pub num_ram_frames_key : Bytes
num_ram_frames_key =
    b'n' ∷ b'u' ∷ b'm' ∷ b'-' ∷ b'r' ∷ b'a' ∷ b'm' ∷ b'-' ∷ b'f' ∷ b'r' ∷ b'a' ∷ b'm' ∷ b'e' ∷ b's'
    ∷ []

abbrev pub boot_key : Bytes
boot_key = b'b' ∷ b'o' ∷ b'o' ∷ b't' ∷ []

abbrev pub load_core_file_key : Bytes
load_core_file_key =
    b'l' ∷ b'o' ∷ b'a' ∷ b'd' ∷ b'-' ∷ b'c' ∷ b'o' ∷ b'r' ∷ b'e' ∷ b'-' ∷ b'f' ∷ b'i' ∷ b'l' ∷ b'e'
    ∷ []

abbrev pub core_file_key : Bytes
core_file_key = b'c' ∷ b'o' ∷ b'r' ∷ b'e' ∷ b'-' ∷ b'f' ∷ b'i' ∷ b'l' ∷ b'e' ∷ []

abbrev pub bootstrap_rom_key : Bytes
bootstrap_rom_key =
    b'b' ∷ b'o' ∷ b'o' ∷ b't' ∷ b's' ∷ b't' ∷ b'r' ∷ b'a' ∷ b'p' ∷ b'-' ∷ b'r' ∷ b'o' ∷ b'm' ∷ []

abbrev pub execution_rom_key : Bytes
execution_rom_key =
    b'e' ∷ b'x' ∷ b'e' ∷ b'c' ∷ b'u' ∷ b't' ∷ b'i' ∷ b'o' ∷ b'n' ∷ b'-' ∷ b'r' ∷ b'o' ∷ b'm' ∷ []

abbrev pub symbol_table_key : Bytes
symbol_table_key =
    b's' ∷ b'y' ∷ b'm' ∷ b'b' ∷ b'o' ∷ b'l' ∷ b'-' ∷ b't' ∷ b'a' ∷ b'b' ∷ b'l' ∷ b'e' ∷ []

abbrev pub file_key : Bytes
file_key = b'f' ∷ b'i' ∷ b'l' ∷ b'e' ∷ []

abbrev pub asid_key : Bytes
asid_key = b'a' ∷ b's' ∷ b'i' ∷ b'd' ∷ []

abbrev pub devices_key : Bytes
devices_key = b'd' ∷ b'e' ∷ b'v' ∷ b'i' ∷ b'c' ∷ b'e' ∷ b's' ∷ []

abbrev pub enabled_key : Bytes
enabled_key = b'e' ∷ b'n' ∷ b'a' ∷ b'b' ∷ b'l' ∷ b'e' ∷ b'd' ∷ []

abbrev pub address_key : Bytes
address_key = b'a' ∷ b'd' ∷ b'd' ∷ b'r' ∷ b'e' ∷ b's' ∷ b's' ∷ []
