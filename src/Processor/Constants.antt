-- ===== src/Processor/Constants.antt =====
-- Numbers of include/uriscv/{const,csr,cpu,arch,processor_defs,bios}.h that the processor uses.
use uriscv.Prelude.{ℕ}

-- Control and status registers.
abbrev pub mstatus : ℕ
mstatus = 0x300

abbrev pub mie : ℕ
mie = 0x304

abbrev pub mip : ℕ
mip = 0x344

abbrev pub mtvec : ℕ
mtvec = 0x305

abbrev pub mepc : ℕ
mepc = 0x341

abbrev pub mcause : ℕ
mcause = 0x342

abbrev pub time : ℕ
time = 0xC01

abbrev pub csr_entrylo : ℕ
csr_entrylo = 0x800

abbrev pub csr_entryhi : ℕ
csr_entryhi = 0x801

abbrev pub csr_index : ℕ
csr_index = 0x802

abbrev pub csr_random : ℕ
csr_random = 0x803

abbrev pub csr_badvaddr : ℕ
csr_badvaddr = 0x804

abbrev pub prid : ℕ
prid = 0x805

-- Fields of MSTATUS, and the mask of the timer in MIE.
abbrev pub mstatus_mie_mask : ℕ
mstatus_mie_mask = 0x8

abbrev pub mstatus_mpp_mask : ℕ
mstatus_mpp_mask = 0x1800

abbrev pub mstatus_mpie_bit : ℕ
mstatus_mpie_bit = 7

abbrev pub mstatus_mie_bit : ℕ
mstatus_mie_bit = 3

abbrev pub mstatus_mprv_bit : ℕ
mstatus_mprv_bit = 17

abbrev pub mstatus_mpp_bit : ℕ
mstatus_mpp_bit = 11

abbrev pub mie_mtie_mask : ℕ
mie_mtie_mask = 0x40

abbrev pub il_cputimer : ℕ
il_cputimer = 7

-- Exception codes.
abbrev pub exc_iaf : ℕ
exc_iaf = 1

abbrev pub exc_ii : ℕ
exc_ii = 2

abbrev pub exc_bp : ℕ
exc_bp = 3

abbrev pub exc_laf : ℕ
exc_laf = 5

abbrev pub exc_saf : ℕ
exc_saf = 7

abbrev pub exc_ecu : ℕ
exc_ecu = 8

abbrev pub exc_ecm : ℕ
exc_ecm = 11

abbrev pub exc_mod : ℕ
exc_mod = 24

abbrev pub exc_tlbl : ℕ
exc_tlbl = 25

abbrev pub exc_tlbs : ℕ
exc_tlbs = 26

abbrev pub exc_utlbl : ℕ
exc_utlbl = 27

abbrev pub exc_utlbs : ℕ
exc_utlbs = 28

-- Kinds of access.
abbrev pub access_read : ℕ
access_read = 0x4

abbrev pub access_write : ℕ
access_write = 0x2

abbrev pub access_exec : ℕ
access_exec = 0x1

-- Addresses and sizes.
abbrev pub wordlen : ℕ
wordlen = 4

abbrev pub kuseg_base : ℕ
kuseg_base = 0x80000000

abbrev pub vpn_mask : ℕ
vpn_mask = 0xFFFFF000

abbrev pub asid_mask : ℕ
asid_mask = 0x00000FC0

abbrev pub offset_mask : ℕ
offset_mask = 0x00000FFF

abbrev pub entrylo_mask : ℕ
entrylo_mask = 0xFFFFFF00

-- The registers that the code names.
abbrev pub reg_sp : ℕ
reg_sp = 2

abbrev pub reg_a0 : ℕ
reg_a0 = 10

-- The instruction that does nothing.
abbrev pub nop : ℕ
nop = 0x00000013
