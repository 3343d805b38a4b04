-- ===== src/Processor/Alu.antt =====
-- `execInstrR` and `execInstrI`: arithmetic on registers and immediates.
pub mod Division
pub mod Shift
use uriscv.Prelude.{
  ℕ, ◌+◌, ◌-◌, ◌*◌, ◌/◌, ◌%◌, ◌^◌, Bool, true, false, not, ◌&&◌, ◌||◌, ltb, ◌==◌, if◌then◌else◌,
  bit_and, bit_or, bit_xor, u8, u32, add32, sub32, shl32, shr32, slt32, max_word,
}
use uriscv.Word.Mult.{sign_mult, uns_sign_mult, uns_mult}
use uriscv.Outcome.{Outcome, runs, exits, undefined, ◌>>=◌}
use uriscv.Processor.Constants.{exc_ii}
use uriscv.Processor.State.{Processor, reg_read, reg_write, signal_exc, advance}
use uriscv.Processor.Decode.{rd, rs1, rs2, func3, func7, i_imm, i_shamt, sign_extension}
use uriscv.Processor.Access.{BusOps, Core, Step, data_read, data_write, with_cpu, step}

-- What an operation asks for: a value for `rd`, nothing (a division by zero), an exchange with
-- memory, an illegal instruction, or what C++ leaves undefined.
pub data Alu : Type 0 where
  value : ℕ → Alu
  nothing swap illegal unspecified : Alu

-- A shift by a register: by 32 or more it is undefined.
unfoldable pub shift_by : ℕ → ℕ → Alu
shift_by k v = if ltb k 32 then value v else unspecified

-- Division of signed words, towards zero. The quotient of -2 ^ 31 by -1 is undefined.
unfoldable pub magnitude : ℕ → ℕ
magnitude x = if ltb x (2 ^ 31) then x else 2 ^ 32 - x

unfoldable pub negative : ℕ → Bool
negative x = not (ltb x (2 ^ 31))

unfoldable pub sdiv32 : ℕ → ℕ → ℕ
unfolding magnitude negative
sdiv32 x y =
    let q = magnitude x / magnitude y in
    if (negative x && negative y) || not (negative x || negative y) then q else sub32 0 q

unfoldable pub srem32 : ℕ → ℕ → ℕ
unfolding magnitude negative
srem32 x y = let r = magnitude x % magnitude y in if negative x then sub32 0 r else r

unfoldable pub divide : ℕ → ℕ → ℕ → Alu
divide x y v =
    if y == 0
    then nothing
    else if (x == 0x80000000) && (y == max_word)
    then unspecified
    else value v

-- The truncated sign of `uint8_t msb = regRead(rs1) & 0x80000000`.
unfoldable pub msb8 : ℕ → ℕ
msb8 x = u8 (bit_and x 0x80000000)

-- The switch of `execInstrR` on FUNC3 and FUNC7, over the values of the two registers.
alu0 : ℕ → ℕ → ℕ → Alu
alu0 f7 x y =
    if f7 == 0x0
    then value (add32 x y)
    else if f7 == 0x20
    then value (sub32 x y)
    else if f7 == 0x1
    then value (u32 (x * y))
    else illegal

alu1 : ℕ → ℕ → ℕ → Alu
unfolding shift_by
alu1 f7 x y =
    if f7 == 0x1
    then value (sign_mult x y).high
    else if f7 == 0x0
    then shift_by y (shl32 x y)
    else illegal

alu2 : ℕ → ℕ → ℕ → Alu
alu2 f7 x y =
    if f7 == 0x1
    then value (uns_sign_mult x y).high
    else if f7 == 0x0
    then value (if slt32 x y then 1 else 0)
    else if (f7 == 0x4) || (f7 == 0x5) || (f7 == 0x6) || (f7 == 0x7)
    then swap
    else illegal

alu3 : ℕ → ℕ → ℕ → Alu
alu3 f7 x y =
    if f7 == 0x1
    then value (uns_mult x y).high
    else if f7 == 0x0
    then value (if ltb x y then 1 else 0)
    else illegal

alu4 : ℕ → ℕ → ℕ → Alu
alu4 f7 x y =
    if f7 == 0x1
    then (if y == 0 then nothing else value (x / y))
    else if f7 == 0x0
    then value (bit_xor x y)
    else illegal

alu5 : ℕ → ℕ → ℕ → Alu
unfolding divide sdiv32 shift_by msb8
alu5 f7 x y =
    if f7 == 0x1
    then divide x y (sdiv32 x y)
    else if f7 == 0x20
    then shift_by y (bit_or (shr32 x y) (msb8 x))
    else if f7 == 0x0
    then shift_by y (shr32 x y)
    else illegal

alu6 : ℕ → ℕ → ℕ → Alu
unfolding divide srem32
alu6 f7 x y =
    if f7 == 0x1 then divide x y (srem32 x y) else if f7 == 0x0 then value (bit_or x y) else illegal

alu7 : ℕ → ℕ → ℕ → Alu
alu7 f7 x y =
    if f7 == 0x1
    then (if y == 0 then nothing else value (x % y))
    else if f7 == 0x0
    then value (bit_and x y)
    else illegal

unfoldable pub alu : ℕ → ℕ → ℕ → ℕ → Alu
unfolding alu0 alu1 alu2 alu3 alu4 alu5 alu6 alu7
alu f3 f7 x y =
    if f3 == 0
    then alu0 f7 x y
    else if f3 == 1
    then alu1 f7 x y
    else if f3 == 2
    then alu2 f7 x y
    else if f3 == 3
    then alu3 f7 x y
    else if f3 == 4
    then alu4 f7 x y
    else if f3 == 5
    then alu5 f7 x y
    else if f3 == 6
    then alu6 f7 x y
    else if f3 == 7
    then alu7 f7 x y
    else illegal

-- The switch of `execInstrI`, over the register, the raw immediate, FUNC7 and the shift amount.
unfoldable pub alu_imm : ℕ → ℕ → ℕ → ℕ → ℕ → Alu
unfolding sign_extension msb8
alu_imm f3 f7 x raw shamt =
    let imm = sign_extension raw 12 in
    if f3 == 0
    then value (add32 x imm)
    else if f3 == 1
    then value (shl32 x shamt)
    else if f3 == 2
    then value (if slt32 x imm then 1 else 0)
    else if f3 == 3
    then value (if ltb x imm then 1 else 0)
    else if f3 == 4
    then value (bit_xor x imm)
    else if f3 == 5
    then (if f7 == 0x0
        then value (shr32 x shamt)
        else if f7 == 0x20
        then value (bit_or (shr32 x shamt) (msb8 x))
        else illegal)
    else if f3 == 6
    then value (bit_or x imm)
    else if f3 == 7
    then value (bit_and x imm)
    else illegal

module _ {W : Type 0} (b : BusOps W) where
  -- AMOSWAP: the address goes to the bus untranslated, and failed accesses are not reported.
  unfoldable pub amoswap : Core W → ℕ → ℕ → ℕ → Outcome (Step W)
  amoswap c d reg1 reg2 = do
    r ← data_read b c reg1
    w ← data_write b (with_cpu r.core (reg_write r.core.cpu d r.value)) reg1 reg2
    step (with_cpu w.core (advance w.core.cpu)) false

  -- The rest of both routines: the target register, and the next instruction in every case.
  unfoldable pub finish : Core W → ℕ → ℕ → ℕ → Alu → Outcome (Step W)
  unfolding amoswap signal_exc
  finish c d reg1 reg2 (value v) = step (with_cpu c (advance (reg_write c.cpu d v))) false
  finish c d reg1 reg2 nothing = step (with_cpu c (advance c.cpu)) false
  finish c d reg1 reg2 swap = amoswap c d reg1 reg2
  finish c d reg1 reg2 illegal = step (with_cpu c (advance (signal_exc c.cpu exc_ii 0))) true
  finish c d reg1 reg2 unspecified = undefined

  unfoldable pub exec_r : Core W → ℕ → Outcome (Step W)
  unfolding finish
  exec_r c i =
      let x = reg_read c.cpu (rs1 i) in
      let y = reg_read c.cpu (rs2 i) in finish c (rd i) x y (alu (func3 i) (func7 i) x y)

  unfoldable pub exec_i : Core W → ℕ → Outcome (Step W)
  unfolding finish
  exec_i c i =
      let x = reg_read c.cpu (rs1 i) in
      finish c (rd i) x 0 (alu_imm (func3 i) (func7 i) x (i_imm i) (i_shamt i))
