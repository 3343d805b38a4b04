-- ===== src/Processor/Mode/Execution.antt =====
-- What each routine of execution does to the mode and to the size of the buffer.
use uriscv.Prelude.{ℕ, ◌==◌, Option-cases, inl, inr, arith}
use uriscv.Processor.Constants.{access_read, access_write}
use uriscv.Processor.State.{Processor, reg_read, reg_write, signal_exc}
use uriscv.Processor.Translate.{map_virtual}
use uriscv.Processor.Access.{BusOps, Core, Step, with_cpu, data_read, data_write}
use uriscv.Processor.Decode.{func3, rs1, rs2}
use uriscv.Processor.Alu.{
  Alu, value, nothing, swap, illegal, unspecified, amoswap, finish, exec_r, exec_i,
}
use uriscv.Processor.Load.{load, exec_load}
use uriscv.Processor.Store.{store_part, store_word, exec_store}
use uriscv.Processor.Branch.{exec_branch, exec_auipc, exec_lui, exec_jal, exec_jalr, taken}
use uriscv.Processor.Mode.{
  Kept, Always, Always-bind, Always-if, reg_write-Kept, map_virtual-Kept, data_read-Kept,
  data_write-Kept,
}

module _ {W : Type 0} (b : BusOps W) (n : ℕ) where
  abbrev pub StepKept : Step W → Type 0
  StepKept s = Kept n s.core.cpu

  amoswap-Kept : (c : Core W) → Kept n c.cpu → (d x y : ℕ) → Always StepKept (amoswap b c d x y)
  unfolding amoswap
  amoswap-Kept c h d x y =
      Always-bind (λ r. Kept n r.core.cpu) StepKept (data_read b c x) _ (data_read-Kept b n c h x)
        (λ r hr.
          Always-bind StepKept StepKept
            (data_write b (with_cpu r.core (reg_write r.core.cpu d r.value)) x y) _
            (data_write-Kept b n _ (reg_write-Kept n r.core.cpu hr d r.value) x y) (λ w hw. hw))

  finish-Kept :
      (c : Core W) → Kept n c.cpu → (d x y : ℕ) (a : Alu) → Always StepKept (finish b c d x y a)
  unfolding finish signal_exc reg_write
  finish-Kept c h d x y (value v) = ground arith
  finish-Kept c h d x y nothing = h
  finish-Kept c h d x y swap = amoswap-Kept c h d x y
  finish-Kept c h d x y illegal = h
  finish-Kept c h d x y unspecified = tt

  pub exec_r-Kept : (c : Core W) → Kept n c.cpu → (i : ℕ) → Always StepKept (exec_r b c i)
  unfolding exec_r
  exec_r-Kept c h i = finish-Kept c h _ _ _ _

  pub exec_i-Kept : (c : Core W) → Kept n c.cpu → (i : ℕ) → Always StepKept (exec_i b c i)
  unfolding exec_i
  exec_i-Kept c h i = finish-Kept c h _ _ _ _

  load-Kept :
      (c : Core W) → Kept n c.cpu → (va d : ℕ) (part : ℕ → ℕ) → Always StepKept (load b c va d part)
  unfolding load reg_write
  load-Kept c h va d part =
      let m = map_virtual c.cpu va access_read in
      let hm = map_virtual-Kept n c.cpu h va access_read in
      Always-if StepKept m.failed _ _ hm (
        Always-bind (λ r. Kept n r.core.cpu) StepKept (data_read b (with_cpu c m.cpu) m.paddr) _
          (data_read-Kept b n (with_cpu c m.cpu) hm m.paddr)
          (λ r hr. Always-if StepKept r.failed _ _ hr (ground arith)))

  pub exec_load-Kept : (c : Core W) → Kept n c.cpu → (i : ℕ) → Always StepKept (exec_load b c i)
  unfolding exec_load signal_exc
  exec_load-Kept c h i =
      let any = λ (va d : ℕ) (part : ℕ → ℕ). load-Kept c h va d part in
      Always-if StepKept (func3 i == 0) _ _ (any _ _ _) (
        Always-if StepKept (func3 i == 1) _ _ (any _ _ _) (
          Always-if StepKept (func3 i == 2) _ _ (any _ _ _) (
            Always-if StepKept (func3 i == 4) _ _ (any _ _ _)
              (Always-if StepKept (func3 i == 5) _ _ (any _ _ _) h))))

  store_part-Kept :
      (c : Core W) → Kept n c.cpu → (va : ℕ) (f : ℕ → ℕ) → Always StepKept (store_part b c va f)
  unfolding store_part
  store_part-Kept c h va f =
      let m = map_virtual c.cpu va access_write in
      let hm = map_virtual-Kept n c.cpu h va access_write in
      Always-if StepKept m.failed _ _ hm (
        Always-bind (λ r. Kept n r.core.cpu) StepKept (data_read b (with_cpu c m.cpu) m.paddr) _
          (data_read-Kept b n (with_cpu c m.cpu) hm m.paddr)
          (λ r hr. Always-if StepKept r.failed _ _ hr (
            Always-bind StepKept StepKept (data_write b r.core m.paddr (f r.value)) _
              (data_write-Kept b n r.core hr m.paddr (f r.value)) (λ w hw. hw))))

  store_word-Kept : (c : Core W) → Kept n c.cpu → (va v : ℕ) → Always StepKept (store_word b c va v)
  unfolding store_word
  store_word-Kept c h va v =
      let m = map_virtual c.cpu va access_write in
      let hm = map_virtual-Kept n c.cpu h va access_write in
      Always-if StepKept m.failed _ _ hm (
        Always-bind StepKept StepKept (data_write b (with_cpu c m.cpu) m.paddr v) _
          (data_write-Kept b n (with_cpu c m.cpu) hm m.paddr v)
          (λ w hw. Always-if StepKept w.exc _ _ hw hw))

  pub exec_store-Kept : (c : Core W) → Kept n c.cpu → (i : ℕ) → Always StepKept (exec_store b c i)
  unfolding exec_store signal_exc
  exec_store-Kept c h i = Always-if StepKept (func3 i == 0) _ _ (store_part-Kept c h _ _) (
      Always-if StepKept (func3 i == 1) _ _ (store_part-Kept c h _ _)
        (Always-if StepKept (func3 i == 2) _ _ (store_word-Kept c h _ _) h))

-- The instructions that need no bus.
module _ (n : ℕ) (p : Processor) (h : Kept n p) where
  pub exec_branch-Kept : (i : ℕ) → Kept n (exec_branch p i).0
  unfolding exec_branch signal_exc
  exec_branch-Kept i =
      elim (Option-cases (taken (func3 i) (reg_read p (rs1 i)) (reg_read p (rs2 i)))) [
        | inl e ↦ rw (e, exec_branch) h
        | inr (t, e) ↦ rw (e, exec_branch) (ground arith)
      ]

  pub exec_auipc-Kept : (i : ℕ) → Kept n (exec_auipc p i)
  unfolding exec_auipc reg_write
  exec_auipc-Kept i = ground arith

  pub exec_lui-Kept : (i : ℕ) → Kept n (exec_lui p i)
  unfolding exec_lui reg_write
  exec_lui-Kept i = ground arith

  pub exec_jal-Kept : (i : ℕ) → Kept n (exec_jal p i)
  unfolding exec_jal reg_write
  exec_jal-Kept i = ground arith

  pub exec_jalr-Kept : (i : ℕ) → Kept n (exec_jalr p i)
  unfolding exec_jalr reg_write
  exec_jalr-Kept i = ground arith
