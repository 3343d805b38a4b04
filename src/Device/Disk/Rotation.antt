-- ===== src/Device/Disk/Rotation.antt =====
-- The rotation of a disk.
use uriscv.Prelude.{ℕ, ◌+◌, ◌-◌, ◌%◌, ◌<◌, ◌≡◌, Bool-cases, inl, inr, ltb, arith}
use native.Mathlib.Nat.{add-mod_left, mod-eq_of_lt}
use uriscv.Device.Disk.{sectors_between}

-- After the sector under the head and the ones between have passed, the wanted one is under the head.
sectors_between_lem :
    (curr_sect sect sect_num : ℕ)
    → curr_sect < sect_num
    → sect < sect_num
    → (curr_sect + 1 + sectors_between curr_sect sect sect_num) % sect_num ≡ sect
unfolding sectors_between
sectors_between_lem c s n h k = elim (Bool-cases (ltb c s)) [
  | inl ahead ↦
      let meets : c + 1 + (s - c - 1) ≡ s = ground (arith, ahead) in
      rw (ahead, meets) (mod-eq_of_lt k)
  | inr behind ↦
      let meets : c + 1 + (n - 1 - (c - s)) ≡ n + s = ground (arith, behind, h) in
      rw (behind, meets, add-mod_left n s) (mod-eq_of_lt k)
]
