-- ===== src/Word/Tests.antt =====
-- The laws of the word operations on concrete words.
use uriscv.Prelude.{◌+◌, ◌*◌, ◌^◌, ◌<◌, ◌≡◌, ◌↔◌, arith}
use uriscv.Word.Mult.{uns_mult}
use uriscv.Word.Mult.Laws.{middle, uns_mult_exact_iff}

-- The cross products of this pair leave 32 bits.
uns_mult_exact_iff_example :
    ((uns_mult 0xffffffff 0xffffffff).high * 2 ^ 32 + (uns_mult 0xffffffff 0xffffffff).low
      ≡ 0xffffffff * 0xffffffff)
    ↔ (middle 0xffffffff 0xffffffff < 2 ^ 32)
uns_mult_exact_iff_example = uns_mult_exact_iff 0xffffffff 0xffffffff (omega arith) (omega arith)
