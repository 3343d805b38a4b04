-- ===== src/Stop/Tests.antt =====
-- The laws of stop points on two ranges, one address space apart.
use uriscv.Prelude.{◌≡◌, refl, some, [], ◌∷◌, arith, true, inl, inr}
use uriscv.Outcome.{runs}
use uriscv.Stop.{
  StoppointSet, AddressRange, probe, add, deref, can_insert, no_overlap, overlaps, contains,
  less_than,
}
use uriscv.Stop.Probing.{IsWellFormed, probe-scan, scan}
use uriscv.Stop.Insertion.{add-IsWellFormed, probe-add, made}

abbrev code : AddressRange
code = record { asid = 64; start = 100; last = 120 }

abbrev data_words : AddressRange
data_words = record { asid = 64; start = 200; last = 203 }

abbrev stack : AddressRange
stack = record { asid = 64; start = 150; last = 160 }

abbrev two_ranges : StoppointSet
two_ranges = record {
  points =
      record { addr = 2; id = 0; enabled = true; range = data_words; access_mode = 6 }
      ∷ record { addr = 1; id = 1; enabled = true; range = code; access_mode = 1 }
      ∷ [];
  address_map = record { key = code; target = 1 } ∷ record { key = data_words; target = 2 } ∷ [];
}

two_ranges-IsWellFormed : IsWellFormed two_ranges
unfolding deref less_than overlaps
two_ranges-IsWellFormed = record {
  sorted = (
    omega arith,
    (record { below = refl; apart = refl; filled = omega arith }, tt),
    (omega arith, tt, tt),
  );
  leads = ((_, refl, refl), ((_, refl, refl), tt));
  listed = ((_, inr (inl refl), refl, refl, refl), ((_, inl refl, refl, refl, refl), tt));
}

probe-scan_example : probe two_ranges 64 110 1 ≡ runs (scan 64 110 1 two_ranges.points)
probe-scan_example = probe-scan 64 110 1 two_ranges two_ranges-IsWellFormed

add-IsWellFormed_example : IsWellFormed (add 3 two_ranges stack 2 2 true).0
unfolding deref
add-IsWellFormed_example =
    add-IsWellFormed two_ranges stack 3 2 2 true two_ranges-IsWellFormed refl (omega arith)

probe-add_example :
    ((add 3 two_ranges stack 2 2 true).1 ≡ true)
    × (probe (add 3 two_ranges stack 2 2 true).0 64 155 2
        ≡ runs (some (2, made 3 two_ranges stack 2 2 true)))
unfolding deref can_insert no_overlap overlaps contains
probe-add_example =
    probe-add two_ranges stack 3 2 2 two_ranges-IsWellFormed refl (omega arith) refl 64 155 2 refl
      refl
