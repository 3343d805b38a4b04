-- ===== src/Config/Devices/Distinct.antt =====
-- The keys of devices, of which no two are the same.
use uriscv.Prelude.{◌≡◌, refl, Bool, true, false, ◌&&◌, ◌||◌, List, [], ◌∷◌, inl, inr, ◌⊎◌}
use uriscv.Stop.Order.{All}
use uriscv.Json.{Bytes, key_less}
use uriscv.Config.{DeviceKey, device_keys}

-- Keys that are not the same.
abbrev pub Apart : Bytes → Bytes → Type 0
Apart j k = (key_less j k ≡ true) ⊎ (key_less k j ≡ true)

pub swap : (j k : Bytes) → Apart j k → Apart k j
swap j k (inl h) = inr h
swap j k (inr h) = inl h

abbrev pub Separate : List DeviceKey → Type 0
Separate [] = Unit {0}
Separate (k ∷ ks) = All (λ j. Apart k.key j.key) ks × Separate ks

all_apart : Bytes → List DeviceKey → Bool
all_apart k [] = true
all_apart k (j ∷ ks) = (key_less k j.key || key_less j.key k) && all_apart k ks

separate : List DeviceKey → Bool
unfolding all_apart
separate [] = true
separate (k ∷ ks) = all_apart k.key ks && separate ks

both : (a b : Bool) → (a && b) ≡ true → (a ≡ true) × (b ≡ true)
both true b h = (refl, h)
both false b h = absurd cc

either : (a b : Bool) → (a || b) ≡ true → (a ≡ true) ⊎ (b ≡ true)
either true b h = inl refl
either false b h = inr h

all_apart-All :
    (k : Bytes) (ks : List DeviceKey) → all_apart k ks ≡ true → All (λ j. Apart k j.key) ks
unfolding all_apart
all_apart-All k [] h = tt
all_apart-All k (j ∷ ks) h =
    let (a, b) = both (key_less k j.key || key_less j.key k) (all_apart k ks) h in
    (either (key_less k j.key) (key_less j.key k) a, all_apart-All k ks b)

separate-Separate : (ks : List DeviceKey) → separate ks ≡ true → Separate ks
unfolding separate
separate-Separate [] h = tt
separate-Separate (k ∷ ks) h =
    let (a, b) = both (all_apart k.key ks) (separate ks) h in
    (all_apart-All k.key ks a, separate-Separate ks b)

pub device_keys-Separate : Separate device_keys
unfolding separate key_less
device_keys-Separate = separate-Separate device_keys refl
