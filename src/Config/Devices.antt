-- ===== src/Config/Devices.antt =====
-- The devices of a configuration, saved and loaded.
pub mod Distinct
use uriscv.Prelude.{
  ℕ, ◌%◌, ◌<◌, ◌≡◌, refl, sym, ◌∙◌, ap, Bool, true, false, ◌&&◌, ◌||◌, List, [], ◌∷◌, map, Option,
  none, some, if◌then◌else◌, length, Bool-cases, inl, inr, ◌⊎◌, arith,
}
use uriscv.Stop.Order.{All}
use uriscv.Json.{Bytes, JsonNode, Members, object, no_members, key_less, set_member, get_member}
use uriscv.Json.Types.{as_object}
use uriscv.Json.Keys.{IsSorted, set_member-IsSorted, get_member-set_member, get_member-set_other}
use uriscv.Config.{
  DeviceSlot, DeviceKey, device_keys, Load, loaded, ◌>>=◌, checked, parse_groups, mac_id_to_string,
}
use uriscv.Config.Files.{
  optional, load_device, load_devices, is_unset, device_object, save_devices, no_device,
}
use uriscv.Config.Devices.Distinct.{Apart, Separate, swap, device_keys-Separate}
use uriscv.Config.Loading.{loaded_lem, optional-none, optional-some}

-- What is found under each key.
abbrev Finds : Members → List DeviceKey → List DeviceSlot → Type 0
Finds final [] ds = Unit {0}
Finds final (k ∷ ks) [] = Unit {0}
Finds final (k ∷ ks) (d ∷ ds) =
    (get_member k.key final ≡ (if is_unset d.file then none else some (object (device_object k d))))
    × Finds final ks ds

abbrev with_device : DeviceKey → DeviceSlot → Members → Members
with_device k d acc =
    if is_unset d.file then acc else set_member k.key (object (device_object k d)) acc

module _ (k : DeviceKey) (d : DeviceSlot) (acc : Members) where
  with_device-IsSorted : IsSorted acc → IsSorted (with_device k d acc)
  with_device-IsSorted h = elim (Bool-cases (is_unset d.file)) [
    | inl e ↦ rw e h
    | inr f ↦ rw f (set_member-IsSorted k.key (object (device_object k d)) acc h)
  ]

  with_device-other :
      (j : Bytes)
      → IsSorted acc
      → Apart j k.key
      → get_member j (with_device k d acc) ≡ get_member j acc
  with_device-other j h a = elim (Bool-cases (is_unset d.file)) [
    | inl e ↦ rw e refl
    | inr f ↦ rw f (get_member-set_other j k.key (object (device_object k d)) acc h a)
  ]

  with_device-found :
      get_member k.key acc ≡ none
      → get_member k.key (with_device k d acc)
        ≡ (if is_unset d.file then none else some (object (device_object k d)))
  with_device-found m = elim (Bool-cases (is_unset d.file)) [
    | inl e ↦ rw e m
    | inr f ↦ rw f (get_member-set_member k.key (object (device_object k d)) acc)
  ]

-- Keys that are not there yet.
abbrev Missing : Members → List DeviceKey → Type 0
Missing acc ks = All (λ k. get_member k.key acc ≡ none) ks

with_device-Missing :
    (k : DeviceKey) (d : DeviceSlot) (acc : Members) (ks : List DeviceKey)
    → IsSorted acc
    → All (λ j. Apart k.key j.key) ks
    → Missing acc ks
    → Missing (with_device k d acc) ks
with_device-Missing k d acc [] h a m = tt
with_device-Missing k d acc (j ∷ ks) h (a, others) (m, ms) = (
  with_device-other k d acc j.key h (swap k.key j.key a) ∙ m,
  with_device-Missing k d acc ks h others ms,
)

save_devices-other :
    (j : Bytes) (ks : List DeviceKey) (ds : List DeviceSlot) (acc : Members)
    → IsSorted acc
    → All (λ k. Apart j k.key) ks
    → get_member j (save_devices ks ds acc) ≡ get_member j acc
unfolding save_devices
save_devices-other j [] ds acc h a = refl
save_devices-other j (k ∷ ks) [] acc h a = refl
save_devices-other j (k ∷ ks) (d ∷ ds) acc h (a, others) =
    save_devices-other j ks ds (with_device k d acc) (with_device-IsSorted k d acc h) others
    ∙ with_device-other k d acc j h a

save_devices-Finds :
    (ks : List DeviceKey) (ds : List DeviceSlot) (acc : Members)
    → IsSorted acc
    → Separate ks
    → Missing acc ks
    → Finds (save_devices ks ds acc) ks ds
unfolding save_devices
save_devices-Finds [] ds acc h s m = tt
save_devices-Finds (k ∷ ks) [] acc h s m = tt
save_devices-Finds (k ∷ ks) (d ∷ ds) acc h (s, others) (m, ms) = (
  save_devices-other k.key ks ds (with_device k d acc) (with_device-IsSorted k d acc h) s
      ∙ with_device-found k d acc m,
  save_devices-Finds ks ds (with_device k d acc) (with_device-IsSorted k d acc h) others
      (with_device-Missing k d acc ks h s ms),
)

all-Missing : (ks : List DeviceKey) → Missing no_members ks
unfolding get_member
all-Missing [] = tt
all-Missing (k ∷ ks) = (refl, all-Missing ks)

-- An address that an interface can have: six bytes, the first of them even.
abbrev pub IsMacId : Bytes → Type 0
IsMacId [] = ⊥
IsMacId (b ∷ bs) = (b % 2 ≡ 0) × (length bs ≡ 5) × All (λ c. c < 256) (b ∷ bs)

-- Only network interfaces have one.
abbrev pub Addressed : Bool → Option Bytes → Type 0
Addressed ethernet none = Unit {0}
Addressed true (some id) = IsMacId id
Addressed false (some id) = ⊥

-- A device for each key.
abbrev pub Fit : List DeviceKey → List DeviceSlot → Type 0
Fit [] [] = Unit {0}
Fit [] (d ∷ ds) = ⊥
Fit (k ∷ ks) [] = ⊥
Fit (k ∷ ks) (d ∷ ds) = Addressed k.ethernet d.mac_id × Fit ks ds

-- What is left of a device: one without a file is not saved.
abbrev pub kept : DeviceSlot → DeviceSlot
kept d = if is_unset d.file then no_device else d

as_bytes : (bs : Bytes) → All (λ c. c < 256) bs → map (λ n. n % 256) bs ≡ bs
as_bytes [] h = refl
as_bytes (b ∷ bs) (h, hs) =
    let e : b % 256 ≡ b = omega (arith, h) in
    ap (λ x. x ∷ map (λ n. n % 256) bs) e ∙ ap (λ x. b ∷ x) (as_bytes bs hs)

parse_groups-IsMacId : (id : Bytes) → IsMacId id → parse_groups (some id) ≡ some id
unfolding parse_groups
parse_groups-IsMacId [] h = absurd h
parse_groups-IsMacId (b ∷ bs) (even, six, bytes) = rw even (ap some (as_bytes (b ∷ bs) bytes))

module _ (stoul : Bytes → Option ℕ) (scan_groups : Bytes → Option (List ℕ))
    (scanned : (id : Bytes) → IsMacId id → scan_groups (mac_id_to_string id) ≡ some id) where
  load_parts :
      (key : Bytes) (ethernet : Bool) (file : Bytes) (enabled : Bool) (mac_id : Option Bytes)
      → Addressed ethernet mac_id
      → (load_device stoul scan_groups
            (record { key = key; ethernet = ethernet })
            (device_object
              (record { key = key; ethernet = ethernet })
              (record { file = file; enabled = enabled; mac_id = mac_id }))
            no_device
          ≡ loaded (record { file = file; enabled = enabled; mac_id = mac_id }))
  unfolding load_device device_object ◌>>=◌ optional
  load_parts key false file enabled none h = refl
  load_parts key false file enabled (some id) h = absurd h
  load_parts key true file enabled none h = refl
  load_parts key true file enabled (some id) h =
      let bare : DeviceSlot = record { file = file; enabled = enabled; mac_id = none } in
      ap (λ o. loaded (elim o [ none ↦ bare | some i ↦ record bare { mac_id = some i } ]))
        (ap parse_groups (scanned id h) ∙ parse_groups-IsMacId id h)

  load_devices-Finds :
      (ks : List DeviceKey) (ds : List DeviceSlot) (final : Members)
      → Fit ks ds
      → Finds final ks ds
      → load_devices stoul scan_groups ks final (map (λ d. no_device) ds) ≡ loaded (map kept ds)
  unfolding load_devices
  load_devices-Finds [] [] final fit found = refl
  load_devices-Finds [] (d ∷ ds) final fit found = absurd fit
  load_devices-Finds (k ∷ ks) [] final fit found = absurd fit
  load_devices-Finds (k ∷ ks) (d ∷ ds) final (fits, fit) (found, others) =
      loaded_lem _ _ (kept d) (elim (Bool-cases (is_unset d.file)) [
        | inl e ↦
            optional-none k.key as_object (load_device stoul scan_groups k) final no_device
              (found ∙ ap (λ b. if b then none else some (object (device_object k d))) e)
            ∙ ap (λ b. loaded (if b then no_device else d)) (sym e)
        | inr f ↦
            optional-some k.key as_object (load_device stoul scan_groups k) final no_device
              (object (device_object k d)) (device_object k d)
              (found ∙ ap (λ b. if b then none else some (object (device_object k d))) f) refl
            ∙ load_parts k.key k.ethernet d.file d.enabled d.mac_id fits
            ∙ ap (λ b. loaded (if b then no_device else d)) (sym f)
      ])
      ∙ loaded_lem _ _ (map kept ds) (load_devices-Finds ks ds final fit others)

  -- Devices that are saved and loaded again into a new configuration.
  pub load_devices-save_devices :
      (ds : List DeviceSlot)
      → Fit device_keys ds
      → load_devices stoul scan_groups device_keys
          (save_devices device_keys ds no_members)
          (map (λ d. no_device) ds)
        ≡ loaded (map kept ds)
  load_devices-save_devices ds fit =
      load_devices-Finds device_keys ds (save_devices device_keys ds no_members) fit (
        save_devices-Finds device_keys ds no_members tt device_keys-Separate
          (all-Missing device_keys))
