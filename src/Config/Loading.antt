-- ===== src/Config/Loading.antt =====
-- The steps of loading, one after the other.
use uriscv.Prelude.{ap, ◌∙◌, ◌≡◌, Option, none, some}
use uriscv.Json.{Bytes, JsonNode, Members, get_member}
use uriscv.Config.{Load, loaded, invalid, uncaught, ◌>>=◌, checked}
use uriscv.Config.Files.{optional}

-- A step of loading that ends well.
pub loaded_lem :
    {A B : Type 0} (o : Load A) (f : A → Load B) (a : A) → o ≡ loaded a → (o >>= f) ≡ f a
unfolding ◌>>=◌
loaded_lem o f a e = ap (λ x. x >>= f) e

module _ {A S : Type 0} (key : Bytes) (read : JsonNode → Option A) (set : A → S → Load S)
    (ms : Members) (m : S) where
  pub optional-none : get_member key ms ≡ none → optional key read set ms m ≡ loaded m
  unfolding optional
  optional-none e =
      ap (λ o. elim o [ none ↦ loaded m | some v ↦ checked (read v) >>= (λ a. set a m) ]) e

  pub optional-some :
      (v : JsonNode) (a : A)
      → get_member key ms ≡ some v
      → read v ≡ some a
      → optional key read set ms m ≡ set a m
  unfolding optional ◌>>=◌
  optional-some v a e g =
      ap (λ o. elim o [ none ↦ loaded m | some v ↦ checked (read v) >>= (λ a. set a m) ]) e
      ∙ ap (λ o. checked o >>= (λ a. set a m)) g

-- What is loaded has a property.
unfoldable pub Loads : {S : Type 0} → (S → Type 0) → Load S → Type 0
Loads P (loaded s) = P s
Loads P invalid = Unit {0}
Loads P uncaught = Unit {0}

pub Loads-bind :
    {A S : Type 0} (P : A → Type 0) (Q : S → Type 0) (o : Load A) (f : A → Load S)
    → Loads P o
    → ((a : A) → P a → Loads Q (f a))
    → Loads Q (o >>= f)
unfolding Loads ◌>>=◌
Loads-bind P Q (loaded a) f h g = g a h
Loads-bind P Q invalid f h g = tt
Loads-bind P Q uncaught f h g = tt

pub Loads-checked :
    {A S : Type 0} (Q : S → Type 0) (o : Option A) (f : A → Load S)
    → ((a : A) → Loads Q (f a))
    → Loads Q (checked o >>= f)
unfolding Loads ◌>>=◌
Loads-checked Q none f h = tt
Loads-checked Q (some a) f h = h a

pub Loads-optional :
    {A S : Type 0} (Q : S → Type 0) (key : Bytes) (read : JsonNode → Option A)
    (set : A → S → Load S) (ms : Members) (m : S)
    → Q m
    → ((a : A) → Loads Q (set a m))
    → Loads Q (optional key read set ms m)
unfolding Loads ◌>>=◌ optional
Loads-optional Q key read set ms m h g =
    elim (get_member key ms)
      as (λ o.
        Loads Q (elim o [ none ↦ loaded m | some v ↦ checked (read v) >>= (λ a. set a m) ])) [
          | none ↦ h
          | some v ↦ Loads-checked Q (read v) (λ a. set a m) g
        ]

pub Loads-any : {S : Type 0} (o : Load S) → Loads (λ x. Unit {0}) o
unfolding Loads
Loads-any (loaded s) = tt
Loads-any invalid = tt
Loads-any uncaught = tt
