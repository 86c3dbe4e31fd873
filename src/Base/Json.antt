-- ===== src/Base/Json.antt =====
-- JSON values as Python's `json` reads and writes them, the members of an object in order.
use amber_claw.Base.{ℕ, Bool, Option, none, some, String, if◌then◌else◌}
use amber_claw.Base.Key.{text_key, ◌==◌}

mutual
  pub data Json : Type 0 where
    null : Json
    bool : Bool → Json
    number : ℕ → Json
    text : String → Json
    array : Items → Json
    object : Members → Json

  pub data Items : Type 0 where
    nil : Items
    cons : Json → Items → Items

  pub data Members : Type 0 where
    end : Members
    member : String → Json → Members → Members

-- `d.get(key)` on the members of an object: `none` is a missing key.
unfoldable pub find : String → Members → Option Json
find key end = none
find key (member k v ms) = let rest = find key ms in if k == key then some v else rest

-- A chain of readings, each of which may raise: `none` is any exception.
infixl 5 ◌>>=◌
abbrev pub ◌>>=◌ {ℓ κ} : {A : Type ℓ} {B : Type κ} → Option A → (A → Option B) → Option B
none >>= f = none
some a >>= f = f a

-- `d[key]`, of a value that is to be an object.
abbrev pub members : Json → Option Members
members (object ms) = some ms
members _ = none

abbrev pub as_text : Json → Option String
as_text (text s) = some s
as_text _ = none

abbrev pub as_bool : Json → Option Bool
as_bool (bool b) = some b
as_bool _ = none

abbrev pub as_number : Json → Option ℕ
as_number (number n) = some n
as_number _ = none

-- A value that may be null.
abbrev pub or_null {ℓ} : {A : Type ℓ} → (Json → Option A) → Json → Option (Option A)
or_null read null = some none
or_null read j = read j >>= λ a. some (some a)

-- `d.get(key, default)`
abbrev pub get_default {ℓ} : {A : Type ℓ} → (Json → Option A) → A → Option Json → Option A
get_default read d none = some d
get_default read d (some j) = read j

abbrev pub opt_number : Option ℕ → Json
opt_number none = null
opt_number (some n) = number n

abbrev pub opt_text : Option String → Json
opt_text none = null
opt_text (some s) = text s
