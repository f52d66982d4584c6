-- ===== src/Settings.antt =====
-- src/server/contexts/settings.cpp and src/server/types/settingssnapshot.hpp: the configuration, and the
-- sorted list of logins that `authenticateUser` searches.
pub mod Order
pub mod Logins
pub mod Returns
pub mod Snapshot
mod Tests
use vpverk.Base.{
  ℕ, zero, suc, ◌+◌, ◌-◌, ◌/◌, ◌%◌, ◌^◌, String, Bool, true, false, not, Option, none, some, List,
  [], ◌∷◌, length, get_elem?, ltb, ◌==◌, if◌then◌else◌,
}
use vpverk.Effect.{
  Exception, runtime_error, Outcome, ok, throw, abort, unfinished, M, continue, ◌>>=◌, ◌>>◌,
}
use vpverk.Rsa.{Checked, good, bad, RsaKey}

-- A login is its bytes.
abbrev pub Login : Type 0
Login = List ℕ

-- `operator<` of std::string: lexicographic by bytes.
unfoldable pub less : Login → Login → Bool
less x [] = false
less [] (b ∷ y) = true
less (a ∷ x) (b ∷ y) =
    let rest = less x y in if ltb a b then true else if ltb b a then false else rest

-- `std::sort` on the logins: as equal logins cannot be told apart, its result is this one.
insert : Login → List Login → List Login
insert x [] = x ∷ []
insert x (y ∷ ys) = let rest = insert x ys in if less y x then y ∷ rest else x ∷ y ∷ ys

unfoldable pub sort : List Login → List Login
unfolding insert
sort [] = []
sort (x ∷ xs) = insert x (sort xs)

-- `std::ranges::lower_bound`: the first position in `first`, …, `first + len - 1` that is not less.
unfoldable pub lower_bound : ℕ → List Login → Login → ℕ → ℕ → ℕ
lower_bound zero xs x first len = first
lower_bound (suc fuel) xs x first len =
    let half = len / 2 in
    let mid = first + half in
    let right = lower_bound fuel xs x (mid + 1) (len - half - 1) in
    let left = lower_bound fuel xs x first half in
    if len == 0
    then first
    else elim (get_elem? xs mid) [ none ↦ first | some y ↦ if less y x then right else left ]

-- `std::ranges::binary_search`
unfoldable pub binary_search : List Login → Login → Bool
binary_search xs x = elim (get_elem? xs (lower_bound (suc (length xs)) xs x 0 (length xs))) [
  | none ↦ false
  | some y ↦ not (less x y)
]

-- `SettingsSnapshot`. The reference count is private to each copy and read by nobody.
pub record SettingsSnapshot : Type 0 where
  pub allowed_logins : List Login
  pub private_key : Option RsaKey
  pub port : ℕ
  pub max_alive_time : ℕ

-- The copy and move constructors and assignments: they give over three of the four fields.
-- `max_alive_time` of the new object keeps the value `old` that it has, which after construction
-- is indeterminate.
unfoldable copy_snapshot : ℕ → SettingsSnapshot → SettingsSnapshot
copy_snapshot old s = record {
  allowed_logins = s.allowed_logins;
  private_key = s.private_key;
  port = s.port;
  max_alive_time = old;
}

-- What the JSON document holds at the keys that `read` asks for, after the conversions of the JSON
-- library; `none` where `at` or `get` throws.
pub record Json : Type 0 where
  pub port : Option ℕ
  pub max_alive_time : Option ℕ
  pub private_key_path : Option String
  pub allowed_logins : Option (List Login)

abbrev at : {A : Type 0} → String → Option A → M SettingsSnapshot A
at key (some a) s = (ok a, s)
at key none s = (throw (runtime_error key), s)

abbrev put : (SettingsSnapshot → SettingsSnapshot) → M SettingsSnapshot (Unit {0})
put f s = (ok tt, f s)

abbrev key_or_throw : Checked RsaKey → M SettingsSnapshot RsaKey
key_or_throw (good k) s = (ok k, s)
key_or_throw (bad e) s = (throw (runtime_error "Failed to read private key: "), s)

abbrev not_empty : List Login → M SettingsSnapshot (List Login)
not_empty [] s = (throw (runtime_error "logins list appears to be empty"), s)
not_empty (x ∷ xs) s = (ok (x ∷ xs), s)

-- `Settings::read`, on the document (`none`: the file cannot be opened) and on what
-- `RsaKey::from_pem_file` gives for a path.
unfoldable pub read : Option Json → (String → Checked RsaKey) → M SettingsSnapshot (Unit {0})
unfolding sort
read none pem s = (throw (runtime_error "Failed to open config file: "), s)
read (some js) pem s =
    (do
      p ← at "port" js.port
      put λ t. record t { port = p }
      m ← at "max_alive_time" js.max_alive_time
      put λ t. record t { max_alive_time = m }
      path ← at "private_key_path" js.private_key_path
      k ← key_or_throw (pem path)
      put λ t. record t { private_key = some k }
      logins ← at "allowed_logins" js.allowed_logins
      sorted ← not_empty (sort logins)
      put λ t. record t { allowed_logins = sorted })
      s

-- `Settings::get_settings`: the snapshot that it hands over is a copy.
unfoldable pub get_settings : ℕ → SettingsSnapshot → SettingsSnapshot
unfolding copy_snapshot
get_settings junk current = copy_snapshot junk current
