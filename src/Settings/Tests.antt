-- ===== src/Settings/Tests.antt =====
-- A configuration that is read, and the theorems at it.
use vpverk.Base.{String, ◌≡◌, refl, true, none, some, [], ◌∷◌, ◌↔◌}
use vpverk.Effect.{ok}
use vpverk.Rsa.{Checked, good, RsaKey, private_key}
use vpverk.Rsa.Box.{box_key}
use vpverk.Settings.{
  Login, less, sort, lower_bound, binary_search, SettingsSnapshot, Json, read, get_settings,
}
use vpverk.Settings.Order.{Occurs}
use vpverk.Settings.Snapshot.{IsComplete, read-get_settings}

abbrev ann : Login
ann = b'a' ∷ b'n' ∷ b'n' ∷ []

abbrev bob : Login
bob = b'b' ∷ b'o' ∷ b'b' ∷ []

abbrev conf : Json
conf = record {
  port = some 443;
  max_alive_time = some 3600;
  private_key_path = some "private.pem";
  allowed_logins = some (bob ∷ ann ∷ []);
}

abbrev pem : String → Checked RsaKey
pem path = good (record { key_type = private_key; key = box_key })

abbrev blank : SettingsSnapshot
blank = record { allowed_logins = []; private_key = none; port = 0; max_alive_time = 77 }

abbrev conf_complete : IsComplete conf pem
conf_complete = record {
  port = 443;
  alive = 3600;
  path = "private.pem";
  key = record { key_type = private_key; key = box_key };
  first = bob;
  others = ann ∷ [];
  has_port = refl;
  has_alive = refl;
  has_path = refl;
  has_key = refl;
  has_logins = refl;
}

search-ann : binary_search (sort (bob ∷ ann ∷ [])) ann ≡ true
unfolding binary_search lower_bound sort less
search-ann = refl

read-get_settings_example :
    ((read (some conf) pem blank).0 ≡ ok tt)
    × (let t = get_settings 5 (read (some conf) pem blank).1 in
        (t.port ≡ 443)
        × (t.private_key ≡ some (record { key_type = private_key; key = box_key }))
        × ((x : Login) → (binary_search t.allowed_logins x ≡ true) ↔ Occurs x (bob ∷ ann ∷ [])))
read-get_settings_example = read-get_settings conf pem conf_complete blank 5
