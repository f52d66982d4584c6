-- ===== src/Settings/Snapshot.antt =====
-- What the sessions see of the configuration that was read.
use vpverk.Base.{ℕ, String, ◌≡◌, refl, true, some, List, [], ◌∷◌, Bool-cases, inl, inr, ◌↔◌, ◌≢◌}
use vpverk.Effect.{ok}
use vpverk.Rsa.{Checked, good, RsaKey}
use vpverk.Settings.{
  Login, less, insert, sort, binary_search, SettingsSnapshot, Json, read, get_settings,
}
use vpverk.Settings.Order.{Occurs, Occurs-sort, sort-IsSorted}
use vpverk.Settings.Logins.{binary_search-iff-Occurs}

-- A configuration with every entry, at least one login, and a key that can be read.
pub record IsComplete (js : Json) (pem : String → Checked RsaKey) : Type 0 where
  pub port : ℕ
  pub alive : ℕ
  pub path : String
  pub key : RsaKey
  pub first : Login
  pub others : List Login
  pub has_port : js.port ≡ some port
  pub has_alive : js.max_alive_time ≡ some alive
  pub has_path : js.private_key_path ≡ some path
  pub has_key : pem path ≡ good key
  pub has_logins : js.allowed_logins ≡ some (first ∷ others)

insert_cons :
    (x : Login) (ys : List Login) → (z : Login) × (zs : List Login) × (insert x ys ≡ z ∷ zs)
unfolding insert
insert_cons x [] = (x, [], refl)
insert_cons x (y ∷ ys) = elim (Bool-cases (less y x)) [
  | inl lt ↦ (y, insert x ys, rw lt)
  | inr ge ↦ (x, y ∷ ys, rw ge)
]

module _ (js : Json) (pem : String → Checked RsaKey) (c : IsComplete js pem)
    (s : SettingsSnapshot) where
  read_complete : read (some js) pem s ≡ (
    ok tt,
    record {
      allowed_logins = sort (c.first ∷ c.others);
      private_key = some c.key;
      port = c.port;
      max_alive_time = c.alive;
    },
  )
  unfolding read
  read_complete =
      let (z, zs, e) = insert_cons c.first (sort c.others) in
      simp (c.has_port, c.has_alive, c.has_path, c.has_key, c.has_logins, sort, e)

  -- A complete configuration is read, whatever was there before. The copies that the sessions get
  -- have its port and its key, and a login is found in their list by the binary search exactly if
  -- the configuration names it, in whatever order it does.
  pub read-get_settings :
      (junk : ℕ)
      → ((read (some js) pem s).0 ≡ ok tt)
        × (let t = get_settings junk (read (some js) pem s).1 in
            (t.port ≡ c.port)
            × (t.private_key ≡ some c.key)
            × ((x : Login)
                → (binary_search t.allowed_logins x ≡ true) ↔ Occurs x (c.first ∷ c.others)))
  unfolding get_settings
  read-get_settings junk = rw read_complete (
    refl,
    (
      refl,
      refl,
      λ x.
          let logins = c.first ∷ c.others in
          let (found, finds) = binary_search-iff-Occurs (sort logins) x (sort-IsSorted logins) in
          let (forth, back) = Occurs-sort x logins in (λ h. forth (found h), λ o. finds (back o)),
    ),
  )

  -- After a complete configuration was read, the bound on the age of a session does not arrive: each
  -- copy has an indeterminate one, `junk`, and not the one configured if the two differ.
  get_settings-loses_alive :
      (junk : ℕ)
      → junk ≢ c.alive
      → (get_settings junk (read (some js) pem s).1).max_alive_time
        ≢ (read (some js) pem s).1.max_alive_time
  unfolding get_settings
  get_settings-loses_alive junk ne = rw read_complete ne
