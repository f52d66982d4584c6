-- ===== src/Settings/Returns.antt =====
-- `Settings::read` (src/server/contexts/settings.cpp) returns or throws.
use vpverk.Base.{String, Option, none, some, List, [], ◌∷◌}
use vpverk.Effect.{Outcome, continue, M}
use vpverk.Effect.Post.{Post, continue-Post}
use vpverk.Rsa.{Checked, good, bad, RsaKey}
use vpverk.Settings.{Json, Login, SettingsSnapshot, at, key_or_throw, not_empty, sort, read}

abbrev pub Any : {A T : Type 0} → A → T → Type 0
Any a t = Unit {0}

at-Any :
    {A : Type 0} (key : String) (o : Option A) (s : SettingsSnapshot) → Post Any Any (at key o s)
at-Any key none s = tt
at-Any key (some a) s = tt

key_or_throw-Any : (k : Checked RsaKey) (s : SettingsSnapshot) → Post Any Any (key_or_throw k s)
key_or_throw-Any (good k) s = tt
key_or_throw-Any (bad e) s = tt

not_empty-Any : (ls : List Login) (s : SettingsSnapshot) → Post Any Any (not_empty ls s)
not_empty-Any [] s = tt
not_empty-Any (l ∷ ls) s = tt

abbrev and_then :
    {A B : Type 0} (f : A → M SettingsSnapshot B) (x : Outcome A × SettingsSnapshot)
    → Post Any Any x
    → ((a : A) (s : SettingsSnapshot) → Post Any Any (f a s))
    → Post Any Any (continue f x)
and_then f x h k = continue-Post Any Any Any f x h (λ a s u. k a s)

pub read-Any :
    (js : Option Json) (pem : String → Checked RsaKey) (s : SettingsSnapshot)
    → Post Any Any (read js pem s)
unfolding read
read-Any none pem s = tt
read-Any (some js) pem s = and_then _ _ (at-Any "port" js.port s) λ p s.
    and_then _ _ (at-Any "max_alive_time" js.max_alive_time _) λ m s.
      and_then _ _ (at-Any "private_key_path" js.private_key_path _) λ path s.
        and_then _ _ (key_or_throw-Any (pem path) s) λ k s.
          and_then _ _ (at-Any "allowed_logins" js.allowed_logins _)
            λ ls s. and_then _ _ (not_empty-Any (sort ls) s) λ sorted s. tt
