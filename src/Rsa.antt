-- ===== src/Rsa.antt =====
-- src/shared/cvkrsa.hpp: RSA-OAEP encryption and decryption with a key of either kind.
pub mod Pair
pub mod Box
use vpverk.Base.{
  ℕ, ◌≡◌, ◌≤◌, String, Bool, not, Option, none, some, List, length, ltb, ◌==◌, if◌then◌else◌,
}
use vpverk.Effect.{Outcome, ok, abort}

-- `tl::expected<A, std::string>`
pub data Checked {ℓ} (A : Type ℓ) : Type ℓ where
  good : A → Checked A
  bad : String → Checked A

-- What OpenSSL's EVP_PKEY calls answer for one key: whether each set-up call succeeds, the size
-- that a call with no out buffer reports, and the text that a call with one gives (`none` for a
-- result that is not positive).
pub record Pkey : Type 0 where
  pub new_ctx : Bool
  pub decrypt_init : Bool
  pub encrypt_init : Bool
  pub set_padding : Bool
  pub set_oaep_md : Bool
  pub decrypt_size : List ℕ → Option ℕ
  pub decrypt_text : List ℕ → Option (List ℕ)
  pub encrypt_size : List ℕ → Option ℕ
  pub encrypt_text : List ℕ → Option (List ℕ)

-- `RsaKeyType`
pub data RsaKeyType : Type 0 where
  private_key public_key : RsaKeyType

abbrev is_private : RsaKeyType → Bool
is_private private_key = Bool.true
is_private public_key = Bool.false

pub record RsaKey : Type 0 where
  pub key_type : RsaKeyType
  pub key : Pkey

-- `from_pem_file`; `opened` says whether the file could be opened, and `parsed` what the PEM reader
-- for that kind of key gave.
unfoldable pub from_pem_file : Bool → Option Pkey → RsaKeyType → Checked RsaKey
from_pem_file opened parsed t = if not opened then bad "cannot open " else elim parsed [
  | none ↦
      bad (
        if is_private t
        then "failed to parse private key PEM"
        else "failed to parse public key PEM")
  | some k ↦ good (record { key_type = t; key = k })
]

-- The two calls with and without an out buffer, for either direction; the result is the text, and
-- its length is what the code returns.
fill : String → String → String → Option ℕ → Option (List ℕ) → ℕ → Checked (List ℕ)
fill no_size too_long no_text none text size = bad no_size
fill no_size too_long no_text (some n) none size = if ltb size n then bad too_long else bad no_text
fill no_size too_long no_text (some n) (some x) size = if ltb size n then bad too_long else good x

unfoldable pub decrypt : RsaKey → List ℕ → ℕ → Outcome (Checked (List ℕ))
unfolding fill
decrypt r x size =
    if not (length x == 256)
    then abort "cussert: in.size() == 256"
    else ok (
        if not (is_private r.key_type)
        then bad "decrypt requires private key"
        else if not r.key.new_ctx
        then bad "CTX alloc failed"
        else if not r.key.decrypt_init
        then bad "decrypt_init failed"
        else if not r.key.set_padding
        then bad "set_padding failed"
        else if not r.key.set_oaep_md
        then bad "set_oaep_md failed"
        else fill "get outlen (decrypt) fail" "buffer size (decrypt len > buffer.size)"
            "get decrypt fail" (r.key.decrypt_size x) (r.key.decrypt_text x) size)

unfoldable pub encrypt : RsaKey → List ℕ → ℕ → Checked (List ℕ)
unfolding fill
encrypt r x size =
    if is_private r.key_type
    then bad "encrypt requires public key"
    else if not r.key.new_ctx
    then bad "CTX alloc failed"
    else if not r.key.encrypt_init
    then bad "encrypt_init failed"
    else if not r.key.set_padding
    then bad "set_padding failed"
    else if not r.key.set_oaep_md
    then bad "set_oaep_md failed"
    else fill "get outlen (encrypt) fail" "buffer size (encrypt len > buffer.size)"
        "get encrypt fail" (r.key.encrypt_size x) (r.key.encrypt_text x) size
