-- ===== src/Rsa/Box.antt =====
-- A pair of keys in a box, which shows that the laws of `IsPair` can be met: a text of up to 255
-- bytes is put behind its length and filled up with zeros.
use vpverk.Base.{
  ℕ, ◌-◌, ◌≡◌, refl, ◌≤◌, ◌∙◌, ap, sym, true, none, some, List, [], ◌∷◌, ◌++◌, length, take,
  replicate, leb, if◌then◌else◌, arith, length-append, length-replicate, take-append_self,
}
use vpverk.Rsa.{Pkey}
use vpverk.Rsa.Pair.{IsReady, IsPair}

abbrev wrap : List ℕ → List ℕ
wrap x = length x ∷ x ++ replicate (255 - length x) 0

abbrev unwrap : List ℕ → List ℕ
unwrap [] = []
unwrap (n ∷ y) = take n y

abbrev pub box_key : Pkey
box_key = record {
  new_ctx = true;
  decrypt_init = true;
  encrypt_init = true;
  set_padding = true;
  set_oaep_md = true;
  decrypt_size = λ y. some 256;
  decrypt_text = λ y. some (unwrap y);
  encrypt_size = λ x. some 256;
  encrypt_text = λ x. if leb (length x) 255 then some (wrap x) else none;
}

box-IsReady : IsReady box_key
box-IsReady = record { ctx = refl; dec = refl; enc = refl; pad = refl; md = refl }

wrapped : (x y : List ℕ) → box_key.encrypt_text x ≡ some y → (length x ≤ 255) × (wrap x ≡ y)
wrapped x y e = ground arith

box_long : (x y : List ℕ) → box_key.encrypt_text x ≡ some y → length y ≡ 256
box_long x y e =
    let (small, same) = wrapped x y e in
    sym (ap length same)
    ∙ (let l : length (wrap x) ≡ 256 = omega (
      arith,
      length-append x (replicate (255 - length x) 0),
      length-replicate {A = ℕ} (255 - length x) 0,
    ) in
        l)

box_opens : (x y : List ℕ) → box_key.encrypt_text x ≡ some y → box_key.decrypt_text y ≡ some x
box_opens x y e =
    let (small, same) = wrapped x y e in
    rw (← same) (ap some (take-append_self x (replicate (255 - length x) 0)))

pub box-IsPair : IsPair box_key box_key
box-IsPair = record {
  priv_ready = box-IsReady;
  pub_ready = box-IsReady;
  decrypt_bound = λ y. refl;
  encrypt_bound = λ x. refl;
  long = box_long;
  opens = box_opens;
}
