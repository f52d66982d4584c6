-- ===== src/Client/Silence.antt =====
-- What the client makes of a size (`read_block_size`, src/client/async.cpp).
use vpverk.Base.{
  ℕ, ◌-◌, ◌^◌, ◌≡◌, refl, sym, ap, ◌∙◌, Bool, true, false, List, ◌++◌, length, ◌==◌, arith, ◌&&◌,
  Bool-cases, inl, inr,
}
use vpverk.Effect.{
  Exception, Expected, value, unexpected, eof, Outcome, ok, throw, abort, unfinished, continue,
  ◌>>=◌,
}
use vpverk.Effect.Post.{Post, Post-weaken, continue-Post}
use vpverk.Net.{
  Socket, read_some, read_some-ReadsAll, ReadsAll, read_some_unreliable, Reads, read_whole-Reads,
}
use vpverk.Aes.{Cipher, AesSession}
use vpverk.Aes
use vpverk.Connection.{number_of, error_prefix}
use vpverk.Session.{or_throw}
use vpverk.Client.{
  End, read_all, clear_size, size_or_error, read_block_size, same_bytes, server_error, after_text,
  on_sock,
}

module _ (C : Cipher) (S : Socket) where
  -- Nothing was sent, and nothing was written to the tunnel.
  pub record Quiet (e k : End C S) : Type 0 where
    pub nothing_sent : S.sent k.sock ≡ S.sent e.sock
    pub nothing_written : k.written ≡ e.written

  pub Quiet-trans : (e k j : End C S) → Quiet e k → Quiet k j → Quiet e j
  Quiet-trans e k j p q = record {
    nothing_sent = q.nothing_sent ∙ p.nothing_sent;
    nothing_written = q.nothing_written ∙ p.nothing_written;
  }

  -- A throw with nothing sent and nothing written.
  abbrev pub Refused : End C S → Exception → End C S → Type 0
  Refused e x k = Quiet e k

  -- `n` bytes arrived.
  pub record Arrived (n : ℕ) (e : End C S) (b : List ℕ) (k : End C S) : Type 0 where
    pub size : length b ≡ n
    pub arrived : S.received k.sock ≡ S.received e.sock ++ b
    pub same_aes : k.aes ≡ e.aes
    pub quiet : Quiet e k

  pub read_four-Arrived : (e : End C S) → Post (Arrived 4 e) (Refused e) (read_all C S 4 e)
  unfolding read_all
  read_four-Arrived e =
      go (read_some S 4 0 e.sock) (read_some-ReadsAll S 4 0 e.sock (omega arith)).0
    where
      go :
          (x : Outcome (Expected (List ℕ)) × S.State)
          → ReadsAll S 4 e.sock x
          → Post (Arrived 4 e) (Refused e) (continue (or_throw "") (x.0, record e { sock = x.1 }))
      go (ok (value b), t) (l, more, same) = record {
        size = l;
        arrived = more;
        same_aes = refl;
        quiet = record { nothing_sent = same; nothing_written = refl };
      }
      go (ok (unexpected c), t) (part, l, more, same) = record {
        nothing_sent = same;
        nothing_written = refl;
      }
      go (throw x, t) h = absurd h
      go (abort m, t) h = absurd h
      go (unfinished, t) h = absurd h

  -- The four bytes `b` in clear: under the session if there is one, else as they are.
  abbrev Shown : Bool → List ℕ → AesSession C → List ℕ → AesSession C → Type 0
  Shown true b a x a' = Aes.decrypt C b 4 a ≡ (value x, a')
  Shown false b a x a' = (x ≡ b) × (a' ≡ a)

  abbrev Cleared : Bool → List ℕ → End C S → List ℕ → End C S → Type 0
  Cleared used b e x k = Shown used b e.aes x k.aes × (k.sock ≡ e.sock) × Quiet e k

  clear-Cleared :
      (used : Bool) (b : List ℕ) (e : End C S)
      → Post (Cleared used b e) (Refused e) (clear_size C S used b e)
  unfolding clear_size
  clear-Cleared false b e =
      ((refl, refl), refl, record { nothing_sent = refl; nothing_written = refl })
  clear-Cleared true b e = go (Aes.decrypt C b 4 e.aes) refl
    where
      go :
          (x : Expected (List ℕ) × AesSession C)
          → Aes.decrypt C b 4 e.aes ≡ x
          → Post (Cleared true b e) (Refused e) (or_throw "" x.0 (record e { aes = x.1 }))
      go (value x, a) q = (q, refl, record { nothing_sent = refl; nothing_written = refl })
      go (unexpected c, a) q = record { nothing_sent = refl; nothing_written = refl }

  -- The number `n` is that of four bytes that arrived, in clear.
  pub record Sized (used : Bool) (e : End C S) (n : ℕ) (k : End C S) : Type 0 where
    pub b : List ℕ
    pub x : List ℕ
    pub long : length b ≡ 4
    pub shown : Shown used b e.aes x k.aes
    pub number : n ≡ number_of x
    pub arrived : S.received k.sock ≡ S.received e.sock ++ b
    pub quiet : Quiet e k

  -- A partial read of an error keeps the client quiet, and returns or is refused by the check.
  heard :
      (e k : End C S)
      → Quiet e k
      → Post (λ r j. Quiet e j) (Refused e) (on_sock C S (read_some_unreliable S 256 0) k)
  heard e k q =
      go (read_some_unreliable S 256 0 k.sock)
        (read_whole-Reads S 256 k.sock (omega arith) (omega arith))
    where
      go :
          (x : Outcome (Expected (List ℕ)) × S.State)
          → Reads S 256 k.sock x
          → Post (λ r j. Quiet e j) (Refused e) (x.0, record k { sock = x.1 })
      go (ok (value b), t) (low, high, more, same) = record {
        nothing_sent = same ∙ q.nothing_sent;
        nothing_written = q.nothing_written;
      }
      go (ok (unexpected c), t) (more, same) = record {
        nothing_sent = same ∙ q.nothing_sent;
        nothing_written = q.nothing_written;
      }
      go (throw x, t) h = absurd h
      go (abort m, t) h = absurd h
      go (unfinished, t) h = absurd h

  -- What the read of an error comes to: always a throw.
  server_error-Refused :
      (e k : End C S)
      → Quiet e k
      → Post (λ (n : ℕ) (j : End C S). ⊥) (Refused e) (server_error C S k)
  unfolding server_error after_text
  server_error-Refused e k q =
      continue-Post (λ r j. Quiet e j) (λ n j. ⊥) (Refused e) _ _ (heard e k q) first
    where
      last :
          (text : List ℕ) (again : Expected (List ℕ)) (j : End C S)
          → Quiet e j
          → Post (λ (n : ℕ) (i : End C S). ⊥) (Refused e) (after_text C S text again j)
      last text (value b) j q = q
      last text (unexpected eof) j q = q
      last text (unexpected c) j q = q

      first :
          (r : Expected (List ℕ)) (j : End C S)
          → Quiet e j
          → Post
              (λ (n : ℕ) (i : End C S). ⊥)
              (Refused e)
              ((do
                text ← or_throw "" r
                again ← on_sock C S (read_some_unreliable S 256 0)
                after_text C S text again)
                j)
      first (value text) j q =
          continue-Post (λ r j. Quiet e j) (λ n j. ⊥) (Refused e) _ _ (heard e j q) (last text)
      first (unexpected c) j q = q

  size_or_error-Sized :
      (used : Bool) (e : End C S) (seen b x : List ℕ) (k : End C S)
      → Quiet e k
      → Sized used e (number_of x) k
      → Post (Sized used e) (Refused e) (size_or_error C S seen b x k)
  unfolding size_or_error
  size_or_error-Sized used e seen b x k q s =
      elim (Bool-cases (number_of b == 2 ^ 32 - 1 && same_bytes seen error_prefix)) [
        | inl reported ↦ rw reported (
            Post-weaken (λ n j. ⊥) (Sized used e) (Refused e) (Refused e) (server_error C S k)
              (server_error-Refused e k q) (λ n j h. absurd h) (λ y j h. h))
        | inr size ↦ rw size s
      ]

  -- If there is a size, it is the number of the first four bytes that arrived, in clear. If there is
  -- none, that is by a throw. Nothing is sent and nothing is written to the tunnel.
  pub read_block_size-Sized :
      (used : Bool) (e : End C S) → Post (Sized used e) (Refused e) (read_block_size C S used e)
  unfolding read_block_size
  read_block_size-Sized used e =
      continue-Post (Arrived 4 e) (Sized used e) (Refused e) _ _ (read_four-Arrived e) λ b k p.
        continue-Post (λ x j. Cleared used b k x j) (Sized used e) (Refused e) _ _
          (lift b k p.quiet (clear_size C S used b k) (clear-Cleared used b k))
          λ x j (shown, same, q).
            size_or_error-Sized used e (S.peeked 8 j.sock) b x j (Quiet-trans e k j p.quiet q)
              (record {
                b = b;
                x = x;
                long = p.size;
                shown = moved used b x j k p.same_aes shown;
                number = refl;
                arrived = ap (λ s. S.received s) same ∙ p.arrived;
                quiet = Quiet-trans e k j p.quiet q;
              })
    where
      moved :
          (used : Bool) (b x : List ℕ) (j k : End C S)
          → k.aes ≡ e.aes
          → Shown used b k.aes x j.aes
          → Shown used b e.aes x j.aes
      moved true b x j k same h = ap (λ a. Aes.decrypt C b 4 a) (sym same) ∙ h
      moved false b x j k same (h, a) = (h, a ∙ same)

      lift :
          (b : List ℕ) (k : End C S)
          → Quiet e k
          → (y : Outcome (List ℕ) × End C S) → Post (Cleared used b k) (Refused k) y
          → Post (Cleared used b k) (Refused e) y
      lift b k p (ok x, j) h = h
      lift b k p (throw x, j) h = Quiet-trans e k j p h
      lift b k p (abort m, j) h = h
      lift b k p (unfinished, j) h = h
