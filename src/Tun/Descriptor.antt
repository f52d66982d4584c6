-- ===== src/Tun/Descriptor.antt =====
-- The file descriptor of the tunnel: the constructor and the destructor of `Tun` (src/shared/tun.cpp).
-- What `open`, `ioctl` and `fcntl` return, and the destruction of the stream that asio makes of the
-- descriptor, are arguments.
use vpverk.Base.{
  ℕ, String, ◌<◌, ◌≡◌, refl, Bool, true, false, Option, none, some, List, [], ◌∷◌, ltb, ◌==◌,
  if◌then◌else◌, contains, without, contains-without_self, arith, inl, inr, ◌⊎◌,
}
use vpverk.Effect.{Outcome, ok, throw, abort, unfinished, M, ◌>>=◌, ◌>>◌}

-- The descriptors that the process has open, and those on which it called `close` while they were not.
pub record Files : Type 0 where
  pub opened : List ℕ
  pub astray : List ℕ

-- `close(fd)`
unfoldable pub close_file : ℕ → Files → Files
close_file fd s =
    if contains fd s.opened
    then record s { opened = without fd s.opened }
    else record s { astray = fd ∷ s.astray }

-- `open("/dev/net/tun", O_RDWR)`; `none` is a negative result.
unfoldable pub open_file : Option ℕ → M Files ℕ
open_file none s = (abort "failed to open tun file descriptor", s)
open_file (some fd) s = (ok fd, record s { opened = fd ∷ s.opened })

-- `if (… < 0) { close(fd); cuabort(…); }`
unfoldable pub or_close : Bool → ℕ → String → M Files (Unit {0})
or_close fine fd text s = if fine then (ok tt, s) else (abort text, close_file fd s)

-- What the calls of the constructor return: `open`, whether `t_ctx` is set, `ioctl` and `fcntl`.
pub record Answers : Type 0 where
  pub descriptor : Option ℕ
  pub has_ctx : Bool
  pub flags_set : Bool
  pub unblocked : Bool

-- `Tun::Tun()`, with `file_descriptor` as its value
unfoldable pub construct : Answers → M Files ℕ
construct a = do
  fd ← open_file a.descriptor
  λ s. (if a.has_ctx then (ok tt, s) else (abort "cussert: t_ctx.has_value()", s))
  or_close a.flags_set fd "failed to set tun descriptor flags"
  or_close a.unblocked fd "failed to set non-blocking (tun)"
  λ s. (ok fd, s)

-- `Tun::~Tun()`: its body, what other threads do, and the destruction of the member `tun`
unfoldable destruct : (ℕ → Files → Files) → (Files → Files) → ℕ → Files → Files
destruct stream meanwhile fd s = stream fd (meanwhile (if ltb 0 fd then close_file fd s else s))

-- The constructor returns a descriptor that is open, or ends in `cuabort`; then nothing is left open that
-- was not before, unless there is no context.
abbrev pub Constructed : Answers → Files → Outcome ℕ × Files → Type 0
Constructed a s (ok fd, t) = t.opened ≡ fd ∷ s.opened
Constructed a s (throw e, t) = ⊥
Constructed a s (abort m, t) = (t.opened ≡ s.opened) ⊎ (a.has_ctx ≡ false)
Constructed a s (unfinished, t) = ⊥

without_fresh : (fd : ℕ) (xs : List ℕ) → contains fd xs ≡ false → without fd xs ≡ xs
unfolding contains without
without_fresh fd [] h = refl
without_fresh fd (x ∷ xs) h =
    let rest : contains fd xs ≡ false = ground arith in
    let other : (x == fd) ≡ false = ground arith in rw (other, without_fresh fd xs rest) refl

pub construct-Constructed :
    (a : Answers) (s : Files)
    → ((fd : ℕ) → a.descriptor ≡ some fd → contains fd s.opened ≡ false)
    → Constructed a s (construct a s)
unfolding construct open_file or_close close_file contains without
construct-Constructed a s h = go a.descriptor a.has_ctx a.flags_set a.unblocked h
  where
    closed :
        (fd : ℕ)
        → contains fd s.opened ≡ false
        → (close_file fd (record s { opened = fd ∷ s.opened })).opened ≡ s.opened
    closed fd e = ground (arith, without_fresh fd s.opened e)

    go :
        (d : Option ℕ) (c f u : Bool)
        → ((fd : ℕ) → d ≡ some fd → contains fd s.opened ≡ false)
        → let b : Answers = record { descriptor = d; has_ctx = c; flags_set = f; unblocked = u } in
          Constructed b s (construct b s)
    go none c f u k = inl refl
    go (some fd) false f u k = inr refl
    go (some fd) true false u k = inl (closed fd (k fd refl))
    go (some fd) true true false k = inl (closed fd (k fd refl))
    go (some fd) true true true k = refl

-- If the stream closes the descriptor that it was made of, as asio's does, the descriptor of the tunnel is
-- closed twice: a file that another thread has opened in between, and that got the same number, is
-- closed.
destruct-closes :
    (stream : ℕ → Files → Files) (meanwhile : Files → Files) (fd : ℕ) (s : Files)
    → ((n : ℕ) (t : Files) → stream n t ≡ close_file n t)
    → contains fd (meanwhile (close_file fd s)).opened ≡ true
    → 0 < fd
    → contains fd (destruct stream meanwhile fd s).opened ≡ false
unfolding destruct close_file
destruct-closes stream meanwhile fd s h there positive =
    let p : ltb 0 fd ≡ true = ground arith in
    let t = meanwhile (close_file fd s) in
    rw (destruct, p, h fd t, close_file, there) (contains-without_self fd t.opened)
