-- ===== src/Tun/Turns/First.antt =====
-- Which of a reader and a writer gets the lock next.
use vpverk.Base.{
  ℕ, zero, suc, ◌≡◌, ◌≢◌, ◌≤◌, refl, sym, ap, ◌∙◌, arith, true, false, ◌⊎◌, inl, inr, Option, some,
  List, [], ◌∷◌, ◌++◌, contains,
}
use vpverk.Effect.{Outcome, ok}
use vpverk.Schedule.{System, step, run}
use vpverk.Schedule.Steps.{step-At, step_other}
use vpverk.Loop.{Loop, Happening, turns, turn, resume, happens, loop_run}
use vpverk.Tun.{
  Device, Place, idle, read_done, read_leaving, write_begun, write_locked, Event, goes_on, next,
  start,
}
use vpverk.Tun.Safety.{flags-iff-held}
use vpverk.Tun.Turns.{steps_at, go_on, posted_at, coroutine}

-- A writer that finds the lock held waits on, and one that finds it free gets it.
waits :
    (s : System Place Device) (r w : ℕ)
    → r ≢ w
    → s.place w ≡ write_begun
    → s.shared.locked ≡ true
    → let t = go_on (steps_at (s.place w)) w s in
      (t.place w ≡ write_begun) × (t.shared.locked ≡ true) × (t.place r ≡ s.place r)
unfolding go_on steps_at next
waits s r w ne pw held =
    let one = step-At next s w goes_on write_begun s.shared (record { here = pw; over = refl }) in
    rw (pw) (
      one.here ∙ rw held refl,
      ap (λ (d : Device). d.locked) one.over,
      step_other next s w r goes_on (s.place r) (λ e. ne (sym e)) refl,
    )

takes :
    (s : System Place Device) (r w : ℕ)
    → r ≢ w
    → s.place w ≡ write_begun
    → s.shared.locked ≡ false
    → let t = go_on (steps_at (s.place w)) w s in
      (t.place w ≡ write_locked) × (t.place r ≡ s.place r)
unfolding go_on steps_at next
takes s r w ne pw free =
    let one = step-At next s w goes_on write_begun s.shared (record { here = pw; over = refl }) in
    rw (pw)
      (one.here ∙ rw free refl, step_other next s w r goes_on (s.place r) (λ e. ne (sym e)) refl)

-- A read that is done gives the lock back.
leaves :
    (s : System Place Device) (r w n : ℕ)
    → r ≢ w
    → s.place r ≡ read_done n
    → let t = go_on (steps_at (s.place r)) r s in
      (t.place r ≡ idle) × (t.shared.locked ≡ false) × (t.place w ≡ s.place w)
unfolding go_on steps_at next
leaves s r w n ne pr =
    let s1 = step next s (r, goes_on) in
    let one = step-At next s r goes_on (read_done n) s.shared (record { here = pr; over = refl }) in
    let two =
      step-At next s1 r goes_on (read_leaving n) s1.shared
        (record { here = one.here; over = refl }) in
    let still = step_other next s r w goes_on (s.place w) ne refl in
    rw (pr) (
      two.here,
      ap (λ (d : Device). d.locked) two.over,
      step_other next s1 r w goes_on (s.place w) ne still,
    )

-- So many turns, and what else is posted only when a coroutine posts it.
unfoldable pub turns_only : ℕ → List Happening
turns_only zero = []
turns_only (suc m) = turns ∷ turns_only m

module _ (pick : List ℕ → Option (ℕ × List ℕ)) (after : ℕ → List ℕ) where
  -- A turn of the loop resumes the first that is posted.
  first_turn :
      (s : System Place Device) (h : ℕ) (rest done : List ℕ) (p : Place)
      → ((h : ℕ) (rest : List ℕ) → pick (h ∷ rest) ≡ some (h, rest))
      → (go_on (steps_at (s.place h)) h s).place h ≡ p
      → turn pick
          (coroutine after)
          (record { state = s; ready = h ∷ rest; over = []; resumed = done })
        ≡ (
          ok tt,
          record {
            state = go_on (steps_at (s.place h)) h s;
            ready = rest ++ posted_at after h p;
            over = [];
            resumed = done ++ h ∷ [];
          },
        )
  unfolding turn resume coroutine contains
  first_turn s h rest done p fifo e = rw (turn, fifo h rest, resume, coroutine, e) refl

  one_more :
      (m : ℕ) (l k : Loop (System Place Device))
      (x : Outcome (Unit {0}) × Loop (System Place Device))
      → turn pick (coroutine after) l ≡ (ok tt, k)
      → loop_run pick (coroutine after) (turns_only m) k ≡ x
      → loop_run pick (coroutine after) (turns_only (suc m)) l ≡ x
  unfolding loop_run turns_only happens
  one_more m l k x e q = rw (e) q

  -- The writer gets the lock in its turn, if it is free.
  writer_gets :
      (s : System Place Device) (r w : ℕ) (rest done : List ℕ)
      → ((h : ℕ) (rest : List ℕ) → pick (h ∷ rest) ≡ some (h, rest))
      → r ≢ w
      → s.place w ≡ write_begun
      → s.shared.locked ≡ false
      → s.place r ≡ idle
      → (k : Loop (System Place Device)) × ((loop_run pick
              (coroutine after)
              (turns_only 1)
              (record { state = s; ready = w ∷ rest; over = []; resumed = done })
            ≡ (ok tt, k))
          × ((k.state.place w ≡ write_locked) × (k.state.place r ≡ idle)))
  unfolding turns_only loop_run
  writer_gets s r w rest done fifo ne pw free pr =
      let (has, still) = takes s r w ne pw free in
      let k : Loop (System Place Device) = record {
        state = go_on (steps_at (s.place w)) w s;
        ready = rest ++ posted_at after w write_locked;
        over = [];
        resumed = done ++ w ∷ [];
      } in
      (
        k,
        (
          one_more 0 _ k (ok tt, k) (first_turn s w rest done write_locked fifo has) refl,
          (has, still ∙ pr),
        ),
      )

  -- A coroutine `w` waits in `lock` for its turn to write, and the read of `r` is done and is to give the
  -- lock back, in whichever order the two are posted: within three turns of a loop that keeps to the order
  -- of the posts `w` gets the lock, before `r` comes to read again, whatever else is posted meanwhile by
  -- what waits for `r`.
  pub write_first :
      (xs : List (ℕ × Event)) (ready done : List ℕ) (r w n : ℕ)
      → ((h : ℕ) (rest : List ℕ) → pick (h ∷ rest) ≡ some (h, rest))
      → r ≢ w
      → (run next start xs).place r ≡ read_done n
      → (run next start xs).place w ≡ write_begun
      → (ready ≡ w ∷ r ∷ []) ⊎ (ready ≡ r ∷ w ∷ [])
      → (m : ℕ) × ((m ≤ 3)
          × ((k : Loop (System Place Device)) × ((loop_run pick
                    (coroutine after)
                    (turns_only m)
                    (record { state = run next start xs; ready = ready; over = []; resumed = done })
                  ≡ (ok tt, k))
                × ((k.state.place w ≡ write_locked) × (k.state.place r ≡ idle)))))
  unfolding posted_at
  write_first xs ready done r w n fifo ne pr pw (inr e) =
      let s = run next start xs in
      let (gone, free, still) = leaves s r w n ne pr in
      let s1 = go_on (steps_at (s.place r)) r s in
      let (k, (q, at)) =
        writer_gets s1 r w (posted_at after r idle) (done ++ r ∷ []) fifo ne (still ∙ pw) free
          gone in
      let k1 : Loop (System Place Device) = record {
        state = s1;
        ready = w ∷ posted_at after r idle;
        over = [];
        resumed = done ++ r ∷ [];
      } in
      (
        2,
        (
          omega arith,
          (
            k,
            (
              rw (e) (one_more 1 _ k1 (ok tt, k) (first_turn s r (w ∷ []) done idle fifo gone) q),
              at,
            ),
          ),
        ),
      )
  write_first xs ready done r w n fifo ne pr pw (inl e) =
      let s = run next start xs in
      let held : s.shared.locked ≡ true = (flags-iff-held xs).0.1 (r, rw (pr) refl) in
      let (here, still_held, same) = waits s r w ne pw held in
      let s1 = go_on (steps_at (s.place w)) w s in
      let (gone, free, still) = leaves s1 r w n ne (same ∙ pr) in
      let s2 = go_on (steps_at (s1.place r)) r s1 in
      let (k, (q, at)) =
        writer_gets s2 r w (posted_at after r idle) ((done ++ w ∷ []) ++ r ∷ []) fifo ne
          (still ∙ here) free gone in
      let k2 : Loop (System Place Device) = record {
        state = s2;
        ready = w ∷ posted_at after r idle;
        over = [];
        resumed = (done ++ w ∷ []) ++ r ∷ [];
      } in
      let k1 : Loop (System Place Device) = record {
        state = s1;
        ready = r ∷ w ∷ [];
        over = [];
        resumed = done ++ w ∷ [];
      } in
      (
        3,
        (
          omega arith,
          (
            k,
            (
              rw (e) (
                  one_more 2 _ k1 (ok tt, k) (first_turn s w (r ∷ []) done write_begun fifo here)
                    (one_more 1 _ k2 (ok tt, k)
                      (first_turn s1 r (w ∷ []) (done ++ w ∷ []) idle fifo gone) q)),
              at,
            ),
          ),
        ),
      )
