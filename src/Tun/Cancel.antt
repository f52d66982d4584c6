-- ===== src/Tun/Cancel.antt =====
-- What `tun.cancel()` does to the operations under way.
use vpverk.Base.{ℕ, ◌≡◌, ◌≢◌, refl, sym, ◌∙◌, ap, true, false, List, [], ◌∷◌, ◌++◌}
use vpverk.Schedule.{System, run, step}
use vpverk.Schedule.Steps.{step-At, step_other}
use vpverk.Tun.{
  Device, Place, idle, reading, read_done, read_leaving, write_posted, write_begun, write_locked,
  writing, aborted, Event, goes_on, writes, arrives, next, start,
}
use vpverk.Tun.Safety.{operation_alone, operates}

run-append :
    (s : System Place Device) (xs ys : List (ℕ × Event))
    → run next s (xs ++ ys) ≡ run next (run next s xs) ys
unfolding run
run-append s [] ys = refl
run-append s (x ∷ xs) ys = run-append (step next s x) xs ys

-- Over a descriptor that is busy, the cancellation reaches whatever operation is under way.
busy_at :
    (xs : List (ℕ × Event)) (i : ℕ)
    → operates ((run next start xs).place i) ≡ true
    → (run next start xs).shared.busy ≡ true
busy_at xs i h = (operation_alone xs i i).1.1 (i, h)

-- If one coroutine waits for the end of its write, after any interleaving, while another is on its way
-- through the strand to cancel the read that it found, and goes on before the operation of the write has
-- completed, then the handler of the write aborts the program.
pub writing_canceled :
    (xs : List (ℕ × Event)) (a b : ℕ)
    → a ≢ b
    → (run next start xs).place a ≡ write_posted
    → (run next start xs).place b ≡ writing
    → (run next start xs).shared.completed ≡ false
    → (run next start (xs ++ ((a, goes_on) ∷ (b, writes) ∷ []))).place b ≡ aborted
unfolding run next
writing_canceled xs a b ne pa pb pending =
    let s = run next start xs in
    let busy = busy_at xs b (rw pb refl) in
    let one = step-At next s a goes_on write_posted s.shared (record { here = pa; over = refl }) in
    let still = step_other next s a b goes_on writing ne pb in
    let two =
      step-At next (step next s (a, goes_on)) b writes writing
        (next goes_on write_posted s.shared).1 (record { here = still; over = one.over }) in
    rw (run-append start xs ((a, goes_on) ∷ (b, writes) ∷ [])) (two.here ∙ rw (busy, pending) refl)

-- From wherever an interleaving has led: a write that found a read whose operation has not completed gets
-- the lock within five steps, its own way through the strand, the end of the read, which gives 0 bytes whatever `n` there
-- were, the two steps in which the read gives both flags back, and the exchange.
write_after_read :
    (xs : List (ℕ × Event)) (r w n : ℕ)
    → r ≢ w
    → (run next start xs).place r ≡ reading
    → (run next start xs).place w ≡ write_posted
    → (run next start xs).shared.completed ≡ false
    → let s =
        run next start (
          xs
          ++ ((w, goes_on) ∷ (r, arrives n) ∷ (r, goes_on) ∷ (r, goes_on) ∷ (w, goes_on) ∷ [])) in
      (s.place w ≡ write_locked)
      × (s.place r ≡ idle)
      × (s.shared.canceled ≡ true)
      × ((run next start (xs ++ ((w, goes_on) ∷ (r, arrives n) ∷ []))).place r ≡ read_done 0)
unfolding run next
write_after_read xs r w n ne pr pw pending =
    let s = run next start xs in
    let busy = busy_at xs r (rw pr refl) in
    let wr : w ≢ r = λ e. ne (sym e) in
    let s1 = step next s (w, goes_on) in
    let s2 = step next s1 (r, arrives n) in
    let s3 = step next s2 (r, goes_on) in
    let s4 = step next s3 (r, goes_on) in
    let d1 : Device = record s.shared { canceled = true } in
    let one = step-At next s w goes_on write_posted s.shared (record { here = pw; over = refl }) in
    let over1 : s1.shared ≡ d1 = one.over ∙ rw (busy, pending) refl in
    let r1 = step_other next s w r goes_on reading wr pr in
    let two = step-At next s1 r (arrives n) reading d1 (record { here = r1; over = over1 }) in
    let w2 = step_other next s1 r w (arrives n) write_begun ne one.here in
    let three =
      step-At next s2 r goes_on (read_done 0) (record d1 { busy = false })
        (record { here = two.here; over = two.over }) in
    let w3 = step_other next s2 r w goes_on write_begun ne w2 in
    let four =
      step-At next s3 r goes_on (read_leaving 0)
        (record d1 { busy = false; it_is_read_lock = false })
        (record { here = three.here; over = three.over }) in
    let w4 = step_other next s3 r w goes_on write_begun ne w3 in
    let five =
      step-At next s4 w goes_on write_begun
        (record d1 { busy = false; it_is_read_lock = false; locked = false })
        (record { here = w4; over = four.over }) in
    rw
      (
        run-append start xs
            ((w, goes_on) ∷ (r, arrives n) ∷ (r, goes_on) ∷ (r, goes_on) ∷ (w, goes_on) ∷ []),
        run-append start xs ((w, goes_on) ∷ (r, arrives n) ∷ []),
      )
      (
        five.here,
        step_other next s4 w r goes_on idle wr four.here,
        ap (λ (d : Device). d.canceled) five.over,
        two.here,
      )
