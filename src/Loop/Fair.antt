-- ===== src/Loop/Fair.antt =====
-- When the loop resumes a coroutine that is posted.
use vpverk.Base.{
  ℕ, suc, ◌≡◌, refl, sym, ap, ◌∙◌, true, Bool-cases, inl, inr, Option, some, List, [], ◌∷◌, ◌++◌,
  length, contains, if◌then◌else◌, arith,
}
use mathlib.Core.List.{append_assoc, append-nil}
use vpverk.Effect.{Outcome, ok, throw, abort, unfinished}
use vpverk.Loop.{
  Turn, Loop, Happening, turns, posts, resume, reschedule_here, turn, happens, loop_run,
}

-- How often the loop calls a handler.
unfoldable turns_of : List Happening → ℕ
turns_of [] = 0
turns_of (turns ∷ events) = suc (turns_of events)
turns_of (posts h ∷ events) = turns_of events

module _ {T : Type 0} (pick : List ℕ → Option (ℕ × List ℕ)) (body : ℕ → T → Turn T) where
  -- The coroutines `xs` were resumed, in this order, and after them come `ys` and those posted since; or
  -- those in front of `h` were, and `h`, which is next of them, had come to its end.
  abbrev Resumed : Loop T → List ℕ → List ℕ → Outcome (Unit {0}) × Loop T → Type 0
  Resumed l xs ys (ok u, k) = (k.resumed ≡ l.resumed ++ xs) × ((zs : List ℕ) × (k.ready ≡ ys ++ zs))
  Resumed l xs ys (throw e, k) = ⊥
  Resumed l xs ys (abort m, k) =
      (before : List ℕ) × ((h : ℕ) × ((rest : List ℕ) × ((xs ≡ before ++ h ∷ rest)
            × ((k.resumed ≡ l.resumed ++ before) × (contains h k.over ≡ true)))))
  Resumed l xs ys (unfinished, k) = ⊥

  later :
      (l k : Loop T) (xs ys ws zs : List ℕ) (x : Outcome (Unit {0}) × Loop T)
      → k.resumed ≡ l.resumed ++ ws
      → Resumed k xs (ys ++ zs) x
      → Resumed l (ws ++ xs) ys x
  later l k xs ys ws zs (ok u, j) e (r, (more, q)) = (
    r ∙ ap (λ (z : List ℕ). z ++ xs) e ∙ append_assoc l.resumed ws xs,
    (zs ++ more, q ∙ append_assoc ys zs more),
  )
  later l k xs ys ws zs (throw y, j) e r = r
  later l k xs ys ws zs (abort m, j) e (before, (h, (rest, (split, (r, gone))))) = (
    ws ++ before,
    (
      h,
      (
        rest,
        (
          ap (λ (z : List ℕ). ws ++ z) split ∙ sym (append_assoc ws before (h ∷ rest)),
          (r ∙ ap (λ (z : List ℕ). z ++ before) e ∙ append_assoc l.resumed ws before, gone),
        ),
      ),
    ),
  )
  later l k xs ys ws zs (unfinished, j) e r = r

  -- The loop that calls handlers in the order in which they were posted resumes coroutines in that order,
  -- whatever they do and whatever is posted meanwhile: with as many turns as there are coroutines in
  -- front of `ys`, just these are resumed, each once, and `ys` is next. Otherwise the assert of the handler
  -- stops the program: those in front of a coroutine were resumed, and it had come to its end.
  loop_run-Resumed :
      (events : List Happening) (l : Loop T) (xs ys : List ℕ)
      → ((h : ℕ) (rest : List ℕ) → pick (h ∷ rest) ≡ some (h, rest))
      → l.ready ≡ xs ++ ys
      → turns_of events ≡ length xs
      → Resumed l xs ys (loop_run pick body events l)
  unfolding loop_run turns_of happens reschedule_here turn resume
  loop_run-Resumed [] l [] ys fifo e n = (sym (append-nil l.resumed), ([], e ∙ sym (append-nil ys)))
  loop_run-Resumed [] l (x ∷ xs) ys fifo e n = absurd (omega (arith, n))
  loop_run-Resumed (turns ∷ events) l [] ys fifo e n = absurd (omega (arith, n))
  loop_run-Resumed (posts h ∷ events) l xs ys fifo e n =
      let k : Loop T = record l { ready = l.ready ++ h ∷ [] } in
      later l k xs ys [] (h ∷ []) (loop_run pick body events k) (sym (append-nil l.resumed)) (
        loop_run-Resumed events k xs (ys ++ h ∷ []) fifo
          (ap (λ (z : List ℕ). z ++ h ∷ []) e ∙ append_assoc xs ys (h ∷ [])) n)
  loop_run-Resumed (turns ∷ events) l (x ∷ xs) ys fifo e n =
      let q : pick l.ready ≡ some (x, xs ++ ys) = ap pick e ∙ fifo x (xs ++ ys) in
      let t = body x l.state in
      let k : Loop T = record {
        state = t.state;
        ready = (xs ++ ys) ++ t.posts;
        over = if t.ended then x ∷ l.over else l.over;
        resumed = l.resumed ++ x ∷ [];
      } in
      elim (Bool-cases (contains x l.over)) [
        | inl gone ↦
            rw (turn, q, resume, gone) ([], (x, (xs, (refl, (sym (append-nil l.resumed), gone)))))
        | inr alive ↦
            rw (turn, q, resume, alive)
              (later l k xs ys (x ∷ []) t.posts (loop_run pick body events k) refl (
                loop_run-Resumed events k xs (ys ++ t.posts) fifo (append_assoc xs ys t.posts)
                  (omega (arith, n))))
      ]
