-- ===== src/Aes/Tests.antt =====
-- The session theorems over the cipher in a box.
use vpverk.Base.{some, none, ◌↔◌, ℕ, ◌≡◌, refl, true, List, [], ◌∷◌, replicate, arith}
use vpverk.Effect.{value}
use vpverk.Aes.{AesSession, create}
use vpverk.Aes.Contexts.{
  ContextOperation, makes, moves, assigns, destroys, context_operations, no_contexts,
}
use vpverk.Aes.Contexts.Sound.{live_iff_owned}
use vpverk.Aes.Box.{box}
use vpverk.Aes.Duplex.{Event, here_sends, there_sends, here_gets, there_gets, duplex_run}
use vpverk.Aes.Duplex.Order.{unused, Delivers, duplex_run-Delivers}

abbrev client_end : AesSession box
client_end = record { encrypt_ctx = 5; decrypt_ctx = 9 }

abbrev server_end : AesSession box
server_end = record { encrypt_ctx = 9; decrypt_ctx = 5 }

create-client :
    create box true (replicate 32 1) (replicate 16 5) (replicate 16 9) ≡ value client_end
unfolding create
create-client = refl

server-create :
    create box true (replicate 32 1) (replicate 16 9) (replicate 16 5) ≡ value server_end
unfolding create
server-create = refl

-- The server sends while the client's second text is under way.
abbrev both_ways : List (Event box)
both_ways =
    here_sends (1 ∷ 2 ∷ [])
    ∷ there_sends (3 ∷ [])
    ∷ there_gets
    ∷ here_sends (4 ∷ [])
    ∷ here_gets
    ∷ []

duplex_run-Delivers_example :
    let p =
      duplex_run box both_ways
        (record { here = client_end; there = server_end; out = unused box; back = unused box }) in
    Delivers box p.out × Delivers box p.back
duplex_run-Delivers_example =
    duplex_run-Delivers box true true (replicate 32 1) (replicate 16 5) (replicate 16 9) client_end
      server_end both_ways create-client server-create
      (omega arith, (omega arith, (tt, (omega arith, (tt, tt)))))

-- A session is made, moved to where it is returned, and assigned over another.
abbrev sessions_moved : List ContextOperation
sessions_moved =
    makes 0 (some 7)
    ∷ makes 1 none
    ∷ moves 2 0
    ∷ destroys 0
    ∷ makes 3 (some 9)
    ∷ assigns 3 2
    ∷ destroys 2
    ∷ []

live_iff_owned_example :
    let s = context_operations sessions_moved no_contexts in
    (s.faults ≡ 0) × ((s.live 7 ≡ true) ↔ ((i : ℕ) × ((j : ℕ) → (s.ptr j ≡ some 7) ↔ (i ≡ j))))
live_iff_owned_example = live_iff_owned sessions_moved 7
