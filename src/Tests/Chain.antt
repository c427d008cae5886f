-- ===== src/Tests/Chain.antt =====
-- A chain of three modules: one that does not match, one that continues and one that defers.
use greylist.Core.Chain.{Run-iff-process, Run}
use greylist.Base.{◌↔◌, ℕ, ◌+◌, ◌≡◌, true, false, List, [], ◌∷◌, ok}
use greylist.Core.{Module, process, cont, defer, dunno}

abbrev chain : List (Module ℕ)
chain =
    record { match = λ s. (ok false, s + 1); decide = λ s. (ok dunno, s) }
    ∷ record { match = λ s. (ok true, s + 10); decide = λ s. (ok cont, s + 100) }
    ∷ record { match = λ s. (ok true, s); decide = λ s. (ok defer, s + 1000) }
    ∷ []

Run-iff-process_example : Run (ok defer) 1111 chain 0 ↔ (process chain 0 ≡ (ok defer, 1111))
Run-iff-process_example = Run-iff-process (ok defer) 1111 chain 0
