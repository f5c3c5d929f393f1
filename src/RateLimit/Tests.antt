-- ===== src/RateLimit/Tests.antt =====
-- The rate limits on concrete requests, over the cache in memory.
use base_go_api.Prelude.{ℕ, ◌≡◌, refl, List, [], ◌∷◌, arith}
use base_go_api.Prelude.Bytes.{codes}
use base_go_api.Cache.Memory.{find_entry, memory_driver}
use base_go_api.Cache.Laws.{memory-Laws}
use base_go_api.RateLimit.Limiter.{passed, too_many}
use base_go_api.RateLimit.Counting.{Request, counted, serve, serve_from_empty}

abbrev ask : ℕ → Request
ask t = record { ip = codes "1.2.3.4"; read = t; write = t }

abbrev three : List Request
three = ask 0 ∷ ask 1 ∷ ask 2 ∷ []

serve_from_empty_example :
    serve memory_driver memory-Laws (codes "login") 2 1 three [] ≡ counted 2 [] three
unfolding find_entry
serve_from_empty_example =
    serve_from_empty memory_driver memory-Laws (codes "login") 2 1 0 three [] (λ ip. refl)
      (omega arith)

counted-three : counted 2 [] three ≡ passed 1 ∷ passed 0 ∷ too_many ∷ []
counted-three = refl

abbrev later : List Request
later = ask 900_000_000 ∷ ask 1_800_000_000 ∷ []
