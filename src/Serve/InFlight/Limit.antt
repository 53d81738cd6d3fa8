-- ===== src/Serve/InFlight/Limit.antt =====
-- The limit holds under every interleaving, and is not reached early (src/serve.rs).
use bip110_crawler.Common.{
  ◌⊎◌, inl, inr, ◌==◌, ==_iff, Bool-cases, ℕ, ◌+◌, ◌≤◌, ◌≡◌, Bool, true, false, List, [], ◌∷◌, ◌++◌,
  if◌then◌else◌, length, count, count-append, length-append, arith,
}
use bip110_crawler.Serve.InFlight.{
  max_in_flight, dispatchers, Dispatcher, receiving, admitting, refusing, Server, admit, Step,
  receive, spawn, refuse, finish, Reach, start, next,
}

abbrev pub is_admitting : Dispatcher → Bool
is_admitting admitting = true
is_admitting receiving = false
is_admitting refusing = false

abbrev pub is_refusing : Dispatcher → Bool
is_refusing refusing = true
is_refusing receiving = false
is_refusing admitting = false

abbrev pub is_receiving : Dispatcher → Bool
is_receiving receiving = true
is_receiving admitting = false
is_receiving refusing = false

record Balanced (s : Server) : Type 0 where
  counted : s.in_flight ≡ s.running + count is_admitting s.threads + count is_refusing s.threads
  limited : s.running + count is_admitting s.threads ≤ max_in_flight
  crew : length s.threads ≡ dispatchers

abbrev one_if : Bool → ℕ
one_if b = if b then 1 else 0

-- What one dispatcher adds to the counts of the crew.
placed :
    (pre : List Dispatcher) (d : Dispatcher) (post : List Dispatcher)
    → (count is_admitting (pre ++ d ∷ post)
        ≡ count is_admitting pre + one_if (is_admitting d) + count is_admitting post)
      × (count is_refusing (pre ++ d ∷ post)
          ≡ count is_refusing pre + one_if (is_refusing d) + count is_refusing post)
      × (length (pre ++ d ∷ post) ≡ length pre + 1 + length post)
unfolding count
placed pre d post = ground (
  arith,
  count-append is_admitting pre (d ∷ post),
  count-append is_refusing pre (d ∷ post),
  length-append pre (d ∷ post),
)

Step-Balanced : {s t : Server} → Step s t → Balanced s → Balanced t
unfolding admit
Step-Balanced (receive {n} {r} pre post) b =
    ground
      (arith, b.counted, b.limited, b.crew, placed pre receiving post, placed pre (admit n) post)
Step-Balanced (spawn pre post) b =
    ground
      (arith, b.counted, b.limited, b.crew, placed pre admitting post, placed pre receiving post)
Step-Balanced (refuse pre post) b =
    ground
      (arith, b.counted, b.limited, b.crew, placed pre refusing post, placed pre receiving post)
Step-Balanced (finish h) b = ground (arith, b.counted, b.limited, b.crew, h)

Reach-Balanced : {s : Server} → Reach s → Balanced s
unfolding count
Reach-Balanced start = ground arith
Reach-Balanced (next r st) = Step-Balanced st (Reach-Balanced r)

crew_parts :
    (ts : List Dispatcher)
    → count is_admitting ts + count is_refusing ts + count is_receiving ts ≡ length ts
unfolding count
crew_parts [] = omega arith
crew_parts (receiving ∷ ts) = omega (arith, crew_parts ts)
crew_parts (admitting ∷ ts) = omega (arith, crew_parts ts)
crew_parts (refusing ∷ ts) = omega (arith, crew_parts ts)

-- The next request is refused only by a full counter.
admit-cases : (n : ℕ) → (admit n ≡ admitting) ⊎ (max_in_flight ≤ n)
unfolding admit
admit-cases n = ground arith

-- In every state that the server can reach, under any interleaving of its threads: no more than 64
-- requests are handled at once; and if a dispatcher is about to receive the next request, it admits it, unless at
-- least 61 requests are being handled.
pub Reach-Limited :
    {s : Server}
    → Reach s
    → (s.running ≤ max_in_flight)
      × ((count is_receiving s.threads ≡ 0) ⊎ ((admit s.in_flight ≡ admitting) ⊎ (61 ≤ s.running)))
Reach-Limited {s} r =
    let b = Reach-Balanced r in
    (
      omega (arith, b.limited),
      elim (admit-cases s.in_flight) [
        | inl admits ↦ inr (inl admits)
        | inr full ↦ elim (Bool-cases (count is_receiving s.threads == 0)) [
          | inl idle ↦ inl ((==_iff _ _).0 idle)
          | inr some_receive ↦
              inr (inr (ground (arith, full, b.counted, b.crew, crew_parts s.threads)))
        ]
      ],
    )
