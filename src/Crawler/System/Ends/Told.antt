-- ===== src/Crawler/System/Ends/Told.antt =====
-- The peers that a run is told of stay with the workers that heard of them, and what a start costs
-- (src/crawler.rs).
use bip110_crawler.Common.{
  ℕ, ◌+◌, ◌*◌, ◌≤◌, ◌≡◌, Bool, true, false, List, [], ◌∷◌, All, length, if◌then◌else◌, arith,
}
use bip110_crawler.P2p.Peer.{Peer}
use bip110_crawler.Crawler.{Task}
use bip110_crawler.Crawler.Tasks.{Wake}
use bip110_crawler.Crawler.System.{
  Pc, polling, waiting, holding, dialing, expanding, finishing, exited, Worker, woken, notify,
}
use bip110_crawler.Crawler.System.Start.Begin.{Polls}
use bip110_crawler.Crawler.System.Ends.Costs.{costs}
use bip110_crawler.Crawler.System.Ends.Measure.{IsTold, load, unseen}

-- The discovered peers that a worker is about to queue belong to the universe.
abbrev pub Fits : List Peer → Pc → Type 0
Fits us (expanding t discovered) = All (IsTold us) discovered
Fits us pc = Unit {0}

Fits-woken : (us : List Peer) (b : Bool) (pc : Pc) → Fits us pc → Fits us (woken b pc)
Fits-woken us true waiting h = tt
Fits-woken us false waiting h = tt
Fits-woken us b polling h = tt
Fits-woken us b (holding t) h = tt
Fits-woken us b (dialing t) h = tt
Fits-woken us b (expanding t ds) h = h
Fits-woken us b (finishing nc ns) h = tt
Fits-woken us b exited h = tt

abbrev pub AllFit : List Peer → List Worker → Type 0
AllFit us = All (λ w. Fits us w.pc)

pub AllFit-notify :
    (us : List Peer) (wake : Wake) (ws : List Worker) → AllFit us ws → AllFit us (notify wake ws)
AllFit-notify us wake [] h = tt
AllFit-notify us wake (w ∷ ws) (h, hs) = (
  Fits-woken us (if w.onion_pool then wake.onion else wake.clearnet) w.pc h,
  AllFit-notify us wake ws hs,
)

pub load-times : (k : ℕ) (ts : List Task) → load k ts ≡ k * length ts
load-times k [] = omega arith
load-times k (t ∷ ts) = omega (arith, load-times k ts)

pub unseen_bounds : (k : ℕ) (us seen : List Peer) → unseen k us seen ≤ k * length us
unseen_bounds k [] seen = omega arith
unseen_bounds k (u ∷ us) seen = ground (arith, unseen_bounds k us seen)

pub Polls-costs : (n : ℕ) (ws : List Worker) → Polls ws → costs n ws ≡ (n + 2) * length ws
Polls-costs n [] h = omega arith
Polls-costs n (w ∷ ws) h = rw h.0 (omega (arith, Polls-costs n ws h.1))

pub Polls-AllFit : (us : List Peer) (ws : List Worker) → Polls ws → AllFit us ws
Polls-AllFit us [] h = tt
Polls-AllFit us (w ∷ ws) h = (rw h.0 tt, Polls-AllFit us ws h.1)
