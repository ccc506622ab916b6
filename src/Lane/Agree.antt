-- ===== src/Lane/Agree.antt =====
-- The lanes of a download by src/lane.rs serve one and the same file size.
use simple_downloader.Prelude.{
  ℕ, ◌≡◌, refl, sym, subst, Bool, true, false, List, [], ◌∷◌, Option, none, some, All-mono, Among,
  entries-Among,
}
use simple_downloader.Prelude.Map.{Map}
use simple_downloader.Lane.{LaneCandidate}
use simple_downloader.Lane.Runtime.{LaneRuntime}
use simple_downloader.Lane.Probe.{
  Probe, Pools, measured_runtime, sort_probes, no_pools, Chosen, chosen, choose_fallback,
  choose_ranges, choose,
}
use simple_downloader.Lane.Sized.{AllServe, Passes, IsSized, AreSized, sort_probes-AreSized}

module _ (P : LaneRuntime → ℕ → Bool → Type 0) where
  -- What is chosen, if anything, serves its size.
  abbrev IsServed : Option Chosen → Type 0
  IsServed none = Unit
  IsServed (some c) = AllServe P c.file_size c.supports_ranges c.runtimes

  chosen-IsServed :
      (o : Option ℕ) (ranges : Bool) (runtimes : Map (List LaneRuntime)) (cs : List LaneCandidate)
      → IsSized P ranges o runtimes
      → IsServed (chosen o ranges runtimes cs)
  chosen-IsServed none ranges runtimes cs h = tt
  chosen-IsServed (some size) ranges runtimes cs h = h

  choose_ranges-IsServed :
      (cs ds : List LaneCandidate) (pools : Pools)
      → pools.fallback_candidates ≡ ds
      → AreSized P pools
      → IsServed (choose_ranges cs pools)
  choose_ranges-IsServed [] ds pools e h =
      subst (λ x. IsServed (choose_fallback x pools)) (sym e) (fallback_lem ds)
    where
      fallback_lem : (ds : List LaneCandidate) → IsServed (choose_fallback ds pools)
      fallback_lem [] = tt
      fallback_lem (d ∷ ds) =
          chosen-IsServed pools.fallback_file_size false pools.fallback_runtimes (d ∷ ds) h.1
  choose_ranges-IsServed (c ∷ cs) ds pools e h =
      chosen-IsServed pools.range_file_size true pools.range_runtimes (c ∷ cs) h.0

-- Is this one of the connections that were probed, with what was measured, and is this what its own
-- probe answered?
abbrev pub Answered : List Probe → LaneRuntime → ℕ → Bool → Type 0
Answered probes r size ranges =
    (p : Probe) × Among p probes × (p.answer ≡ some (size, ranges)) × (r ≡ measured_runtime p)

answer-Passes :
    (probes : List Probe) (p : Probe) (o : Option (ℕ × Bool))
    → Among p probes
    → p.answer ≡ o
    → Passes (Answered probes) (measured_runtime p) o
answer-Passes probes p none among e = tt
answer-Passes probes p (some (size, ranges)) among e = (p, among, e, refl)

-- Of the connections that are probed, in any order of their answers, each one that is chosen for the
-- download was probed and answered itself the size of the download, and whether ranges are served:
-- it is one of them by its lane, source, proxy, URL and client.
pub choose-AllServe :
    (probes : List Probe) (c : Chosen)
    → choose probes ≡ some c
    → AllServe (Answered probes) c.file_size c.supports_ranges c.runtimes
unfolding choose
choose-AllServe probes c e =
    let Q = Answered probes in
    let pools = sort_probes probes no_pools in
    let passes =
      All-mono (λ p. Among p probes) (λ p. Passes Q (measured_runtime p) p.answer)
        (λ p among. answer-Passes probes p p.answer among refl) probes (entries-Among probes) in
    subst (IsServed Q) e (
      choose_ranges-IsServed Q pools.range_candidates pools.fallback_candidates pools refl
        (sort_probes-AreSized Q probes no_pools passes (refl, refl)))
