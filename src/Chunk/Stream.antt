-- ===== src/Chunk/Stream.antt =====
-- What a chunk writes over a whole run: the bytes of the stream, in order.
use mathlib.Core.List.{append_assoc}
use simple_downloader.Prelude.{
  ℕ, Bool, true, false, ◌⊎◌, ◌+◌, ◌≡◌, refl, sym, ap, ◌∙◌, inl, inr, List, [], ◌∷◌, ◌++◌, length,
  Bool-cases,
}
use simple_downloader.Chunk.{Chunk, Event, Env, Outcome, step, run}
use simple_downloader.Chunk.Writes.{
  InRange, Placed, Turn, content, got_by, idle_Turn, or_stopped, received, step-Turn, writes,
  writes-append,
}

unstopped {ℓ} : {b : Bool} {P : Type ℓ} → (b ≡ false) ⊎ P → b ≡ true → P
unstopped (inl f) t = absurd (cc)
unstopped (inr p) t = p

pub Placed-append :
    (a b c : ℕ) (xs ys : List (ℕ × List ℕ)) → Placed a xs b → Placed b ys c → Placed a (xs ++ ys) c
Placed-append a b c [] ys h k = rw h k
Placed-append a b c ((o, d) ∷ xs) ys h k = (h.0, Placed-append (a + length d) b c xs ys h.1 k)

content-append : (xs ys : List (ℕ × List ℕ)) → content (xs ++ ys) ≡ content xs ++ content ys
content-append [] ys = refl
content-append ((o, d) ∷ xs) ys =
    ap (◌++◌ d) (content-append xs ys) ∙ sym (append_assoc d (content xs) (content ys))

Turn-stop :
    (c : Chunk) (bs cs : List ℕ) (o : Outcome)
    → o.running ≡ false
    → Turn c bs o
    → Turn c (bs ++ cs) o
Turn-stop c bs cs o h t =
    let (rest, e) = t.prefix in
    record {
      same_start = t.same_start;
      in_range = t.in_range;
      placed = t.placed;
      prefix = (rest ++ cs, sym (append_assoc _ rest cs) ∙ ap (λ xs. xs ++ cs) e);
      whole = or_stopped (λ running. cc);
    }

Turn-then :
    (c : Chunk) (bs cs : List ℕ) (o o' : Outcome)
    → o.running ≡ true
    → Turn c bs o
    → Turn o.chunk cs o'
    → Turn c (bs ++ cs) (record o' { effects = o.effects ++ o'.effects })
Turn-then c bs cs o o' h t u =
    let (rest, e) = u.prefix in
    let both : content (writes (o.effects ++ o'.effects)) ≡ bs ++ content (writes o'.effects) =
      ap content (writes-append o.effects o'.effects)
      ∙ content-append (writes o.effects) (writes o'.effects)
      ∙ ap (λ xs. xs ++ content (writes o'.effects)) (unstopped t.whole h) in
    record {
      same_start = u.same_start ∙ t.same_start;
      in_range = u.in_range;
      placed =
          rw (writes-append o.effects o'.effects)
            (Placed-append _ _ _ (writes o.effects) (writes o'.effects) t.placed u.placed);
      prefix = (rest, rw both (append_assoc bs _ rest ∙ ap (◌++◌ bs) e));
      whole = or_stopped (λ running. both ∙ ap (◌++◌ bs) (unstopped u.whole running));
    }

-- Over any sequence of events a chunk that starts within its range stays within it; the blocks that
-- it writes lie one behind the other from its first position to its last, and hold the bytes of the
-- stream from the first on, all of them unless the loop is over.
pub run-Turn :
    (c : Chunk) (events : List (Env × Event)) → InRange c → Turn c (received events) (run c events)
unfolding run
run-Turn c [] r = idle_Turn c (run c []) r refl refl refl refl
run-Turn c ((env, e) ∷ events) r =
    let t = step-Turn env c e r in
    elim (Bool-cases (step env c e).running) [
      | inl h ↦ rw h (
          Turn-then c (got_by e) (received events) (step env c e) _ h t
            (run-Turn (step env c e).chunk events t.in_range))
      | inr h ↦ simp h (Turn-stop c (got_by e) (received events) (step env c e) h t)
    ]
