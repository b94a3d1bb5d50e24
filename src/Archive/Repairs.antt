-- ===== src/Archive/Repairs.antt =====
-- collector.py, the repairs in front of an append, any of which may fail.
use bkk_collector.Base.{
  ℕ, ◌≡◌, refl, arith, true, false, not, Option, none, some, List, [], ◌∷◌, ◌==◌, ==_iff, ==_refl,
  string_eq, keep, Bool-cases, Option-cases, ◌⊎◌, inl, inr, subst, sym,
}
use bkk_collector.Base.Dict.{member}
use bkk_collector.RawLog.{Bytes, LogFile, repair_truncated_tail}
use bkk_collector.RawLog.Lives.{Life, repairs}
use bkk_collector.Archive.{
  RawPath, path_eq, path_beq_iff, Archive, log_at, put_log, Attempt, discard, damage, try_repair,
  repair_next, repair_one, repair_pending,
}
use bkk_collector.Archive.Damage.{log_at-put, Holds, Ready, damage-Holds, damage_waits}

member-keep :
    (q p : RawPath) (ps : List RawPath)
    → (q == p) ≡ false
    → member p (keep (λ x. not (x == q)) ps) ≡ member p ps
member-keep q p [] h = refl
member-keep q p (x ∷ ps) h =
    ground (arith, member-keep q p ps h, path_beq_iff p x, path_beq_iff x q, path_beq_iff q p)

module _ (compress : Bytes → Bytes) (decompress : Bytes → Option Bytes) where
  try_repair-eq-some :
      (attempt : Attempt) (p : RawPath) (a : Archive) (log : LogFile)
      → try_repair decompress attempt p a ≡ some log
      → (found : Option Bytes) × (repair_truncated_tail decompress (log_at p a) ≡ some (found, log))
  unfolding try_repair
  try_repair-eq-some attempt p a log h =
      elim (Option-cases (repair_truncated_tail decompress (log_at p a))) [
        | inl e ↦ absurd (ground arith)
        | inr ((found, l), e) ↦ (found, ground arith)
      ]

  -- Repairing one path keeps what every path holds, and readies its own.
  repaired-Ready :
      (attempt : Attempt) (q : RawPath) (a : Archive) (log : LogFile) (kept : List (ℕ × Bytes))
      → try_repair decompress attempt q a ≡ some log
      → Holds compress decompress q kept a
      → Ready compress decompress q kept (discard q (put_log q log a))
  unfolding discard
  repaired-Ready attempt q a log kept h holds =
      let (found, e) = try_repair-eq-some attempt q a log h in
      rw (log_at-put q q log a, ==_refl q) (repairs found holds.life e)

  repaired_other :
      (q p : RawPath) (a : Archive) (log : LogFile)
      → (q == p) ≡ false
      → log_at p (discard q (put_log q log a)) ≡ log_at p a
  unfolding discard
  repaired_other q p a log h = rw (log_at-put q p log a, h) refl

  repaired-Holds :
      (attempt : Attempt) (q p : RawPath) (a : Archive) (log : LogFile) (kept : List (ℕ × Bytes))
      → try_repair decompress attempt q a ≡ some log
      → Holds compress decompress p kept a
      → Holds compress decompress p kept (discard q (put_log q log a))
  repaired-Holds attempt q p a log kept h holds = elim (Bool-cases (q == p)) [
    | inl same ↦
        let e : q ≡ p = (==_iff q p).0 same in
        record {
          fit = true;
          life =
              subst
                (λ x.
                  Holds compress decompress x kept a
                  → Ready compress decompress x kept (discard q (put_log q log a)))
                e (repaired-Ready attempt q a log kept h) holds;
          marked = inl refl;
        }
    | inr other ↦ record {
      fit = holds.fit;
      life = rw (repaired_other q p a log other) holds.life;
      marked = unfold discard in ground (arith, holds.marked, member-keep q p a.needs_repair other);
    }
  ]

  pub repair_one-Holds :
      (attempt : Attempt) (r q p : RawPath) (kept : List (ℕ × Bytes)) (a b : Archive)
      → repair_one decompress attempt r q a ≡ some b
      → Holds compress decompress p kept a
      → Holds compress decompress p kept b
  unfolding repair_one
  repair_one-Holds attempt r q p kept a b h holds =
      elim (Option-cases (try_repair decompress attempt q a)) [
        | inl e ↦
            subst (Holds compress decompress p kept) (unfold repair_next in ground arith) holds
        | inr (log, e) ↦ elim (Bool-cases (q.feed == r.feed)) [
          | inl s ↦
              subst (Holds compress decompress p kept) (unfold repair_next in ground arith)
                (repaired-Holds attempt q p a log kept e holds)
          | inr s ↦
              subst (Holds compress decompress p kept) (unfold repair_next in ground arith) holds
        ]
      ]

  repair_one_other :
      (attempt : Attempt) (r q : RawPath) (kept : List (ℕ × Bytes)) (a b : Archive)
      → repair_one decompress attempt r q a ≡ some b
      → (q == r) ≡ false
      → Ready compress decompress r kept a
      → Ready compress decompress r kept b
  repair_one_other attempt r q kept a b h other fit =
      let same : log_at r a ≡ log_at r b = elim (Option-cases (try_repair decompress attempt q a)) [
        | inl e ↦ unfold repair_one repair_next in ground arith
        | inr (log, e) ↦
            unfold repair_one repair_next in ground (arith, repaired_other q r a log other)
      ] in
      subst (λ log. Life compress decompress log kept true) same fit

  -- A step that does not raise readies its own path, and leaves the path ready where it was.
  repair_one-Ready :
      (attempt : Attempt) (r q : RawPath) (kept : List (ℕ × Bytes)) (a b : Archive)
      → repair_one decompress attempt r q a ≡ some b
      → Holds compress decompress r kept a
      → Ready compress decompress r kept a ⊎ ((q == r) ≡ true)
      → Ready compress decompress r kept b
  repair_one-Ready attempt r q kept a b h holds ready = elim (Bool-cases (q == r)) [
    | inl same ↦ elim (Option-cases (try_repair decompress attempt q a)) [
      | inl e ↦ absurd (unfold repair_one repair_next in ground (arith, ==_refl r.feed, ==_iff q r))
      | inr (log, e) ↦
          let eq : q ≡ r = (==_iff q r).0 same in
          let done : discard q (put_log q log a) ≡ b =
            unfold repair_one repair_next in ground (arith, ==_refl r.feed, eq) in
          subst (Ready compress decompress r kept) done (
            subst (λ x. Ready compress decompress x kept (discard q (put_log q log a))) eq
              (repaired-Ready attempt q a log kept e
                (subst (λ x. Holds compress decompress x kept a) (sym eq) holds)))
    ]
    | inr other ↦ elim ready [
      | inl fit ↦ repair_one_other attempt r q kept a b h other fit
      | inr same ↦ absurd (cc (other, same))
    ]
  ]

  still_waits :
      (r q : RawPath) (kept : List (ℕ × Bytes)) (ps : List RawPath) (a b : Archive)
      → (Ready compress decompress r kept a ⊎ ((q == r) ≡ true)
          → Ready compress decompress r kept b)
      → Ready compress decompress r kept a ⊎ (member r (q ∷ ps) ≡ true)
      → Ready compress decompress r kept b ⊎ (member r ps ≡ true)
  still_waits r q kept ps a b step (inl ready) = inl (step (inl ready))
  still_waits r q kept ps a b step (inr waits) = elim (Bool-cases (q == r)) [
    | inl same ↦ inl (step (inr same))
    | inr other ↦ inr (ground (arith, waits, other, path_beq_iff r q, path_beq_iff q r))
  ]

  pub repair_pending_raises :
      (attempt : Attempt) (r q : RawPath) (ps : List RawPath) (a : Archive)
      → repair_one decompress attempt r q (damage decompress attempt r q a) ≡ none
      → repair_pending decompress attempt r (q ∷ ps) a ≡ (true, damage decompress attempt r q a)
  unfolding repair_pending
  repair_pending_raises attempt r q ps a h = ground arith

  pub repair_pending_goes_on :
      (attempt : Attempt) (r q : RawPath) (ps : List RawPath) (a b : Archive)
      → repair_one decompress attempt r q (damage decompress attempt r q a) ≡ some b
      → repair_pending decompress attempt r (q ∷ ps) a ≡ repair_pending decompress attempt r ps b
  unfolding repair_pending
  repair_pending_goes_on attempt r q ps a b h = ground arith

  pub repair_pending-Holds :
      (attempt : Attempt) (r p : RawPath) (kept : List (ℕ × Bytes)) (ps : List RawPath)
      (a : Archive)
      → Holds compress decompress p kept a
      → Holds compress decompress p kept (repair_pending decompress attempt r ps a).1
  repair_pending-Holds attempt r p kept [] a holds = unfold repair_pending in holds
  repair_pending-Holds attempt r p kept (q ∷ ps) a holds =
      let met = damage decompress attempt r q a in
      let kept_on = damage-Holds compress decompress attempt r q p kept a holds in
      elim (Option-cases (repair_one decompress attempt r q met)) [
        | inl e ↦ rw (repair_pending_raises attempt r q ps a e) kept_on
        | inr (b, e) ↦ rw (repair_pending_goes_on attempt r q ps a b e) (
            repair_pending-Holds attempt r p kept ps b
              (repair_one-Holds attempt r q p kept met b e kept_on))
      ]

  -- Where the loop does not raise, the path is fit for an append.
  pub repair_pending-Ready :
      (attempt : Attempt) (r : RawPath) (kept : List (ℕ × Bytes)) (ps : List RawPath) (a : Archive)
      → (repair_pending decompress attempt r ps a).0 ≡ false
      → Holds compress decompress r kept a
      → Ready compress decompress r kept a ⊎ (member r ps ≡ true)
      → Ready compress decompress r kept (repair_pending decompress attempt r ps a).1
  repair_pending-Ready attempt r kept [] a h holds (inl ready) = unfold repair_pending in ready
  repair_pending-Ready attempt r kept [] a h holds (inr m) = absurd (cc m)
  repair_pending-Ready attempt r kept (q ∷ ps) a h holds ready =
      let met = damage decompress attempt r q a in
      let kept_on = damage-Holds compress decompress attempt r q r kept a holds in
      elim (Option-cases (repair_one decompress attempt r q met)) [
        | inl e ↦ absurd (ground (arith, h, repair_pending_raises attempt r q ps a e))
        | inr (b, e) ↦
            let next = repair_one-Holds attempt r q r kept met b e kept_on in
            let step = repair_one-Ready attempt r q kept met b e kept_on in
            rw (repair_pending_goes_on attempt r q ps a b e) (
              repair_pending-Ready attempt r kept ps b
                (rw (repair_pending_goes_on attempt r q ps a b e) at h) next
                (still_waits r q kept ps met b step
                  (damage_waits compress decompress attempt r q kept ps a ready)))
      ]
